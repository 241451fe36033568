-- ===== src/Paths/Segment.antt =====
-- internal/paths/urls.go: one storage-key segment out of an untrusted value, and the `.git` suffix.
pub mod Safety
pub mod Fixed
use git_backup.Base.{
  Bytes, if◌then◌else◌, true, ℕ, Bool, bytes, leb, ◌∷◌, ◌==◌, length, ◌||◌, ◌&&◌, not, [], drop,
  false, take, ◌-◌,
}
use git_backup.Text.Case.{equal_fold, to_lower}
use git_backup.Text.Trim.{is_blank, trim, trim_space}

-- The set `[A-Za-z0-9._-]`.
abbrev pub is_safe : ℕ → Bool
is_safe c =
    (leb b'A' c && leb c b'Z')
    || (leb b'a' c && leb c b'z')
    || (leb b'0' c && leb c b'9')
    || c == b'.'
    || c == b'_'
    || c == b'-'

-- The cutset "-.".
abbrev pub is_edge : ℕ → Bool
is_edge c = c == b'-' || c == b'.'

-- `invalidStorageSegmentCharacters.ReplaceAllString(s, "-")`: each run of other bytes becomes one
-- dash. The first argument tells whether the byte before belongs to such a run.
unfoldable pub replace_invalid : Bool → Bytes → Bytes
replace_invalid in_run [] = []
replace_invalid in_run (c ∷ s) =
    let rest = replace_invalid (not (is_safe c)) s in
    if is_safe c then c ∷ rest else if in_run then rest else b'-' ∷ rest

abbrev pub folded : (Bytes → Bytes) → Bool → Bytes → Bytes
folded wide lowercase value =
    if lowercase then to_lower wide (trim_space value) else trim_space value

unfoldable pub normalize_storage_segment : (Bytes → Bytes) → Bytes → Bytes → Bool → Bytes
unfolding replace_invalid
normalize_storage_segment wide value fallback lowercase =
    let sanitized = trim is_edge (replace_invalid false (folded wide lowercase value)) in
    if is_blank sanitized then fallback else sanitized

abbrev pub unknown : Bytes
unknown = bytes "unknown"

unfoldable pub normalize_segment : (Bytes → Bytes) → Bytes → Bytes
unfolding normalize_storage_segment
normalize_segment wide value = normalize_storage_segment wide value unknown true

unfoldable pub trim_git_suffix : Bytes → Bytes
trim_git_suffix value =
    if leb 4 (length value) && equal_fold (drop (length value - 4) value) (bytes ".git")
    then take (length value - 4) value
    else value
