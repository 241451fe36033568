-- ===== src/Paths/Archive.antt =====
-- internal/paths/keys.go: the snapshot archives' keys, which carry the timestamp, and listing prefixes.
pub mod RoundTrip
pub mod Prefix
use git_backup.Base.{
  Bytes, Option, [], bytes, drop, if◌then◌else◌, length, none, some, suc, take, zero, ℕ, ◌++◌, ◌-◌,
  ◌∷◌,
}
use git_backup.Base.Int.{negsuc, pos, ℤ}
use git_backup.Text.Decimal.{format_int, parse_int}
use git_backup.Text.Index.{has_suffix, last_index}
use git_backup.Text.Trim.{is_blank, is_slash, trim}

abbrev pub archive_object_name_suffix : Bytes
archive_object_name_suffix = bytes "_repo.tar.gz"

unfoldable pub build_archive_object_key : Bytes → ℤ → Bytes
build_archive_object_key repository_prefix timestamp_unix_seconds =
    trim is_slash repository_prefix
    ++ b'/' ∷ (format_int timestamp_unix_seconds ++ archive_object_name_suffix)

-- The position behind the last slash: `LastIndex(s, "/") + 1`.
abbrev pub behind : Option ℕ → ℕ
behind none = 0
behind (some i) = suc i

-- `err == nil && timestamp > 0`
abbrev pub positive : Option ℤ → Option ℕ
positive none = none
positive (some (pos zero)) = none
positive (some (pos (suc n))) = some (suc n)
positive (some (negsuc n)) = none

abbrev pub leaf_of : Bytes → Bytes
leaf_of object_key = drop (behind (last_index b'/' object_key)) object_key

unfoldable pub try_get_archive_timestamp : Bytes → Option ℕ
try_get_archive_timestamp object_key =
    let leaf = leaf_of object_key in
    if has_suffix archive_object_name_suffix object_key
    then positive (parse_int (take (length leaf - length archive_object_name_suffix) leaf))
    else none

abbrev pub parent_at : Option ℕ → Bytes → Bytes
parent_at none s = []
parent_at (some zero) s = []
parent_at (some (suc i)) s = take (suc i) s

unfoldable pub get_parent_prefix : Bytes → Bytes
get_parent_prefix object_key = parent_at (last_index b'/' object_key) object_key

unfoldable pub ensure_prefix : Bytes → Bytes
ensure_prefix key_or_prefix =
    let value = trim is_slash key_or_prefix in if is_blank value then [] else value ++ b'/' ∷ []
