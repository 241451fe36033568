-- ===== src/Lfs/Pointer.antt =====
-- internal/lfs/scan.go: pointer files. The callers read at most `pointerMaxBytes` bytes, and a text that short has no valid pointer in one line that fills the scanner's buffer, so that the lines are simply split.
use git_backup.Base.{
  Bytes, All, Bool, Bool-cases, List, Option, [], any, arith, bytes, drop, false, if◌then◌else◌,
  inl, inr, length, map, none, not, some, take, text_eq, true, ℕ, ◌&&◌, ◌+◌, ◌<◌, ◌==◌, ◌^◌, ◌||◌,
  ◌∷◌, ◌≡◌, ◌≤◌, ◌⊎◌, Option-cases, length-map, refl, subst, text_eq_refl,
}
use git_backup.Base.Int.{negsuc, pos, ℤ}
use git_backup.Paths.Url.{is_hex}
use git_backup.Text.Case.{lower_byte}
use git_backup.Text.Decimal.{parse_int, parse_int_fits}
use git_backup.Text.Index.{index}
use git_backup.Text.Search.{has_prefix}
use git_backup.Text.Split.{split}
use git_backup.Text.Trim.{trim_space}

pub record Pointer : Type 0 where
  pub oid : Bytes
  pub size : ℤ

-- `parsed`, `sawVersion` and `sawSize`.
pub record Seen : Type 0 where
  pub oid : Bytes
  pub size : ℕ
  pub saw_version : Bool
  pub saw_size : Bool

abbrev pub pointer_version_value : Bytes
pointer_version_value = bytes "https://git-lfs.github.com/spec/v1"

unfoldable pub is_sha256_hex : Bytes → Bool
is_sha256_hex value = length value == 64 && not (any (λ c. not (is_hex c)) value)

-- `strings.Cut(line, " ")`
abbrev pub cut_at : Bytes → Option ℕ → Option (Bytes × Bytes)
cut_at line none = none
cut_at line (some i) = some (take i line, drop (i + 1) line)

-- `strings.CutPrefix`
abbrev pub cut_prefix : Bytes → Bytes → Option Bytes
cut_prefix prefix s = if has_prefix prefix s then some (drop (length prefix) s) else none

abbrev pub with_oid : Seen → Option Bytes → Option Seen
with_oid seen none = none
with_oid seen (some oid) =
    if is_sha256_hex oid then some (record seen { oid = map lower_byte oid }) else none

abbrev pub with_size : Seen → Option ℤ → Option Seen
with_size seen (some (pos size)) = some (record seen { size = size; saw_size = true })
with_size seen _ = none

-- The switch on the name of a line.
abbrev pub field : Seen → Bytes → Bytes → Option Seen
field seen name value =
    if text_eq name (bytes "version")
    then (if text_eq value pointer_version_value
        then some (record seen { saw_version = true })
        else none)
    else if text_eq name (bytes "oid")
    then with_oid seen (cut_prefix (bytes "sha256:") value)
    else if text_eq name (bytes "size")
    then with_size seen (parse_int value)
    else some seen

abbrev pub cut_field : Seen → Option (Bytes × Bytes) → Option Seen
cut_field seen none = none
cut_field seen (some (name, value)) = field seen name value

abbrev pub read_line : Seen → Bytes → Option Seen
read_line seen raw =
    let line = trim_space raw in
    if text_eq line [] then some seen else cut_field seen (cut_at line (index b' ' line))

unfoldable pub read_lines : Seen → List Bytes → Option Seen
unfolding is_sha256_hex has_prefix lower_byte
read_lines seen [] = some seen
read_lines seen (line ∷ lines) = elim (read_line seen line) [
  | none ↦ none
  | some next ↦ read_lines next lines
]

abbrev pub complete_pointer : Option Seen → Option Pointer
complete_pointer none = none
complete_pointer (some seen) =
    if not seen.saw_version || text_eq seen.oid [] || not seen.saw_size
    then none
    else some (record { oid = seen.oid; size = pos seen.size })

abbrev pub nothing_seen : Seen
nothing_seen = record { oid = []; size = 0; saw_version = false; saw_size = false }

unfoldable pub parse_pointer : Bytes → Option Pointer
unfolding read_lines
parse_pointer content = complete_pointer (read_lines nothing_seen (split b'\n' content))

-- A digit, or a letter from `a` to `f`.
abbrev pub IsLowerHex : ℕ → Type 0
IsLowerHex c = ((b'0' ≤ c) × (c ≤ b'9')) ⊎ ((b'a' ≤ c) × (c ≤ b'f'))

abbrev pub IsObjectId : Bytes → Type 0
IsObjectId oid = (length oid ≡ 64) × All IsLowerHex oid

abbrev IsSound : Seen → Type 0
IsSound seen = ((seen.oid ≡ []) ⊎ IsObjectId seen.oid) × (seen.size < 2 ^ 63)

abbrev Keeps : Option Seen → Type 0
Keeps none = Unit
Keeps (some seen) = IsSound seen

lower_hex : (c : ℕ) → is_hex c ≡ true → IsLowerHex (lower_byte c)
unfolding lower_byte
lower_hex c h = ground arith

lower-All : (s : Bytes) → any (λ c. not (is_hex c)) s ≡ false → All IsLowerHex (map lower_byte s)
lower-All [] h = tt
lower-All (c ∷ s) h = (lower_hex c (ground arith), lower-All s (ground arith))

is_sha256_hex-IsObjectId : (s : Bytes) → is_sha256_hex s ≡ true → IsObjectId (map lower_byte s)
unfolding is_sha256_hex
is_sha256_hex-IsObjectId s h = (ground (arith, length-map lower_byte s), lower-All s (ground arith))

with_oid-Keeps : (seen : Seen) (o : Option Bytes) → IsSound seen → Keeps (with_oid seen o)
with_oid-Keeps seen none h = tt
with_oid-Keeps seen (some oid) h = elim (Bool-cases (is_sha256_hex oid)) [
  | inr bad ↦ rw bad tt
  | inl good ↦ rw good (inr (is_sha256_hex-IsObjectId oid good), h.1)
]

with_size-Keeps :
    (seen : Seen) (value : Bytes) (o : Option ℤ)
    → parse_int value ≡ o
    → IsSound seen
    → Keeps (with_size seen o)
with_size-Keeps seen value none e h = tt
with_size-Keeps seen value (some (negsuc n)) e h = tt
with_size-Keeps seen value (some (pos n)) e h = (h.0, parse_int_fits value n e)

field-Keeps : (seen : Seen) (name value : Bytes) → IsSound seen → Keeps (field seen name value)
field-Keeps seen name value h = elim (Bool-cases (text_eq name (bytes "version"))) [
  | inl version ↦ rw version (elim (Bool-cases (text_eq value pointer_version_value)) [
    | inl known ↦ rw known h
    | inr other ↦ rw other tt
  ])
  | inr a ↦ elim (Bool-cases (text_eq name (bytes "oid"))) [
    | inl oid ↦ rw (a, oid) (with_oid-Keeps seen (cut_prefix (bytes "sha256:") value) h)
    | inr b ↦ elim (Bool-cases (text_eq name (bytes "size"))) [
      | inl size ↦ rw (a, b, size) (with_size-Keeps seen value (parse_int value) refl h)
      | inr c ↦ rw (a, b, c) h
    ]
  ]
]

cut_field-Keeps :
    (seen : Seen) (o : Option (Bytes × Bytes)) → IsSound seen → Keeps (cut_field seen o)
cut_field-Keeps seen none h = tt
cut_field-Keeps seen (some (name, value)) h = field-Keeps seen name value h

read_line-Keeps : (seen : Seen) (raw : Bytes) → IsSound seen → Keeps (read_line seen raw)
read_line-Keeps seen raw h =
    let line = trim_space raw in
    elim (Bool-cases (text_eq line [])) [
      | inl blank ↦ rw blank h
      | inr other ↦ rw other (cut_field-Keeps seen (cut_at line (index b' ' line)) h)
    ]

read_lines-Keeps : (seen : Seen) (lines : List Bytes) → IsSound seen → Keeps (read_lines seen lines)
unfolding read_lines
read_lines-Keeps seen [] h = h
read_lines-Keeps seen (line ∷ lines) h = elim (Option-cases (read_line seen line)) [
  | inl stop ↦ rw (read_lines, stop) tt
  | inr (next, e) ↦
      rw (read_lines, e) (read_lines-Keeps next lines (subst Keeps e (read_line-Keeps seen line h)))
]

-- An int64 that is not negative.
abbrev pub IsCount : ℤ → Type 0
IsCount (pos n) = n < 2 ^ 63
IsCount (negsuc n) = ⊥

-- What an accepted text gives.
abbrev pub IsPointer : Option Pointer → Type 0
IsPointer none = Unit
IsPointer (some p) = IsObjectId p.oid × IsCount p.size

complete-IsPointer : (o : Option Seen) → Keeps o → IsPointer (complete_pointer o)
complete-IsPointer none h = tt
complete-IsPointer (some seen) (id, size) =
    elim (Bool-cases (not seen.saw_version || text_eq seen.oid [] || not seen.saw_size)) [
      | inl missing ↦ rw missing tt
      | inr all ↦ rw all (chosen all id, size)
    ]
  where
    chosen :
        (not seen.saw_version || text_eq seen.oid [] || not seen.saw_size) ≡ false
        → ((seen.oid ≡ []) ⊎ IsObjectId seen.oid)
        → IsObjectId seen.oid
    chosen all (inr good) = good
    chosen all (inl none_yet) =
        let empty : text_eq seen.oid [] ≡ true = rw none_yet (text_eq_refl []) in
        absurd (ground arith)

-- Whatever the text, an accepted pointer has 64 digits or lower case letters up to `f` for its object, and a size that is an int64 and not negative.
pub parse_pointer-IsPointer : (content : Bytes) → IsPointer (parse_pointer content)
unfolding parse_pointer
parse_pointer-IsPointer content =
    complete-IsPointer (read_lines nothing_seen (split b'\n' content))
      (read_lines-Keeps nothing_seen (split b'\n' content) (inl refl, omega arith))
