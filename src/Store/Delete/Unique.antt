-- ===== src/Store/Delete/Unique.antt =====
-- internal/store/ops.go: what the first loop of `DeleteObjects` leaves of the keys.
use git_backup.Base.{
  Bytes, Bool, List, [], ap, arith, contains, count, if◌then◌else◌, map, not, text_eq,
  text_eq_sound, true, ℕ, ◌&&◌, ◌∷◌, ◌≡◌,
}
use git_backup.Store.Delete.{clean, unique_from, unique_keys}

-- The key is one of the cleaned keys, and not empty.
abbrev pub wanted : Bytes → List Bytes → Bool
wanted key object_keys = not (text_eq key []) && contains key (map clean object_keys)

-- How often the loop keeps a key, given the keys seen before.
abbrev expected : Bytes → List Bytes → List Bytes → ℕ
expected key seen object_keys =
    if contains key seen then 0 else if wanted key object_keys then 1 else 0

contains-same :
    (s t : Bytes) (seen : List Bytes) → text_eq s t ≡ true → contains s seen ≡ contains t seen
contains-same s t seen h = ap (λ k. contains k seen) (text_eq_sound s t h)

blank-same : (s t : Bytes) → text_eq s t ≡ true → text_eq s [] ≡ text_eq t []
blank-same s t h = ap (λ k. text_eq k []) (text_eq_sound s t h)

count-unique_from :
    (key : Bytes) (seen object_keys : List Bytes)
    → count (text_eq key) (unique_from seen object_keys) ≡ expected key seen object_keys
unfolding unique_from
count-unique_from key seen [] = ground arith
count-unique_from key seen (k ∷ object_keys) = ground (
  arith,
  contains-same key (clean k) seen,
  blank-same key (clean k),
  count-unique_from key seen object_keys,
  count-unique_from key (clean k ∷ seen) object_keys,
)

-- The keys to delete hold each cleaned key that is not empty once, and no other key.
pub unique_keys-once :
    (key : Bytes) (object_keys : List Bytes)
    → count (text_eq key) (unique_keys object_keys) ≡ (if wanted key object_keys then 1 else 0)
unfolding unique_keys
unique_keys-once key object_keys = count-unique_from key [] object_keys
