-- ===== src/Paths/Archive/RoundTrip.antt =====
-- Archive keys are read back, and the listing prefix is stable.
use git_backup.Base.{
  All, All-append, All-map, Bool-cases, Bytes, Lacks, List, Option, [], ap, append_assoc, arith,
  inl, inr, length, length-append, none, refl, some, subst, suc, take, take-append, true, zero, ℕ,
  ◌++◌, ◌-◌, ◌<◌, ◌^◌, ◌∷◌, ◌≡◌, ◌≢◌, drop_behind,
}
use git_backup.Base.Int.{negsuc, pos, ℤ}
use git_backup.Paths.Archive.{
  archive_object_name_suffix, build_archive_object_key, get_parent_prefix, leaf_of, positive,
  try_get_archive_timestamp, parent_at,
}
use git_backup.Text.Decimal.{
  IsDigit, format_int, format_nat, format_nat-IsDigit, parse_int, parse_int-format_nat,
  parse_int_fits,
}
use git_backup.Text.Index.{has_suffix, has_suffix-append, last_index, last_index-append}
use git_backup.Text.Trim.{is_slash, trim}

suffix_lacks : All (λ c. c ≢ b'/') archive_object_name_suffix
suffix_lacks = omega arith

digits-Lacks : (s : Bytes) → All IsDigit s → Lacks b'/' s
digits-Lacks s h = All-map {P = IsDigit} {Q = λ c. c ≢ b'/'} other s h
  where
    other : (c : ℕ) → IsDigit c → c ≢ b'/'
    other c d = omega (arith, d.0)

name-Lacks : (n : ℕ) → Lacks b'/' (format_nat n ++ archive_object_name_suffix)
name-Lacks n =
    All-append (λ c. c ≢ b'/') (format_nat n) archive_object_name_suffix
      (digits-Lacks (format_nat n) (format_nat-IsDigit n)) suffix_lacks

module _ (prefix : Bytes) (n : ℕ) where
  abbrev key : Bytes
  key = build_archive_object_key prefix (pos n)

  last_index-key : last_index b'/' key ≡ some (length (trim is_slash prefix))
  unfolding build_archive_object_key format_int
  last_index-key =
      last_index-append b'/' (trim is_slash prefix) (format_nat n ++ archive_object_name_suffix)
        (name-Lacks n)

  leaf_of-key : leaf_of key ≡ format_nat n ++ archive_object_name_suffix
  leaf_of-key = rw last_index-key (
      unfold build_archive_object_key format_int in
      drop_behind (trim is_slash prefix) b'/' (format_nat n ++ archive_object_name_suffix))

  has_suffix-key : has_suffix archive_object_name_suffix key ≡ true
  unfolding build_archive_object_key format_int
  has_suffix-key =
      subst (λ s. has_suffix archive_object_name_suffix s ≡ true)
        (append_assoc (trim is_slash prefix) (b'/' ∷ format_nat n) archive_object_name_suffix)
        (has_suffix-append (trim is_slash prefix ++ b'/' ∷ format_nat n) archive_object_name_suffix)

take_front {ℓ} : {A : Type ℓ} (s t : List A) → take (length (s ++ t) - length t) (s ++ t) ≡ s
take_front s t =
    let n : length (s ++ t) - length t ≡ length s = omega (arith, length-append s t) in
    rw n (take-append s t)

-- The timestamp of an archive key is read back, whatever the prefix, for every positive int64.
pub try_get_archive_timestamp-build_archive_object_key :
    (prefix : Bytes) (n : ℕ)
    → 0 < n
    → n < 2 ^ 63
    → try_get_archive_timestamp (build_archive_object_key prefix (pos n)) ≡ some n
unfolding try_get_archive_timestamp
try_get_archive_timestamp-build_archive_object_key prefix zero h fits = elim h [ ]
try_get_archive_timestamp-build_archive_object_key prefix (suc n) h fits = rw (
  has_suffix-key prefix (suc n),
  leaf_of-key prefix (suc n),
  take_front (format_nat (suc n)) archive_object_name_suffix,
  parse_int-format_nat (suc n) fits,
)

parent_at-length : (s t : Bytes) → parent_at (some (length s)) (s ++ t) ≡ s
parent_at-length [] t = refl
parent_at-length (c ∷ s) t = ap (◌∷◌ c) (take-append s t)

-- The parent of an archive key with a timestamp that is not negative is the repository prefix without its outer slashes.
pub get_parent_prefix-build_archive_object_key :
    (prefix : Bytes) (n : ℕ)
    → get_parent_prefix (build_archive_object_key prefix (pos n)) ≡ trim is_slash prefix
unfolding get_parent_prefix
get_parent_prefix-build_archive_object_key prefix n =
    rw (last_index-key prefix n)
      (unfold build_archive_object_key in parent_at-length (trim is_slash prefix) _)

positive-range : (o : Option ℤ) (n : ℕ) → positive o ≡ some n → (0 < n) × (o ≡ some (pos n))
positive-range none n h = cc
positive-range (some (pos zero)) n h = cc
positive-range (some (pos (suc m))) n h = ground arith
positive-range (some (negsuc m)) n h = cc

-- A key that counts as an archive has the archive suffix, and its timestamp is positive and an int64.
pub try_get_archive_timestamp_bounds :
    (key : Bytes) (n : ℕ)
    → try_get_archive_timestamp key ≡ some n
    → (has_suffix archive_object_name_suffix key ≡ true) × (0 < n) × (n < 2 ^ 63)
unfolding try_get_archive_timestamp
try_get_archive_timestamp_bounds key n h =
    elim (Bool-cases (has_suffix archive_object_name_suffix key)) [
      | inl yes_suffix ↦
          let p =
            positive-range
              (parse_int
                (take (length (leaf_of key) - length archive_object_name_suffix) (leaf_of key)))
              n (ground arith) in
          (yes_suffix, p.0, parse_int_fits _ n p.1)
      | inr no_suffix ↦ ground arith
    ]
