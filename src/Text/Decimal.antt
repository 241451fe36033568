-- ===== src/Text/Decimal.antt =====
-- `strconv.FormatInt(n, 10)` and `strconv.ParseInt(s, 10, 64)`.
use mathlib.Core.List.{concat-ne-nil}
use git_backup.Base.{
  ℕ, zero, suc, ◌-◌, ◌+◌, ◌*◌, ◌/◌, ◌%◌, ◌^◌, ◌<◌, ◌≤◌, ◌&&◌, [], ◌∷◌, ◌++◌, ◌≡◌, ◌≢◌, refl, arith,
  Option, none, some, Bytes, ltb, leb, ◌==◌, if◌then◌else◌, All, Bool-cases, inl, inr, All-append,
}
use git_backup.Base.Int.{ℤ, pos, negsuc}

-- The digits of `n`, with fuel above `n`.
digits : ℕ → ℕ → Bytes
digits zero n = []
digits (suc f) n =
    let front = digits f (n / 10) in
    if ltb n 10 then (b'0' + n) ∷ [] else front ++ (b'0' + n % 10) ∷ []

unfoldable pub format_nat : ℕ → Bytes
unfolding digits
format_nat n = digits (suc n) n

unfoldable pub format_int : ℤ → Bytes
unfolding format_nat
format_int (pos n) = format_nat n
format_int (negsuc n) = b'-' ∷ format_nat (suc n)

-- The number that digits spell behind `n`; `none` at any other byte.
scan : ℕ → Bytes → Option ℕ
scan n [] = some n
scan n (c ∷ s) =
    let rest = scan (n * 10 + (c - b'0')) s in if leb b'0' c && leb c b'9' then rest else none

abbrev then_scan : Option ℕ → Bytes → Option ℕ
then_scan none t = none
then_scan (some n) t = scan n t

abbrev scan_some : Bytes → Option ℕ
scan_some [] = none
scan_some (c ∷ s) = scan 0 (c ∷ s)

-- `int64` takes -2^63 to 2^63 - 1: what is beyond is a range error.
abbrev fit_pos : Option ℕ → Option ℤ
fit_pos none = none
fit_pos (some n) = if ltb n (2 ^ 63) then some (pos n) else none

abbrev fit_neg : Option ℕ → Option ℤ
fit_neg none = none
fit_neg (some zero) = some (pos 0)
fit_neg (some (suc n)) = if ltb n (2 ^ 63) then some (negsuc n) else none

unfoldable pub parse_int : Bytes → Option ℤ
unfolding scan
parse_int [] = none
parse_int (c ∷ s) =
    if c == b'+'
    then fit_pos (scan_some s)
    else if c == b'-'
    then fit_neg (scan_some s)
    else fit_pos (scan_some (c ∷ s))

abbrev pub IsDigit : ℕ → Type 0
IsDigit c = (b'0' ≤ c) × (c ≤ b'9')

scan-append : (m : ℕ) (s t : Bytes) → scan m (s ++ t) ≡ then_scan (scan m s) t
unfolding scan
scan-append m [] t = refl
scan-append m (c ∷ s) t = ground (arith, scan-append (m * 10 + (c - b'0')) s t)

-- The digits of a number spell it.
scan-digits : (f n : ℕ) → n < f → scan 0 (digits f n) ≡ some n
unfolding digits scan
scan-digits zero n h = elim h [ ]
scan-digits (suc f) n h = elim (Bool-cases (ltb n 10)) [
  | inl small ↦ rw small (ground arith)
  | inr large ↦
      ground
        (arith, scan-digits f (n / 10), scan-append 0 (digits f (n / 10)) ((b'0' + n % 10) ∷ []))
]

digits-IsDigit : (f n : ℕ) → All IsDigit (digits f n)
unfolding digits
digits-IsDigit zero n = tt
digits-IsDigit (suc f) n = elim (Bool-cases (ltb n 10)) [
  | inl small ↦ rw small (ground arith)
  | inr large ↦ rw large (
      All-append IsDigit (digits f (n / 10)) _ (digits-IsDigit f (n / 10))
        ((omega arith, omega arith), tt))
]

-- A decimal number is made of digits.
pub format_nat-IsDigit : (n : ℕ) → All IsDigit (format_nat n)
unfolding format_nat
format_nat-IsDigit n = digits-IsDigit (suc n) n

parse_int-scan :
    (s : Bytes) (n : ℕ)
    → All IsDigit s
    → s ≢ []
    → scan 0 s ≡ some n
    → n < 2 ^ 63
    → parse_int s ≡ some (pos n)
unfolding parse_int
parse_int-scan [] n h ne e fits = absurd (ne refl)
parse_int-scan (c ∷ s) n h ne e fits = ground arith

digits-ne-nil : (f n : ℕ) → digits (suc f) n ≢ []
unfolding digits
digits-ne-nil f n = ground (arith, concat-ne-nil (b'0' + n % 10) (digits f (n / 10)))

-- Every `int64` that is not negative is read back from its decimal form.
pub parse_int-format_nat : (n : ℕ) → n < 2 ^ 63 → parse_int (format_nat n) ≡ some (pos n)
unfolding format_nat
parse_int-format_nat n fits =
    parse_int-scan (digits (suc n) n) n (digits-IsDigit (suc n) n) (digits-ne-nil n n)
      (scan-digits (suc n) n (omega arith)) fits

fit_pos_fits : (o : Option ℕ) (n : ℕ) → fit_pos o ≡ some (pos n) → n < 2 ^ 63
fit_pos_fits none n h = cc
fit_pos_fits (some m) n h = ground arith

fit_neg_fits : (o : Option ℕ) (n : ℕ) → fit_neg o ≡ some (pos n) → n < 2 ^ 63
fit_neg_fits none n h = cc
fit_neg_fits (some zero) n h = ground arith
fit_neg_fits (some (suc m)) n h = ground arith

-- What is read is an int64.
pub parse_int_fits : (s : Bytes) (n : ℕ) → parse_int s ≡ some (pos n) → n < 2 ^ 63
unfolding parse_int
parse_int_fits [] n h = cc
parse_int_fits (c ∷ s) n h = ground (
  arith,
  fit_pos_fits (scan_some s) n,
  fit_neg_fits (scan_some s) n,
  fit_pos_fits (scan_some (c ∷ s)) n,
)
