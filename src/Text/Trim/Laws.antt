-- ===== src/Text/Trim/Laws.antt =====
-- What trimming keeps, and what stands at the ends of a trimmed text.
use mathlib.Core.List.{reverse, reverse-cons}
use git_backup.Base.{
  All, Bool, Bool-cases, Bytes, [], ap, false, inl, inr, refl, text_eq, true, ℕ, ◌∷◌, ◌≡◌, ◌≢◌,
  All-append,
}
use git_backup.Text.Trim.{
  trim_left, is_blank, put_unless, trim, trim_right, trim_space_left, trim_space_right, IsPlain,
  StartsPlain, trim_space, trim_space_plain,
}

-- The first byte has the property; the last one has it.
abbrev pub First : (ℕ → Type 0) → Bytes → Type 0
First P [] = Unit
First P (c ∷ s) = P c

abbrev pub Last : (ℕ → Type 0) → Bytes → Type 0
Last P [] = Unit
Last P (c ∷ []) = P c
Last P (c ∷ d ∷ s) = Last P (d ∷ s)

module _ (P : ℕ → Type 0) where
  pub trim_left-All : (p : ℕ → Bool) (s : Bytes) → All P s → All P (trim_left p s)
  unfolding trim_left
  trim_left-All p [] h = tt
  trim_left-All p (c ∷ s) h = elim (Bool-cases (p c)) [
    | inl cut ↦ rw cut (trim_left-All p s h.1)
    | inr keep ↦ rw keep h
  ]

  put_unless-All : (p : ℕ → Bool) (c : ℕ) (s : Bytes) → P c → All P s → All P (put_unless p c s)
  put_unless-All p c [] pc h = elim (Bool-cases (p c)) [
    | inl cut ↦ rw cut tt
    | inr keep ↦ rw keep (pc, tt)
  ]
  put_unless-All p c (d ∷ s) pc h = (pc, h)

  pub trim_right-All : (p : ℕ → Bool) (s : Bytes) → All P s → All P (trim_right p s)
  unfolding trim_right
  trim_right-All p [] h = tt
  trim_right-All p (c ∷ s) h = put_unless-All p c (trim_right p s) h.0 (trim_right-All p s h.1)

  pub trim-All : (p : ℕ → Bool) (s : Bytes) → All P s → All P (trim p s)
  unfolding trim
  trim-All p s h = trim_right-All p (trim_left p s) (trim_left-All p s h)

module _ (p : ℕ → Bool) where
  abbrev Kept : ℕ → Type 0
  Kept c = p c ≡ false

  pub trim_left-First : (s : Bytes) → First Kept (trim_left p s)
  unfolding trim_left
  trim_left-First [] = tt
  trim_left-First (c ∷ s) = elim (Bool-cases (p c)) [
    | inl cut ↦ rw cut (trim_left-First s)
    | inr keep ↦ rw keep keep
  ]

  put_unless-First : (c : ℕ) (s : Bytes) → Kept c → First Kept (put_unless p c s)
  put_unless-First c [] h = rw h h
  put_unless-First c (d ∷ s) h = h

  pub trim_right-First : (s : Bytes) → First Kept s → First Kept (trim_right p s)
  unfolding trim_right
  trim_right-First [] h = tt
  trim_right-First (c ∷ s) h = put_unless-First c (trim_right p s) h

  put_unless-Last : (c : ℕ) (s : Bytes) → Last Kept s → Last Kept (put_unless p c s)
  put_unless-Last c [] h = elim (Bool-cases (p c)) [ inl cut ↦ rw cut tt | inr keep ↦ rw keep keep ]
  put_unless-Last c (d ∷ s) h = h

  pub trim_right-Last : (s : Bytes) → Last Kept (trim_right p s)
  unfolding trim_right
  trim_right-Last [] = tt
  trim_right-Last (c ∷ s) = put_unless-Last c (trim_right p s) (trim_right-Last s)

pub is_blank-nil : is_blank [] ≡ true
unfolding is_blank trim_space_left trim_space_right text_eq
is_blank-nil = refl

pub not_blank : (s : Bytes) → is_blank s ≡ false → s ≢ []
not_blank s h e = cc (is_blank-nil, ap is_blank e)

module _ (p : ℕ → Bool) where
  trim_left_fixed : (s : Bytes) → First (λ c. p c ≡ false) s → trim_left p s ≡ s
  unfolding trim_left
  trim_left_fixed [] h = refl
  trim_left_fixed (c ∷ s) h = rw h

  trim_right_fixed : (s : Bytes) → Last (λ c. p c ≡ false) s → trim_right p s ≡ s
  unfolding trim_right
  trim_right_fixed [] h = refl
  trim_right_fixed (c ∷ []) h = rw h
  trim_right_fixed (c ∷ d ∷ s) h = rw (trim_right_fixed (d ∷ s) h)

  -- A text with no byte of the cutset at either end is left alone.
  pub trim_fixed :
      (s : Bytes) → First (λ c. p c ≡ false) s → Last (λ c. p c ≡ false) s → trim p s ≡ s
  unfolding trim
  trim_fixed s h k = rw (trim_left_fixed s h) (trim_right_fixed s k)

All-reverse : (P : ℕ → Type 0) (s : Bytes) → All P s → All P (reverse s)
All-reverse P [] h = tt
All-reverse P (c ∷ s) h =
    rw (reverse-cons c s) (All-append P (reverse s) (c ∷ []) (All-reverse P s h.1) (h.0, tt))

starts_plain : (s : Bytes) → All IsPlain s → StartsPlain s
starts_plain [] h = tt
starts_plain (c ∷ s) h = h.0

-- Text with no white space is left alone by `TrimSpace`.
pub trim_space-IsPlain : (s : Bytes) → All IsPlain s → trim_space s ≡ s
trim_space-IsPlain s h =
    trim_space_plain s (starts_plain s h) (starts_plain (reverse s) (All-reverse IsPlain s h))

pub is_blank-IsPlain : (s : Bytes) → All IsPlain s → s ≢ [] → is_blank s ≡ false
unfolding is_blank text_eq
is_blank-IsPlain [] h ne = absurd (ne refl)
is_blank-IsPlain (c ∷ s) h ne = rw (trim_space-IsPlain (c ∷ s) h)

module _ (p : ℕ → Bool) where
  pub trim-First : (s : Bytes) → First (λ c. p c ≡ false) (trim p s)
  unfolding trim
  trim-First s = trim_right-First p _ (trim_left-First p s)

  pub trim-Last : (s : Bytes) → Last (λ c. p c ≡ false) (trim p s)
  unfolding trim
  trim-Last s = trim_right-Last p (trim_left p s)
