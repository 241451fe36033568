-- ===== src/Text/Trim/Cut.antt =====
-- `strings.Trim`: what it cuts off.
use git_backup.Base.{
  Bool-cases, All, Bool, Bytes, [], ap, inl, inr, refl, true, ℕ, ◌++◌, ◌∙◌, ◌∷◌, ◌≡◌,
}
use git_backup.Text.Trim.{put_unless, trim, trim_left, trim_right}

-- What trimming cuts off at the ends is made of bytes of the cutset.
module _ (p : ℕ → Bool) where
  abbrev pub AllCut : Bytes → Type 0
  AllCut = All (λ c. p c ≡ true)

  trim_left-cut : (s : Bytes) → (a : Bytes) × AllCut a × (a ++ trim_left p s ≡ s)
  unfolding trim_left
  trim_left-cut [] = ([], tt, refl)
  trim_left-cut (c ∷ s) = elim (Bool-cases (p c)) [
    | inr kept ↦ rw kept ([], tt, refl)
    | inl cut ↦ let (a, all, same) = trim_left-cut s in rw cut (c ∷ a, (cut, all), ap (c ∷◌) same)
  ]

  put_unless-cut :
      (c : ℕ) (t b : Bytes)
      → AllCut b
      → (b' : Bytes) × AllCut b' × (put_unless p c t ++ b' ≡ c ∷ (t ++ b))
  put_unless-cut c (d ∷ t) b all = (b, all, refl)
  put_unless-cut c [] b all = elim (Bool-cases (p c)) [
    | inl cut ↦ rw cut (c ∷ b, (cut, all), refl)
    | inr kept ↦ rw kept (b, all, refl)
  ]

  trim_right-cut : (s : Bytes) → (b : Bytes) × AllCut b × (trim_right p s ++ b ≡ s)
  unfolding trim_right
  trim_right-cut [] = ([], tt, refl)
  trim_right-cut (c ∷ s) =
      let (b, all, same) = trim_right-cut s in
      let (b', all', same') = put_unless-cut c (trim_right p s) b all in
      (b', all', same' ∙ ap (c ∷◌) same)

  -- The text is the trimmed one between bytes of the cutset.
  pub trim-cut :
      (s : Bytes) → (a : Bytes) × (b : Bytes) × AllCut a × AllCut b × (a ++ (trim p s ++ b) ≡ s)
  unfolding trim
  trim-cut s =
      let (a, all, same) = trim_left-cut s in
      let (b, all', same') = trim_right-cut (trim_left p s) in
      (a, b, all, all', ap (a ++◌) same' ∙ same)
