-- ===== src/Text/Search.antt =====
-- `strings.HasPrefix` and `strings.Contains`.
use git_backup.Base.{
  Bytes, Bool, [], false, true, ◌&&◌, ◌==◌, ◌||◌, ◌∷◌, Lacks, Option, arith, if◌then◌else◌, length,
  none, refl, some, ℕ, ◌++◌, ◌≡◌,
}
use git_backup.Text.Index.{later}

unfoldable pub has_prefix : Bytes → Bytes → Bool
has_prefix [] s = true
has_prefix (c ∷ prefix) [] = false
has_prefix (c ∷ prefix) (d ∷ s) = c == d && has_prefix prefix s

unfoldable pub contains_text : Bytes → Bytes → Bool
unfolding has_prefix
contains_text needle [] = has_prefix needle []
contains_text needle (c ∷ s) = has_prefix needle (c ∷ s) || contains_text needle s

-- `strings.Index`
unfoldable pub index_text : Bytes → Bytes → Option ℕ
unfolding has_prefix
index_text needle [] = if has_prefix needle [] then some 0 else none
index_text needle (c ∷ s) =
    let rest = later (index_text needle s) in if has_prefix needle (c ∷ s) then some 0 else rest

has_prefix-append : (s t : Bytes) → has_prefix s (s ++ t) ≡ true
unfolding has_prefix
has_prefix-append [] t = refl
has_prefix-append (c ∷ s) t = ground (arith, has_prefix-append s t)

-- A text is first found where its first byte is.
pub index_text-append :
    (c : ℕ) (needle s t : Bytes)
    → Lacks c s
    → index_text (c ∷ needle) (s ++ ((c ∷ needle) ++ t)) ≡ some (length s)
unfolding index_text
index_text-append c needle [] t h = rw (has_prefix-append (c ∷ needle) t) refl
index_text-append c needle (d ∷ s) t h =
    let other : has_prefix (c ∷ needle) (d ∷ (s ++ ((c ∷ needle) ++ t))) ≡ false =
      unfold has_prefix in ground (arith, h.0) in
    rw (other, index_text-append c needle s t h.1) refl
