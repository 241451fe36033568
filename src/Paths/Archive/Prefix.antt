-- ===== src/Paths/Archive/Prefix.antt =====
-- The listing prefix of `EnsurePrefix`.
use git_backup.Base.{Bool-cases, Bytes, [], false, inl, inr, true, ◌++◌, ◌∷◌, ◌≡◌, ◌⊎◌}
use git_backup.Paths.Archive.{ensure_prefix}
use git_backup.Text.Trim.{is_blank, is_slash, trim}
use git_backup.Text.Trim.Cut.{AllCut, trim-cut}
use git_backup.Text.Trim.Laws.{First, Last, trim-First, trim-Last}

-- The text is `a`, `t` and `b`, where `a` and `b` are slashes, and `t` neither begins nor ends with one.
abbrev pub IsTrimmed : Bytes → Bytes → Type 0
IsTrimmed s t =
    ((a : Bytes) × (b : Bytes) × AllCut is_slash a × AllCut is_slash b × (a ++ (t ++ b) ≡ s))
    × (First (λ c. is_slash c ≡ false) t × Last (λ c. is_slash c ≡ false) t)

-- A listing prefix is the text without the slashes around it, with one slash behind it; it is empty exactly where nothing but white space is left.
pub ensure_prefix_shape :
    (s : Bytes)
    → (t : Bytes) × IsTrimmed s t
      × (((is_blank t ≡ true) × (ensure_prefix s ≡ []))
          ⊎ ((is_blank t ≡ false) × (ensure_prefix s ≡ t ++ b'/' ∷ [])))
unfolding ensure_prefix
ensure_prefix_shape s = (
  trim is_slash s,
  (trim-cut is_slash s, (trim-First is_slash s, trim-Last is_slash s)),
  elim (Bool-cases (is_blank (trim is_slash s))) [
    | inl blank ↦ inl (blank, rw blank)
    | inr kept ↦ inr (kept, rw kept)
  ],
)
