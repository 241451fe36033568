-- ===== src/Paths/Segment/Safety.antt =====
-- The result of the segment normalisation is one safe segment.
use git_backup.Base.{All, Bool-cases, [], arith, false, inl, inr, not, refl, true, ◌≡◌, ◌≢◌}
use git_backup.Paths.Segment.{
  is_safe, ℕ, normalize_storage_segment, Bytes, replace_invalid, ◌∷◌, Bool, is_edge, if◌then◌else◌,
  folded,
}
use git_backup.Text.Trim.{is_blank, trim, trim_left}
use git_backup.Text.Trim.Laws.{
  First, Last, not_blank, trim-All, trim_left-First, trim_right-First, trim_right-Last,
}

abbrev pub IsSafe : ℕ → Type 0
IsSafe c = is_safe c ≡ true

abbrev pub NotEdge : ℕ → Type 0
NotEdge c = is_edge c ≡ false

-- One path segment: not empty, of safe bytes, and with no dash or dot at either end.
pub record IsSegment (s : Bytes) : Type 0 where
  pub some_byte : s ≢ []
  pub safe : All IsSafe s
  pub first : First NotEdge s
  pub last : Last NotEdge s

module _ (P : ℕ → Type 0) where
  pub replace_invalid-All : (b : Bool) (s : Bytes) → P b'-' → All P s → All P (replace_invalid b s)
  unfolding replace_invalid
  replace_invalid-All b [] dash h = tt
  replace_invalid-All b (c ∷ s) dash h =
      ground (arith, h.0, replace_invalid-All (not (is_safe c)) s dash h.1)

keep_run : (in_run : Bool) (s : Bytes) → All IsSafe s → All IsSafe (if in_run then s else b'-' ∷ s)
keep_run true s h = h
keep_run false s h = (refl, h)

replace_invalid-IsSafe : (b : Bool) (s : Bytes) → All IsSafe (replace_invalid b s)
unfolding replace_invalid
replace_invalid-IsSafe b [] = tt
replace_invalid-IsSafe b (c ∷ s) = elim (Bool-cases (is_safe c)) [
  | inl safe ↦ rw safe (safe, replace_invalid-IsSafe false s)
  | inr other ↦ rw other (keep_run b _ (replace_invalid-IsSafe true s))
]

sanitized-IsSegment :
    (s : Bytes)
    → is_blank (trim is_edge (replace_invalid false s)) ≡ false
    → IsSegment (trim is_edge (replace_invalid false s))
unfolding trim
sanitized-IsSegment s h = record {
  some_byte = not_blank _ h;
  safe = trim-All IsSafe is_edge _ (replace_invalid-IsSafe false s);
  first = trim_right-First is_edge _ (trim_left-First is_edge (replace_invalid false s));
  last = trim_right-Last is_edge (trim_left is_edge (replace_invalid false s));
}

-- Whatever the value, the normalised segment is not empty, consists of safe bytes, and neither begins nor ends with a dash or a dot, if the fallback is such a segment.
pub normalize_storage_segment-IsSegment :
    (wide : Bytes → Bytes) (value fallback : Bytes) (lowercase : Bool)
    → IsSegment fallback
    → IsSegment (normalize_storage_segment wide value fallback lowercase)
unfolding normalize_storage_segment
normalize_storage_segment-IsSegment wide value fallback lowercase h =
    let candidate = folded wide lowercase value in
    elim (Bool-cases (is_blank (trim is_edge (replace_invalid false candidate)))) [
      | inl blank ↦ rw blank h
      | inr kept ↦ rw kept (sanitized-IsSegment candidate kept)
    ]
