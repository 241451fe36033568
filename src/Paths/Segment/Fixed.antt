-- ===== src/Paths/Segment/Fixed.antt =====
-- The segments are the fixed points of the normalisation.
use mathlib.Core.List.{cons-ne-nil}
use git_backup.Base.{
  All, All-map, Bool, Bool-cases, Bytes, [], ap, arith, false, inl, inr, refl, true, ℕ, ◌∷◌, ◌≡◌,
}
use git_backup.Paths.Segment.{
  folded, is_edge, normalize_segment, normalize_storage_segment, replace_invalid, unknown,
}
use git_backup.Paths.Segment.Safety.{
  IsSafe, IsSegment, normalize_storage_segment-IsSegment, replace_invalid-All,
}
use git_backup.Text.Case.{IsAscii, IsLowering, NotUpper, to_lower-NotUpper, to_lower_fixed}
use git_backup.Text.Trim.{IsPlain, is_blank, trim, trim_space}
use git_backup.Text.Trim.Laws.{is_blank-IsPlain, trim-All, trim_fixed, trim_space-IsPlain}

safe-IsPlain : (s : Bytes) → All IsSafe s → All IsPlain s
safe-IsPlain s h = All-map {P = IsSafe} {Q = IsPlain} plain s h
  where
    plain : (c : ℕ) → IsSafe c → IsPlain c
    plain c e = ground arith

safe-IsAscii : (s : Bytes) → All IsSafe s → All IsAscii s
safe-IsAscii s h = All-map {P = IsSafe} {Q = IsAscii} ascii s h
  where
    ascii : (c : ℕ) → IsSafe c → IsAscii c
    ascii c e = ground arith

replace_invalid_fixed : (b : Bool) (s : Bytes) → All IsSafe s → replace_invalid b s ≡ s
unfolding replace_invalid
replace_invalid_fixed b [] h = refl
replace_invalid_fixed b (c ∷ s) h = rw h.0 (ap (◌∷◌ c) (replace_invalid_fixed false s h.1))

-- `lowercase` and no upper case letter, or no `lowercase`.
abbrev pub CaseFits : Bool → Bytes → Type 0
CaseFits true s = All NotUpper s
CaseFits false s = Unit

folded_fixed :
    (wide : Bytes → Bytes) (lowercase : Bool) (s : Bytes)
    → All IsSafe s
    → CaseFits lowercase s
    → folded wide lowercase s ≡ s
folded_fixed wide true s h low =
    rw (trim_space-IsPlain s (safe-IsPlain s h)) (to_lower_fixed wide s (safe-IsAscii s h) low)
folded_fixed wide false s h low = trim_space-IsPlain s (safe-IsPlain s h)

-- A segment whose case fits is its own normal form.
pub normalize_storage_segment_fixed :
    (wide : Bytes → Bytes) (s fallback : Bytes) (lowercase : Bool)
    → IsSegment s
    → CaseFits lowercase s
    → normalize_storage_segment wide s fallback lowercase ≡ s
unfolding normalize_storage_segment
normalize_storage_segment_fixed wide s fallback lowercase h low = rw (
  folded_fixed wide lowercase s h.safe low,
  replace_invalid_fixed false s h.safe,
  trim_fixed is_edge s h.first h.last,
  is_blank-IsPlain s (safe-IsPlain s h.safe) h.some_byte,
)

folded-CaseFits :
    (wide : Bytes → Bytes) (lowercase : Bool) (s : Bytes)
    → IsLowering wide
    → CaseFits lowercase (folded wide lowercase s)
folded-CaseFits wide true s law = to_lower-NotUpper wide (trim_space s) law
folded-CaseFits wide false s law = tt

sanitized-CaseFits :
    (lowercase : Bool) (s : Bytes)
    → CaseFits lowercase s
    → CaseFits lowercase (trim is_edge (replace_invalid false s))
sanitized-CaseFits true s h =
    trim-All NotUpper is_edge _ (replace_invalid-All NotUpper false s refl h)
sanitized-CaseFits false s h = tt

pub normalize_storage_segment-CaseFits :
    (wide : Bytes → Bytes) (value fallback : Bytes) (lowercase : Bool)
    → IsLowering wide
    → CaseFits lowercase fallback
    → CaseFits lowercase (normalize_storage_segment wide value fallback lowercase)
unfolding normalize_storage_segment
normalize_storage_segment-CaseFits wide value fallback lowercase law h =
    let candidate = folded wide lowercase value in
    elim (Bool-cases (is_blank (trim is_edge (replace_invalid false candidate)))) [
      | inl blank ↦ rw blank h
      | inr kept ↦
          rw kept
            (sanitized-CaseFits lowercase candidate (folded-CaseFits wide lowercase value law))
    ]

-- Normalising twice is normalising once, if the fallback is itself a segment of the case asked for and `wide` leaves no upper case ASCII letter.
pub normalize_storage_segment_idem :
    (wide : Bytes → Bytes) (value fallback : Bytes) (lowercase : Bool)
    → IsLowering wide
    → IsSegment fallback
    → CaseFits lowercase fallback
    → normalize_storage_segment wide
        (normalize_storage_segment wide value fallback lowercase)
        fallback
        lowercase
      ≡ normalize_storage_segment wide value fallback lowercase
normalize_storage_segment_idem wide value fallback lowercase law h low =
    normalize_storage_segment_fixed wide _ fallback lowercase
      (normalize_storage_segment-IsSegment wide value fallback lowercase h)
      (normalize_storage_segment-CaseFits wide value fallback lowercase law low)

pub unknown-IsSegment : IsSegment unknown
unknown-IsSegment = record {
  some_byte = cons-ne-nil _ _;
  safe = (refl, (refl, (refl, (refl, (refl, (refl, (refl, tt)))))));
  first = refl;
  last = refl;
}

-- A key segment of the parser is a segment in lower case.
pub normalize_segment-IsSegment :
    (wide : Bytes → Bytes) (value : Bytes) → IsSegment (normalize_segment wide value)
unfolding normalize_segment
normalize_segment-IsSegment wide value =
    normalize_storage_segment-IsSegment wide value unknown true unknown-IsSegment
