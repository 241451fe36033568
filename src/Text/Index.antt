-- ===== src/Text/Index.antt =====
-- `strings.Index` and `strings.LastIndex` of one byte, `strings.HasSuffix`.
use git_backup.Base.{
  ℕ, suc, ◌-◌, Bool, true, ◌&&◌, [], ◌∷◌, ◌++◌, ◌≡◌, refl, arith, Option, none, some, Bytes, leb,
  ◌==◌, if◌then◌else◌, Lacks, text_eq, text_eq_refl, length, length-append, drop, drop-append,
}

abbrev or_here : Bool → Option ℕ → Option ℕ
or_here b (some i) = some (suc i)
or_here b none = if b then some 0 else none

unfoldable pub last_index : ℕ → Bytes → Option ℕ
last_index c [] = none
last_index c (x ∷ s) = or_here (x == c) (last_index c s)

abbrev pub later : Option ℕ → Option ℕ
later none = none
later (some i) = some (suc i)

unfoldable pub index : ℕ → Bytes → Option ℕ
index c [] = none
index c (x ∷ s) = let rest = later (index c s) in if x == c then some 0 else rest

unfoldable pub has_suffix : Bytes → Bytes → Bool
has_suffix suffix s =
    leb (length suffix) (length s) && text_eq (drop (length s - length suffix) s) suffix

pub last_index-Lacks : (c : ℕ) (s : Bytes) → Lacks c s → last_index c s ≡ none
unfolding last_index
last_index-Lacks c [] h = refl
last_index-Lacks c (x ∷ s) h = ground (arith, last_index-Lacks c s)

pub last_index-append :
    (c : ℕ) (s t : Bytes) → Lacks c t → last_index c (s ++ c ∷ t) ≡ some (length s)
unfolding last_index
last_index-append c [] t h = ground (arith, last_index-Lacks c t h)
last_index-append c (x ∷ s) t h = rw (last_index-append c s t h)

pub has_suffix-append : (s suffix : Bytes) → has_suffix suffix (s ++ suffix) ≡ true
unfolding has_suffix
has_suffix-append s suffix =
    let n : length (s ++ suffix) - length suffix ≡ length s =
      omega (arith, length-append s suffix) in
    rw (n, drop-append s suffix, text_eq_refl suffix) (ground (arith, length-append s suffix))

pub index-append : (c : ℕ) (s t : Bytes) → Lacks c s → index c (s ++ c ∷ t) ≡ some (length s)
unfolding index
index-append c [] t h = ground arith
index-append c (x ∷ s) t h = rw (index-append c s t h.1) (ground (arith, h.0))
