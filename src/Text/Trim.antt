-- ===== src/Text/Trim.antt =====
-- `strings.Trim`, `strings.TrimSpace`, `strings.ToLower`.
pub mod Laws
pub mod Cut
use mathlib.Core.List.{reverse, reverse-reverse}
use git_backup.Base.{
  ℕ, ◌<◌, Bool, ◌&&◌, ◌||◌, [], ◌∷◌, ◌≡◌, refl, arith, Bytes, leb, ◌==◌, if◌then◌else◌, text_eq,
}

-- TrimLeft and TrimRight by a test on bytes.
pub trim_left : (ℕ → Bool) → Bytes → Bytes
trim_left p [] = []
trim_left p (c ∷ s) = let rest = trim_left p s in if p c then rest else c ∷ s

abbrev pub put_unless : (ℕ → Bool) → ℕ → Bytes → Bytes
put_unless p c [] = if p c then [] else c ∷ []
put_unless p c (d ∷ s) = c ∷ d ∷ s

pub trim_right : (ℕ → Bool) → Bytes → Bytes
trim_right p [] = []
trim_right p (c ∷ s) = put_unless p c (trim_right p s)

-- `strings.Trim(s, cutset)` where `p` tests for a byte of the cutset, which is ASCII.
unfoldable pub trim : (ℕ → Bool) → Bytes → Bytes
unfolding trim_left trim_right
trim p s = trim_right p (trim_left p s)

abbrev pub is_slash : ℕ → Bool
is_slash c = c == b'/'

-- The white space of `unicode.IsSpace`, by the bytes of its encoding.
abbrev pub space_single : ℕ → Bool
space_single a = (leb 9 a && leb a 13) || a == 32

abbrev pub space_pair : ℕ → ℕ → Bool
space_pair a b = a == 0xc2 && (b == 0x85 || b == 0xa0)

abbrev pub space_triple : ℕ → ℕ → ℕ → Bool
space_triple a b c =
    (a == 0xe1 && b == 0x9a && c == 0x80)
    || (a == 0xe2
        && b == 0x80
        && ((leb 0x80 c && leb c 0x8a) || c == 0xa8 || c == 0xa9 || c == 0xaf))
    || (a == 0xe2 && b == 0x81 && c == 0x9f)
    || (a == 0xe3 && b == 0x80 && c == 0x80)

-- Leading white space removed; `two` and `three` say which byte groups are white space.
strip : (ℕ → ℕ → Bool) → (ℕ → ℕ → ℕ → Bool) → Bytes → Bytes
strip two three [] = []
strip two three (a ∷ []) = if space_single a then [] else a ∷ []
strip two three (a ∷ b ∷ []) =
    let one = strip two three (b ∷ []) in
    if space_single a then one else if two a b then [] else a ∷ b ∷ []
strip two three (a ∷ b ∷ c ∷ s) =
    let after_one = strip two three (b ∷ c ∷ s) in
    let after_two = strip two three (c ∷ s) in
    let after_three = strip two three s in
    if space_single a
    then after_one
    else if two a b
    then after_two
    else if three a b c
    then after_three
    else a ∷ b ∷ c ∷ s

pub trim_space_left : Bytes → Bytes
unfolding strip
trim_space_left = strip space_pair space_triple

pub trim_space_right : Bytes → Bytes
unfolding strip
trim_space_right s =
    reverse (strip (λ b a. space_pair a b) (λ c b a. space_triple a b c) (reverse s))

unfoldable pub trim_space : Bytes → Bytes
unfolding trim_space_left trim_space_right
trim_space s = trim_space_right (trim_space_left s)

-- `strings.TrimSpace(s) == ""`
unfoldable pub is_blank : Bytes → Bool
unfolding trim_space
is_blank s = text_eq (trim_space s) []

-- An ASCII byte that is no white space.
abbrev pub IsPlain : ℕ → Type 0
IsPlain c = (32 < c) × (c < 128)

-- The first byte is plain.
abbrev pub StartsPlain : Bytes → Type 0
StartsPlain [] = Unit
StartsPlain (c ∷ s) = IsPlain c

strip-plain : (s : Bytes) → StartsPlain s → strip space_pair space_triple s ≡ s
unfolding strip
strip-plain [] h = refl
strip-plain (a ∷ []) h = ground arith
strip-plain (a ∷ b ∷ []) h = ground arith
strip-plain (a ∷ b ∷ c ∷ s) h = ground arith

strip-plain_back :
    (s : Bytes) → StartsPlain s → strip (λ b a. space_pair a b) (λ c b a. space_triple a b c) s ≡ s
unfolding strip
strip-plain_back [] h = refl
strip-plain_back (a ∷ []) h = ground arith
strip-plain_back (a ∷ b ∷ []) h = ground arith
strip-plain_back (a ∷ b ∷ c ∷ s) h = ground arith

-- A text that begins and ends with a plain byte is left alone.
pub trim_space_plain : (s : Bytes) → StartsPlain s → StartsPlain (reverse s) → trim_space s ≡ s
unfolding trim_space
trim_space_plain s h k = rw (strip-plain s h, strip-plain_back (reverse s) k) (reverse-reverse s)
