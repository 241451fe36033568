-- ===== src/Text/Case.antt =====
-- `strings.ToLower` and comparison without case. `wide` stands for `unicode.ToLower` over a text that
-- is not ASCII: its tables are data of Go's `unicode` package.
use git_backup.Base.{
  Bytes, if◌then◌else◌, All, Bool, ℕ, ◌≡◌, ◌<◌, text_eq, Bool-cases, true, ◌+◌, leb, map, inl, ◌&&◌,
  ◌∷◌, false, ltb, arith, inr, [], refl,
}

abbrev pub is_upper : ℕ → Bool
is_upper c = leb b'A' c && leb c b'Z'

unfoldable pub lower_byte : ℕ → ℕ
lower_byte c = if is_upper c then c + 32 else c

unfoldable pub is_ascii : Bytes → Bool
is_ascii [] = true
is_ascii (c ∷ s) = ltb c 128 && is_ascii s

-- An ASCII text is folded byte by byte, any other by the tables.
unfoldable pub to_lower : (Bytes → Bytes) → Bytes → Bytes
unfolding is_ascii lower_byte
to_lower wide s = if is_ascii s then map lower_byte s else wide s

-- `strings.EqualFold` against an ASCII text in lower case that holds neither `k` nor `s`, whose only
-- equals are then ASCII.
unfoldable pub equal_fold : Bytes → Bytes → Bool
unfolding lower_byte
equal_fold s lower = text_eq (map lower_byte s) lower

abbrev pub NotUpper : ℕ → Type 0
NotUpper c = is_upper c ≡ false

-- What is documented of `unicode.ToLower`: no upper case ASCII letter is left.
abbrev pub IsLowering : (Bytes → Bytes) → Type 0
IsLowering wide = (s : Bytes) → All NotUpper (wide s)

pub map-lower_byte-NotUpper : (s : Bytes) → All NotUpper (map lower_byte s)
unfolding lower_byte
map-lower_byte-NotUpper [] = tt
map-lower_byte-NotUpper (c ∷ s) = (ground arith, map-lower_byte-NotUpper s)

pub to_lower-NotUpper :
    (wide : Bytes → Bytes) (s : Bytes) → IsLowering wide → All NotUpper (to_lower wide s)
unfolding to_lower
to_lower-NotUpper wide s law = elim (Bool-cases (is_ascii s)) [
  | inl ascii ↦ rw ascii (map-lower_byte-NotUpper s)
  | inr other ↦ rw other (law s)
]

map-lower_byte : (s : Bytes) → All NotUpper s → map lower_byte s ≡ s
unfolding lower_byte
map-lower_byte [] h = refl
map-lower_byte (c ∷ s) h = ground (arith, map-lower_byte s h.1)

abbrev pub IsAscii : ℕ → Type 0
IsAscii c = c < 128

is_ascii-All : (s : Bytes) → All IsAscii s → is_ascii s ≡ true
unfolding is_ascii
is_ascii-All [] h = refl
is_ascii-All (c ∷ s) h = ground (arith, is_ascii-All s h.1)

-- ASCII text with no upper case letter is left alone.
pub to_lower_fixed :
    (wide : Bytes → Bytes) (s : Bytes) → All IsAscii s → All NotUpper s → to_lower wide s ≡ s
unfolding to_lower
to_lower_fixed wide s ascii low = rw (is_ascii-All s ascii) (map-lower_byte s low)
