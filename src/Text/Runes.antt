-- ===== src/Text/Runes.antt =====
-- The runes of a Go string: range over a string, strings.ToValidUTF8 with an empty replacement,
-- utf8.RuneLen and WriteRune, and the tests of package unicode. The tables of general categories
-- and of properties are data of the standard library: `Unicode` stands for them.
use orka_gateway_telegram.Prelude.{
  ℕ, zero, suc, ◌+◌, ◌-◌, ◌*◌, ◌/◌, ◌%◌, Bool, ◌&&◌, ◌||◌, Option, none, some, List, [], ◌∷◌, ltb,
  leb, eqb, Text, length, ◌≡◌, ◌≤◌, arith, if◌then◌else◌,
}
use orka_gateway_telegram.Text.Utf8.{rune_tail}

-- unicode.Cf, unicode.Mn, unicode.Me, and the table of unicode.Properties that may be missing.
pub record Unicode : Type 0 where
  pub cf : ℕ → Bool
  pub mn : ℕ → Bool
  pub me : ℕ → Bool
  pub other_default_ignorable : Option (ℕ → Bool)

-- The code point of a rune that begins with the byte `b` and has `n` further bytes.
unfoldable pub rune_value : ℕ → ℕ → Text → ℕ
rune_value b zero s = b
rune_value b (suc zero) (c ∷ s) = (b - 0xC0) * 64 + (c - 0x80)
rune_value b (suc (suc zero)) (c ∷ d ∷ s) = ((b - 0xE0) * 64 + (c - 0x80)) * 64 + (d - 0x80)
rune_value b (suc (suc (suc zero))) (c ∷ d ∷ e ∷ s) =
    (((b - 0xF0) * 64 + (c - 0x80)) * 64 + (d - 0x80)) * 64 + (e - 0x80)
rune_value b _ _ = 0xFFFD

-- The runes in order, U+FFFD for a byte of no rune; `n` bytes of the current rune are left.
unfoldable pub runes_from : ℕ → Text → List ℕ
unfolding rune_tail rune_value
runes_from n [] = []
runes_from (suc n) (b ∷ s) = runes_from n s
runes_from zero (b ∷ s) = elim (rune_tail b s) [
  | none ↦ 0xFFFD ∷ runes_from 0 s
  | some n ↦ rune_value b n s ∷ runes_from n s
]

unfoldable pub runes : Text → List ℕ
unfolding runes_from
runes s = runes_from 0 s

-- strings.ToValidUTF8(s, ""): a byte of no rune is left out.
unfoldable pub valid_part : ℕ → Text → Text
unfolding rune_tail
valid_part n [] = []
valid_part (suc n) (b ∷ s) = b ∷ valid_part n s
valid_part zero (b ∷ s) = elim (rune_tail b s) [
  | none ↦ valid_part 0 s
  | some n ↦ b ∷ valid_part n s
]

unfoldable pub to_valid_utf8 : Text → Text
unfolding valid_part
to_valid_utf8 s = valid_part 0 s

-- utf8.RuneLen: `none` is -1.
unfoldable pub rune_len : ℕ → Option ℕ
rune_len r =
    if ltb r 0x80
    then some 1
    else if ltb r 0x800
    then some 2
    else if leb 0xD800 r && leb r 0xDFFF
    then none
    else if ltb r 0x10000
    then some 3
    else if leb r 0x10FFFF
    then some 4
    else none

-- The bytes that WriteRune appends, U+FFFD for a code point that has no encoding.
unfoldable pub encode_rune : ℕ → Text
encode_rune r =
    if ltb r 0x80
    then r ∷ []
    else if ltb r 0x800
    then (0xC0 + r / 64) ∷ (0x80 + r % 64) ∷ []
    else if leb 0xD800 r && leb r 0xDFFF
    then 0xEF ∷ 0xBF ∷ 0xBD ∷ []
    else if ltb r 0x10000
    then (0xE0 + r / 4096) ∷ (0x80 + r / 64 % 64) ∷ (0x80 + r % 64) ∷ []
    else if leb r 0x10FFFF
    then (0xF0 + r / 262144) ∷ (0x80 + r / 4096 % 64) ∷ (0x80 + r / 64 % 64) ∷ (0x80 + r % 64) ∷ []
    else 0xEF ∷ 0xBF ∷ 0xBD ∷ []

-- unicode.IsSpace: the code points with the property White_Space.
unfoldable pub is_space : ℕ → Bool
is_space r =
    (leb 9 r && leb r 13)
    || eqb r 32
    || eqb r 0x85
    || eqb r 0xA0
    || eqb r 0x1680
    || (leb 0x2000 r && leb r 0x200A)
    || eqb r 0x2028
    || eqb r 0x2029
    || eqb r 0x202F
    || eqb r 0x205F
    || eqb r 0x3000

-- unicode.IsControl
unfoldable pub is_control_rune : ℕ → Bool
is_control_rune r = ltb r 0x20 || (leb 0x7F r && leb r 0x9F)

-- What RuneLen gives is the length of what WriteRune appends.
pub length-encode_rune : (r n : ℕ) → rune_len r ≡ some n → length (encode_rune r) ≡ n
unfolding rune_len encode_rune
length-encode_rune r n h = ground arith

pub rune_len-positive : (r n : ℕ) → rune_len r ≡ some n → 1 ≤ n
unfolding rune_len
rune_len-positive r n h = ground arith
