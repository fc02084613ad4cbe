-- ===== src/Text/Space.antt =====
-- strings.TrimSpace over the bytes of a string. A white-space rune is known by its encoding: an
-- encoded rune begins with a byte that no encoding holds at a later place, so reading from either
-- end finds the same runes.
use orka_gateway_telegram.Prelude.{
  ℕ, zero, suc, Bool, ◌&&◌, ◌||◌, [], ◌∷◌, reverse, leb, eqb, Text, if◌then◌else◌,
}

-- One byte: tab, line feed, vertical tab, form feed, carriage return, space.
unfoldable pub is_space1 : ℕ → Bool
is_space1 a = (leb 9 a && leb a 13) || eqb a 32

-- Two bytes: U+0085 and U+00A0.
unfoldable pub is_space2 : ℕ → ℕ → Bool
is_space2 a b = eqb a 0xC2 && (eqb b 0x85 || eqb b 0xA0)

-- Three bytes: U+1680, U+2000 to U+200A, U+2028, U+2029, U+202F, U+205F and U+3000.
unfoldable pub is_space3 : ℕ → ℕ → ℕ → Bool
is_space3 a b c =
    (eqb a 0xE1 && eqb b 0x9A && eqb c 0x80)
    || (eqb a 0xE2
        && eqb b 0x80
        && ((leb 0x80 c && leb c 0x8A) || eqb c 0xA8 || eqb c 0xA9 || eqb c 0xAF))
    || (eqb a 0xE2 && eqb b 0x81 && eqb c 0x9F)
    || (eqb a 0xE3 && eqb b 0x80 && eqb c 0x80)

-- The length of the white-space rune that a string begins with, 0 if there is none.
unfoldable pub space_len : Text → ℕ
unfolding is_space1 is_space2 is_space3
space_len [] = 0
space_len (a ∷ []) = if is_space1 a then 1 else 0
space_len (a ∷ b ∷ []) = if is_space1 a then 1 else if is_space2 a b then 2 else 0
space_len (a ∷ b ∷ c ∷ _) =
    if is_space1 a then 1 else if is_space2 a b then 2 else if is_space3 a b c then 3 else 0

-- The same for the rune that it ends with, over the reversed string.
unfoldable pub space_len_rev : Text → ℕ
unfolding is_space1 is_space2 is_space3
space_len_rev [] = 0
space_len_rev (a ∷ []) = if is_space1 a then 1 else 0
space_len_rev (b ∷ a ∷ []) = if is_space1 b then 1 else if is_space2 a b then 2 else 0
space_len_rev (c ∷ b ∷ a ∷ _) =
    if is_space1 c then 1 else if is_space2 b c then 2 else if is_space3 a b c then 3 else 0

-- Drops white space from the front, rune by rune; `n` bytes of a rune are still to be dropped.
unfoldable pub strip_by : (Text → ℕ) → ℕ → Text → Text
strip_by len n [] = []
strip_by len (suc n) (_ ∷ s) = strip_by len n s
strip_by len zero (a ∷ s) = elim (len (a ∷ s)) [ zero ↦ a ∷ s | suc n ↦ strip_by len n s ]

unfoldable pub trim_left : Text → Text
unfolding strip_by space_len
trim_left s = strip_by space_len 0 s

unfoldable pub trim_right : Text → Text
unfolding strip_by space_len_rev
trim_right s = reverse (strip_by space_len_rev 0 (reverse s))

unfoldable pub trim_space : Text → Text
unfolding trim_left trim_right
trim_space s = trim_right (trim_left s)
