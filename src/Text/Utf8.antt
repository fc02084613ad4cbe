-- ===== src/Text/Utf8.antt =====
-- utf8.ValidString, and the control characters of unicode.IsControl, over the bytes of a string.
use orka_gateway_telegram.Prelude.{
  ℕ, zero, suc, Bool, true, false, ◌&&◌, ◌||◌, Option, none, some, [], ◌∷◌, ltb, leb, eqb, Text,
  if◌then◌else◌,
}

-- What must follow a leading byte: how many continuation bytes, and the range of the first.
pub record Tail : Type 0 where
  pub count : ℕ
  pub low : ℕ
  pub high : ℕ

abbrev tail_of : ℕ → ℕ → ℕ → Option Tail
tail_of n lo hi = some (record { count = n; low = lo; high = hi })

-- The leading bytes of well-formed UTF-8, as in the table of unicode/utf8.
unfoldable pub lead : ℕ → Option Tail
lead b =
    if ltb b 0x80
    then tail_of 0 0x80 0xBF
    else if ltb b 0xC2
    then none
    else if ltb b 0xE0
    then tail_of 1 0x80 0xBF
    else if eqb b 0xE0
    then tail_of 2 0xA0 0xBF
    else if eqb b 0xED
    then tail_of 2 0x80 0x9F
    else if ltb b 0xF0
    then tail_of 2 0x80 0xBF
    else if eqb b 0xF0
    then tail_of 3 0x90 0xBF
    else if ltb b 0xF4
    then tail_of 3 0x80 0xBF
    else if eqb b 0xF4
    then tail_of 3 0x80 0x8F
    else none

-- `n` continuation bytes are still to come, the next one between `lo` and `hi`.
unfoldable pub valid_from : ℕ → ℕ → ℕ → Text → Bool
unfolding lead
valid_from zero lo hi [] = true
valid_from (suc n) lo hi [] = false
valid_from zero lo hi (b ∷ s) = elim (lead b) [
  | none ↦ false
  | some t ↦ valid_from t.count t.low t.high s
]
valid_from (suc n) lo hi (b ∷ s) =
    let rest = valid_from n 0x80 0xBF s in if leb lo b && leb b hi then rest else false

unfoldable pub valid_string : Text → Bool
unfolding valid_from
valid_string s = valid_from 0 0 0 s

-- A control rune at the front: U+0000 to U+001F, U+007F, and U+0080 to U+009F in two bytes.
unfoldable pub is_control : Text → Bool
is_control [] = false
is_control (a ∷ []) = ltb a 0x20 || eqb a 0x7F
is_control (a ∷ b ∷ _) = ltb a 0x20 || eqb a 0x7F || (eqb a 0xC2 && leb 0x80 b && leb b 0x9F)

-- strings.ContainsFunc(s, f) for a test `f` on the rune at the front. 0xC2 is no continuation byte,
-- so no control rune is found at a place where no rune begins.
unfoldable pub contains_func : (Text → Bool) → Text → Bool
contains_func f [] = false
contains_func f (a ∷ s) = f (a ∷ s) || contains_func f s

-- The next `n` bytes continue a rune, the first of them between `lo` and `hi`.
unfoldable pub continues : ℕ → ℕ → ℕ → Text → Bool
continues zero lo hi s = true
continues (suc n) lo hi [] = false
continues (suc n) lo hi (b ∷ s) =
    let rest = continues n 0x80 0xBF s in if leb lo b && leb b hi then rest else false

-- How many bytes follow the leading byte `b` in a rune, `none` for an invalid one (a RuneError of
-- width 1).
unfoldable pub rune_tail : ℕ → Text → Option ℕ
unfolding lead continues
rune_tail b s = elim (lead b) [
  | none ↦ none
  | some t ↦ if continues t.count t.low t.high s then some t.count else none
]

-- utf8.RuneCountInString; `n` bytes of the current rune are left.
count_from : ℕ → Text → ℕ
unfolding rune_tail
count_from n [] = 0
count_from (suc n) (b ∷ s) = count_from n s
count_from zero (b ∷ s) =
    suc (elim (rune_tail b s) [ none ↦ count_from 0 s | some n ↦ count_from n s ])

unfoldable pub rune_count : Text → ℕ
unfolding count_from
rune_count s = count_from 0 s
