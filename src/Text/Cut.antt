-- ===== src/Text/Cut.antt =====
-- strings.Trim and TrimRight with a set of ASCII bytes, HasSuffix and Fields, over the bytes of a
-- string.
use orka_gateway_telegram.Prelude.{ℕ, zero, suc, Bool, List, [], ◌∷◌, reverse, Text, if◌then◌else◌}
use orka_gateway_telegram.Text.Replace.{has_prefix}
use orka_gateway_telegram.Text.Space.{space_len}

unfoldable pub drop_while : (ℕ → Bool) → Text → Text
drop_while p [] = []
drop_while p (c ∷ s) = let rest = drop_while p s in if p c then rest else c ∷ s

unfoldable pub trim_right_of : (ℕ → Bool) → Text → Text
unfolding drop_while
trim_right_of p s = reverse (drop_while p (reverse s))

unfoldable pub trim_of : (ℕ → Bool) → Text → Text
unfolding trim_right_of
trim_of p s = trim_right_of p (drop_while p s)

unfoldable pub has_suffix : (suffix text : Text) → Bool
unfolding has_prefix
has_suffix suffix s = has_prefix (reverse suffix) (reverse s)

abbrev push_word : Text → List Text → List Text
push_word [] ws = ws
push_word (c ∷ word) ws = reverse (c ∷ word) ∷ ws

-- The word before this place, reversed, and the rest; `n` bytes of white space are still to be left
-- out.
unfoldable pub fields_from : ℕ → Text → Text → List Text
unfolding space_len
fields_from n word [] = push_word word []
fields_from (suc n) word (c ∷ s) = fields_from n word s
fields_from zero word (c ∷ s) = elim (space_len (c ∷ s)) [
  | zero ↦ fields_from 0 (c ∷ word) s
  | suc n ↦ push_word word (fields_from n [] s)
]

unfoldable pub fields : Text → List Text
unfolding fields_from
fields s = fields_from 0 [] s
