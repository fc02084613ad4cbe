-- ===== src/Text/Replace.antt =====
-- strings.ReplaceAll for a non-empty pattern, and the escapes of net/url.
use orka_gateway_telegram.Prelude.{
  ℕ, zero, suc, ◌+◌, ◌-◌, ◌/◌, ◌%◌, Bool, true, false, ◌&&◌, ◌||◌, [], ◌∷◌, ◌++◌, ltb, leb, eqb,
  Text, length, if◌then◌else◌,
}

unfoldable pub has_prefix : (prefix text : Text) → Bool
has_prefix [] s = true
has_prefix (a ∷ p) [] = false
has_prefix (a ∷ p) (b ∷ s) = eqb a b && has_prefix p s

-- `n` bytes of the match that was just replaced are left.
replace_from : ℕ → (old new text : Text) → Text
unfolding has_prefix
replace_from n old new [] = []
replace_from (suc n) old new (b ∷ s) = replace_from n old new s
replace_from zero old new (b ∷ s) =
    let replaced = new ++ replace_from (length old - 1) old new s in
    let kept = b ∷ replace_from 0 old new s in if has_prefix old (b ∷ s) then replaced else kept

unfoldable pub replace_all : (text old new : Text) → Text
unfolding replace_from
replace_all text old new = replace_from 0 old new text

-- The bytes that no escape touches.
unfoldable pub is_unreserved : ℕ → Bool
is_unreserved c =
    leb b'0' c && leb c b'9'
    || leb b'A' c && leb c b'Z'
    || leb b'a' c && leb c b'z'
    || eqb c b'-'
    || eqb c b'_'
    || eqb c b'.'
    || eqb c b'~'

-- The other bytes that a path segment may hold.
unfoldable pub is_kept_in_path : ℕ → Bool
is_kept_in_path c = eqb c b'$' || eqb c b'&' || eqb c b'+' || eqb c b':' || eqb c b'=' || eqb c b'@'

abbrev hex_digit : ℕ → ℕ
hex_digit n = if ltb n 10 then 48 + n else 55 + n

abbrev percent : ℕ → Text → Text
percent c rest = b'%' ∷ hex_digit (c / 16) ∷ hex_digit (c % 16) ∷ rest

-- url.PathEscape
unfoldable pub path_escape : Text → Text
unfolding is_unreserved is_kept_in_path
path_escape [] = []
path_escape (c ∷ s) =
    let rest = path_escape s in
    if is_unreserved c || is_kept_in_path c then c ∷ rest else percent c rest

-- url.QueryEscape
unfoldable pub query_escape : Text → Text
unfolding is_unreserved
query_escape [] = []
query_escape (c ∷ s) =
    let rest = query_escape s in
    if is_unreserved c then c ∷ rest else if eqb c b' ' then b'+' ∷ rest else percent c rest
