-- ===== src/Text/Json.antt =====
-- json.Valid and json.Compact: the scanner of encoding/json, byte by byte. A mode is the scanner's
-- step function; the stack says in which arrays and objects it stands.
pub mod Compact
use orka_gateway_telegram.Prelude.{
  ℕ, zero, suc, Bool, true, false, not, ◌&&◌, ◌||◌, Option, none, some, List, [], ◌∷◌, ltb, leb,
  eqb, Text, length, bytes, if◌then◌else◌,
}

pub data Mode : Type 0 where
  begin_value begin_value_or_empty begin_string_or_empty begin_string end_value : Mode
  in_string in_escape neg int0 int1 dot dot0 exp exp_sign exp0 : Mode
  in_hex : ℕ → Mode
  in_literal : Text → Mode

pub data Context : Type 0 where
  object_key object_value array_value : Context

abbrev pub Scanner : Type 0
Scanner = Mode × List Context

unfoldable pub is_json_space : ℕ → Bool
is_json_space c = eqb c 32 || eqb c 9 || eqb c 13 || eqb c 10

is_digit : ℕ → Bool
is_digit c = leb b'0' c && leb c b'9'

is_hex_digit : ℕ → Bool
unfolding is_digit
is_hex_digit c = is_digit c || (leb b'a' c && leb c b'f') || (leb b'A' c && leb c b'F')

-- maxNestingDepth
abbrev max_nesting_depth : ℕ
max_nesting_depth = 10000

push : Mode → Context → List Context → Option Scanner
push mode x stack =
    if leb (length (x ∷ stack)) max_nesting_depth then some (mode, x ∷ stack) else none

-- stateBeginValue
unfoldable pub value_step : ℕ → List Context → Option Scanner
unfolding is_json_space is_digit push
value_step c stack =
    if is_json_space c
    then some (begin_value, stack)
    else if eqb c b'{'
    then push begin_string_or_empty object_key stack
    else if eqb c b'['
    then push begin_value_or_empty array_value stack
    else if eqb c b'"'
    then some (in_string, stack)
    else if eqb c b'-'
    then some (neg, stack)
    else if eqb c b'0'
    then some (int0, stack)
    else if eqb c b't'
    then some (in_literal (bytes "rue"), stack)
    else if eqb c b'f'
    then some (in_literal (bytes "alse"), stack)
    else if eqb c b'n'
    then some (in_literal (bytes "ull"), stack)
    else if is_digit c
    then some (int1, stack)
    else none

-- stateEndValue, and stateEndTop where the stack is empty
end_step : ℕ → List Context → Option Scanner
unfolding is_json_space
end_step c [] = if is_json_space c then some (end_value, []) else none
end_step c (object_key ∷ stack) =
    if is_json_space c
    then some (end_value, object_key ∷ stack)
    else if eqb c b':'
    then some (begin_value, object_value ∷ stack)
    else none
end_step c (object_value ∷ stack) =
    if is_json_space c
    then some (end_value, object_value ∷ stack)
    else if eqb c b','
    then some (begin_string, object_key ∷ stack)
    else if eqb c b'}'
    then some (end_value, stack)
    else none
end_step c (array_value ∷ stack) =
    if is_json_space c
    then some (end_value, array_value ∷ stack)
    else if eqb c b','
    then some (begin_value, array_value ∷ stack)
    else if eqb c b']'
    then some (end_value, stack)
    else none

unfoldable pub step : Scanner → ℕ → Option Scanner
unfolding value_step end_step is_hex_digit is_digit is_json_space
step (begin_value, stack) c = value_step c stack
step (begin_value_or_empty, stack) c =
    if is_json_space c
    then some (begin_value_or_empty, stack)
    else if eqb c b']'
    then end_step c stack
    else value_step c stack
step (begin_string_or_empty, []) c = none
step (begin_string_or_empty, x ∷ stack) c =
    if is_json_space c
    then some (begin_string_or_empty, x ∷ stack)
    else if eqb c b'}'
    then end_step c (object_value ∷ stack)
    else if eqb c b'"'
    then some (in_string, x ∷ stack)
    else none
step (begin_string, stack) c =
    if is_json_space c
    then some (begin_string, stack)
    else if eqb c b'"'
    then some (in_string, stack)
    else none
step (end_value, stack) c = end_step c stack
step (in_string, stack) c =
    if eqb c b'"'
    then some (end_value, stack)
    else if eqb c 92
    then some (in_escape, stack)
    else if ltb c 32
    then none
    else some (in_string, stack)
step (in_escape, stack) c =
    if eqb c b'b'
      || eqb c b'f'
      || eqb c b'n'
      || eqb c b'r'
      || eqb c b't'
      || eqb c 92
      || eqb c b'/'
      || eqb c b'"'
    then some (in_string, stack)
    else if eqb c b'u'
    then some (in_hex 3, stack)
    else none
step (in_hex zero, stack) c = if is_hex_digit c then some (in_string, stack) else none
step (in_hex (suc n), stack) c = if is_hex_digit c then some (in_hex n, stack) else none
step (neg, stack) c =
    if eqb c b'0' then some (int0, stack) else if is_digit c then some (int1, stack) else none
step (int1, stack) c =
    if is_digit c
    then some (int1, stack)
    else if eqb c b'.'
    then some (dot, stack)
    else if eqb c b'e' || eqb c b'E'
    then some (exp, stack)
    else end_step c stack
step (int0, stack) c =
    if eqb c b'.'
    then some (dot, stack)
    else if eqb c b'e' || eqb c b'E'
    then some (exp, stack)
    else end_step c stack
step (dot, stack) c = if is_digit c then some (dot0, stack) else none
step (dot0, stack) c =
    if is_digit c
    then some (dot0, stack)
    else if eqb c b'e' || eqb c b'E'
    then some (exp, stack)
    else end_step c stack
step (exp, stack) c =
    if eqb c b'+' || eqb c b'-'
    then some (exp_sign, stack)
    else if is_digit c
    then some (exp0, stack)
    else none
step (exp_sign, stack) c = if is_digit c then some (exp0, stack) else none
step (exp0, stack) c = if is_digit c then some (exp0, stack) else end_step c stack
step (in_literal [], stack) c = end_step c stack
step (in_literal (x ∷ []), stack) c = if eqb c x then some (end_value, stack) else none
step (in_literal (x ∷ y ∷ s), stack) c = if eqb c x then some (in_literal (y ∷ s), stack) else none

-- A space at the end completes a number, as scanner.eof does.
unfoldable pub at_end : Scanner → Bool
unfolding step
at_end s = elim (step s 32) [ some (end_value, []) ↦ true | _ ↦ false ]

unfoldable pub scan : Scanner → Text → Bool
unfolding step at_end
scan s [] = at_end s
scan s (c ∷ t) = elim (step s c) [ none ↦ false | some s' ↦ scan s' t ]

unfoldable pub is_valid : Text → Bool
unfolding scan
is_valid t = scan (begin_value, []) t

-- json.Compact drops the white space outside strings.
unfoldable pub is_in_string : Mode → Bool
is_in_string in_string = true
is_in_string _ = false

unfoldable pub compact_from : Scanner → Text → Text
unfolding step is_in_string is_json_space
compact_from s [] = []
compact_from s (c ∷ t) = elim (step s c) [
  | none ↦ []
  | some s' ↦
      let rest = compact_from s' t in
      if is_json_space c && not (is_in_string s.0) then rest else c ∷ rest
]

unfoldable pub compact : Text → Text
unfolding compact_from
compact t = compact_from (begin_value, []) t
