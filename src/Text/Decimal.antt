-- ===== src/Text/Decimal.antt =====
-- strconv.FormatInt and strconv.ParseInt, base 10 and 64 bits.
pub mod RoundTrip
use orka_gateway_telegram.Prelude.{
  ℕ, zero, suc, ◌+◌, ◌-◌, ◌*◌, ◌/◌, ◌%◌, ◌^◌, Bool, ◌&&◌, Option, none, some, [], ◌∷◌, ltb, leb,
  eqb, Text, if◌then◌else◌,
}
use orka_gateway_telegram.Prelude.Int.{ℤ, pos, negsuc}

-- The digits of `n` in front of `rest`. Twenty rounds are enough for every int64.
unfoldable pub digits_from : ℕ → ℕ → Text → Text
digits_from zero n rest = rest
digits_from (suc fuel) n rest =
    let more = digits_from fuel (n / 10) ((48 + n % 10) ∷ rest) in
    if ltb n 10 then (48 + n) ∷ rest else more

unfoldable pub format_nat : ℕ → Text
unfolding digits_from
format_nat n = digits_from 20 n []

unfoldable pub format_int : ℤ → Text
unfolding format_nat
format_int (pos n) = format_nat n
format_int (negsuc n) = b'-' ∷ format_nat (suc n)

unfoldable pub is_digit : ℕ → Bool
is_digit c = leb 48 c && leb c 57

-- The value of a string of digits, `acc` being that of the digits before it.
unfoldable pub parse_digits : ℕ → Text → Option ℕ
unfolding is_digit
parse_digits acc [] = some acc
parse_digits acc (c ∷ s) =
    let rest = parse_digits (acc * 10 + (c - 48)) s in if is_digit c then rest else none

unfoldable pub parse_nat : Text → Option ℕ
unfolding parse_digits
parse_nat [] = none
parse_nat (c ∷ s) = parse_digits 0 (c ∷ s)

-- The range of an int64: below 2^63, and from -2^63.
unfoldable pub positive : Option ℕ → Option ℤ
positive none = none
positive (some n) = if ltb n (2 ^ 63) then some (pos n) else none

unfoldable pub negative : Option ℕ → Option ℤ
negative none = none
negative (some zero) = some (pos 0)
negative (some (suc n)) = if leb (suc n) (2 ^ 63) then some (negsuc n) else none

unfoldable pub parse_int : Text → Option ℤ
unfolding parse_nat positive negative
parse_int [] = none
parse_int (c ∷ s) =
    if eqb c b'-'
    then negative (parse_nat s)
    else if eqb c b'+'
    then positive (parse_nat s)
    else positive (parse_nat (c ∷ s))
