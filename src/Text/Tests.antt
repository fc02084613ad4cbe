-- ===== src/Text/Tests.antt =====
-- What the program uses of Go's strings, on small inputs.
use orka_gateway_telegram.Prelude.{◌≡◌, refl, true, false, none, some, ◌∷◌, bytes}
use orka_gateway_telegram.Prelude.Int.{negsuc}
use orka_gateway_telegram.Text.Utf8.{valid_string}
use orka_gateway_telegram.Text.Space.{trim_space}
use orka_gateway_telegram.Text.Replace.{replace_all, path_escape, query_escape}
use orka_gateway_telegram.Text.Json.{is_valid, compact}
use orka_gateway_telegram.Text.Decimal.{format_int, parse_int}

euro_test : valid_string (0xE2 ∷ 0x82 ∷ 0xAC ∷ bytes "x") ≡ true
unfolding valid_string
euro_test = refl

surrogate_test : valid_string (0xED ∷ 0xA0 ∷ 0x80 ∷ bytes "x") ≡ false
unfolding valid_string
surrogate_test = refl

trim_test : trim_space (bytes " \t a b \n") ≡ bytes "a b"
unfolding trim_space
trim_test = refl

format_test : format_int (negsuc 9223372036854775807) ≡ bytes "-9223372036854775808"
unfolding format_int
format_test = refl

parse_test : parse_int (bytes "-9223372036854775808") ≡ some (negsuc 9223372036854775807)
unfolding parse_int
parse_test = refl

parse_overflow_test : parse_int (bytes "9223372036854775808") ≡ none
unfolding parse_int
parse_overflow_test = refl

compact_test :
    compact (bytes " { \"a b\" : [1 , -2.5e3,\"\\u00e9\"], \"c\":null } ")
    ≡ bytes "{\"a b\":[1,-2.5e3,\"\\u00e9\"],\"c\":null}"
unfolding compact
compact_test = refl

valid_test : is_valid (bytes " { \"a b\" : [1 , -2.5e3,\"\\u00e9\"], \"c\":null } ") ≡ true
unfolding is_valid
valid_test = refl

invalid_test : is_valid (bytes "[01]") ≡ false
unfolding is_valid
invalid_test = refl

replace_test : replace_all (bytes "aabaaab") (bytes "aa") (bytes "x") ≡ bytes "xbxab"
unfolding replace_all
replace_test = refl

path_escape_test : path_escape (bytes "12:A b/") ≡ bytes "12:A%20b%2F"
unfolding path_escape
path_escape_test = refl

query_escape_test : query_escape (bytes "12:A b/") ≡ bytes "12%3AA+b%2F"
unfolding query_escape
query_escape_test = refl
