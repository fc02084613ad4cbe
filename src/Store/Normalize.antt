-- ===== src/Store/Normalize.antt =====
-- The normalisation of arguments in internal/store/store.go.
use orka_gateway_telegram.Prelude.{
  ℕ, ◌+◌, Bool, true, not, ◌&&◌, ◌||◌, [], ◌∷◌, ltb, leb, eqb, Text, length, ◌==◌, if◌then◌else◌,
}
use orka_gateway_telegram.Text.Space.{trim_space}
use orka_gateway_telegram.Text.Utf8.{valid_string, is_control, contains_func}
use orka_gateway_telegram.Text.Sanitize.{drop_controls, longest_valid}
use orka_gateway_telegram.Store.Types.{Result, ok, err, invalid_argument}

abbrev pub max_digest_bytes : ℕ
max_digest_bytes = 64

abbrev pub max_identity_bytes : ℕ
max_identity_bytes = 256

-- strings.ToLower, on ASCII letters. No other letter has a hexadecimal digit for its lower case, so
-- a digest that holds one is refused either way.
to_lower_byte : ℕ → ℕ
to_lower_byte b = if leb 65 b && leb b 90 then b + 32 else b

unfoldable pub to_lower : Text → Text
unfolding to_lower_byte
to_lower [] = []
to_lower (b ∷ s) = to_lower_byte b ∷ to_lower s

-- hex.DecodeString accepts the digits of a string of even length.
is_hex_byte : ℕ → Bool
is_hex_byte b = (leb 48 b && leb b 57) || (leb 97 b && leb b 102) || (leb 65 b && leb b 70)

unfoldable pub is_hex : Text → Bool
unfolding is_hex_byte
is_hex [] = true
is_hex (b ∷ s) = is_hex_byte b && is_hex s

unfoldable pub normalize_digest : Text → Result Text
normalize_digest digest =
    let digest' = to_lower (trim_space digest) in
    if not (eqb (length digest') max_digest_bytes)
    then err invalid_argument
    else if is_hex digest'
    then ok digest'
    else err invalid_argument

unfoldable pub normalize_identity : Text → Result Text
normalize_identity value =
    let value' = trim_space value in
    if value' == []
      || ltb max_identity_bytes (length value')
      || not (valid_string value')
      || contains_func is_control value'
    then err invalid_argument
    else ok value'

unfoldable pub normalize_provider_message_id : Text → Result Text
normalize_provider_message_id value =
    let value' = trim_space value in
    if value' == []
    then ok []
    else if ltb max_identity_bytes (length value')
        || not (valid_string value')
        || contains_func is_control value'
    then err invalid_argument
    else ok value'

abbrev pub max_safe_message_bytes : ℕ
max_safe_message_bytes = 1024

unfoldable pub normalize_safe_message : Text → Text
normalize_safe_message message =
    let message' = drop_controls (trim_space message) in
    if leb (length message') max_safe_message_bytes
    then message'
    else longest_valid max_safe_message_bytes message'
