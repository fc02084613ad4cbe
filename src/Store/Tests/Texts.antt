-- ===== src/Store/Tests/Texts.antt =====
-- What the store keeps of a message, on small inputs.
use orka_gateway_telegram.Prelude.{◌≡◌, ◌≤◌, ◌⊎◌, refl, false, [], ◌∷◌, ◌++◌, Text, bytes, length}
use orka_gateway_telegram.Text.Space.{trim_space}
use orka_gateway_telegram.Text.Utf8.{contains_func}
use orka_gateway_telegram.Text.Sanitize.{is_dropped, drop_controls, longest_valid}
use orka_gateway_telegram.Store.Normalize.{max_safe_message_bytes, normalize_safe_message}
use orka_gateway_telegram.Store.Messages.{Shortened, normalize_safe_message_lem}

-- A bell between two words.
abbrev greeting : Text
greeting = bytes " hello" ++ (7 ∷ bytes " you ")

kept_greeting : normalize_safe_message greeting ≡ bytes "hello you"
unfolding normalize_safe_message trim_space drop_controls
kept_greeting = refl

-- The limit of three bytes cuts the euro sign.
cut_euro : longest_valid 3 (bytes "a" ++ (0xE2 ∷ 0x82 ∷ 0xAC ∷ [])) ≡ bytes "a"
unfolding longest_valid
cut_euro = refl

normalize_safe_message_lem_example :
    (length (normalize_safe_message greeting) ≤ max_safe_message_bytes)
    × (contains_func is_dropped (normalize_safe_message greeting) ≡ false)
    × ((normalize_safe_message greeting ≡ drop_controls (trim_space greeting))
        ⊎ Shortened (drop_controls (trim_space greeting)) (normalize_safe_message greeting))
normalize_safe_message_lem_example = normalize_safe_message_lem greeting
