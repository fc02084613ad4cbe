-- ===== src/Protocol/Identity.antt =====
-- internal/protocol/validate.go: which identities are accepted.
use orka_gateway_telegram.Prelude.{
  ℕ, ◌≤◌, ◌≡◌, ◌≢◌, refl, true, false, some, [], ◌∷◌, Text, length, arith,
}
use orka_gateway_telegram.Text.Plain.{All, Plain, trim_space-Plain}
use orka_gateway_telegram.Text.Utf8.{lead, valid_from, valid_string, is_control, contains_func}
use orka_gateway_telegram.Protocol.Types.{max_identity_bytes}
use orka_gateway_telegram.Protocol.Validate.{
  is_unsafe, contains_unsafe_control, validate_required_identity,
}

lead-Plain : (b : ℕ) → Plain b → lead b ≡ some (record { count = 0; low = 0x80; high = 0xBF })
unfolding lead
lead-Plain b h = ground arith

valid_from-Plain : (lo hi : ℕ) (s : Text) → All Plain s → valid_from 0 lo hi s ≡ true
unfolding valid_from
valid_from-Plain lo hi [] h = refl
valid_from-Plain lo hi (b ∷ s) h =
    ground (arith, lead-Plain b h.0, valid_from-Plain 0x80 0xBF s h.1)

is_unsafe-Plain : (b : ℕ) (s : Text) → Plain b → is_unsafe false (b ∷ s) ≡ false
unfolding is_unsafe is_control
is_unsafe-Plain b [] h = ground arith
is_unsafe-Plain b (c ∷ s) h = ground arith

contains-Plain : (s : Text) → All Plain s → contains_func (is_unsafe false) s ≡ false
unfolding contains_func
contains-Plain [] h = refl
contains-Plain (b ∷ s) h = rw (is_unsafe-Plain b s h.0) (contains-Plain s h.1)

-- A text of visible ASCII bytes, not empty and within the limit, is accepted.
pub validate_required_identity-Plain :
    (s : Text)
    → s ≢ []
    → All Plain s
    → length s ≤ max_identity_bytes
    → validate_required_identity s ≡ true
unfolding validate_required_identity valid_string contains_unsafe_control
validate_required_identity-Plain s ne h le =
    ground (arith, trim_space-Plain s h, valid_from-Plain 0 0 s h, contains-Plain s h)
