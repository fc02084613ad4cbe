-- ===== src/Telegram/Mapping/Sanitized.antt =====
-- internal/telegram/mapping.go: SanitizeDisplayName and sanitizeMetadataText.
use orka_gateway_telegram.Prelude.{
  ℕ, ◌≤◌, ◌≡◌, ◌≢◌, ap, true, false, ◌⊎◌, some, [], ◌∷◌, ◌++◌, Text, length, arith,
}
use orka_gateway_telegram.Text.Trim.{length-append}
use orka_gateway_telegram.Text.Runes.{
  Unicode, rune_len, encode_rune, length-encode_rune, rune_len-positive, is_space, is_control_rune,
}
use orka_gateway_telegram.Telegram.Mapping.{Scan, next, stopped, is_default_ignorable}

module _ (u : Unicode) where
  -- The runes that are kept.
  pub record Kept (r : ℕ) : Type 0 where
    pub not_space : is_space r ≡ false
    pub not_control : is_control_rune r ≡ false
    pub not_format : u.cf r ≡ false
    pub not_ignorable : is_default_ignorable u r ≡ false
    pub encoded : (n : ℕ) × (rune_len r ≡ some n)

  -- Kept runes, and single spaces between them.
  pub data Spelled : Text → Type 0 where
    start : Spelled []
    rune : (s : Text) (r : ℕ) → Spelled s → Kept r → Spelled (s ++ encode_rune r)
    word :
        (s : Text) (r : ℕ) → Spelled s → s ≢ [] → Kept r → Spelled ((s ++ 32 ∷ []) ++ encode_rune r)

  -- A builder's contents: a text so spelled, or one with a space after it, in either case of at most `limit` bytes.
  pub record Built (limit : ℕ) (out : Text) : Type 0 where
    pub spelled : Text
    pub spelling : Spelled spelled
    pub same : (out ≡ spelled) ⊎ (out ≡ spelled ++ 32 ∷ [])
    pub bounded : length out ≤ limit

  module _ (limit : ℕ) where
    -- What a round of the loop leaves: a pending space only after a rune.
    abbrev Round : Scan → Type 0
    Round (next pending out) = Spelled out × (length out ≤ limit) × (pending ≡ true → out ≢ [])
    Round (stopped out) = Built limit out

    append-ne : (out : Text) (r n : ℕ) → rune_len r ≡ some n → (out ++ encode_rune r) ≢ []
    append-ne out r n e h =
        let k = length-append out (encode_rune r) in
        let l = length-encode_rune r n e in
        let m : length (out ++ encode_rune r) ≡ 0 = ap length h in
        let z : 1 ≤ n = rune_len-positive r n e in omega arith
