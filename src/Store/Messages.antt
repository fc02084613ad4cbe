-- ===== src/Store/Messages.antt =====
-- internal/store/store.go, normalizeSafeMessage: what is kept of a message.
use orka_gateway_telegram.Prelude.{
  ℕ, ◌≡◌, ◌≤◌, refl, ap, ◌∙◌, false, ◌⊎◌, inl, inr, true, Text, length, take, arith, leb,
  Bool-cases,
}
use orka_gateway_telegram.Text.Utf8.{valid_string, contains_func}
use orka_gateway_telegram.Text.Space.{trim_space}
use orka_gateway_telegram.Text.Sanitize.{drop_controls, is_dropped}
use orka_gateway_telegram.Text.Controls.{drop_controls-kept, append-kept}
use orka_gateway_telegram.Text.Longest.{
  Begins, longest_valid-Begins, valid_string-longest_valid, length-longest_valid-le,
  le-length-longest_valid,
}
use orka_gateway_telegram.Store.Normalize.{max_safe_message_bytes, normalize_safe_message}

-- What is kept of `m`.
pub record Shortened (m kept : Text) : Type 0 where
  pub is_utf8 : valid_string kept ≡ true
  pub begins : Begins kept m
  pub longest :
      (k : ℕ) → k ≤ max_safe_message_bytes → valid_string (take k m) ≡ true → k ≤ length kept

normalize_safe_message-cases :
    (message : Text)
    → let m = drop_controls (trim_space message) in
      let kept = normalize_safe_message message in
      (length kept ≤ max_safe_message_bytes) × ((kept ≡ m) ⊎ Shortened m kept)
unfolding normalize_safe_message
normalize_safe_message-cases message =
    let m = drop_controls (trim_space message) in
    elim (Bool-cases (leb (length m) max_safe_message_bytes)) [
      | inl short ↦ rw short (ground arith, inl refl)
      | inr long ↦
          let fits : max_safe_message_bytes ≤ length m = ground arith in
          rw long (
            length-longest_valid-le max_safe_message_bytes m fits,
            inr (record {
              is_utf8 = valid_string-longest_valid max_safe_message_bytes m;
              begins = longest_valid-Begins max_safe_message_bytes m;
              longest = λ k h v. le-length-longest_valid max_safe_message_bytes k m h fits v;
            }),
          )
    ]

-- A stored message has at most 1024 bytes and no controls but line feeds and tabs. It is the trimmed
-- message without its other controls and with U+FFFD for each byte that is of no rune, or, where
-- that is too long, its longest beginning within the limit that is valid UTF-8.
pub normalize_safe_message_lem :
    (message : Text)
    → let m = drop_controls (trim_space message) in
      let kept = normalize_safe_message message in
      (length kept ≤ max_safe_message_bytes)
      × (contains_func is_dropped kept ≡ false)
      × ((kept ≡ m) ⊎ Shortened m kept)
normalize_safe_message_lem message =
    let (fits, why) = normalize_safe_message-cases message in
    let clean = drop_controls-kept (trim_space message) in
    (
      fits,
      elim why [
        | inl e ↦ ap (contains_func is_dropped) e ∙ clean
        | inr h ↦
            append-kept (normalize_safe_message message) h.begins.rest
              (ap (contains_func is_dropped) h.begins.joined ∙ clean)
      ],
      why,
    )
