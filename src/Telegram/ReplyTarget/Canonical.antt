-- ===== src/Telegram/ReplyTarget/Canonical.antt =====
-- internal/telegram/reply_target.go: the spelling of a reply target.
use orka_gateway_telegram.Prelude.{
  ◌≡◌, refl, ◌≢◌, not, ◌||◌, Option, none, some, List, [], ◌∷◌, Text, bytes, ◌==◌, Bool-cases, inl,
  inr, arith, ◌∙◌,
}
use orka_gateway_telegram.Prelude.Int.{ℤ}
use orka_gateway_telegram.Text.Space.{trim_space}
use orka_gateway_telegram.Text.Split.{split, join, join-split}
use orka_gateway_telegram.Text.Decimal.{format_int}
use orka_gateway_telegram.Telegram.ReplyTarget.{
  ReplyTarget, conformance_reply_target, to_text, validate, parse_canonical_int64, checked, ◌>>=◌,
  parse_parts, parse_reply_target,
}

format_int-parse_canonical_int64 :
    (value : Text) (n : ℤ) → parse_canonical_int64 value ≡ some n → format_int n ≡ value
unfolding parse_canonical_int64
format_int-parse_canonical_int64 value n h = ground arith

bind-eq-some :
    {A B : Type 0} (m : Option A) (f : A → Option B) (b : B)
    → (m >>= f) ≡ some b
    → (a : A) × (m ≡ some a) × (f a ≡ some b)
bind-eq-some none f b h = cc
bind-eq-some (some a) f b h = (a, refl, h)

checked_lem : (t u : ReplyTarget) → checked t ≡ some u → (t ≡ u) × (validate u ≡ none)
checked_lem t u h = ground arith

-- The number part of a target, once its two tags have been read.
numbers-canonical :
    (chat thread message : Text) (t : ReplyTarget)
    → (do
      chat_id ← parse_canonical_int64 chat
      thread_id ← parse_canonical_int64 thread
      message_id ← parse_canonical_int64 message
      checked (record { chat_id = chat_id; thread_id = thread_id; message_id = message_id }))
      ≡ some t
    → (format_int t.chat_id ≡ chat)
      × (format_int t.thread_id ≡ thread)
      × (format_int t.message_id ≡ message)
      × (validate t ≡ none)
numbers-canonical chat thread message t h =
    let (a, ea, h₁) = bind-eq-some (parse_canonical_int64 chat) _ t h in
    let (b, eb, h₂) = bind-eq-some (parse_canonical_int64 thread) _ t h₁ in
    let (c, ec, h₃) = bind-eq-some (parse_canonical_int64 message) _ t h₂ in
    let (same, ok) = checked_lem (record { chat_id = a; thread_id = b; message_id = c }) t h₃ in
    (
      ground (arith, same, format_int-parse_canonical_int64 chat a ea),
      ground (arith, same, format_int-parse_canonical_int64 thread b eb),
      ground (arith, same, format_int-parse_canonical_int64 message c ec),
      ok,
    )

parse_parts-canonical :
    (parts : List Text) (t : ReplyTarget)
    → parse_parts parts ≡ some t
    → (to_text t ≡ join b':' parts) × (validate t ≡ none)
unfolding parse_parts to_text join
parse_parts-canonical (tag ∷ version ∷ chat ∷ thread ∷ message ∷ []) t h =
    elim (Bool-cases (not (tag == bytes "tg") || not (version == bytes "v1"))) [
      | inl e ↦ ground arith
      | inr e ↦
          let (p, q, r, ok) = numbers-canonical chat thread message t (ground arith) in
          let tagged : tag ≡ bytes "tg" = ground arith in
          let versioned : version ≡ bytes "v1" = ground arith in
          (rw (p, q, r, tagged, versioned), ok)
    ]
parse_parts-canonical _ t h = cc

-- An accepted target other than the conformance target is, but for white space around it, what
-- String prints for the parsed target, and it passes Validate.
pub to_text-parse_reply_target :
    (value : Text) (conformance : ℤ) (t : ReplyTarget)
    → trim_space value ≢ conformance_reply_target
    → parse_reply_target value conformance ≡ some t
    → (to_text t ≡ trim_space value) × (validate t ≡ none)
unfolding parse_reply_target
to_text-parse_reply_target value conformance t ne h =
    let (p, ok) = parse_parts-canonical (split b':' (trim_space value)) t (ground arith) in
    (p ∙ join-split b':' (trim_space value), ok)
