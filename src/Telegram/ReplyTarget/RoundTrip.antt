-- ===== src/Telegram/ReplyTarget/RoundTrip.antt =====
-- internal/telegram/reply_target.go: reading what String prints.
use orka_gateway_telegram.Prelude.{
  ℕ, ◌≡◌, refl, sym, ap, subst, ◌∙◌, false, none, some, [], ◌∷◌, ◌++◌, Text, Text-discrete, bytes,
  eqb, ◌==◌, ==-refl, arith,
}
use orka_gateway_telegram.Prelude.Int.{ℤ}
use orka_gateway_telegram.Text.Space.{trim_space}
use orka_gateway_telegram.Text.Split.{split}
use orka_gateway_telegram.Text.Plain.{
  All, All-append, All-map, Plain, trim_space-Plain, split-part, split_one,
}
use orka_gateway_telegram.Text.Decimal.{format_int, parse_int}
use orka_gateway_telegram.Text.Decimal.RoundTrip.{
  InRange, IntByte, format_int-IntByte, parse_int-format_int,
}
use orka_gateway_telegram.Telegram.ReplyTarget.{
  ReplyTarget, reply_target_prefix, conformance_reply_target, to_text, validate, starts_with_plus,
  parse_canonical_int64, checked, parse_parts, parse_reply_target,
}

IntByte-Plain : (b : ℕ) → IntByte b → Plain b
IntByte-Plain b h = (omega arith, omega arith)

IntByte-not_colon : (b : ℕ) → IntByte b → eqb b b':' ≡ false
IntByte-not_colon b h = ground arith

format_int-All : (v : ℤ) → InRange v → All IntByte (format_int v)
format_int-All v h = let (c, s, e, a) = format_int-IntByte v h in subst (All IntByte) (sym e) a

pub format_int-Plain : (v : ℤ) → InRange v → All Plain (format_int v)
format_int-Plain v h = All-map IntByte Plain IntByte-Plain (format_int v) (format_int-All v h)

format_int-not_colon : (v : ℤ) → InRange v → All (λ b. eqb b b':' ≡ false) (format_int v)
format_int-not_colon v h =
    All-map IntByte (λ b. eqb b b':' ≡ false) IntByte-not_colon (format_int v) (format_int-All v h)

canonical_of :
    (value : Text) (v : ℤ)
    → (value == []) ≡ false
    → starts_with_plus value ≡ false
    → trim_space value ≡ value
    → parse_int value ≡ some v
    → format_int v ≡ value
    → parse_canonical_int64 value ≡ some v
unfolding parse_canonical_int64
canonical_of value v ne plus trimmed parsed printed =
    rw (ne, plus, trimmed, parsed) (rw (==-refl value) (rw printed (rw (==-refl value) refl)))

not_empty : (value : Text) (c : ℕ) (s : Text) → value ≡ c ∷ s → (value == []) ≡ false
not_empty value c s h = ground arith

not_plus :
    (value : Text) (c : ℕ) (s : Text) → value ≡ c ∷ s → IntByte c → starts_with_plus value ≡ false
unfolding starts_with_plus
not_plus value c s h k = rw h (ground arith)

pub parse_canonical_int64-format_int :
    (v : ℤ) → InRange v → parse_canonical_int64 (format_int v) ≡ some v
parse_canonical_int64-format_int v h =
    let (c, s, e, a) = format_int-IntByte v h in
    canonical_of (format_int v) v (not_empty (format_int v) c s e)
      (not_plus (format_int v) c s e a.0) (trim_space-Plain (format_int v) (format_int-Plain v h))
      (parse_int-format_int v h) refl

-- The fields of a target are int64 values.
abbrev pub InRanges : ReplyTarget → Type 0
InRanges t = InRange t.chat_id × InRange t.thread_id × InRange t.message_id

pub to_text-Plain : (t : ReplyTarget) → InRanges t → All Plain (to_text t)
unfolding to_text
to_text-Plain t (h, k, l) =
    let colon : Plain b':' = (omega arith, omega arith) in
    let prefix : All Plain reply_target_prefix = ground arith in
    let rest = b':' ∷ (format_int t.thread_id ++ b':' ∷ format_int t.message_id) in
    let numbers = format_int t.chat_id ++ rest in
    let message : All Plain (b':' ∷ format_int t.message_id) =
      (colon, format_int-Plain t.message_id l) in
    let thread : All Plain rest = (
      colon,
      All-append Plain (format_int t.thread_id) (b':' ∷ format_int t.message_id)
          (format_int-Plain t.thread_id k) message,
    ) in
    All-append Plain reply_target_prefix numbers prefix
      (All-append Plain (format_int t.chat_id) rest (format_int-Plain t.chat_id h) thread)

split-to_text :
    (t : ReplyTarget)
    → InRanges t
    → split b':' (to_text t)
      ≡ bytes "tg"
        ∷ bytes "v1"
        ∷ format_int t.chat_id
        ∷ format_int t.thread_id
        ∷ format_int t.message_id
        ∷ []
unfolding to_text
split-to_text t (h, k, l) =
    let message = split_one b':' (format_int t.message_id) (format_int-not_colon t.message_id l) in
    let thread =
      split-part b':' (format_int t.thread_id) (format_int t.message_id)
        (format_int-not_colon t.thread_id k) in
    let chat =
      split-part b':' (format_int t.chat_id)
        (format_int t.thread_id ++ b':' ∷ format_int t.message_id)
        (format_int-not_colon t.chat_id h) in
    let numbers =
      format_int t.chat_id ++ b':' ∷ (format_int t.thread_id ++ b':' ∷ format_int t.message_id) in
    split-part b':' (bytes "tg") (bytes "v1" ++ b':' ∷ numbers) (refl, (refl, tt))
    ∙ ap (◌∷◌ (bytes "tg")) (
        split-part b':' (bytes "v1") numbers (refl, (refl, tt))
        ∙ ap (◌∷◌ (bytes "v1")) (
            chat
            ∙ ap (◌∷◌ (format_int t.chat_id)) (thread ∙ ap (◌∷◌ (format_int t.thread_id)) message)))

pub to_text-not_conformance : (t : ReplyTarget) → (to_text t == conformance_reply_target) ≡ false
unfolding to_text
to_text-not_conformance t = ground arith

parse_parts-valid :
    (t : ReplyTarget)
    → InRanges t
    → validate t ≡ none
    → parse_parts (
        bytes "tg"
        ∷ bytes "v1"
        ∷ format_int t.chat_id
        ∷ format_int t.thread_id
        ∷ format_int t.message_id
        ∷ [])
      ≡ some t
unfolding parse_parts Text-discrete
parse_parts-valid t (h, k, l) valid =
    rw
      (
        parse_canonical_int64-format_int t.chat_id h,
        parse_canonical_int64-format_int t.thread_id k,
        parse_canonical_int64-format_int t.message_id l,
      )
      (rw (checked, valid) refl)

-- A target that Validate accepts, with fields in the range of int64, is read back from its printed
-- form, whatever chat the conformance target stands for.
pub parse_reply_target-to_text :
    (t : ReplyTarget) (conformance : ℤ)
    → InRanges t
    → validate t ≡ none
    → parse_reply_target (to_text t) conformance ≡ some t
unfolding parse_reply_target
parse_reply_target-to_text t conformance h valid =
    rw
      (
        trim_space-Plain (to_text t) (to_text-Plain t h),
        to_text-not_conformance t,
        split-to_text t h,
      )
      (parse_parts-valid t h valid)
