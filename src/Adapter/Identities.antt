-- ===== src/Adapter/Identities.antt =====
-- internal/telegram/mapping.go and internal/protocol/validate.go: the identities of a mapped event.
use orka_gateway_telegram.Prelude.{
  ◌≤◌, ◌≡◌, ◌≢◌, sym, ap, true, [], ◌∷◌, ◌++◌, bytes, length, arith, subst, some,
}
use orka_gateway_telegram.Prelude.Int.{ℤ}
use orka_gateway_telegram.Text.Decimal.{format_int}
use orka_gateway_telegram.Text.Decimal.RoundTrip.{InRange, length-format_int, format_int-IntByte}
use orka_gateway_telegram.Text.Plain.{All, All-append, Plain}
use orka_gateway_telegram.Text.Trim.{length-append}
use orka_gateway_telegram.Text.Runes.{Unicode}
use orka_gateway_telegram.Protocol.Types.{EventEnvelope}
use orka_gateway_telegram.Protocol.Validate.{validate_required_identity}
use orka_gateway_telegram.Protocol.Identity.{validate_required_identity-Plain}
use orka_gateway_telegram.Telegram.ReplyTarget.{ReplyTarget, to_text, format_reply_target}
use orka_gateway_telegram.Telegram.ReplyTarget.RoundTrip.{InRanges, to_text-Plain, format_int-Plain}
use orka_gateway_telegram.Telegram.Update.{Update, User, Message, body}
use orka_gateway_telegram.Telegram.Mapping.{event, event_of, map_update}
use orka_gateway_telegram.Telegram.Mapping.Fields.{map_update-Accepted}
use orka_gateway_telegram.Adapter.Routing.{target_of}

number-identity : (v : ℤ) → InRange v → validate_required_identity (format_int v) ≡ true
number-identity v h =
    let (c, s, e, a) = format_int-IntByte v h in
    let le = length-format_int v in
    validate_required_identity-Plain (format_int v) (λ k. cc) (format_int-Plain v h) (omega arith)

event_identity :
    (bot_id update_id : ℤ)
    → InRange bot_id
    → InRange update_id
    → validate_required_identity
        (bytes "telegram:" ++ (format_int bot_id ++ b':' ∷ format_int update_id))
      ≡ true
event_identity bot_id update_id h k =
    let prefix : All Plain (bytes "telegram:") = ground arith in
    let colon : Plain b':' = (omega arith, omega arith) in
    let rest = b':' ∷ format_int update_id in
    let numbers =
      All-append Plain (format_int bot_id) rest (format_int-Plain bot_id h)
        (colon, format_int-Plain update_id k) in
    let a = length-format_int bot_id in
    let b = length-format_int update_id in
    let c = length-append (format_int bot_id) rest in
    validate_required_identity-Plain (bytes "telegram:" ++ (format_int bot_id ++ rest)) (λ k. cc)
      (All-append Plain (bytes "telegram:") (format_int bot_id ++ rest) prefix numbers)
      (omega arith)

length-to_text : (t : ReplyTarget) → length (to_text t) ≤ 100
unfolding to_text
length-to_text t =
    let a = length-format_int t.chat_id in
    let b = length-format_int t.thread_id in
    let c = length-format_int t.message_id in
    let rest = b':' ∷ format_int t.message_id in
    let d = length-append (format_int t.thread_id) rest in
    let e = length-append (format_int t.chat_id) (b':' ∷ (format_int t.thread_id ++ rest)) in
    omega arith

to_text-ne : (t : ReplyTarget) → to_text t ≢ []
unfolding to_text
to_text-ne t h = cc

target_identity : (t : ReplyTarget) → InRanges t → validate_required_identity (to_text t) ≡ true
target_identity t h =
    let le = length-to_text t in
    validate_required_identity-Plain (to_text t) (to_text-ne t) (to_text-Plain t h) (omega arith)

-- The identities that a delivery request takes from an event, and the sender's, pass the check that
-- the adapter makes of the identities of a delivery request: this holds of an event that MapUpdate
-- makes from a message and its sender, where the IDs are int64 values.
pub map_update-validate_required_identity :
    (u : Unicode) (bot_id : ℤ) (update : Update) (ev : EventEnvelope) (m : Message) (from : User)
    → map_update u bot_id update ≡ event ev
    → update.message ≡ some m
    → (body m).from ≡ some from
    → InRange bot_id
    → InRange update.update_id
    → InRange from.id
    → InRanges (target_of m)
    → (validate_required_identity ev.external_event_id ≡ true)
      × (validate_required_identity ev.account_id ≡ true)
      × (validate_required_identity ev.context_id ≡ true)
      × (validate_required_identity ev.sender.id ≡ true)
      × (validate_required_identity ev.reply_target ≡ true)
unfolding event_of format_reply_target
map_update-validate_required_identity u bot_id update ev m from h has sent inb inu inf int =
    let (a, same) = map_update-Accepted u bot_id update ev h in
    let e : a.message ≡ m = ground (arith, a.has_message) in
    let f : a.from ≡ from = ground (arith, a.has_from) in
    let (inc, ink, inm) = int in
    (
      subst (λ s. validate_required_identity s ≡ true) (ap (λ v. v.external_event_id) (sym same))
          (event_identity bot_id update.update_id inb inu),
      subst (λ s. validate_required_identity s ≡ true) (ap (λ v. v.account_id) (sym same))
          (number-identity bot_id inb),
      rw (same, e) (number-identity (body m).chat.id inc),
      rw (same, f) (number-identity from.id inf),
      rw (same, e) (target_identity (target_of m) int),
    )
