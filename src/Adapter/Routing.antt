-- ===== src/Adapter/Routing.antt =====
-- internal/telegram/mapping.go, reply_target.go and internal/adapter/server.go: the reply to a
-- mapped event.
use orka_gateway_telegram.Prelude.{
  ℕ, zero, suc, ◌≡◌, refl, ◌∙◌, true, false, none, some, [], arith, ◌==◌, ==-refl, if◌then◌else◌,
}
use orka_gateway_telegram.Prelude.Int.{
  ℤ, ℤ-discrete, pos, negsuc, same_int, is_negative, is_not_positive,
}
use orka_gateway_telegram.Text.Decimal.{format_int}
use orka_gateway_telegram.Text.Decimal.RoundTrip.{InRange}
use orka_gateway_telegram.Text.Runes.{Unicode}
use orka_gateway_telegram.Protocol.Types.{EventEnvelope, DeliveryRequest}
use orka_gateway_telegram.Telegram.ReplyTarget.{
  ReplyTarget, conformance_reply_target, to_text, validate, format_reply_target, parse_reply_target,
}
use orka_gateway_telegram.Telegram.ReplyTarget.RoundTrip.{
  to_text-not_conformance, parse_reply_target-to_text,
}
use orka_gateway_telegram.Telegram.Update.{Update, Message, body}
use orka_gateway_telegram.Telegram.Mapping.{event, event_of, map_update}
use orka_gateway_telegram.Telegram.Mapping.Fields.{map_update-Accepted}
use orka_gateway_telegram.Adapter.Delivery.{Config, valid_delivery_route}

-- The chat, the thread and the message that a reply to the message goes to.
abbrev pub target_of : Message → ReplyTarget
target_of m = record {
  chat_id = (body m).chat.id;
  thread_id = (body m).message_thread_id;
  message_id = (body m).message_id;
}

positive-not_negative : (v : ℤ) → is_not_positive v ≡ false → is_negative v ≡ false
positive-not_negative (pos n) h = refl
positive-not_negative (negsuc n) h = cc

target_of-valid :
    (m : Message)
    → same_int (body m).chat.id (pos 0) ≡ false
    → is_negative (body m).message_thread_id ≡ false
    → is_not_positive (body m).message_id ≡ false
    → validate (target_of m) ≡ none
unfolding validate
target_of-valid m a b c = rw (a, b, positive-not_negative (body m).message_id c) refl

same_zero : same_int (pos 0) (pos 0) ≡ true
unfolding ℤ-discrete
same_zero = refl

same_suc : (n : ℕ) → same_int (pos (suc n)) (pos 0) ≡ false
unfolding ℤ-discrete
same_suc n = ground arith

same_thread :
    (v : ℤ)
    → is_negative v ≡ false
    → (if is_not_positive v then [] else format_int v)
      ≡ (if same_int v (pos 0) then [] else format_int v)
same_thread (pos zero) h = rw (same_zero) refl
same_thread (pos (suc n)) h = rw (same_suc n) refl
same_thread (negsuc n) h = cc

route-target :
    (cfg : Config) (r : DeliveryRequest) (t : ReplyTarget)
    → r.account_id ≡ format_int cfg.bot_id
    → r.context_id ≡ format_int t.chat_id
    → r.thread_id ≡ (if same_int t.thread_id (pos 0) then [] else format_int t.thread_id)
    → (r.reply_target == conformance_reply_target) ≡ false
    → valid_delivery_route cfg r t ≡ true
unfolding valid_delivery_route
route-target cfg r t a c th n =
    rw (n, a, c, th)
      (rw (==-refl (format_int cfg.bot_id), ==-refl (format_int t.chat_id)) (==-refl _))

module _ (u : Unicode) (cfg : Config) (update : Update) (ev : EventEnvelope) (m : Message) where
  -- The reply target of an event that MapUpdate makes from a message, whose chat, thread and message
  -- IDs are int64 values and whose thread ID is not negative, parses to that chat, thread and
  -- message. A delivery request with the account, the context, the thread and the reply target of
  -- the event passes the route check against it.
  pub map_update-valid_delivery_route :
      (r : DeliveryRequest)
      → map_update u cfg.bot_id update ≡ event ev
      → update.message ≡ some m
      → InRange (body m).chat.id
      → InRange (body m).message_thread_id
      → InRange (body m).message_id
      → is_negative (body m).message_thread_id ≡ false
      → r.account_id ≡ ev.account_id
      → r.context_id ≡ ev.context_id
      → r.thread_id ≡ ev.thread_id
      → r.reply_target ≡ ev.reply_target
      → (parse_reply_target r.reply_target cfg.conformance_chat_id ≡ some (target_of m))
        × (valid_delivery_route cfg r (target_of m) ≡ true)
  unfolding event_of format_reply_target
  map_update-valid_delivery_route r h has inc int inm nn ra rc rt rr =
      let (a, same) = map_update-Accepted u cfg.bot_id update ev h in
      let e : a.message ≡ m = ground (arith, a.has_message) in
      let parts : r.reply_target ≡ to_text (target_of m) = ground (arith, same, e) in
      let ok =
        target_of-valid m (ground (arith, a.chat_not_zero)) nn
          (ground (arith, a.message_positive)) in
      (
        rw parts
            (parse_reply_target-to_text (target_of m) cfg.conformance_chat_id (inc, int, inm) ok),
        route-target cfg r (target_of m) (ground (arith, same)) (ground (arith, same, e))
            (rt ∙ ground (arith, same, e) ∙ same_thread (body m).message_thread_id nn)
            (rw parts (to_text-not_conformance (target_of m))),
      )
