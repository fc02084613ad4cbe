-- ===== src/Adapter/Delivery/Answered.antt =====
-- internal/adapter/server.go, handleDelivery: the answer to a delivery that Telegram takes.
use orka_gateway_telegram.Prelude.{
  ◌≡◌, refl, sym, subst, ◌∷◌, Bool, true, false, Option, some, List, [], arith, Text,
}
use orka_gateway_telegram.Store.Types.{Result, ok, err, delivered, DeliveryRecord, Time}
use orka_gateway_telegram.Store.Table.{Text-key, find}
use orka_gateway_telegram.Store.Db.{Db}
use orka_gateway_telegram.Store.Normalize.{normalize_digest, normalize_provider_message_id}
use orka_gateway_telegram.Store.Query.{get_provider_cooldown}
use orka_gateway_telegram.Store.Deliveries.{
  is_before, millis, new_row, idempotency_row, begin_delivery_with_idempotency,
}
use orka_gateway_telegram.Store.Completion.{mark_delivery_delivered}
use orka_gateway_telegram.Store.Fresh.{Fresh, create_or_begin_delivery-Fresh-stored}
use orka_gateway_telegram.Store.Delivered.{Recorded, mark_delivery_delivered-stored}
use orka_gateway_telegram.Store.History.{run}
use orka_gateway_telegram.Telegram.ReplyTarget.{ReplyTarget, parse_reply_target}
use orka_gateway_telegram.Protocol.Types.{DeliveryRequest, DeliveryStatus}
use orka_gateway_telegram.Telegram.Client.{ResultClass}
use orka_gateway_telegram.Protocol.Validate.{decode_delivery_request}
use orka_gateway_telegram.Adapter.Http.{Reader, read_bounded_body}
use orka_gateway_telegram.Adapter.Delivery.{
  Config, Environment, replay_delivery, persist_send_result, persisted, begun, valid_delivery_route,
  execute, legacy_digest, logical_digest, claim, gated, deliver, handle_delivery,
}
use orka_gateway_telegram.Adapter.Delivery.Progress.{
  decoded-identities, IsDigest, inspect-Fresh, claim-Fresh,
}

persisted-delivered :
    (calls : List (ReplyTarget × Text)) (pid : Text) (r : DeliveryRecord)
    (x : Result DeliveryRecord × Db)
    → x.0 ≡ ok r
    → r.state ≡ delivered
    → r.provider_message_id ≡ pid
    → ((persisted calls x).response.status ≡ DeliveryStatus.delivered)
      × ((persisted calls x).response.provider_message_id ≡ pid)
      × ((persisted calls x).db ≡ x.1)
unfolding replay_delivery
persisted-delivered calls pid r (ok r', db) e s p = (ground arith, ground arith, refl)
persisted-delivered calls pid r (err _, db) e s p = cc

begun-delivered :
    (cfg : Config) (env : Environment) (r : DeliveryRequest) (digest : Text)
    (record' : DeliveryRecord) (target : ReplyTarget) (pid : Text)
    (x : Result (DeliveryRecord × Bool) × Db)
    → parse_reply_target r.reply_target cfg.conformance_chat_id ≡ some target
    → valid_delivery_route cfg r target ≡ true
    → x.0 ≡ ok (record', true)
    → env.sending_meanwhile ≡ []
    → (env.send target r.text).result.classification ≡ ResultClass.delivered
    → ((stored : DeliveryRecord) × ((mark_delivery_delivered env.mark_call record'.delivery_id
            digest
            (env.send target r.text).result.provider_message_id
            x.1).0
          ≡ ok stored)
        × (stored.state ≡ delivered)
        × (stored.provider_message_id ≡ pid)
        × Recorded record'.delivery_id pid
            (mark_delivery_delivered env.mark_call record'.delivery_id digest
              (env.send target r.text).result.provider_message_id
              x.1).1)
    → ((begun cfg env r digest x).response.status ≡ DeliveryStatus.delivered)
      × ((begun cfg env r digest x).response.provider_message_id ≡ pid)
      × Recorded record'.delivery_id pid (begun cfg env r digest x).db
unfolding execute persist_send_result run
begun-delivered cfg env r digest record' target pid (ok (_, false), db) parsed routed e q c m = cc
begun-delivered cfg env r digest record' target pid (err _, db) parsed routed e q c m = cc
begun-delivered cfg env r digest record' target pid (ok (record'', true), db) parsed routed e quiet
      class (stored, m, s, p, kept) =
    let same : record''.delivery_id ≡ record'.delivery_id = ground arith in
    rw (parsed, routed, quiet, class, same)
      (let (a, b, c) = persisted-delivered ((target, r.text) ∷ []) pid stored _ m s p in
        (a, b, subst (Recorded record'.delivery_id pid) (sym c) kept))

logical_digest-ok :
    (decode : Text → Option DeliveryRequest) (digest_of : DeliveryRequest → Text)
    (r : DeliveryRequest)
    → IsDigest digest_of
    → normalize_digest (logical_digest decode digest_of r) ≡ ok (logical_digest decode digest_of r)
unfolding logical_digest
logical_digest-ok decode digest_of r hex = hex (record r { delivery_id = r.idempotency_id })

module _ (decode : Text → Option DeliveryRequest) (digest_of : DeliveryRequest → Text)
    (cfg : Config) (env : Environment) (body : Text) (db : Db) where
  claim-Fresh-stored :
      (db' : Db) (r : DeliveryRequest) (cooldown : Time)
      → IsDigest digest_of
      → decode_delivery_request decode body ≡ some r
      → Fresh r.delivery_id r.idempotency_id db'
      → env.begin_call.sqlite_ok ≡ true
      → get_provider_cooldown db' ≡ ok cooldown
      → is_before env.begin_call.now cooldown ≡ false
      → (find r.delivery_id (claim decode digest_of env.begin_call r db').1.deliveries
          ≡ some (
              new_row
                (legacy_digest decode digest_of r)
                false
                env.begin_call.now
                (millis cooldown)))
        × (find r.delivery_id (claim decode digest_of env.begin_call r db').1.idempotency
            ≡ some (idempotency_row r.idempotency_id (logical_digest decode digest_of r)))
  unfolding claim begin_delivery_with_idempotency logical_digest legacy_digest
  claim-Fresh-stored db' r cooldown hex decoded f served c now =
      let (d, i) = decoded-identities decode body r decoded in
      create_or_begin_delivery-Fresh-stored env.begin_call r.delivery_id r.idempotency_id _ _ db' _
        _ _ _ cooldown d i (hex (record r { delivery_id = r.idempotency_id })) (hex r) served f c
        now

  -- A valid delivery that the store does not know, also after the calls that it serves while the
  -- delivery waits, is answered as delivered, with the ID of the message, and the database is
  -- left with it as delivered and with that ID, if its target is parsed and routed, the gate is
  -- acquired, SQLite serves the three calls, the bot's cooldown does not lie in the future, the
  -- digests are in their normal form, no call reaches the store while Telegram answers, and
  -- Telegram takes the message and gives an ID for it that the store accepts.
  pub handle_delivery-delivered :
      (reader : Reader) (r : DeliveryRequest) (target : ReplyTarget) (cooldown : Time) (pid : Text)
      → IsDigest digest_of
      → read_bounded_body reader cfg.max_delivery_body_bytes ≡ some body
      → decode_delivery_request decode body ≡ some r
      → parse_reply_target r.reply_target cfg.conformance_chat_id ≡ some target
      → valid_delivery_route cfg r target ≡ true
      → env.acquired ≡ true
      → env.inspect_call.sqlite_ok ≡ true
      → env.begin_call.sqlite_ok ≡ true
      → env.mark_call.sqlite_ok ≡ true
      → Fresh r.delivery_id r.idempotency_id db
      → Fresh r.delivery_id r.idempotency_id (run env.waiting db)
      → get_provider_cooldown (run env.waiting db) ≡ ok cooldown
      → is_before env.begin_call.now cooldown ≡ false
      → env.sending_meanwhile ≡ []
      → (env.send target r.text).result.classification ≡ ResultClass.delivered
      → normalize_provider_message_id (env.send target r.text).result.provider_message_id ≡ ok pid
      → ((handle_delivery decode digest_of cfg env reader db).response.status
          ≡ DeliveryStatus.delivered)
        × ((handle_delivery decode digest_of cfg env reader db).response.provider_message_id ≡ pid)
        × Recorded r.delivery_id pid (handle_delivery decode digest_of cfg env reader db).db
  unfolding handle_delivery deliver gated execute
  handle_delivery-delivered reader r target cooldown pid hex within decoded parsed routed acquired
        s₁ s₂ s₃ f g c now quiet class np =
      let i = inspect-Fresh decode digest_of cfg env body db r hex decoded f s₁ in
      let x = claim decode digest_of env.begin_call r (run env.waiting db) in
      let (a, b) = claim-Fresh-stored (run env.waiting db) r cooldown hex decoded g s₂ c now in
      let id = (decoded-identities decode body r decoded).0 in
      let marked =
        mark_delivery_delivered-stored env.mark_call r.delivery_id x.1 _ _ r.delivery_id
          (logical_digest decode digest_of r) _ pid id (logical_digest-ok decode digest_of r hex) np
          s₃ a b refl in
      let answered =
        begun-delivered cfg env r (logical_digest decode digest_of r) _ target pid x parsed routed
          (claim-Fresh decode digest_of cfg env body db (run env.waiting db) r cooldown hex decoded
            g s₂ c now)
          quiet class marked in
      rw (within, decoded, i, acquired) answered
