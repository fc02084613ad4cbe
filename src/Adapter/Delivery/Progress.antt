-- ===== src/Adapter/Delivery/Progress.antt =====
-- internal/adapter/server.go, handleDelivery: a delivery that the store does not know.
use orka_gateway_telegram.Prelude.{
  ◌≡◌, refl, Bool, true, false, Option, none, some, List, [], ◌∷◌, arith, Text,
}
use orka_gateway_telegram.Text.Utf8.{is_control, contains_func}
use orka_gateway_telegram.Store.Types.{Result, ok, err, DeliveryRecord, Time}
use orka_gateway_telegram.Store.Table.{Text-key}
use orka_gateway_telegram.Store.Db.{Db}
use orka_gateway_telegram.Store.Exec.{lift, query, ◌>>=◌}
use orka_gateway_telegram.Store.Normalize.{normalize_identity, normalize_digest}
use orka_gateway_telegram.Store.Query.{get_provider_cooldown}
use orka_gateway_telegram.Store.Deliveries.{
  is_before, millis, new_record, begin_delivery_with_idempotency,
}
use orka_gateway_telegram.Store.Completion.{
  read_only, inspected, inspect_query, inspect_delivery_with_idempotency,
}
use orka_gateway_telegram.Store.Fresh.{
  Fresh, resolve_delivery-Fresh, create_or_begin_delivery-Fresh,
}
use orka_gateway_telegram.Store.History.{run}
use orka_gateway_telegram.Telegram.ReplyTarget.{ReplyTarget, parse_reply_target}
use orka_gateway_telegram.Protocol.Types.{DeliveryRequest}
use orka_gateway_telegram.Protocol.Validate.{
  is_unsafe, contains_unsafe_control, validate_required_identity, validate_delivery_request,
  decode_delivery_request,
}
use orka_gateway_telegram.Adapter.Http.{Reader, read_bounded_body}
use orka_gateway_telegram.Adapter.Delivery.{
  Config, Environment, persisted, begun, valid_delivery_route, execute, legacy_digest,
  logical_digest, claim, gated, deliver, handle_delivery,
}

contains_func-is_unsafe :
    (s : Text) → contains_func (is_unsafe false) s ≡ contains_func is_control s
unfolding contains_func is_unsafe
contains_func-is_unsafe [] = refl
contains_func-is_unsafe (b ∷ s) = ground (arith, contains_func-is_unsafe s)

-- An identity that a request may have is stored as it is.
validate_required_identity-normalize_identity :
    (v : Text) → validate_required_identity v ≡ true → normalize_identity v ≡ ok v
unfolding validate_required_identity normalize_identity contains_unsafe_control
validate_required_identity-normalize_identity v h = ground (arith, contains_func-is_unsafe v)

pub decoded-identities :
    (decode : Text → Option DeliveryRequest) (body : Text) (r : DeliveryRequest)
    → decode_delivery_request decode body ≡ some r
    → (normalize_identity r.delivery_id ≡ ok r.delivery_id)
      × (normalize_identity r.idempotency_id ≡ ok r.idempotency_id)
unfolding decode_delivery_request validate_delivery_request
decoded-identities decode body r h = (
  validate_required_identity-normalize_identity r.delivery_id (ground arith),
  validate_required_identity-normalize_identity r.idempotency_id (ground arith),
)

-- What SHA-256 in hexadecimal digits gives is a digest in its normal form.
abbrev pub IsDigest : (DeliveryRequest → Text) → Type 0
IsDigest digest_of = (r : DeliveryRequest) → normalize_digest (digest_of r) ≡ ok (digest_of r)

persisted-calls :
    (calls : List (ReplyTarget × Text)) (x : Result DeliveryRecord × Db)
    → (persisted calls x).calls ≡ calls
persisted-calls calls (ok r, db) = refl
persisted-calls calls (err e, db) = refl

begun-sends :
    (cfg : Config) (env : Environment) (r : DeliveryRequest) (digest : Text)
    (record' : DeliveryRecord) (target : ReplyTarget) (x : Result (DeliveryRecord × Bool) × Db)
    → parse_reply_target r.reply_target cfg.conformance_chat_id ≡ some target
    → valid_delivery_route cfg r target ≡ true
    → x.0 ≡ ok (record', true)
    → (begun cfg env r digest x).calls ≡ (target, r.text) ∷ []
unfolding execute
begun-sends cfg env r digest record' target (ok (record'', false), db) parsed routed e = cc
begun-sends cfg env r digest record' target (err _, db) parsed routed e = cc
begun-sends cfg env r digest record' target (ok (record'', true), db) parsed routed e =
    rw (parsed, routed) (persisted-calls _ _)

module _ (decode : Text → Option DeliveryRequest) (digest_of : DeliveryRequest → Text)
    (cfg : Config) (env : Environment) (body : Text) (db : Db) where
  pub inspect-Fresh :
      (r : DeliveryRequest)
      → IsDigest digest_of
      → decode_delivery_request decode body ≡ some r
      → Fresh r.delivery_id r.idempotency_id db
      → env.inspect_call.sqlite_ok ≡ true
      → inspect_delivery_with_idempotency env.inspect_call r.delivery_id r.idempotency_id
          (logical_digest decode digest_of r)
          (legacy_digest decode digest_of r)
          db
        ≡ (ok none, db)
  unfolding inspect_delivery_with_idempotency read_only inspected inspect_query lift query ◌>>=◌
      logical_digest legacy_digest
  inspect-Fresh r hex decoded f served =
      let (d, i) = decoded-identities decode body r decoded in
      let found = resolve_delivery-Fresh r.delivery_id r.idempotency_id db f in
      let rd = hex (record r { delivery_id = r.idempotency_id }) in
      let ld = hex r in ground (arith, d, i, rd, ld, served, found)

  pub claim-Fresh :
      (db' : Db) (r : DeliveryRequest) (cooldown : Time)
      → IsDigest digest_of
      → decode_delivery_request decode body ≡ some r
      → Fresh r.delivery_id r.idempotency_id db'
      → env.begin_call.sqlite_ok ≡ true
      → get_provider_cooldown db' ≡ ok cooldown
      → is_before env.begin_call.now cooldown ≡ false
      → (claim decode digest_of env.begin_call r db').0
        ≡ ok (
          new_record r.delivery_id r.idempotency_id
              (logical_digest decode digest_of r)
              (legacy_digest decode digest_of r)
              false
              env.begin_call.now
              (millis cooldown),
          true,
        )
  unfolding claim begin_delivery_with_idempotency logical_digest legacy_digest
  claim-Fresh db' r cooldown hex decoded f served c now =
      let (d, i) = decoded-identities decode body r decoded in
      create_or_begin_delivery-Fresh env.begin_call r.delivery_id r.idempotency_id _ _ db' _ _ _ _
        cooldown d i (hex (record r { delivery_id = r.idempotency_id })) (hex r) served f c now

  -- A valid delivery that the store does not know goes to Telegram, once and with its text, if its
  -- target is parsed and routed, the gate is acquired, SQLite serves the two calls before the send,
  -- the bot's cooldown does not lie in the future, and the digests are in their normal form. The
  -- delivery is to be unknown also after the calls that the store serves while it waits.
  pub handle_delivery-sends :
      (reader : Reader) (r : DeliveryRequest) (target : ReplyTarget) (cooldown : Time)
      → IsDigest digest_of
      → read_bounded_body reader cfg.max_delivery_body_bytes ≡ some body
      → decode_delivery_request decode body ≡ some r
      → parse_reply_target r.reply_target cfg.conformance_chat_id ≡ some target
      → valid_delivery_route cfg r target ≡ true
      → env.acquired ≡ true
      → env.inspect_call.sqlite_ok ≡ true
      → env.begin_call.sqlite_ok ≡ true
      → Fresh r.delivery_id r.idempotency_id db
      → Fresh r.delivery_id r.idempotency_id (run env.waiting db)
      → get_provider_cooldown (run env.waiting db) ≡ ok cooldown
      → is_before env.begin_call.now cooldown ≡ false
      → (handle_delivery decode digest_of cfg env reader db).calls ≡ (target, r.text) ∷ []
  unfolding handle_delivery deliver gated execute
  handle_delivery-sends reader r target cooldown hex within decoded parsed routed acquired s₁ s₂ f g
        c now =
      let i = inspect-Fresh r hex decoded f s₁ in
      let sent =
        begun-sends cfg env r (logical_digest decode digest_of r) _ target
          (claim decode digest_of env.begin_call r (run env.waiting db)) parsed routed
          (claim-Fresh (run env.waiting db) r cooldown hex decoded g s₂ c now) in
      rw (within, decoded, i, acquired) sent
