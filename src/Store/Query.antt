-- ===== src/Store/Query.antt =====
-- The reading half of internal/store/deliveries.go: queries, which change nothing.
use orka_gateway_telegram.Prelude.{
  ℕ, zero, suc, Bool, true, false, not, ◌&&◌, ◌||◌, Option, none, some, Text, eqb, ◌==◌,
  if◌then◌else◌,
}
use orka_gateway_telegram.Store.Types.{
  not_found, digest_conflict, failure, Result, ok, err, Time, DeliveryRecord, valid,
  provider_cooldown_scope,
}
use orka_gateway_telegram.Store.Table.{Text-key, find}
use orka_gateway_telegram.Store.Db.{DeliveryRow, IdempotencyRow, Db}

infixl 5 ◌>>=◌
abbrev pub ◌>>=◌ {ℓ κ} : {A : Type ℓ} {B : Type κ} → Result A → (A → Result B) → Result B
ok a >>= f = f a
err e >>= f = err e

-- A column that holds 0 for no time.
unfoldable pub millis_time? : ℕ → Time
millis_time? zero = none
millis_time? (suc n) = some (suc n)

-- The row of the LEFT JOIN, with COALESCE for a delivery that has no idempotency row.
unfoldable pub joined : Text → DeliveryRow → Option IdempotencyRow → DeliveryRecord
joined id row none = record {
  delivery_id = id;
  idempotency_id = id;
  digest_version = 1;
  request_digest = row.request_digest;
  legacy_request_digest = row.request_digest;
  state = row.state;
  provider_message_id = row.provider_message_id;
  safe_message = row.safe_message;
  retry_not_before = millis_time? row.retry_not_before_ms;
  created_at = row.created_at_ms;
  updated_at = row.updated_at_ms;
}
joined id row (some i) = record {
  delivery_id = id;
  idempotency_id = i.idempotency_id;
  digest_version = i.digest_version;
  request_digest = i.request_digest;
  legacy_request_digest = row.request_digest;
  state = row.state;
  provider_message_id = row.provider_message_id;
  safe_message = row.safe_message;
  retry_not_before = millis_time? row.retry_not_before_ms;
  created_at = row.created_at_ms;
  updated_at = row.updated_at_ms;
}

unfoldable pub scan_delivery :
    Text → Option DeliveryRow → Option IdempotencyRow → Result DeliveryRecord
scan_delivery id none i = err not_found
scan_delivery id (some row) i = if valid row.state then ok (joined id row i) else err failure

unfoldable pub get_delivery : Text → Db → Result DeliveryRecord
get_delivery id db = scan_delivery id (find id db.deliveries) (find id db.idempotency)

unfoldable pub get_delivery_by_alias : Text → Db → Result DeliveryRecord
get_delivery_by_alias alias db = elim (find alias db.aliases) [
  | none ↦ err not_found
  | some id ↦ get_delivery id db
]

-- errors.Is(err, ErrNotFound) is no error here.
unfoldable pub if_found : Result DeliveryRecord → Result (Option DeliveryRecord)
if_found (ok r) = ok (some r)
if_found (err not_found) = ok none
if_found (err e) = err e

-- The record of either lookup; two different records are a conflict.
unfoldable pub agree :
    Option DeliveryRecord → Option DeliveryRecord → Result (Option DeliveryRecord)
agree (some a) (some b) =
    if a.delivery_id == b.delivery_id then ok (some a) else err digest_conflict
agree (some a) none = ok (some a)
agree none b = ok b

unfoldable pub get_delivery_by_identity : Text → Db → Result (Option DeliveryRecord)
get_delivery_by_identity identity db = do
  by_alias ← if_found (get_delivery_by_alias identity db)
  by_primary ← if_found (get_delivery identity db)
  agree by_alias by_primary

unfoldable pub resolve_delivery : Text → Text → Db → Result (Option DeliveryRecord)
resolve_delivery delivery_id idempotency_id db = do
  by_delivery ← get_delivery_by_identity delivery_id db
  by_idempotency ← get_delivery_by_identity idempotency_id db
  agree by_delivery by_idempotency

-- A zero time means that Telegram may be called. A cooldown that is not positive is refused.
unfoldable pub get_provider_cooldown : Db → Result Time
get_provider_cooldown db = elim (find provider_cooldown_scope db.cooldowns) [
  | none ↦ ok none
  | some ms ↦ if eqb ms 0 then err failure else ok (some ms)
]

-- The digest check of createOrBeginDelivery and InspectDeliveryWithIdempotency: the attempt itself
-- or the stable ID of a version 1 record, and the stored pair of a version 2 record.
unfoldable pub digest_matches : Text → Text → Text → Text → DeliveryRecord → Result Bool
digest_matches delivery_id idempotency_id request_digest legacy_request_digest r =
    if eqb r.digest_version 1
    then (let exact_attempt =
          r.delivery_id == delivery_id && r.legacy_request_digest == legacy_request_digest in
        let stable_replay =
          r.delivery_id == idempotency_id && r.legacy_request_digest == request_digest in
        if not exact_attempt && not stable_replay then err digest_conflict else ok true)
    else if eqb r.digest_version 2
    then (if not (r.idempotency_id == idempotency_id) || not (r.request_digest == request_digest)
        then err digest_conflict
        else ok false)
    else err failure
