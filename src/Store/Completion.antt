-- ===== src/Store/Completion.antt =====
-- internal/store/deliveries.go: the result of a send (UpdateDelivery and the Mark methods), the
-- read-only methods, and the recovery of store.go when a database is opened.
use orka_gateway_telegram.Prelude.{
  ℕ, zero, suc, Bool, true, false, not, ◌&&◌, ◌||◌, Option, none, some, [], Text, eqb, ◌==◌,
  if◌then◌else◌,
}
use orka_gateway_telegram.Store.Types.{
  not_found, digest_conflict, invalid_argument, invalid_transition, failure, Result, ok, err, Time,
  DeliveryState, sending, retryable, delivered, permanent, unknown, same_state, valid,
  DeliveryRecord, Call, delivery_outcome_unknown_message,
}
use orka_gateway_telegram.Store.Table.{Text-key, modify_all}
use orka_gateway_telegram.Store.Db.{DeliveryRow, Db}
use orka_gateway_telegram.Store.Exec.{Exec, pure, raise, lift, query, transaction, ◌>>=◌, ◌>>◌}
use orka_gateway_telegram.Store.Normalize.{
  normalize_identity, normalize_digest, normalize_provider_message_id, normalize_safe_message,
}
use orka_gateway_telegram.Store.Query.{
  millis_time?, get_delivery, get_delivery_by_identity, resolve_delivery, get_provider_cooldown,
  digest_matches,
}
use orka_gateway_telegram.Store.Statements.{update_where}
use orka_gateway_telegram.Store.Deliveries.{extend_provider_cooldown}

-- What UpdateDelivery is to store, normalised.
pub record Outcome : Type 0 where
  pub state : DeliveryState
  pub provider_message_id : Text
  pub safe_message : Text
  pub retry_not_before_ms : ℕ

-- The time is kept for a retryable result only; 1970 or earlier is refused.
unfoldable pub retry_millis : DeliveryState → Time → Result ℕ
retry_millis state none = ok 0
retry_millis state (some t) =
    if same_state state retryable then (if eqb t 0 then err invalid_argument else ok t) else ok 0

unfoldable pub same_time : Time → Time → Bool
same_time none none = true
same_time (some a) (some b) = eqb a b
same_time _ _ = false

unfoldable pub is_same_outcome : Outcome → DeliveryRecord → Bool
is_same_outcome o r =
    same_state r.state o.state
    && r.provider_message_id == o.provider_message_id
    && r.safe_message == o.safe_message
    && same_time (millis_time? o.retry_not_before_ms) r.retry_not_before

unfoldable pub extend_if_positive : ℕ → Exec (Unit {0})
extend_if_positive zero = pure tt
extend_if_positive (suc n) = extend_provider_cooldown (suc n)

unfoldable pub set_outcome : Call → Outcome → DeliveryRow → DeliveryRow
set_outcome call o row = record row {
  state = o.state;
  provider_message_id = o.provider_message_id;
  safe_message = o.safe_message;
  retry_not_before_ms = o.retry_not_before_ms;
  updated_at_ms = call.now;
}

-- The record is no longer `sending`: the same result again is accepted, another one is refused.
unfoldable pub repeat_outcome : Outcome → DeliveryRecord → Exec DeliveryRecord
repeat_outcome o r =
    if is_same_outcome o r
    then (do extend_if_positive o.retry_not_before_ms; pure r)
    else raise invalid_transition

unfoldable pub complete_sending : Call → Text → Outcome → DeliveryRecord → Exec DeliveryRecord
complete_sending call id o r = do
  rows ← update_where id r.legacy_request_digest sending (set_outcome call o)
  if not (eqb rows 1) then raise invalid_transition else do
    extend_if_positive o.retry_not_before_ms
    pure (record r {
      state = o.state;
      provider_message_id = o.provider_message_id;
      safe_message = o.safe_message;
      retry_not_before = millis_time? o.retry_not_before_ms;
      updated_at = call.now;
    })

-- The transaction of updateDelivery, over normalised arguments.
unfoldable pub update_body : Call → Text → Text → Outcome → Exec DeliveryRecord
update_body call id digest o = do
  r ← query (get_delivery id)
  if not (r.request_digest == digest)
      then raise digest_conflict
      else if not (same_state r.state sending)
      then repeat_outcome o r
      else complete_sending call id o r

-- The outcome to store: a provider's message ID stays only with `delivered`, and an `unknown`
-- outcome always has a message.
unfoldable pub outcome_of : DeliveryState → Text → Text → ℕ → Outcome
outcome_of state provider_message_id safe_message ms =
    let message = normalize_safe_message safe_message in
    record {
      state = state;
      provider_message_id = if same_state state delivered then provider_message_id else [];
      safe_message =
          if same_state state unknown && message == []
          then delivery_outcome_unknown_message
          else message;
      retry_not_before_ms = ms;
    }

unfoldable pub update_delivery_not_before :
    Call → Text → Text → DeliveryState → Text → Text → Time → Exec DeliveryRecord
update_delivery_not_before call delivery_id request_digest state provider_id message not_before = do
  id ← lift (normalize_identity delivery_id)
  digest ← lift (normalize_digest request_digest)
  if not (valid state) || same_state state sending then raise invalid_argument else do
    provider_message_id ← lift (normalize_provider_message_id provider_id)
    ms ← lift (retry_millis state not_before)
    transaction call (update_body call id digest (outcome_of state provider_message_id message ms))

unfoldable pub update_delivery :
    Call → Text → Text → DeliveryState → Text → Text → Exec DeliveryRecord
update_delivery call id digest state provider_id message =
    update_delivery_not_before call id digest state provider_id message none

unfoldable pub mark_delivery_delivered : Call → Text → Text → Text → Exec DeliveryRecord
mark_delivery_delivered call id digest provider_id =
    update_delivery call id digest delivered provider_id []

unfoldable pub mark_delivery_retryable : Call → Text → Text → Text → Exec DeliveryRecord
mark_delivery_retryable call id digest message = update_delivery call id digest retryable [] message

unfoldable pub mark_delivery_retryable_not_before :
    Call → Text → Text → Text → Time → Exec DeliveryRecord
mark_delivery_retryable_not_before call id digest message none =
    mark_delivery_retryable call id digest message
mark_delivery_retryable_not_before call id digest message (some t) =
    update_delivery_not_before call id digest retryable [] message (some t)

unfoldable pub mark_delivery_permanent : Call → Text → Text → Text → Exec DeliveryRecord
mark_delivery_permanent call id digest message = update_delivery call id digest permanent [] message

unfoldable pub mark_delivery_unknown : Call → Text → Text → Text → Exec DeliveryRecord
mark_delivery_unknown call id digest message = update_delivery call id digest unknown [] message

-- What a method that only reads meets: `sqlite_ok` says whether its queries are served.
unfoldable pub read_only : {A : Type 0} → Call → (Db → Result A) → Exec A
read_only call q = if call.sqlite_ok then query q else raise failure

unfoldable pub inspected :
    Text → Text → Text → Text → Option DeliveryRecord → Result (Option DeliveryRecord)
inspected d i rd ld none = ok none
inspected d i rd ld (some r) = elim (digest_matches d i rd ld r) [
  | ok _ ↦ ok (some r)
  | err e ↦ err e
]

unfoldable pub inspect_query : Text → Text → Text → Text → Db → Result (Option DeliveryRecord)
inspect_query d i rd ld db = elim (resolve_delivery d i db) [
  | ok found ↦ inspected d i rd ld found
  | err e ↦ err e
]

unfoldable pub inspect_delivery_with_idempotency :
    Call → Text → Text → Text → Text → Exec (Option DeliveryRecord)
inspect_delivery_with_idempotency call delivery_id idempotency_id request_digest legacy = do
  d ← lift (normalize_identity delivery_id)
  i ← lift (normalize_identity idempotency_id)
  rd ← lift (normalize_digest request_digest)
  ld ← lift (normalize_digest legacy)
  read_only call (inspect_query d i rd ld)

unfoldable pub provider_retry_not_before : Call → Exec Time
provider_retry_not_before call = read_only call get_provider_cooldown

unfoldable pub get_delivery_record : Call → Text → Exec DeliveryRecord
get_delivery_record call delivery_id = do
  id ← lift (normalize_identity delivery_id)
  found ← read_only call (get_delivery_by_identity id)
  elim found [ none ↦ raise not_found | some r ↦ pure r ]

unfoldable pub interrupted : ℕ → DeliveryRow → DeliveryRow
interrupted now row =
    if same_state row.state sending
    then record row {
      state = unknown;
      provider_message_id = [];
      safe_message = delivery_outcome_unknown_message;
      retry_not_before_ms = 0;
      updated_at_ms = now;
    }
    else row

unfoldable pub recover_interrupted_deliveries : Call → Exec (Unit {0})
recover_interrupted_deliveries call db =
    if call.sqlite_ok
    then (ok tt, record db { deliveries = modify_all (interrupted call.now) db.deliveries })
    else (err failure, db)
