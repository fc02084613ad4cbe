-- ===== src/Store/Deliveries.antt =====
-- internal/store/deliveries.go: the operations that change delivery records. A method is its
-- argument checks followed by one transaction.
use orka_gateway_telegram.Prelude.{
  ℕ, ◌-◌, Bool, true, false, not, ◌&&◌, Option, none, some, [], Text, ltb, leb, eqb, ◌==◌,
  if◌then◌else◌,
}
use orka_gateway_telegram.Store.Types.{
  digest_conflict, invalid_argument, ok, Time, after, sending, retryable, unknown, same_state,
  DeliveryRecord, Call, delivery_sending_lease, provider_cooldown_active_message,
  delivery_outcome_unknown_message,
}
use orka_gateway_telegram.Store.Table.{Text-key, find}
use orka_gateway_telegram.Store.Db.{DeliveryRow, IdempotencyRow, Db}
use orka_gateway_telegram.Store.Statements.{
  insert_delivery, update_where, insert_idempotency, insert_alias, upsert_cooldown,
}
use orka_gateway_telegram.Store.Exec.{Exec, pure, raise, lift, query, transaction, ◌>>=◌, ◌>>◌}
use orka_gateway_telegram.Store.Normalize.{normalize_identity, normalize_digest}
use orka_gateway_telegram.Store.Query.{
  millis_time?, resolve_delivery, get_provider_cooldown, digest_matches,
}

unfoldable pub extend_provider_cooldown : ℕ → Exec (Unit {0})
extend_provider_cooldown ms = if eqb ms 0 then raise invalid_argument else upsert_cooldown ms

-- The primary key of another delivery cannot be an alias.
unfoldable pub is_other_delivery : Text → Text → Db → Bool
is_other_delivery alias id db = elim (find alias db.deliveries) [
  | none ↦ false
  | some _ ↦ not (alias == id)
]

unfoldable pub ensure_delivery_alias : Text → Text → Exec (Unit {0})
ensure_delivery_alias alias id = do
  taken ← query (λ db. ok (is_other_delivery alias id db))
  if taken then raise digest_conflict else insert_alias alias id

abbrev pub idempotency_row : Text → Text → IdempotencyRow
idempotency_row idempotency_id request_digest = record {
  idempotency_id = idempotency_id;
  digest_version = 2;
  request_digest = request_digest;
}

abbrev pub upgraded : Text → Text → DeliveryRecord → DeliveryRecord
upgraded idempotency_id request_digest r = record r {
  idempotency_id = idempotency_id;
  digest_version = 2;
  request_digest = request_digest;
}

unfoldable pub upgrade_legacy_delivery : DeliveryRecord → Text → Text → Exec DeliveryRecord
upgrade_legacy_delivery r idempotency_id request_digest =
    if not (eqb r.digest_version 1) then raise invalid_argument else do
      ensure_delivery_alias idempotency_id r.delivery_id
      insert_idempotency r.delivery_id (idempotency_row idempotency_id request_digest)
      pure (upgraded idempotency_id request_digest r)

abbrev pub expire_row : ℕ → DeliveryRow → DeliveryRow
expire_row now row = record row {
  state = unknown;
  provider_message_id = [];
  safe_message = delivery_outcome_unknown_message;
  retry_not_before_ms = 0;
  updated_at_ms = now;
}

abbrev pub expire : ℕ → DeliveryRecord → DeliveryRecord
expire now r = record r {
  state = unknown;
  provider_message_id = [];
  safe_message = delivery_outcome_unknown_message;
  retry_not_before = none;
  updated_at = now;
}

-- The record is older than the lease: its claim was lost. `unknown` is terminal.
unfoldable pub recover_stale : Call → DeliveryRecord → Exec (DeliveryRecord × Bool)
recover_stale call r = do
  _ ← update_where r.delivery_id r.legacy_request_digest sending (expire_row call.now)
  pure (expire call.now r, false)

-- The later of the record's and the bot's cooldown.
unfoldable pub later : Time → Time → Time
later provider own = if after provider own then provider else own

-- t.UnixMilli(), for a time that is not zero
unfoldable pub millis : Time → ℕ
millis none = 0
millis (some t) = t

-- `!t.IsZero() && now < t.UnixMilli()`
unfoldable pub is_before : ℕ → Time → Bool
is_before now none = false
is_before now (some t) = ltb now t

abbrev pub claim_row : ℕ → DeliveryRow → DeliveryRow
claim_row now row = record row {
  state = sending;
  provider_message_id = [];
  safe_message = [];
  retry_not_before_ms = 0;
  updated_at_ms = now;
}

abbrev pub claim_record : ℕ → DeliveryRecord → DeliveryRecord
claim_record now r = record r {
  state = sending;
  provider_message_id = [];
  safe_message = [];
  retry_not_before = none;
  updated_at = now;
}

unfoldable pub claim_retryable : Call → Time → DeliveryRecord → Exec (DeliveryRecord × Bool)
claim_retryable call cooldown r =
    let retry_not_before = later cooldown r.retry_not_before in
    if is_before call.now retry_not_before
    then pure (record r { retry_not_before = retry_not_before }, false)
    else do
      _ ← update_where r.delivery_id r.legacy_request_digest retryable (claim_row call.now)
      pure (claim_record call.now r, true)

-- The record was found: its digests are compared, a version 1 record is upgraded, both IDs become
-- aliases, and the state decides.
unfoldable pub begin_found :
    Call → Text → Text → Text → Text → Bool → Time → DeliveryRecord → Exec (DeliveryRecord × Bool)
begin_found call delivery_id idempotency_id request_digest legacy claim cooldown found = do
  is_legacy ← lift (digest_matches delivery_id idempotency_id request_digest legacy found)
  r ←
      (if is_legacy
        then upgrade_legacy_delivery found idempotency_id request_digest
        else pure found)
  ensure_delivery_alias delivery_id r.delivery_id
  ensure_delivery_alias idempotency_id r.delivery_id
  if same_state r.state sending && leb delivery_sending_lease (call.checked_at - r.updated_at)
      then recover_stale call r
      else if claim && same_state r.state retryable
      then claim_retryable call cooldown r
      else pure (r, false)

-- Whether a new record has to wait for the bot's cooldown.
abbrev pub must_wait : Bool → ℕ → Time → Bool
must_wait claim now cooldown = claim && is_before now cooldown

abbrev pub new_row : Text → Bool → ℕ → ℕ → DeliveryRow
new_row legacy waits now until = record {
  request_digest = legacy;
  state = if waits then retryable else sending;
  provider_message_id = [];
  safe_message = if waits then provider_cooldown_active_message else [];
  retry_not_before_ms = if waits then until else 0;
  created_at_ms = now;
  updated_at_ms = now;
}

abbrev pub new_record : Text → Text → Text → Text → Bool → ℕ → ℕ → DeliveryRecord
new_record d i rd legacy waits now until = record {
  delivery_id = d;
  idempotency_id = i;
  digest_version = 2;
  request_digest = rd;
  legacy_request_digest = legacy;
  state = if waits then retryable else sending;
  provider_message_id = [];
  safe_message = if waits then provider_cooldown_active_message else [];
  retry_not_before = millis_time? (if waits then until else 0);
  created_at = now;
  updated_at = now;
}

-- No record: a new one is claimed at once, or waits for the bot's cooldown.
unfoldable pub begin_new :
    Call → Text → Text → Text → Text → Bool → Time → Exec (DeliveryRecord × Bool)
begin_new call d i rd legacy claim cooldown =
    let waits = must_wait claim call.now cooldown in
    do
      insert_delivery d (new_row legacy waits call.now (millis cooldown))
      insert_idempotency d (idempotency_row i rd)
      ensure_delivery_alias d d
      ensure_delivery_alias i d
      pure (new_record d i rd legacy waits call.now (millis cooldown), not waits)

abbrev pub begin_resolved :
    Call
    → Text
    → Text
    → Text
    → Text
    → Bool
    → Time
    → Option DeliveryRecord
    → Exec (DeliveryRecord × Bool)
begin_resolved call d i rd legacy claim cooldown none = begin_new call d i rd legacy claim cooldown
begin_resolved call d i rd legacy claim cooldown (some r) =
    begin_found call d i rd legacy claim cooldown r

-- The transaction of createOrBeginDelivery, over normalised arguments.
unfoldable pub begin_body : Call → Text → Text → Text → Text → Bool → Exec (DeliveryRecord × Bool)
begin_body call delivery_id idempotency_id request_digest legacy claim = do
  cooldown ← (if claim then query get_provider_cooldown else pure none)
  found ← query (resolve_delivery delivery_id idempotency_id)
  begin_resolved call delivery_id idempotency_id request_digest legacy claim cooldown found

unfoldable pub create_or_begin_delivery :
    Call → Text → Text → Text → Text → Bool → Exec (DeliveryRecord × Bool)
create_or_begin_delivery call delivery_id idempotency_id request_digest legacy claim = do
  d ← lift (normalize_identity delivery_id)
  i ← lift (normalize_identity idempotency_id)
  rd ← lift (normalize_digest request_digest)
  ld ← lift (normalize_digest legacy)
  transaction call (begin_body call d i rd ld claim)

unfoldable pub begin_delivery_with_idempotency :
    Call → Text → Text → Text → Text → Exec (DeliveryRecord × Bool)
begin_delivery_with_idempotency call d i rd legacy =
    create_or_begin_delivery call d i rd legacy true

unfoldable pub begin_delivery : Call → Text → Text → Exec (DeliveryRecord × Bool)
begin_delivery call d digest = begin_delivery_with_idempotency call d d digest digest

unfoldable pub create_delivery_with_idempotency :
    Call → Text → Text → Text → Exec (DeliveryRecord × Bool)
create_delivery_with_idempotency call d i digest =
    create_or_begin_delivery call d i digest digest false

unfoldable pub create_delivery : Call → Text → Text → Exec (DeliveryRecord × Bool)
create_delivery call d digest = create_delivery_with_idempotency call d d digest
