-- ===== src/Store/Delivered.antt =====
-- internal/store/deliveries.go, MarkDeliveryDelivered: the result of a delivery that is being sent.
use orka_gateway_telegram.Prelude.{
  ◌≡◌, refl, sym, ap, subst, ◌∙◌, true, none, some, [], Text, arith, ==-refl,
}
use orka_gateway_telegram.Store.Ensures.{Post}
use orka_gateway_telegram.Store.Reflects.{Deliveries, Reflects}
use orka_gateway_telegram.Store.Finished.{Finished, update_delivery_not_before-Finished}
use orka_gateway_telegram.Store.Types.{
  Result, err, DeliveryState, ok, sending, DeliveryState-discrete, delivered, valid, DeliveryRecord,
  Call,
}
use orka_gateway_telegram.Store.Table.{Text-key, find}
use orka_gateway_telegram.Store.Db.{DeliveryRow, IdempotencyRow, Db}
use orka_gateway_telegram.Store.Exec.{pure, lift, query, transaction, ◌>>=◌}
use orka_gateway_telegram.Store.Normalize.{
  normalize_identity, normalize_digest, normalize_provider_message_id,
}
use orka_gateway_telegram.Store.Query.{millis_time?, joined, scan_delivery, get_delivery}
use orka_gateway_telegram.Store.Statements.{update_where}
use orka_gateway_telegram.Store.Completion.{
  retry_millis, extend_if_positive, complete_sending, update_body, outcome_of,
  update_delivery_not_before, update_delivery, mark_delivery_delivered, Outcome,
}

-- The delivery is stored as delivered, with the ID of its message.
pub record Recorded (id pid : Text) (db : Db) : Type 0 where
  pub row : DeliveryRow
  pub stored : find id db.deliveries ≡ some row
  pub state : row.state ≡ delivered
  pub provider_id : row.provider_message_id ≡ pid

ok-injective : (x y : DeliveryRecord) → ok x ≡ ok y → x ≡ y
ok-injective x y h = cc

ok-Finished :
    (t : Deliveries) (s : DeliveryState) (r : DeliveryRecord) (x : Result DeliveryRecord × Db)
    → x.0 ≡ ok r
    → Post (Finished t s) x
    → Reflects x.1.deliveries r
ok-Finished t s r (ok r', db) e h = subst (Reflects db.deliveries) (ok-injective r' r e) h.stored
ok-Finished t s r (err _, db) e h = cc

Reflects-Recorded :
    (id pid : Text) (r : DeliveryRecord) (db : Db)
    → r.delivery_id ≡ id
    → r.state ≡ delivered
    → r.provider_message_id ≡ pid
    → Reflects db.deliveries r
    → Recorded id pid db
Reflects-Recorded id pid r db e p q h = record {
  row = h.row;
  stored = ap (λ x. find x db.deliveries) (sym e) ∙ h.stored;
  state = h.state ∙ p;
  provider_id = h.provider_id ∙ q;
}

module _ (call : Call) (id : Text) (db : Db) (row : DeliveryRow) (i : IdempotencyRow) where
  get_delivery-stored :
      find id db.deliveries ≡ some row
      → find id db.idempotency ≡ some i
      → row.state ≡ sending
      → get_delivery id db ≡ ok (joined id row (some i))
  unfolding get_delivery scan_delivery valid
  get_delivery-stored h k s = rw (h, k, s) refl

  complete_sending-stored :
      (o : Outcome)
      → find id db.deliveries ≡ some row
      → row.state ≡ sending
      → o.retry_not_before_ms ≡ 0
      → (r : DeliveryRecord) × ((complete_sending call id o (joined id row (some i)) db).0 ≡ ok r)
        × (r.state ≡ o.state)
        × (r.provider_message_id ≡ o.provider_message_id)
        × (r.delivery_id ≡ id)
  unfolding complete_sending update_where joined ◌>>=◌ pure extend_if_positive
  complete_sending-stored o h s z = (
    record (joined id row (some i)) {
      state = o.state;
      provider_message_id = o.provider_message_id;
      safe_message = o.safe_message;
      retry_not_before = millis_time? o.retry_not_before_ms;
      updated_at = call.now;
    },
    ground (arith, h, s, z, ==-refl row.request_digest),
    refl,
    refl,
    refl,
  )

  update_body-stored :
      (o : Outcome)
      → find id db.deliveries ≡ some row
      → find id db.idempotency ≡ some i
      → row.state ≡ sending
      → o.retry_not_before_ms ≡ 0
      → (r : DeliveryRecord) × ((update_body call id i.request_digest o db).0 ≡ ok r)
        × (r.state ≡ o.state)
        × (r.provider_message_id ≡ o.provider_message_id)
        × (r.delivery_id ≡ id)
  unfolding update_body query ◌>>=◌ joined
  update_body-stored o h k s z =
      let (r, e, p, q, i') = complete_sending-stored o h s z in
      let g = get_delivery-stored h k s in
      (r, ground (arith, g, e, s, ==-refl i.request_digest), p, q, i')

  -- A delivery that is being sent takes the result that it was delivered, with the message's ID, if
  -- SQLite serves the call and the arguments are accepted.
  pub mark_delivery_delivered-stored :
      (id' digest pid' pid : Text)
      → normalize_identity id' ≡ ok id
      → normalize_digest digest ≡ ok i.request_digest
      → normalize_provider_message_id pid' ≡ ok pid
      → call.sqlite_ok ≡ true
      → find id db.deliveries ≡ some row
      → find id db.idempotency ≡ some i
      → row.state ≡ sending
      → (r : DeliveryRecord) × ((mark_delivery_delivered call id' digest pid' db).0 ≡ ok r)
        × (r.state ≡ delivered)
        × (r.provider_message_id ≡ pid)
        × Recorded id pid (mark_delivery_delivered call id' digest pid' db).1
  unfolding mark_delivery_delivered update_delivery update_delivery_not_before retry_millis lift
      transaction ◌>>=◌ outcome_of valid DeliveryState-discrete
  mark_delivery_delivered-stored id' digest pid' pid ni nd np served h k s =
      let (r, e, p, q, same) = update_body-stored (outcome_of delivered pid [] 0) h k s refl in
      let done : (mark_delivery_delivered call id' digest pid' db).0 ≡ ok r =
        ground (arith, ni, nd, np, served, e) in
      (
        r,
        done,
        p,
        q,
        Reflects-Recorded id pid r _ same p q (
            ok-Finished db.deliveries delivered r _ done (
              (update_delivery_not_before-Finished db.deliveries call id' digest delivered pid' []
                  none).at
                db refl)),
      )
