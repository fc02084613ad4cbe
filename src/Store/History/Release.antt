-- ===== src/Store/History/Release.antt =====
-- internal/store/deliveries.go, updateDelivery: the budget of a delivery.
use orka_gateway_telegram.Prelude.{
  ℕ, zero, suc, ◌+◌, ◌≤◌, ◌≡◌, refl, ◌⊎◌, inl, inr, Option-cases, arith, Text, not, ◌==◌, ◌||◌,
  if◌then◌else◌, eqb,
}
use orka_gateway_telegram.Store.Types.{
  DeliveryState, sending, same_state, valid, DeliveryRecord, Time, Call, Result, ok, err,
  invalid_argument, invalid_transition, digest_conflict,
}
use orka_gateway_telegram.Store.Table.{Text-key, find, modify, find-modify}
use orka_gateway_telegram.Store.Db.{DeliveryRow, Db}
use orka_gateway_telegram.Store.Exec.{pure, raise, ◌>>◌}
use orka_gateway_telegram.Store.Ensures.{
  Ensures, Post, Ensures-pure, Ensures-raise, Ensures-if, Ensures-transaction, Ensures-bind,
  Ensures-lift, Ensures-query, Ensures-weaken, Ensures-fact,
}
use orka_gateway_telegram.Store.Atomic.{Unchanged}
use orka_gateway_telegram.Store.Query.{get_delivery, millis_time?}
use orka_gateway_telegram.Store.Normalize.{
  normalize_identity, normalize_digest, normalize_provider_message_id,
}
use orka_gateway_telegram.Store.Reflects.{Deliveries, get_delivery-id}
use orka_gateway_telegram.Store.Statements.{update_where, upsert_cooldown}
use orka_gateway_telegram.Store.Deliveries.{extend_provider_cooldown}
use orka_gateway_telegram.Store.Completion.{
  Outcome, extend_if_positive, set_outcome, is_same_outcome, repeat_outcome, complete_sending,
  update_body, update_delivery_not_before, outcome_of, retry_millis,
}
use orka_gateway_telegram.Store.History.{released}
use orka_gateway_telegram.Store.History.Claimable.{budget}
use orka_gateway_telegram.Store.History.Atomicity.{update_delivery_not_before-Atomic}

-- The table is the old one, or one row of it has the state that the result shows.
abbrev Completed : Deliveries → DeliveryRecord → Db → Type 0
Completed t r db =
    (db.deliveries ≡ t)
    ⊎ ((change : DeliveryRow → DeliveryRow) × (db.deliveries ≡ modify r.delivery_id change t)
        × ((row : DeliveryRow) → (change row).state ≡ r.state))

module _ (t : Deliveries) where
  abbrev Same : Db → Type 0
  Same db = db.deliveries ≡ t

  upsert_cooldown-Same : (ms : ℕ) → Ensures Same (upsert_cooldown ms) (λ _. Same)
  unfolding upsert_cooldown
  upsert_cooldown-Same ms = record { at = λ db h. h }

  pub extend_if_positive-Same : (ms : ℕ) → Ensures Same (extend_if_positive ms) (λ _. Same)
  unfolding extend_if_positive extend_provider_cooldown
  extend_if_positive-Same zero = Ensures-pure Same (λ _. Same) tt (λ db h. h)
  extend_if_positive-Same (suc n) =
      Ensures-if Same (λ _. Same) (eqb (suc n) 0) (raise invalid_argument) (upsert_cooldown (suc n))
        (λ _. Ensures-raise Same (λ _. Same) invalid_argument) (λ _. upsert_cooldown-Same (suc n))

  repeat_outcome-Completed :
      (o : Outcome) (r : DeliveryRecord) → Ensures Same (repeat_outcome o r) (Completed t)
  unfolding repeat_outcome
  repeat_outcome-Completed o r =
      Ensures-if Same (Completed t) (is_same_outcome o r)
        (extend_if_positive o.retry_not_before_ms >> pure r) (raise invalid_transition)
        (λ _.
          Ensures-bind Same (λ _. Same) (Completed t) _ _
            (extend_if_positive-Same o.retry_not_before_ms)
            (λ _. Ensures-pure Same (Completed t) r (λ db h. inl h)))
        (λ _. Ensures-raise Same (Completed t) invalid_transition)

  abbrev Counted : Text → (DeliveryRow → DeliveryRow) → ℕ → Db → Type 0
  Counted id change n db = ((n ≡ 0) × Same db) ⊎ ((n ≡ 1) × (db.deliveries ≡ modify id change t))

  update_where-Counted :
      (id digest : Text) (from : DeliveryState) (change : DeliveryRow → DeliveryRow)
      → Ensures Same (update_where id digest from change) (Counted id change)
  unfolding update_where
  update_where-Counted id digest from change = record { at = λ db h. ground arith }

  abbrev pub completed : Call → Outcome → DeliveryRecord → DeliveryRecord
  completed call o r = record r {
    state = o.state;
    provider_message_id = o.provider_message_id;
    safe_message = o.safe_message;
    retry_not_before = millis_time? o.retry_not_before_ms;
    updated_at = call.now;
  }

module _ (t : Deliveries) (call : Call) where
  complete_sending-Completed :
      (id : Text) (o : Outcome) (r : DeliveryRecord)
      → r.delivery_id ≡ id
      → Ensures (Same t) (complete_sending call id o r) (Completed t)
  unfolding complete_sending set_outcome
  complete_sending-Completed id o r p =
      let change = set_outcome call o in
      let t' = modify id change t in
      Ensures-bind (Same t) (Counted t id change) (Completed t)
        (update_where id r.legacy_request_digest sending change) _
        (update_where-Counted t id r.legacy_request_digest sending change)
        (λ n.
          Ensures-if (Counted t id change n) (Completed t) (not (eqb n 1))
            (raise invalid_transition)
            (extend_if_positive o.retry_not_before_ms >> pure (completed t call o r))
            (λ _. Ensures-raise _ (Completed t) invalid_transition)
            (λ one.
              Ensures-weaken (Same t') (Completed t) (Counted t id change n) _
                (λ db h. ground arith)
                (Ensures-bind (Same t') (λ _. Same t') (Completed t) _ _
                  (extend_if_positive-Same t' o.retry_not_before_ms)
                  (λ _.
                    Ensures-pure (Same t') (Completed t) (completed t call o r)
                      (λ db h. inr (change, rw p h, λ row. refl))))))

  update_body-Completed :
      (id digest : Text) (o : Outcome)
      → Ensures (Same t) (update_body call id digest o) (Completed t)
  unfolding update_body
  update_body-Completed id digest o = Ensures-query (Same t) (Completed t) (get_delivery id) _ (λ r.
      Ensures-fact _ (Completed t) (r.delivery_id ≡ id) _ (λ db h. get_delivery-id id db r h.1)
        (λ same.
          Ensures-weaken (Same t) (Completed t) _ _ (λ db h. h.0)
            (Ensures-if (Same t) (Completed t) (not (r.request_digest == digest))
              (raise digest_conflict)
              (if not (same_state r.state sending)
                then repeat_outcome o r
                else complete_sending call id o r)
              (λ _. Ensures-raise (Same t) (Completed t) digest_conflict)
              (λ _.
                Ensures-if (Same t) (Completed t) (not (same_state r.state sending))
                  (repeat_outcome o r) (complete_sending call id o r)
                  (λ _. repeat_outcome-Completed t o r)
                  (λ _. complete_sending-Completed id o r same)))))

  update_delivery_not_before-Completed :
      (d digest : Text) (state : DeliveryState) (pid message : Text) (at : Time)
      → Ensures
          (Same t)
          (update_delivery_not_before call d digest state pid message at)
          (Completed t)
  unfolding update_delivery_not_before
  update_delivery_not_before-Completed d digest state pid message at =
      Ensures-lift _ _ (normalize_identity d) _ (λ id _.
        Ensures-lift _ _ (normalize_digest digest) _ (λ digest' _.
          Ensures-if _ _ (not (valid state) || same_state state sending) (raise invalid_argument) _
            (λ _. Ensures-raise _ _ invalid_argument)
            (λ _. Ensures-lift _ _ (normalize_provider_message_id pid) _ (λ pid' _.
              Ensures-lift _ _ (retry_millis state at) _ (λ ms _.
                Ensures-transaction _ _ call _
                  (update_body-Completed id digest' (outcome_of state pid' message ms)))))))

budget-Completed :
    (d : Text) (t : Deliveries) (r : DeliveryRecord) (db : Db)
    → Completed t r db
    → budget d db.deliveries ≤ budget d t + released d (ok r)
unfolding budget
budget-Completed d t r db (inl h) = ground arith
budget-Completed d t r db (inr (change, h, s)) = elim (Option-cases (find d t)) [
  | inl e ↦ rw h (ground (arith, find-modify d r.delivery_id change t))
  | inr (row, e) ↦ rw h (ground (arith, find-modify d r.delivery_id change t, s row))
]

budget-Unchanged :
    (d : Text) (db : Db) (r : Result DeliveryRecord × Db)
    → Unchanged db r
    → Post (Completed db.deliveries) r
    → budget d r.1.deliveries ≤ budget d db.deliveries + released d r.0
budget-Unchanged d db (ok r, db') h k = budget-Completed d db.deliveries r db' k
budget-Unchanged d db (err e, db') h k = rw h (omega arith)

pub budget-update :
    (call : Call) (d k digest : Text) (state : DeliveryState) (pid message : Text) (t : Time)
    (db : Db)
    → let m = update_delivery_not_before call k digest state pid message t in
      budget d (m db).1.deliveries ≤ budget d db.deliveries + released d (m db).0
budget-update call d k digest state pid message t db =
    budget-Unchanged d db _
      ((update_delivery_not_before-Atomic call k digest state pid message t).at db)
      ((update_delivery_not_before-Completed db.deliveries call k digest state pid message t).at db
        refl)
