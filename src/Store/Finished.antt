-- ===== src/Store/Finished.antt =====
-- internal/store/deliveries.go, updateDelivery: its result and the table of deliveries.
use orka_gateway_telegram.Prelude.{
  ℕ, ◌≡◌, ◌≢◌, refl, true, none, ◌∙◌, ◌⊎◌, inl, inr, not, ◌||◌, some, Text, ◌==◌, arith,
  if◌then◌else◌, eqb, subst,
}
use orka_gateway_telegram.Store.Types.{
  digest_conflict, invalid_argument, invalid_transition, ok, DeliveryState, sending, same_state,
  valid, DeliveryRecord, Time, Call,
}
use orka_gateway_telegram.Store.Table.{Text-key, find, modify}
use orka_gateway_telegram.Store.Db.{DeliveryRow, Db}
use orka_gateway_telegram.Store.Exec.{pure, raise, ◌>>◌}
use orka_gateway_telegram.Store.Ensures.{
  Ensures, Post-map, Ensures-pure, Ensures-raise, Ensures-if, Ensures-transaction, Ensures-bind,
  Ensures-lift, Ensures-query, Ensures-weaken, Ensures-fact,
}
use orka_gateway_telegram.Store.Query.{millis_time?, get_delivery}
use orka_gateway_telegram.Store.Normalize.{
  normalize_identity, normalize_digest, normalize_provider_message_id,
}
use orka_gateway_telegram.Store.Reflects.{
  Deliveries, Reflects, RecordReflects, get_delivery-Reflects, get_delivery-id,
}
use orka_gateway_telegram.Store.Completion.{
  same_time, Outcome, extend_if_positive, set_outcome, is_same_outcome, repeat_outcome,
  complete_sending, update_body, outcome_of, update_delivery_not_before, retry_millis,
}
use orka_gateway_telegram.Store.Claims.{Same, update_where-Modifies, modify-Reflects}
use orka_gateway_telegram.Store.History.Release.{extend_if_positive-Same, completed}

-- The change of a successful call, over the table `t` before it.
pub record Finished (t : Deliveries) (state : DeliveryState) (r : DeliveryRecord) (after : Db)
    : Type 0 where
  pub stored : Reflects after.deliveries r
  pub reached : r.state ≡ state
  pub before : DeliveryRow
  pub found : find r.delivery_id t ≡ some before
  pub allowed : (before.state ≡ sending) ⊎ (before.state ≡ state)

-- The change of a successful call that stores the outcome `o`.
pub record Stores (t : Deliveries) (o : Outcome) (r : DeliveryRecord) (after : Db) : Type 0 where
  pub finished : Finished t o.state r after
  pub provider_id : r.provider_message_id ≡ o.provider_message_id
  pub message : r.safe_message ≡ o.safe_message
  pub retry : r.retry_not_before ≡ millis_time? o.retry_not_before_ms
  -- a delivery that was not being sent stays as it was
  pub repeated : finished.before.state ≢ sending → after.deliveries ≡ t

same_time-eq : (a b : Time) → same_time a b ≡ true → b ≡ a
unfolding same_time
same_time-eq none none h = refl
same_time-eq (some a) (some b) h = ground arith
same_time-eq none (some b) h = cc
same_time-eq (some a) none h = cc

module _ (t : Deliveries) where
  repeat_outcome-Stores :
      (o : Outcome) (r : DeliveryRecord)
      → Reflects t r
      → Ensures (Same t) (repeat_outcome o r) (Stores t o)
  unfolding repeat_outcome is_same_outcome
  repeat_outcome-Stores o r h =
      Ensures-if (Same t) (Stores t o) (is_same_outcome o r)
        (extend_if_positive o.retry_not_before_ms >> pure r) (raise invalid_transition)
        (λ same.
          let p : r.state ≡ o.state = ground arith in
          Ensures-bind (Same t) (λ _. Same t) (Stores t o) _ _
            (extend_if_positive-Same t o.retry_not_before_ms)
            (λ _. Ensures-pure (Same t) (Stores t o) r (λ db e. record {
              finished = record {
                stored = rw e h;
                reached = p;
                before = h.row;
                found = h.stored;
                allowed = inr (h.state ∙ p);
              };
              provider_id = ground arith;
              message = ground arith;
              retry =
                  same_time-eq (millis_time? o.retry_not_before_ms) r.retry_not_before
                    (ground arith);
              repeated = λ _. e;
            })))
        (λ _. Ensures-raise (Same t) (Stores t o) invalid_transition)

  complete_sending-Stores :
      (call : Call) (o : Outcome) (r : DeliveryRecord)
      → Reflects t r
      → r.state ≡ sending
      → Ensures (Same t) (complete_sending call r.delivery_id o r) (Stores t o)
  unfolding complete_sending set_outcome
  complete_sending-Stores call o r h s =
      let change = set_outcome call o in
      let t' = modify r.delivery_id change t in
      Ensures-bind (Same t) (λ n db. (n ≡ 1) × (db.deliveries ≡ t')) (Stores t o) _ _
        (update_where-Modifies t _ _ _ change h.row h.stored h.digest (h.state ∙ s))
        (λ n.
          Ensures-if _ (Stores t o) (not (eqb n 1)) (raise invalid_transition)
            (extend_if_positive o.retry_not_before_ms >> pure (completed t call o r))
            (λ _. Ensures-raise _ (Stores t o) invalid_transition)
            (λ _.
              Ensures-weaken (Same t') (Stores t o) _ _ (λ db k. k.1)
                (Ensures-bind (Same t') (λ _. Same t') (Stores t o) _ _
                  (extend_if_positive-Same t' o.retry_not_before_ms)
                  (λ _. Ensures-pure (Same t') (Stores t o) (completed t call o r) (λ db e. record {
                    finished = record {
                      stored = record {
                        row = change h.row;
                        stored = rw e (modify-Reflects t r change h);
                        state = refl;
                        digest = h.digest;
                        provider_id = refl;
                        message = refl;
                        updated = refl;
                      };
                      reached = refl;
                      before = h.row;
                      found = h.stored;
                      allowed = inl (h.state ∙ s);
                    };
                    provider_id = refl;
                    message = refl;
                    retry = refl;
                    repeated = λ ne. absurd (ne (h.state ∙ s));
                  })))))

  named-Stores :
      (call : Call) (id : Text) (o : Outcome) (r : DeliveryRecord)
      → r.delivery_id ≡ id
      → Reflects t r
      → r.state ≡ sending
      → Ensures (Same t) (complete_sending call id o r) (Stores t o)
  named-Stores call id o r p h s =
      subst (λ x. Ensures (Same t) (complete_sending call x o r) (Stores t o)) p
        (complete_sending-Stores call o r h s)

  read-Reflects :
      (id : Text) (db : Db) (r : DeliveryRecord)
      → get_delivery id db ≡ ok r
      → Reflects db.deliveries r
  read-Reflects id db r e = subst (RecordReflects db.deliveries) e (get_delivery-Reflects id db)

  decided-Stores :
      (call : Call) (id digest : Text) (o : Outcome) (r : DeliveryRecord)
      → r.delivery_id ≡ id
      → Reflects t r
      → Ensures
          (Same t)
          (if not (r.request_digest == digest)
            then raise digest_conflict
            else if not (same_state r.state sending)
            then repeat_outcome o r
            else complete_sending call id o r)
          (Stores t o)
  decided-Stores call id digest o r p h =
      Ensures-if (Same t) (Stores t o) (not (r.request_digest == digest)) (raise digest_conflict) _
        (λ _. Ensures-raise (Same t) (Stores t o) digest_conflict)
        (λ _.
          Ensures-if (Same t) (Stores t o) (not (same_state r.state sending)) (repeat_outcome o r)
            (complete_sending call id o r) (λ _. repeat_outcome-Stores o r h)
            (λ is_sending. named-Stores call id o r p h (ground arith)))

  update_body-Stores :
      (call : Call) (id digest : Text) (o : Outcome)
      → Ensures (Same t) (update_body call id digest o) (Stores t o)
  unfolding update_body
  update_body-Stores call id digest o =
      Ensures-query (Same t) (Stores t o) (get_delivery id) _ (λ r.
        Ensures-fact _ (Stores t o) ((r.delivery_id ≡ id) × Reflects t r) _
          (λ db h. (
            get_delivery-id id db r h.1,
            subst (λ x. Reflects x r) h.0 (read-Reflects id db r h.1),
          ))
          (λ k.
            Ensures-weaken (Same t) (Stores t o) _ _ (λ db h. h.0)
              (decided-Stores call id digest o r k.0 k.1)))

  -- What a call stores, in the form that the arguments are stored in.
  abbrev pub StoresCall : DeliveryState → Text → Text → Time → DeliveryRecord → Db → Type 0
  StoresCall state pid message at r after =
      (pid' : Text) × (ms : ℕ) × (normalize_provider_message_id pid ≡ ok pid')
      × (retry_millis state at ≡ ok ms)
      × Stores t (outcome_of state pid' message ms) r after

  pub update_delivery_not_before-Stores :
      (call : Call) (d digest : Text) (state : DeliveryState) (pid message : Text) (at : Time)
      → Ensures
          (Same t)
          (update_delivery_not_before call d digest state pid message at)
          (StoresCall state pid message at)
  unfolding update_delivery_not_before
  update_delivery_not_before-Stores call d digest state pid message at =
      Ensures-lift _ _ (normalize_identity d) _ (λ id _.
        Ensures-lift _ _ (normalize_digest digest) _ (λ digest' _.
          Ensures-if _ _ (not (valid state) || same_state state sending) (raise invalid_argument) _
            (λ _. Ensures-raise _ _ invalid_argument)
            (λ _. Ensures-lift _ _ (normalize_provider_message_id pid) _ (λ pid' e.
              Ensures-lift _ _ (retry_millis state at) _ (λ ms e'.
                Ensures-transaction _ _ call _ (record {
                  at = λ db p.
                      Post-map (Stores t (outcome_of state pid' message ms)) _ _
                        (λ r x k. (pid', ms, e, e', k))
                        ((update_body-Stores call id digest' (outcome_of state pid' message ms)).at
                          db p);
                }))))))

  pub update_delivery_not_before-Finished :
      (call : Call) (d digest : Text) (state : DeliveryState) (pid message : Text) (at : Time)
      → Ensures
          (Same t)
          (update_delivery_not_before call d digest state pid message at)
          (Finished t state)
  unfolding outcome_of
  update_delivery_not_before-Finished call d digest state pid message at = record {
    at = λ db p.
        Post-map (StoresCall state pid message at) (Finished t state) _
          (λ r x (pid', ms, e, e', k). k.finished)
          ((update_delivery_not_before-Stores call d digest state pid message at).at db p);
  }
