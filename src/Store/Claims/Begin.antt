-- ===== src/Store/Claims/Begin.antt =====
-- Every branch of createOrBeginDelivery, and the method.
use orka_gateway_telegram.Prelude.{
  ◌-◌, ◌≡◌, refl, inl, Bool, true, false, none, arith, Text, not, ◌&&◌, if◌then◌else◌, leb,
}
use orka_gateway_telegram.Store.Types.{
  DeliveryState, sending, retryable, same_state, DeliveryRecord, Time, Call, delivery_sending_lease,
}
use orka_gateway_telegram.Store.Table.{Text-key, find, insert, find-insert}
use orka_gateway_telegram.Store.Db.{DeliveryRow, Db}
use orka_gateway_telegram.Store.Exec.{pure}
use orka_gateway_telegram.Store.Ensures.{
  Ensures, Ensures-pure, Ensures-if, Ensures-bind, Ensures-lift, Ensures-given,
}
use orka_gateway_telegram.Store.Query.{digest_matches}
use orka_gateway_telegram.Store.Reflects.{Deliveries, Reflects}
use orka_gateway_telegram.Store.Statements.{insert_delivery, insert_idempotency}
use orka_gateway_telegram.Store.Deliveries.{
  ensure_delivery_alias, upgrade_legacy_delivery, recover_stale, is_before, claim_retryable,
  begin_found, begin_new, new_row, new_record, must_wait, millis, idempotency_row,
}
use orka_gateway_telegram.Store.Claims.{
  Began, Same, Q, ensure_delivery_alias-Same, insert_idempotency-Same,
  upgrade_legacy_delivery-Reflects, unchanged-Began, recover_stale-Began, claim_retryable-Began,
}

same_state-eq : (s t : DeliveryState) → same_state s t ≡ true → s ≡ t
same_state-eq s t h = ground arith

and-right : (a b : Bool) → (a && b) ≡ true → b ≡ true
and-right true b h = h
and-right false b h = cc

and-left : (a b : Bool) → (a && b) ≡ true → a ≡ true
and-left true b h = refl
and-left false b h = cc

module _ (call : Call) (cooldown : Time) (t : Deliveries) where
  decide-Began :
      (claim : Bool) (r : DeliveryRecord)
      → Reflects t r
      → Ensures
          (Same t)
          (if same_state r.state sending
              && leb delivery_sending_lease (call.checked_at - r.updated_at)
            then recover_stale call r
            else if claim && same_state r.state retryable
            then claim_retryable call cooldown r
            else pure (r, false))
          (Q call cooldown t)
  decide-Began claim r h =
      Ensures-if (Same t) (Q call cooldown t)
        (same_state r.state sending && leb delivery_sending_lease (call.checked_at - r.updated_at))
        (recover_stale call r)
        (if claim && same_state r.state retryable
          then claim_retryable call cooldown r
          else pure (r, false))
        (λ e.
          recover_stale-Began call cooldown t r h (same_state-eq r.state sending (and-left _ _ e)))
        (λ _.
          Ensures-if (Same t) (Q call cooldown t) (claim && same_state r.state retryable)
            (claim_retryable call cooldown r) (pure (r, false))
            (λ e.
              claim_retryable-Began call cooldown t r h
                (same_state-eq r.state retryable (and-right claim _ e)))
            (λ _. unchanged-Began call cooldown t r h))

  pub begin_found-Began :
      (d i rd ld : Text) (claim : Bool) (found : DeliveryRecord)
      → Reflects t found
      → Ensures (Same t) (begin_found call d i rd ld claim cooldown found) (Q call cooldown t)
  unfolding begin_found
  begin_found-Began d i rd ld claim found h =
      Ensures-lift (Same t) (Q call cooldown t) (digest_matches d i rd ld found) _ (λ is_legacy _.
        Ensures-bind (Same t) (λ r db. Same t db × Reflects t r) (Q call cooldown t)
          (if is_legacy then upgrade_legacy_delivery found i rd else pure found) _
          (Ensures-if (Same t) (λ r db. Same t db × Reflects t r) is_legacy
            (upgrade_legacy_delivery found i rd) (pure found)
            (λ _. upgrade_legacy_delivery-Reflects t found i rd h)
            (λ _. Ensures-pure (Same t) (λ r db. Same t db × Reflects t r) found (λ db e. (e, h))))
          (λ r. Ensures-given (Same t) (Q call cooldown t) (Reflects t r) _ (λ hr.
            Ensures-bind (Same t) (λ _. Same t) (Q call cooldown t)
              (ensure_delivery_alias d r.delivery_id) _
              (ensure_delivery_alias-Same t d r.delivery_id)
              (λ _.
                Ensures-bind (Same t) (λ _. Same t) (Q call cooldown t)
                  (ensure_delivery_alias i r.delivery_id) _
                  (ensure_delivery_alias-Same t i r.delivery_id) (λ _. decide-Began claim r hr)))))

  insert_delivery-Inserts :
      (id : Text) (row : DeliveryRow)
      → Ensures
          (Same t)
          (insert_delivery id row)
          (λ _ db. Same (insert id row t) db × (find id t ≡ none))
  unfolding insert_delivery
  insert_delivery-Inserts id row = record { at = λ db h. ground arith }

  new-Began :
      (d i rd ld : Text) (waits : Bool) (db : Db)
      → (waits ≡ false → is_before call.now cooldown ≡ false)
      → find d t ≡ none
      → Same (insert d (new_row ld waits call.now (millis cooldown)) t) db
      → Began call.now cooldown t
          (new_record d i rd ld waits call.now (millis cooldown))
          (not waits)
          db
  new-Began d i rd ld waits db w f e = record {
    reflects = record {
      row = new_row ld waits call.now (millis cooldown);
      stored =
          rw e (ground (arith, find-insert d d (new_row ld waits call.now (millis cooldown)) t));
      state = refl;
      digest = refl;
      provider_id = refl;
      message = refl;
      updated = refl;
    };
    was_claimable = λ _. inl f;
    is_sending = λ b. ground arith;
    no_cooldown = λ b. w (ground arith);
  }

  pub begin_new-Began :
      (d i rd ld : Text) (claim : Bool)
      → (must_wait claim call.now cooldown ≡ false → is_before call.now cooldown ≡ false)
      → Ensures (Same t) (begin_new call d i rd ld claim cooldown) (Q call cooldown t)
  unfolding begin_new
  begin_new-Began d i rd ld claim w =
      let waits = must_wait claim call.now cooldown in
      let t' = insert d (new_row ld waits call.now (millis cooldown)) t in
      Ensures-bind (Same t) (λ _ db. Same t' db × (find d t ≡ none)) (Q call cooldown t)
        (insert_delivery d (new_row ld waits call.now (millis cooldown))) _
        (insert_delivery-Inserts d (new_row ld waits call.now (millis cooldown)))
        (λ _. Ensures-given (Same t') (Q call cooldown t) (find d t ≡ none) _ (λ fresh.
          Ensures-bind (Same t') (λ _. Same t') (Q call cooldown t)
            (insert_idempotency d (idempotency_row i rd)) _
            (insert_idempotency-Same t' d (idempotency_row i rd))
            (λ _.
              Ensures-bind (Same t') (λ _. Same t') (Q call cooldown t) (ensure_delivery_alias d d)
                _ (ensure_delivery_alias-Same t' d d)
                (λ _.
                  Ensures-bind (Same t') (λ _. Same t') (Q call cooldown t)
                    (ensure_delivery_alias i d) _ (ensure_delivery_alias-Same t' i d)
                    (λ _.
                      Ensures-pure (Same t') (Q call cooldown t) _
                        (λ db e. new-Began d i rd ld waits db w fresh e))))))
