-- ===== src/Store/Lifecycle/Operations.antt =====
-- internal/store: the moves of a delivery that the writing methods make.
use orka_gateway_telegram.Prelude.{
  ℕ, zero, suc, ◌≡◌, refl, Bool, true, false, Option, none, some, Text, arith, Bool-cases,
  Option-cases, inl, inr,
}
use orka_gateway_telegram.Prelude.Int.{ℤ}
use orka_gateway_telegram.Store.Types.{
  DeliveryState, sending, retryable, unknown, same_state, Result, ok, err, not_found, UpdateRecord,
  DeliveryRecord, Time, Call,
}
use orka_gateway_telegram.Store.Table.{Text-key, find, modify_all, find-modify_all}
use orka_gateway_telegram.Store.Db.{DeliveryRow, IdempotencyRow, UpdateRow}
use orka_gateway_telegram.Store.Exec.{Exec}
use orka_gateway_telegram.Store.Keeps.{Keeps, keeps_rules}
use orka_gateway_telegram.Store.Reflects.{Deliveries}
use orka_gateway_telegram.Store.Statements.{insert_idempotency, insert_alias, upsert_cooldown}
use orka_gateway_telegram.Store.Deliveries.{
  extend_provider_cooldown, ensure_delivery_alias, upgrade_legacy_delivery, recover_stale,
  claim_retryable, begin_found, begin_new, begin_resolved, begin_body, create_or_begin_delivery,
  expire_row, claim_row, new_row, must_wait, millis,
}
use orka_gateway_telegram.Store.Completion.{
  Outcome, extend_if_positive, set_outcome, repeat_outcome, complete_sending, update_body,
  outcome_of, update_delivery_not_before, interrupted, recover_interrupted_deliveries,
}
use orka_gateway_telegram.Store.Updates.{
  insert_update, set_response, admit, create_body, create_update, save_body, save_update_response,
}
use orka_gateway_telegram.Store.Lifecycle.{
  begins, finishes, recovers, Move, stays, claimed, waits, retried, lost, finished, cut_off, Moves,
  Moves-pure, Moves-raise, Moves-if, Moves-transaction, Moves-after, Moves-before, Moves-lift,
  Moves-query, Moves-of, insert_delivery-Moves, update_where-Moves, phase, by_phases, same_phase,
}

module _ (t : Deliveries) where
  -- The action leaves the table of deliveries.
  abbrev Leaves : {A : Type 0} → Exec A → Type 0
  Leaves m = Keeps (λ db. db.deliveries ≡ t) m

  insert_alias-Leaves : (i id : Text) → Leaves (insert_alias i id)
  unfolding insert_alias
  insert_alias-Leaves i id = record { at = λ db h. ground arith }

  insert_idempotency-Leaves :
      (id : Text) (row : IdempotencyRow) → Leaves (insert_idempotency id row)
  unfolding insert_idempotency
  insert_idempotency-Leaves id row = record { at = λ db h. ground arith }

  upsert_cooldown-Leaves : (ms : ℕ) → Leaves (upsert_cooldown ms)
  unfolding upsert_cooldown
  upsert_cooldown-Leaves ms = record { at = λ db h. h }

  ensure_delivery_alias-Leaves : (i id : Text) → Leaves (ensure_delivery_alias i id)
  unfolding ensure_delivery_alias
  ensure_delivery_alias-Leaves i id = search (keeps_rules, insert_alias-Leaves)

  upgrade_legacy_delivery-Leaves :
      (r : DeliveryRecord) (i rd : Text) → Leaves (upgrade_legacy_delivery r i rd)
  unfolding upgrade_legacy_delivery
  upgrade_legacy_delivery-Leaves r i rd =
      search (keeps_rules, ensure_delivery_alias-Leaves, insert_idempotency-Leaves)

  extend_if_positive-Leaves : (ms : ℕ) → Leaves (extend_if_positive ms)
  unfolding extend_if_positive extend_provider_cooldown
  extend_if_positive-Leaves zero = search keeps_rules
  extend_if_positive-Leaves (suc n) = search (keeps_rules, upsert_cooldown-Leaves)

  repeat_outcome-Leaves : (o : Outcome) (r : DeliveryRecord) → Leaves (repeat_outcome o r)
  unfolding repeat_outcome
  repeat_outcome-Leaves o r = search (keeps_rules, extend_if_positive-Leaves)

  insert_update-Leaves : (id : ℕ) (row : UpdateRow) → Leaves (insert_update id row)
  unfolding insert_update
  insert_update-Leaves id row = record { at = λ db h. ground arith }

  set_response-Leaves :
      (id : ℕ) (digest response : Text) (now : ℕ) → Leaves (set_response id digest response now)
  unfolding set_response
  set_response-Leaves id digest response now = record { at = λ db h. ground arith }

  admit-Leaves :
      (call : Call) (id : ℕ) (digest : Text) (found : Result UpdateRecord)
      → Leaves (admit call id digest found)
  unfolding admit
  admit-Leaves call id digest (ok r) = search keeps_rules
  admit-Leaves call id digest (err not_found) = search (keeps_rules, insert_update-Leaves)
  admit-Leaves call id digest (err _) = search keeps_rules

  pub create_update-Leaves :
      (call : Call) (u : ℤ) (digest : Text) → Leaves (create_update call u digest)
  unfolding create_update create_body
  create_update-Leaves call u digest = search (keeps_rules, admit-Leaves) depth 10

  pub save_update_response-Leaves :
      (call : Call) (u : ℤ) (digest response : Text)
      → Leaves (save_update_response call u digest response)
  unfolding save_update_response save_body
  save_update_response-Leaves call u digest response =
      search (keeps_rules, set_response-Leaves) depth 12

module _ (d : Text) where
  recover_stale-Moves : (call : Call) (r : DeliveryRecord) → Moves d begins (recover_stale call r)
  unfolding recover_stale
  recover_stale-Moves call r =
      Moves-before d begins _ _
        (update_where-Moves d begins _ _ sending unknown (expire_row call.now) (λ row. refl) lost)
        (λ n t. search keeps_rules)

  claim_retryable-Moves :
      (call : Call) (cooldown : Time) (r : DeliveryRecord)
      → Moves d begins (claim_retryable call cooldown r)
  unfolding claim_retryable
  claim_retryable-Moves call cooldown r = Moves-if d begins _ _ _ (Moves-pure d begins _) (
      Moves-before d begins _ _
        (update_where-Moves d begins _ _ retryable sending (claim_row call.now) (λ row. refl)
          retried)
        (λ n t. search keeps_rules))

  begin_found-Moves :
      (call : Call) (k i rd ld : Text) (claim : Bool) (cooldown : Time) (r : DeliveryRecord)
      → Moves d begins (begin_found call k i rd ld claim cooldown r)
  unfolding begin_found
  begin_found-Moves call k i rd ld claim cooldown found = Moves-lift d begins _ _ (λ is_legacy.
      Moves-after d begins _ _ (λ t. search (keeps_rules, upgrade_legacy_delivery-Leaves))
        (λ r.
          Moves-after d begins _ _ (λ t. ensure_delivery_alias-Leaves t k r.delivery_id)
            (λ _.
              Moves-after d begins _ _ (λ t. ensure_delivery_alias-Leaves t i r.delivery_id)
                (λ _. Moves-if d begins _ _ _ (recover_stale-Moves call r) (
                  Moves-if d begins _ _ _ (claim_retryable-Moves call cooldown r)
                    (Moves-pure d begins _))))))

  new_row-Move :
      (legacy : Text) (w : Bool) (now until : ℕ)
      → Move begins none (some (new_row legacy w now until).state)
  new_row-Move legacy true now until = waits
  new_row-Move legacy false now until = claimed

  begin_new-Moves :
      (call : Call) (k i rd ld : Text) (claim : Bool) (cooldown : Time)
      → Moves d begins (begin_new call k i rd ld claim cooldown)
  unfolding begin_new
  begin_new-Moves call k i rd ld claim cooldown =
      Moves-before d begins _ _
        (insert_delivery-Moves d begins k _
          (new_row-Move ld (must_wait claim call.now cooldown) call.now (millis cooldown)))
        (λ _ t.
          search (keeps_rules, insert_idempotency-Leaves, ensure_delivery_alias-Leaves) depth 9)

  begin_resolved-Moves :
      (call : Call) (k i rd ld : Text) (claim : Bool) (cooldown : Time)
      (found : Option DeliveryRecord)
      → Moves d begins (begin_resolved call k i rd ld claim cooldown found)
  begin_resolved-Moves call k i rd ld claim cooldown none =
      begin_new-Moves call k i rd ld claim cooldown
  begin_resolved-Moves call k i rd ld claim cooldown (some r) =
      begin_found-Moves call k i rd ld claim cooldown r

  pub create_or_begin_delivery-Moves :
      (call : Call) (k i rd ld : Text) (claim : Bool)
      → Moves d begins (create_or_begin_delivery call k i rd ld claim)
  unfolding create_or_begin_delivery begin_body
  create_or_begin_delivery-Moves call k i rd ld claim = Moves-lift d begins _ _ (λ k'.
      Moves-lift d begins _ _ (λ i'. Moves-lift d begins _ _ (λ rd'. Moves-lift d begins _ _ (λ ld'.
        Moves-transaction d begins call _ (
          Moves-after d begins _ _ (λ t. search keeps_rules)
            (λ cooldown.
              Moves-query d begins _ _
                (λ found. begin_resolved-Moves call k' i' rd' ld' claim cooldown found)))))))

  complete_sending-Moves :
      (call : Call) (id : Text) (o : Outcome) (r : DeliveryRecord)
      → Moves d (finishes o.state) (complete_sending call id o r)
  unfolding complete_sending set_outcome
  complete_sending-Moves call id o r =
      Moves-before d (finishes o.state) _ _
        (update_where-Moves d (finishes o.state) _ _ sending o.state (set_outcome call o)
          (λ row. refl) (finished o.state))
        (λ n t. search (keeps_rules, extend_if_positive-Leaves))

  interrupted-Move :
      (now : ℕ) (row : DeliveryRow) (t : Deliveries)
      → find d t ≡ some row
      → Move recovers (phase d t) (phase d (modify_all (interrupted now) t))
  unfolding interrupted
  interrupted-Move now row t h = elim (Bool-cases (same_state row.state sending)) [
    | inl g ↦
        by_phases d recovers _ _ (some sending) (some unknown) (ground (arith, h))
          (ground (arith, h, find-modify_all d (interrupted now) t)) cut_off
    | inr g ↦ same_phase d recovers _ _ (ground (arith, h, find-modify_all d (interrupted now) t))
  ]

  pub recover_interrupted_deliveries-Moves :
      (call : Call) → Moves d recovers (recover_interrupted_deliveries call)
  unfolding recover_interrupted_deliveries
  recover_interrupted_deliveries-Moves call = record {
    at = λ db. elim (Bool-cases call.sqlite_ok) [
      | inr refused ↦ rw refused (stays recovers _)
      | inl served ↦ rw served (elim (Option-cases (find d db.deliveries)) [
        | inr (row, h) ↦ interrupted-Move call.now row db.deliveries h
        | inl h ↦
            same_phase d recovers _ _
              (ground (arith, h, find-modify_all d (interrupted call.now) db.deliveries))
      ])
    ];
  }

  update_body-Moves :
      (call : Call) (id digest : Text) (o : Outcome)
      → Moves d (finishes o.state) (update_body call id digest o)
  unfolding update_body
  update_body-Moves call id digest o = Moves-query d (finishes o.state) _ _ (λ r.
      Moves-if d (finishes o.state) _ _ _ (Moves-raise d (finishes o.state) _) (
        Moves-if d (finishes o.state) _ _ _
          (Moves-of d (finishes o.state) _ (λ t. repeat_outcome-Leaves t o r))
          (complete_sending-Moves call id o r)))

  pub update_delivery_not_before-Moves :
      (call : Call) (k digest : Text) (s : DeliveryState) (pid message : Text) (at : Time)
      → Moves d (finishes s) (update_delivery_not_before call k digest s pid message at)
  unfolding update_delivery_not_before outcome_of
  update_delivery_not_before-Moves call k digest s pid message at =
      Moves-lift d (finishes s) _ _ (λ id. Moves-lift d (finishes s) _ _ (λ digest'.
        Moves-if d (finishes s) _ _ _ (Moves-raise d (finishes s) _) (
          Moves-lift d (finishes s) _ _ (λ pid'. Moves-lift d (finishes s) _ _ (λ ms.
            Moves-transaction d (finishes s) call _
              (update_body-Moves call id digest' (outcome_of s pid' message ms)))))))
