-- ===== src/Store/Responses/Deliveries.antt =====
-- internal/store/deliveries.go: the calls on deliveries leave the table of updates as it is.
use orka_gateway_telegram.Prelude.{
  ℕ, zero, suc, ◌≡◌, refl, Bool, Option, none, some, arith, Text, ◌∙◌,
}
use orka_gateway_telegram.Store.Types.{DeliveryState, Time, DeliveryRecord, Call}
use orka_gateway_telegram.Store.Table.{Table}
use orka_gateway_telegram.Store.Db.{DeliveryRow, IdempotencyRow, UpdateRow, Db}
use orka_gateway_telegram.Store.Exec.{Exec}
use orka_gateway_telegram.Store.Keeps.{Keeps, keeps_rules}
use orka_gateway_telegram.Store.Statements.{
  insert_delivery, update_where, insert_idempotency, insert_alias, upsert_cooldown,
}
use orka_gateway_telegram.Store.Deliveries.{
  extend_provider_cooldown, ensure_delivery_alias, upgrade_legacy_delivery, recover_stale,
  claim_retryable, begin_found, begin_new, begin_body, begin_resolved, create_or_begin_delivery,
}
use orka_gateway_telegram.Store.Completion.{
  Outcome, extend_if_positive, set_outcome, repeat_outcome, complete_sending, update_body,
  update_delivery_not_before, recover_interrupted_deliveries,
}

module _ (t : Table ℕ UpdateRow) where
  -- The action leaves the table of updates as it is.
  abbrev pub Leaves : {A : Type 0} → Exec A → Type 0
  Leaves m = Keeps (λ db. db.updates ≡ t) m

  Leaves-intro : {A : Type 0} (m : Exec A) → ((db : Db) → (m db).1.updates ≡ db.updates) → Leaves m
  Leaves-intro m h = record { at = λ db e. h db ∙ e }

  insert_delivery-Leaves : (id : Text) (row : DeliveryRow) → Leaves (insert_delivery id row)
  unfolding insert_delivery
  insert_delivery-Leaves id row = Leaves-intro (insert_delivery id row) (λ db. ground arith)

  update_where-Leaves :
      (id digest : Text) (from : DeliveryState) (change : DeliveryRow → DeliveryRow)
      → Leaves (update_where id digest from change)
  unfolding update_where
  update_where-Leaves id digest from change =
      Leaves-intro (update_where id digest from change) (λ db. ground arith)

  insert_idempotency-Leaves :
      (id : Text) (row : IdempotencyRow) → Leaves (insert_idempotency id row)
  unfolding insert_idempotency
  insert_idempotency-Leaves id row = Leaves-intro (insert_idempotency id row) (λ db. ground arith)

  insert_alias-Leaves : (i id : Text) → Leaves (insert_alias i id)
  unfolding insert_alias
  insert_alias-Leaves i id = Leaves-intro (insert_alias i id) (λ db. ground arith)

  upsert_cooldown-Leaves : (ms : ℕ) → Leaves (upsert_cooldown ms)
  unfolding upsert_cooldown
  upsert_cooldown-Leaves ms = Leaves-intro (upsert_cooldown ms) (λ db. refl)

  extend_provider_cooldown-Leaves : (ms : ℕ) → Leaves (extend_provider_cooldown ms)
  unfolding extend_provider_cooldown
  extend_provider_cooldown-Leaves ms = search (keeps_rules, upsert_cooldown-Leaves)

  ensure_delivery_alias-Leaves : (i id : Text) → Leaves (ensure_delivery_alias i id)
  unfolding ensure_delivery_alias
  ensure_delivery_alias-Leaves i id = search (keeps_rules, insert_alias-Leaves)

  upgrade_legacy_delivery-Leaves :
      (r : DeliveryRecord) (i rd : Text) → Leaves (upgrade_legacy_delivery r i rd)
  unfolding upgrade_legacy_delivery
  upgrade_legacy_delivery-Leaves r i rd =
      search (keeps_rules, ensure_delivery_alias-Leaves, insert_idempotency-Leaves)

  recover_stale-Leaves : (call : Call) (r : DeliveryRecord) → Leaves (recover_stale call r)
  unfolding recover_stale
  recover_stale-Leaves call r = search (keeps_rules, update_where-Leaves)

  claim_retryable-Leaves :
      (call : Call) (cooldown : Time) (r : DeliveryRecord)
      → Leaves (claim_retryable call cooldown r)
  unfolding claim_retryable
  claim_retryable-Leaves call cooldown r = search (keeps_rules, update_where-Leaves)

  ruleset leaves_rules = (
    keeps_rules, insert_delivery-Leaves, insert_idempotency-Leaves, ensure_delivery_alias-Leaves,
    upgrade_legacy_delivery-Leaves, recover_stale-Leaves, claim_retryable-Leaves,
  )

  module _ (call : Call) (d i rd ld : Text) (claim : Bool) where
    begin_found-Leaves :
        (cooldown : Time) (r : DeliveryRecord)
        → Leaves (begin_found call d i rd ld claim cooldown r)
    unfolding begin_found
    begin_found-Leaves cooldown r = search leaves_rules depth 9

    begin_new-Leaves : (cooldown : Time) → Leaves (begin_new call d i rd ld claim cooldown)
    unfolding begin_new
    begin_new-Leaves cooldown = search leaves_rules depth 9

    begin_resolved-Leaves :
        (cooldown : Time) (found : Option DeliveryRecord)
        → Leaves (begin_resolved call d i rd ld claim cooldown found)
    begin_resolved-Leaves cooldown none = begin_new-Leaves cooldown
    begin_resolved-Leaves cooldown (some r) = begin_found-Leaves cooldown r

    begin_body-Leaves : Leaves (begin_body call d i rd ld claim)
    unfolding begin_body
    begin_body-Leaves = search (keeps_rules, begin_resolved-Leaves)

  pub create_or_begin_delivery-Leaves :
      (call : Call) (d i rd ld : Text) (claim : Bool)
      → Leaves (create_or_begin_delivery call d i rd ld claim)
  unfolding create_or_begin_delivery
  create_or_begin_delivery-Leaves call d i rd ld claim =
      search (keeps_rules, begin_body-Leaves) depth 10

  extend_if_positive-Leaves : (ms : ℕ) → Leaves (extend_if_positive ms)
  unfolding extend_if_positive
  extend_if_positive-Leaves zero = search keeps_rules
  extend_if_positive-Leaves (suc n) = extend_provider_cooldown-Leaves (suc n)

  repeat_outcome-Leaves : (o : Outcome) (r : DeliveryRecord) → Leaves (repeat_outcome o r)
  unfolding repeat_outcome
  repeat_outcome-Leaves o r = search (keeps_rules, extend_if_positive-Leaves) depth 7

  complete_sending-Leaves :
      (call : Call) (id : Text) (o : Outcome) (r : DeliveryRecord)
      → Leaves (complete_sending call id o r)
  unfolding complete_sending set_outcome
  complete_sending-Leaves call id o r =
      search (keeps_rules, update_where-Leaves, extend_if_positive-Leaves) depth 9

  update_body-Leaves :
      (call : Call) (id digest : Text) (o : Outcome) → Leaves (update_body call id digest o)
  unfolding update_body
  update_body-Leaves call id digest o =
      search (keeps_rules, repeat_outcome-Leaves, complete_sending-Leaves) depth 7

  pub update_delivery_not_before-Leaves :
      (call : Call) (id digest : Text) (state : DeliveryState) (pid message : Text) (time : Time)
      → Leaves (update_delivery_not_before call id digest state pid message time)
  unfolding update_delivery_not_before
  update_delivery_not_before-Leaves call id digest state pid message time =
      search (keeps_rules, update_body-Leaves) depth 12

  pub recover_interrupted_deliveries-Leaves :
      (call : Call) → Leaves (recover_interrupted_deliveries call)
  unfolding recover_interrupted_deliveries
  recover_interrupted_deliveries-Leaves call =
      Leaves-intro (recover_interrupted_deliveries call) (λ db. ground arith)
