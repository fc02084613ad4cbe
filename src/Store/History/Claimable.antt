-- ===== src/Store/History/Claimable.antt =====
-- The budget of a delivery, 1 while a claim of it is allowed, under the calls of a history.
use orka_gateway_telegram.Prelude.{
  ℕ, ◌≤◌, ◌≡◌, Bool, false, Option, none, some, arith, Text, Option-cases, inl, inr, if◌then◌else◌,
}
use orka_gateway_telegram.Store.Types.{
  DeliveryState, retryable, same_state, DeliveryRecord, Time, Call,
}
use orka_gateway_telegram.Store.Table.{Text-key, find, find-insert, find-modify, find-modify_all}
use orka_gateway_telegram.Store.Db.{DeliveryRow, IdempotencyRow, Db}
use orka_gateway_telegram.Store.Keeps.{Keeps, Keeps-pure, Keeps-if, Keeps-bind, keeps_rules}
use orka_gateway_telegram.Store.Reflects.{Deliveries}
use orka_gateway_telegram.Store.Statements.{
  insert_delivery, update_where, insert_idempotency, insert_alias,
}
use orka_gateway_telegram.Store.Deliveries.{
  ensure_delivery_alias, upgrade_legacy_delivery, recover_stale, claim_retryable, begin_found,
  begin_new, begin_resolved, begin_body, create_or_begin_delivery, expire_row, claim_row,
}
use orka_gateway_telegram.Store.Completion.{interrupted, recover_interrupted_deliveries}

abbrev row_budget : Option DeliveryRow → ℕ
row_budget none = 1
row_budget (some row) = if same_state row.state retryable then 1 else 0

unfoldable pub budget : Text → Deliveries → ℕ
budget d t = row_budget (find d t)

module _ (d : Text) (n : ℕ) where
  abbrev pub Within : Db → Type 0
  Within db = budget d db.deliveries ≤ n

  insert_delivery-Within : (id : Text) (row : DeliveryRow) → Keeps Within (insert_delivery id row)
  unfolding insert_delivery budget
  insert_delivery-Within id row = record {
    at = λ db h. ground (arith, find-insert d id row db.deliveries);
  }

  insert_idempotency-Within :
      (id : Text) (row : IdempotencyRow) → Keeps Within (insert_idempotency id row)
  unfolding insert_idempotency
  insert_idempotency-Within id row = record { at = λ db h. ground arith }

  insert_alias-Within : (i id : Text) → Keeps Within (insert_alias i id)
  unfolding insert_alias
  insert_alias-Within i id = record { at = λ db h. ground arith }

  update_where-Within :
      (id digest : Text) (from : DeliveryState) (change : DeliveryRow → DeliveryRow)
      → ((row : DeliveryRow) → same_state (change row).state retryable ≡ false)
      → Keeps Within (update_where id digest from change)
  unfolding update_where budget
  update_where-Within id digest from change h = record {
    at = λ db k. elim (Option-cases (find id db.deliveries)) [
      | inl e ↦ rw (e, update_where) k
      | inr (row, e) ↦ ground (arith, find-modify d id change db.deliveries, h row)
    ];
  }

  ensure_delivery_alias-Within : (i id : Text) → Keeps Within (ensure_delivery_alias i id)
  unfolding ensure_delivery_alias
  ensure_delivery_alias-Within i id = search (keeps_rules, insert_alias-Within)

  upgrade_legacy_delivery-Within :
      (r : DeliveryRecord) (i rd : Text) → Keeps Within (upgrade_legacy_delivery r i rd)
  unfolding upgrade_legacy_delivery
  upgrade_legacy_delivery-Within r i rd =
      search (keeps_rules, ensure_delivery_alias-Within, insert_idempotency-Within)

  recover_stale-Within : (call : Call) (r : DeliveryRecord) → Keeps Within (recover_stale call r)
  unfolding recover_stale
  recover_stale-Within call r =
      Keeps-bind _ _ (update_where-Within _ _ _ (expire_row call.now) (λ row. ground arith))
        (λ _. Keeps-pure _)

  claim_retryable-Within :
      (call : Call) (cooldown : Time) (r : DeliveryRecord)
      → Keeps Within (claim_retryable call cooldown r)
  unfolding claim_retryable
  claim_retryable-Within call cooldown r = Keeps-if _ _ _ (Keeps-pure _) (
      Keeps-bind _ _ (update_where-Within _ _ _ (claim_row call.now) (λ row. ground arith))
        (λ _. Keeps-pure _))

  begin_found-Within :
      (call : Call) (k i rd ld : Text) (claim : Bool) (cooldown : Time) (r : DeliveryRecord)
      → Keeps Within (begin_found call k i rd ld claim cooldown r)
  unfolding begin_found
  begin_found-Within call k i rd ld claim cooldown r =
      search
        (
          keeps_rules, ensure_delivery_alias-Within, upgrade_legacy_delivery-Within,
          recover_stale-Within, claim_retryable-Within,
        )
        depth 9

  begin_new-Within :
      (call : Call) (k i rd ld : Text) (claim : Bool) (cooldown : Time)
      → Keeps Within (begin_new call k i rd ld claim cooldown)
  unfolding begin_new
  begin_new-Within call k i rd ld claim cooldown =
      search
        (
          keeps_rules, ensure_delivery_alias-Within, insert_delivery-Within,
          insert_idempotency-Within,
        )
        depth 9

  begin_resolved-Within :
      (call : Call) (k i rd ld : Text) (claim : Bool) (cooldown : Time)
      (found : Option DeliveryRecord)
      → Keeps Within (begin_resolved call k i rd ld claim cooldown found)
  begin_resolved-Within call k i rd ld claim cooldown none =
      begin_new-Within call k i rd ld claim cooldown
  begin_resolved-Within call k i rd ld claim cooldown (some r) =
      begin_found-Within call k i rd ld claim cooldown r

  begin_body-Within :
      (call : Call) (k i rd ld : Text) (claim : Bool)
      → Keeps Within (begin_body call k i rd ld claim)
  unfolding begin_body
  begin_body-Within call k i rd ld claim = search (keeps_rules, begin_resolved-Within)

  pub create_or_begin_delivery-Within :
      (call : Call) (k i rd ld : Text) (claim : Bool)
      → Keeps Within (create_or_begin_delivery call k i rd ld claim)
  unfolding create_or_begin_delivery
  create_or_begin_delivery-Within call k i rd ld claim =
      search (keeps_rules, begin_body-Within) depth 10

  pub recover_interrupted_deliveries-Within :
      (call : Call) → Keeps Within (recover_interrupted_deliveries call)
  unfolding recover_interrupted_deliveries interrupted budget
  recover_interrupted_deliveries-Within call = record {
    at = λ db h. ground (arith, find-modify_all d (interrupted call.now) db.deliveries);
  }
