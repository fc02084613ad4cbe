-- ===== src/Store/Extends/Operations.antt =====
-- internal/store/deliveries.go: the operations on deliveries, with respect to Extends.
use orka_gateway_telegram.Prelude.{
  ℕ, zero, suc, ◌≡◌, refl, Bool, true, Option, none, some, arith, Text,
}
use orka_gateway_telegram.Store.Types.{
  DeliveryState, terminal, Time, DeliveryRecord, Call, ok, err, failure,
}
use orka_gateway_telegram.Store.Db.{DeliveryRow}
use orka_gateway_telegram.Store.Keeps.{Keeps-pure, Keeps-if, Keeps-bind, keeps_rules}
use orka_gateway_telegram.Store.Deliveries.{
  extend_provider_cooldown, ensure_delivery_alias, upgrade_legacy_delivery, recover_stale,
  claim_retryable, begin_found, begin_new, begin_body, begin_resolved, create_or_begin_delivery,
}
use orka_gateway_telegram.Store.Completion.{
  Outcome, extend_if_positive, set_outcome, repeat_outcome, complete_sending, update_body,
  update_delivery_not_before, interrupted, recover_interrupted_deliveries,
}
use orka_gateway_telegram.Store.Table.{modify_all, Text-key}
use orka_gateway_telegram.Store.Extends.{Extends-refl, SameRequest}
use orka_gateway_telegram.Store.Extends.Tables.{Extends-modify_all}
use orka_gateway_telegram.Store.Extends.Statements.{
  Growing, Growing-intro, if-Extends, insert_delivery-Growing, update_where-Growing,
  insert_idempotency-Growing, insert_alias-Growing, upsert_cooldown-Growing,
}

extend_provider_cooldown-Growing : (ms : ℕ) → Growing (extend_provider_cooldown ms)
unfolding extend_provider_cooldown
extend_provider_cooldown-Growing ms a = search (keeps_rules, upsert_cooldown-Growing)

ensure_delivery_alias-Growing : (i id : Text) → Growing (ensure_delivery_alias i id)
unfolding ensure_delivery_alias
ensure_delivery_alias-Growing i id a = search (keeps_rules, insert_alias-Growing)

upgrade_legacy_delivery-Growing :
    (r : DeliveryRecord) (i rd : Text) → Growing (upgrade_legacy_delivery r i rd)
unfolding upgrade_legacy_delivery
upgrade_legacy_delivery-Growing r i rd a =
    search (keeps_rules, ensure_delivery_alias-Growing, insert_idempotency-Growing)

recover_stale-Growing : (call : Call) (r : DeliveryRecord) → Growing (recover_stale call r)
unfolding recover_stale terminal
recover_stale-Growing call r a =
    Keeps-bind _ _
      (update_where-Growing _ _ _ _ refl (λ row. record { digest = refl; created = refl }) a)
      (λ n. Keeps-pure _)

claim_retryable-Growing :
    (call : Call) (cooldown : Time) (r : DeliveryRecord) → Growing (claim_retryable call cooldown r)
unfolding claim_retryable terminal
claim_retryable-Growing call cooldown r a = Keeps-if _ _ _ (Keeps-pure _) (
    Keeps-bind _ _
      (update_where-Growing _ _ _ _ refl (λ row. record { digest = refl; created = refl }) a)
      (λ n. Keeps-pure _))

ruleset begin_rules = (
  keeps_rules, insert_delivery-Growing, insert_idempotency-Growing, ensure_delivery_alias-Growing,
  upgrade_legacy_delivery-Growing, recover_stale-Growing, claim_retryable-Growing,
)

module _ (call : Call) (d i rd ld : Text) (claim : Bool) where
  begin_found-Growing :
      (cooldown : Time) (r : DeliveryRecord) → Growing (begin_found call d i rd ld claim cooldown r)
  unfolding begin_found
  begin_found-Growing cooldown r a = search begin_rules depth 9

  begin_new-Growing : (cooldown : Time) → Growing (begin_new call d i rd ld claim cooldown)
  unfolding begin_new
  begin_new-Growing cooldown a = search begin_rules depth 9

  begin_resolved-Growing :
      (cooldown : Time) (found : Option DeliveryRecord)
      → Growing (begin_resolved call d i rd ld claim cooldown found)
  begin_resolved-Growing cooldown none = begin_new-Growing cooldown
  begin_resolved-Growing cooldown (some r) = begin_found-Growing cooldown r

  begin_body-Growing : Growing (begin_body call d i rd ld claim)
  unfolding begin_body
  begin_body-Growing a = search (keeps_rules, begin_resolved-Growing)

pub create_or_begin_delivery-Growing :
    (call : Call) (d i rd ld : Text) (claim : Bool)
    → Growing (create_or_begin_delivery call d i rd ld claim)
unfolding create_or_begin_delivery
create_or_begin_delivery-Growing call d i rd ld claim a =
    search (keeps_rules, begin_body-Growing) depth 10

extend_if_positive-Growing : (ms : ℕ) → Growing (extend_if_positive ms)
unfolding extend_if_positive
extend_if_positive-Growing zero a = search keeps_rules
extend_if_positive-Growing (suc n) a = extend_provider_cooldown-Growing (suc n) a

repeat_outcome-Growing : (o : Outcome) (r : DeliveryRecord) → Growing (repeat_outcome o r)
unfolding repeat_outcome
repeat_outcome-Growing o r a = search (keeps_rules, extend_if_positive-Growing) depth 7

complete_sending-Growing :
    (call : Call) (id : Text) (o : Outcome) (r : DeliveryRecord)
    → Growing (complete_sending call id o r)
unfolding complete_sending set_outcome terminal
complete_sending-Growing call id o r a =
    Keeps-bind _ _
      (update_where-Growing _ _ _ _ refl (λ row. record { digest = refl; created = refl }) a)
      (λ n. search (keeps_rules, extend_if_positive-Growing) depth 7)

update_body-Growing :
    (call : Call) (id digest : Text) (o : Outcome) → Growing (update_body call id digest o)
unfolding update_body
update_body-Growing call id digest o a =
    search (keeps_rules, repeat_outcome-Growing, complete_sending-Growing) depth 7

pub update_delivery_not_before-Growing :
    (call : Call) (id digest : Text) (state : DeliveryState) (pid message : Text) (t : Time)
    → Growing (update_delivery_not_before call id digest state pid message t)
unfolding update_delivery_not_before
update_delivery_not_before-Growing call id digest state pid message t a =
    search (keeps_rules, update_body-Growing) depth 12

interrupted_fixed : (now : ℕ) (r : DeliveryRow) → terminal r.state ≡ true → interrupted now r ≡ r
unfolding interrupted terminal
interrupted_fixed now r h = ground arith

interrupted_same : (now : ℕ) (r : DeliveryRow) → SameRequest r (interrupted now r)
unfolding interrupted
interrupted_same now r = ground arith

pub recover_interrupted_deliveries-Growing :
    (call : Call) → Growing (recover_interrupted_deliveries call)
unfolding recover_interrupted_deliveries
recover_interrupted_deliveries-Growing call =
    Growing-intro (recover_interrupted_deliveries call) (λ db.
      if-Extends call.sqlite_ok db
        (ok tt, record db { deliveries = modify_all (interrupted call.now) db.deliveries })
        (err failure, db)
        (λ _.
          Extends-modify_all db (interrupted call.now) (interrupted_fixed call.now)
            (interrupted_same call.now))
        (λ _. Extends-refl db))
