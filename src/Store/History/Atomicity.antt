-- ===== src/Store/History/Atomicity.antt =====
-- internal/store/deliveries.go: updateDeliveryNotBefore and its transaction.
use orka_gateway_telegram.Prelude.{Text}
use orka_gateway_telegram.Store.Types.{DeliveryState, Time, Call}
use orka_gateway_telegram.Store.Atomic.{Atomic, atomic_rules}
use orka_gateway_telegram.Store.Completion.{update_delivery_not_before}

pub update_delivery_not_before-Atomic :
    (call : Call) (d digest : Text) (state : DeliveryState) (pid message : Text) (t : Time)
    → Atomic (update_delivery_not_before call d digest state pid message t)
unfolding update_delivery_not_before
update_delivery_not_before-Atomic call d digest state pid message t = search atomic_rules depth 8
