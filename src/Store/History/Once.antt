-- ===== src/Store/History/Once.antt =====
-- internal/store/deliveries.go: the claims of a delivery in a history.
use orka_gateway_telegram.Prelude.{
  ℕ, ◌+◌, ◌≤◌, ◌≡◌, refl, inl, inr, Bool, true, false, List, [], ◌∷◌, arith, Text,
}
use orka_gateway_telegram.Prelude.Int.{ℤ}
use orka_gateway_telegram.Store.Types.{
  sending, DeliveryRecord, Call, Result, ok, err, UpdateRecord, not_found,
}
use orka_gateway_telegram.Store.Table.{Text-key}
use orka_gateway_telegram.Store.Db.{UpdateRow, Db}
use orka_gateway_telegram.Store.Keeps.{Keeps, keeps_rules}
use orka_gateway_telegram.Store.Ensures.{Post}
use orka_gateway_telegram.Store.Reflects.{Deliveries, Reflects}
use orka_gateway_telegram.Store.Deliveries.{create_or_begin_delivery}
use orka_gateway_telegram.Store.Updates.{
  insert_update, set_response, admit, create_body, create_update, save_body, save_update_response,
}
use orka_gateway_telegram.Store.Claims.{Claimable}
use orka_gateway_telegram.Store.Claims.Method.{Claim, create_or_begin_delivery-Claim}
use orka_gateway_telegram.Store.History.{
  Op, begin, update, recover, step, run, told_to_send, sends_at, releases_at, sends, releases,
}
use orka_gateway_telegram.Store.History as History
use orka_gateway_telegram.Store.History.Claimable.{
  budget, Within, create_or_begin_delivery-Within, recover_interrupted_deliveries-Within,
}
use orka_gateway_telegram.Store.History.Release.{budget-update}

module _ (d : Text) (n : ℕ) where
  insert_update-Within : (id : ℕ) (row : UpdateRow) → Keeps (Within d n) (insert_update id row)
  unfolding insert_update
  insert_update-Within id row = record { at = λ db h. ground arith }

  set_response-Within :
      (id : ℕ) (digest response : Text) (now : ℕ)
      → Keeps (Within d n) (set_response id digest response now)
  unfolding set_response
  set_response-Within id digest response now = record { at = λ db h. ground arith }

  admit-Within :
      (call : Call) (id : ℕ) (digest : Text) (found : Result UpdateRecord)
      → Keeps (Within d n) (admit call id digest found)
  unfolding admit
  admit-Within call id digest (ok r) = search keeps_rules
  admit-Within call id digest (err not_found) = search (keeps_rules, insert_update-Within)
  admit-Within call id digest (err e) = search keeps_rules

  create_update-Within :
      (call : Call) (u : ℤ) (digest : Text) → Keeps (Within d n) (create_update call u digest)
  unfolding create_update create_body
  create_update-Within call u digest = search (keeps_rules, admit-Within) depth 10

  save_update_response-Within :
      (call : Call) (u : ℤ) (digest response : Text)
      → Keeps (Within d n) (save_update_response call u digest response)
  unfolding save_update_response save_body
  save_update_response-Within call u digest response =
      search (keeps_rules, set_response-Within) depth 12

budget_of_Claimable : (d : Text) (t : Deliveries) → Claimable t d → budget d t ≡ 1
unfolding budget
budget_of_Claimable d t (inl e) = ground arith
budget_of_Claimable d t (inr (row, e, s)) = ground arith

budget_of_Reflects :
    (t : Deliveries) (r : DeliveryRecord)
    → Reflects t r
    → r.state ≡ sending
    → budget r.delivery_id t ≡ 0
unfolding budget
budget_of_Reflects t r h s = ground (arith, h.stored, h.state)

told-budget :
    (call : Call) (claim : Bool) (d : Text) (db : Db) (r : Result (DeliveryRecord × Bool) × Db)
    → Post (Claim call claim db) r
    → budget d r.1.deliveries ≤ budget d db.deliveries
    → told_to_send d r.0 + budget d r.1.deliveries ≤ budget d db.deliveries
told-budget call claim d db (err e, db') h k = omega arith
told-budget call claim d db (ok (r, false), db') h k = ground arith
told-budget call claim d db (ok (r, true), db') h k = ground (
  arith,
  budget_of_Claimable r.delivery_id db.deliveries (h.began.was_claimable refl),
  budget_of_Reflects db'.deliveries r h.began.reflects (h.began.is_sending refl),
)

budget-step :
    (d : Text) (op : Op) (db : Db)
    → sends_at d op db + budget d (step op db).deliveries
      ≤ budget d db.deliveries + releases_at d op db
unfolding step
budget-step d (begin call k i rd ld claim) db = omega (
  arith,
  told-budget call claim d db (create_or_begin_delivery call k i rd ld claim db)
      ((create_or_begin_delivery-Claim call db k i rd ld claim).at db refl)
      ((create_or_begin_delivery-Within d (budget d db.deliveries) call k i rd ld claim).at db
        (omega arith)),
)
budget-step d (update call k digest state pid message t) db =
    omega (arith, budget-update call d k digest state pid message t db)
budget-step d (recover call) db = omega (
  arith,
  (recover_interrupted_deliveries-Within d (budget d db.deliveries) call).at db (omega arith),
)
budget-step d (History.admit call u digest) db =
    omega
      (arith, (create_update-Within d (budget d db.deliveries) call u digest).at db (omega arith))
budget-step d (History.answer call u digest response) db = omega (
  arith,
  (save_update_response-Within d (budget d db.deliveries) call u digest response).at db
      (omega arith),
)

sends-budget :
    (d : Text) (ops : List Op) (db : Db)
    → sends d ops db + budget d (run ops db).deliveries ≤ budget d db.deliveries + releases d ops db
unfolding sends releases run
sends-budget d [] db = omega arith
sends-budget d (op ∷ ops) db = omega (arith, budget-step d op db, sends-budget d ops (step op db))

budget-le-one : (d : Text) (t : Deliveries) → budget d t ≤ 1
unfolding budget
budget-le-one d t = ground arith

-- Whatever calls the store serves, in any order and with any clock, the callers are told to send a
-- delivery at most once more than sends of it have been reported as retryable.
pub sends-le-releases :
    (d : Text) (ops : List Op) (db : Db) → sends d ops db ≤ 1 + releases d ops db
sends-le-releases d ops db = omega (arith, sends-budget d ops db, budget-le-one d db.deliveries)
