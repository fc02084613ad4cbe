-- ===== src/Store/Lifecycle/Refined.antt =====
-- internal/store: the writing methods and histories of them, as moves of one delivery.
use orka_gateway_telegram.Prelude.{List, [], ◌∷◌, Text}
use orka_gateway_telegram.Store.Db.{Db}
use orka_gateway_telegram.Store.History.{Op, begin, update, recover, step, run}
use orka_gateway_telegram.Store.History as History
use orka_gateway_telegram.Store.Lifecycle.{
  Event, begins, recovers, finishes, other_call, Phase, phase, Move, Moves-of,
}
use orka_gateway_telegram.Store.Lifecycle.Operations.{
  create_or_begin_delivery-Moves, update_delivery_not_before-Moves,
  recover_interrupted_deliveries-Moves, create_update-Leaves, save_update_response-Leaves,
}

-- What a call of the store is to the machine.
abbrev pub event_of : Op → Event
event_of (begin call k i rd ld claim) = begins
event_of (update call k digest s pid message at) = finishes s
event_of (recover call) = recovers
event_of (History.admit call u digest) = other_call
event_of (History.answer call u digest response) = other_call

-- The machine's runs, over the calls of a history.
pub data Runs : List Op → Phase → Phase → Type 0 where
  done : (p : Phase) → Runs [] p p
  moved :
      (op : Op) (ops : List Op) (p q r : Phase)
      → Move (event_of op) p q
      → Runs ops q r
      → Runs (op ∷ ops) p r

step-Move :
    (d : Text) (op : Op) (db : Db)
    → Move (event_of op) (phase d db.deliveries) (phase d (step op db).deliveries)
unfolding step
step-Move d (begin call k i rd ld claim) db =
    (create_or_begin_delivery-Moves d call k i rd ld claim).at db
step-Move d (update call k digest s pid message at) db =
    (update_delivery_not_before-Moves d call k digest s pid message at).at db
step-Move d (recover call) db = (recover_interrupted_deliveries-Moves d call).at db
step-Move d (History.admit call u digest) db =
    (Moves-of d other_call _ (λ t. create_update-Leaves t call u digest)).at db
step-Move d (History.answer call u digest response) db =
    (Moves-of d other_call _ (λ t. save_update_response-Leaves t call u digest response)).at db

-- Each call of a history makes at most one move of a delivery, and one that its machine allows for
-- that call: a claim makes a missing or retryable delivery sending, or a missing one retryable, or
-- gives up a delivery that was sending; a result ends the sending in the state of the result; a
-- recovery ends it as unknown; a call on updates makes none.
pub run-Runs :
    (d : Text) (ops : List Op) (db : Db)
    → Runs ops (phase d db.deliveries) (phase d (run ops db).deliveries)
unfolding run
run-Runs d [] db = done _
run-Runs d (op ∷ ops) db = moved op ops _ _ _ (step-Move d op db) (run-Runs d ops (step op db))
