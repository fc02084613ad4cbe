-- ===== src/Store/History/Settled.antt =====
-- internal/store: terminal and interrupted deliveries in a history.
use orka_gateway_telegram.Prelude.{◌≡◌, refl, Bool, true, false, some, List, [], ◌∷◌, Text, arith}
use orka_gateway_telegram.Store.Types.{Result, ok, err, sending, terminal, DeliveryRecord, Call}
use orka_gateway_telegram.Store.Table.{Text-key, find, find-modify_all}
use orka_gateway_telegram.Store.Db.{DeliveryRow, Db}
use orka_gateway_telegram.Store.Ensures.{Post}
use orka_gateway_telegram.Store.Deliveries.{create_or_begin_delivery}
use orka_gateway_telegram.Store.Completion.{interrupted, recover_interrupted_deliveries}
use orka_gateway_telegram.Store.Claims.Method.{Claim, create_or_begin_delivery-Claim}
use orka_gateway_telegram.Store.History.{
  Op, begin, update, recover, admit, answer, step, told_to_send, sends_at, sends,
}
use orka_gateway_telegram.Store.History.Promises.{step-Extends}

module _ (d : Text) (row : DeliveryRow) (settled : terminal row.state ≡ true) where
  told-settled :
      (call : Call) (claim : Bool) (db : Db) (r : Result (DeliveryRecord × Bool) × Db)
      → find d db.deliveries ≡ some row
      → Post (Claim call claim db) r
      → told_to_send d r.0 ≡ 0
  unfolding terminal
  told-settled call claim db (err e, _) h k = refl
  told-settled call claim db (ok (r, false), _) h k = ground arith
  told-settled call claim db (ok (r, true), _) h k =
      let claimable = k.began.was_claimable refl in ground arith

  sends_at-settled : (op : Op) (db : Db) → find d db.deliveries ≡ some row → sends_at d op db ≡ 0
  sends_at-settled (begin call k i rd ld claim) db h =
      told-settled call claim db (create_or_begin_delivery call k i rd ld claim db) h
        ((create_or_begin_delivery-Claim call db k i rd ld claim).at db refl)
  sends_at-settled (update _ _ _ _ _ _ _) db h = refl
  sends_at-settled (recover _) db h = refl
  sends_at-settled (admit _ _ _) db h = refl
  sends_at-settled (answer _ _ _ _) db h = refl

  sends-settled : (ops : List Op) (db : Db) → find d db.deliveries ≡ some row → sends d ops db ≡ 0
  unfolding sends
  sends-settled [] db h = refl
  sends-settled (op ∷ ops) db h =
      let now = sends_at-settled op db h in
      let later = sends-settled ops (step op db) ((step-Extends op db).settled d row h settled) in
      omega arith

-- No caller is told to send a delivery whose stored state is delivered, permanent or unknown,
-- whatever calls the store serves from then on.
pub sends-terminal :
    (d : Text) (row : DeliveryRow) (ops : List Op) (db : Db)
    → find d db.deliveries ≡ some row
    → terminal row.state ≡ true
    → sends d ops db ≡ 0
sends-terminal d row ops db h settled = sends-settled d row settled ops db h

-- A delivery that was being sent when the store stopped is not sent again: if SQLite serves the
-- recovery, no caller is told to send it, whatever calls the store serves after it.
pub sends-recover :
    (call : Call) (d : Text) (row : DeliveryRow) (ops : List Op) (db : Db)
    → find d db.deliveries ≡ some row
    → row.state ≡ sending
    → call.sqlite_ok ≡ true
    → sends d ops (step (recover call) db) ≡ 0
unfolding step recover_interrupted_deliveries terminal interrupted
sends-recover call d row ops db h s served =
    sends-terminal d (interrupted call.now row) ops (step (recover call) db)
      (ground (arith, find-modify_all d (interrupted call.now) db.deliveries)) (ground arith)
