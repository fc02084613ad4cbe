-- ===== src/Store/History.antt =====
-- Histories: the calls that a store serves, one transaction after another. SQLite runs the writing
-- transactions one at a time, so a history is a list.
pub mod Claimable
pub mod Atomicity
pub mod Release
pub mod Once
pub mod Promises
pub mod Settled
pub mod Admission
pub mod Cooldown
pub mod Reached
use orka_gateway_telegram.Prelude.{
  ℕ, zero, suc, ◌+◌, ◌≡◌, Bool, true, false, Option, none, some, List, [], ◌∷◌, Text, ◌==◌, ◌&&◌,
  if◌then◌else◌,
}
use orka_gateway_telegram.Prelude.Int.{ℤ}
use orka_gateway_telegram.Store.Types.{
  Result, ok, err, DeliveryState, retryable, same_state, DeliveryRecord, Time, Call,
}
use orka_gateway_telegram.Store.Table.{Key, Text-key, find}
use orka_gateway_telegram.Store.Db.{DeliveryRow, Db}
use orka_gateway_telegram.Store.Reflects.{Deliveries}
use orka_gateway_telegram.Store.Deliveries.{create_or_begin_delivery}
use orka_gateway_telegram.Store.Completion.{
  update_delivery_not_before, recover_interrupted_deliveries,
}
use orka_gateway_telegram.Store.Updates.{create_update, save_update_response}

-- The methods that write. `begin` is createOrBeginDelivery, `update` is updateDelivery, `recover`
-- is what opening the database does, `admit` and `answer` are CreateUpdate and SaveUpdateResponse.
pub data Op : Type 0 where
  begin : Call → (d i digest legacy : Text) → (claim : Bool) → Op
  update : Call → (d digest : Text) → DeliveryState → (provider_id message : Text) → Time → Op
  recover : Call → Op
  admit : Call → ℤ → Text → Op
  answer : Call → ℤ → Text → Text → Op

unfoldable pub step : Op → Db → Db
step (begin call d i rd ld claim) db = (create_or_begin_delivery call d i rd ld claim db).1
step (update call d digest state pid message t) db =
    (update_delivery_not_before call d digest state pid message t db).1
step (recover call) db = (recover_interrupted_deliveries call db).1
step (admit call u digest) db = (create_update call u digest db).1
step (answer call u digest response) db = (save_update_response call u digest response db).1

unfoldable pub run : List Op → Db → Db
run [] db = db
run (op ∷ ops) db = run ops (step op db)

-- 1 if the result tells the caller to send the delivery `d`.
abbrev pub told_to_send : Text → Result (DeliveryRecord × Bool) → ℕ
told_to_send d (ok (r, should_send)) = if r.delivery_id == d && should_send then 1 else 0
told_to_send d (err e) = 0

-- 1 if the result says that the delivery `d` is retryable now.
abbrev pub released : Text → Result DeliveryRecord → ℕ
released d (ok r) = if r.delivery_id == d && same_state r.state retryable then 1 else 0
released d (err e) = 0

abbrev pub sends_at : Text → Op → Db → ℕ
sends_at d (begin call d' i rd ld claim) db =
    told_to_send d (create_or_begin_delivery call d' i rd ld claim db).0
sends_at d _ db = 0

abbrev pub releases_at : Text → Op → Db → ℕ
releases_at d (update call d' digest state pid message t) db =
    released d (update_delivery_not_before call d' digest state pid message t db).0
releases_at d _ db = 0

-- How often a history tells a caller to send `d`, and how often a send of `d` ends retryable.
unfoldable pub sends : Text → List Op → Db → ℕ
sends d [] db = 0
sends d (op ∷ ops) db = sends_at d op db + sends d ops (step op db)

unfoldable pub releases : Text → List Op → Db → ℕ
releases d [] db = 0
releases d (op ∷ ops) db = releases_at d op db + releases d ops (step op db)
