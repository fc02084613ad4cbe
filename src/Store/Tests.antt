-- ===== src/Store/Tests.antt =====
-- The store on small inputs.
pub mod Histories
pub mod Texts
pub mod Migrations
use orka_gateway_telegram.Prelude.{
  ℕ, ◌≡◌, refl, Bool, true, false, Option, none, some, [], Text, bytes,
}
use orka_gateway_telegram.Store.Types.{
  digest_conflict, invalid_transition, Result, ok, err, DeliveryState, sending, retryable,
  delivered, DeliveryRecord, Call,
}
use orka_gateway_telegram.Store.Db.{Db, empty}
use orka_gateway_telegram.Store.Deliveries.{begin_delivery_with_idempotency}
use orka_gateway_telegram.Store.Completion.{
  mark_delivery_delivered, mark_delivery_retryable_not_before,
}
use orka_gateway_telegram.Store.Run.{store}

abbrev pub digest_a : Text
digest_a = bytes "aaaaaaaaaaaaaaaaaaaaaaaaaaaaaaaaaaaaaaaaaaaaaaaaaaaaaaaaaaaaaaaa"

abbrev pub digest_b : Text
digest_b = bytes "bbbbbbbbbbbbbbbbbbbbbbbbbbbbbbbbbbbbbbbbbbbbbbbbbbbbbbbbbbbbbbbb"

abbrev pub at_ms : ℕ → Call
at_ms t = record { sqlite_ok = true; checked_at = t; now = t }

abbrev pub claim : Text → Text → ℕ → Db → Result (DeliveryRecord × Bool) × Db
claim d digest t db = begin_delivery_with_idempotency (at_ms t) d (bytes "k") digest digest db

abbrev pub claimed : Db
claimed = (claim (bytes "d1") digest_a 1000 empty).1

abbrev sends : Result (DeliveryRecord × Bool) × Db → Option (DeliveryState × Bool)
sends (ok (r, b), _) = some (r.state, b)
sends (err _, _) = none

first_claim : sends (claim (bytes "d1") digest_a 1000 empty) ≡ some (sending, true)
unfolding store
first_claim = refl

second_claim : sends (claim (bytes "d2") digest_a 1000 claimed) ≡ some (sending, false)
unfolding store
second_claim = refl

conflicting_claim : (claim (bytes "d1") digest_b 1000 claimed).0 ≡ err digest_conflict
unfolding store
conflicting_claim = refl

abbrev pub waiting : Db
waiting =
    (mark_delivery_retryable_not_before (at_ms 2000) (bytes "d1") digest_a [] (some 9000) claimed).1

early_claim : sends (claim (bytes "d1") digest_a 8999 waiting) ≡ some (retryable, false)
unfolding store
early_claim = refl

late_claim : sends (claim (bytes "d1") digest_a 9000 waiting) ≡ some (sending, true)
unfolding store
late_claim = refl
