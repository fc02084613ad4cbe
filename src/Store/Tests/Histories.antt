-- ===== src/Store/Tests/Histories.antt =====
-- The theorems on the store, at a concrete history.
use orka_gateway_telegram.Prelude.{
  ◌+◌, ◌≤◌, ◌≡◌, refl, true, false, none, some, List, [], ◌∷◌, Text, bytes,
}
use orka_gateway_telegram.Prelude.Int.{pos}
use orka_gateway_telegram.Store.Types.{
  retryable, delivered, unknown, DeliveryRecord, UpdateRecord, ok,
}
use orka_gateway_telegram.Store.Db.{DeliveryRow, Db, empty}
use orka_gateway_telegram.Store.Deliveries.{new_row, new_record, create_or_begin_delivery}
use orka_gateway_telegram.Store.Updates.{create_update}
use orka_gateway_telegram.Store.Run.{store, updates}
use orka_gateway_telegram.Store.Content.{Content, create_or_begin_delivery-Content}
use orka_gateway_telegram.Store.Extends.{Extends}
use orka_gateway_telegram.Store.History.{Op, begin, update, recover, step, run, sends, releases}
use orka_gateway_telegram.Store.History.Once.{sends-le-releases}
use orka_gateway_telegram.Store.History.Promises.{run-Extends}
use orka_gateway_telegram.Store.History.Settled.{sends-terminal, sends-recover}
use orka_gateway_telegram.Store.History.Admission.{Admitted, create_update-again}
use orka_gateway_telegram.Store.History.Cooldown.{cooldown-le-claim}
use orka_gateway_telegram.Store.Lifecycle.{phase}
use orka_gateway_telegram.Store.Lifecycle.Refined.{Runs, run-Runs}
use orka_gateway_telegram.Store.Tests.{digest_a, digest_b, at_ms, claimed, waiting}

-- d1 is claimed, reported as retryable, claimed again, and the store is opened again.
abbrev ops : List Op
ops =
    begin (at_ms 1000) (bytes "d1") (bytes "k") digest_a digest_a true
    ∷ update (at_ms 2000) (bytes "d1") digest_a retryable [] [] (some 9000)
    ∷ begin (at_ms 9000) (bytes "d1") (bytes "k") digest_a digest_a true
    ∷ recover (at_ms 9500)
    ∷ []

two_sends : sends (bytes "d1") ops empty ≡ 2
unfolding store sends step
two_sends = refl

sends-le-releases_example : sends (bytes "d1") ops empty ≤ 1 + releases (bytes "d1") ops empty
sends-le-releases_example = sends-le-releases (bytes "d1") ops empty

run-Runs_example :
    Runs ops
      (phase (bytes "d1") claimed.deliveries)
      (phase (bytes "d1") (run ops claimed).deliveries)
run-Runs_example = run-Runs (bytes "d1") ops claimed

-- The result is stored, the delivery is claimed again, and the recovery gives it up.
phases_test : phase (bytes "d1") (run ops claimed).deliveries ≡ some unknown
unfolding store step run
phases_test = refl

run-Extends_example : Extends claimed (run ops claimed)
run-Extends_example = run-Extends ops claimed

abbrev first : DeliveryRecord
first = new_record (bytes "d1") (bytes "k") digest_a digest_a false 1000 0

create_or_begin_delivery-Content_example : Content (bytes " k") digest_a first
unfolding store
create_or_begin_delivery-Content_example =
    create_or_begin_delivery-Content (at_ms 1000) empty claimed (bytes "d1") (bytes " k") digest_a
      digest_a true first true refl

abbrev settled : Db
settled =
    run (update (at_ms 2000) (bytes "d1") digest_a delivered (bytes "telegram:5:9") [] none ∷ [])
      claimed

abbrev settled_row : DeliveryRow
settled_row = record {
  request_digest = digest_a;
  state = delivered;
  provider_message_id = bytes "telegram:5:9";
  safe_message = [];
  retry_not_before_ms = 0;
  created_at_ms = 1000;
  updated_at_ms = 2000;
}

sends-terminal_example : sends (bytes "d1") ops settled ≡ 0
unfolding store step run
sends-terminal_example = sends-terminal (bytes "d1") settled_row ops settled refl refl

sends-recover_example : sends (bytes "d1") ops (step (recover (at_ms 1500)) claimed) ≡ 0
unfolding store
sends-recover_example =
    sends-recover (at_ms 1500) (bytes "d1") (new_row digest_a false 1000 0) ops claimed refl refl
      refl

abbrev admitted : Db
admitted = (create_update (at_ms 1000) (pos 7) digest_a empty).1

abbrev update_7 : UpdateRecord
update_7 = record {
  update_id = 7;
  digest = digest_a;
  orka_response = none;
  created_at = 1000;
  updated_at = 1000;
}

create_update-again_example :
    (r : UpdateRecord) × (create_update (at_ms 3000) (pos 7) digest_a (run ops admitted)
      ≡ (ok (r, false), run ops admitted))
    × Admitted (pos 7) digest_a r (run ops admitted)
    × (r.created_at ≡ 1000)
    × ((t : Text) → update_7.orka_response ≡ some t → r.orka_response ≡ some t)
unfolding store updates
create_update-again_example =
    create_update-again (at_ms 1000) (at_ms 3000) (pos 7) digest_a empty admitted update_7 true ops
      refl refl

abbrev waiting_record : DeliveryRecord
waiting_record = record {
  delivery_id = bytes "d1";
  idempotency_id = bytes "k";
  digest_version = 2;
  request_digest = digest_a;
  legacy_request_digest = digest_a;
  state = retryable;
  provider_message_id = [];
  safe_message = [];
  retry_not_before = some 9000;
  created_at = 1000;
  updated_at = 2000;
}

-- Another delivery is claimed when the bot's cooldown has ended.
abbrev d2_claimed : Db
d2_claimed =
    (create_or_begin_delivery (at_ms 9000) (bytes "d2") (bytes "l") digest_b digest_b true
      waiting).1

abbrev d2 : DeliveryRecord
d2 = new_record (bytes "d2") (bytes "l") digest_b digest_b false 9000 9000

cooldown-le-claim_example : 9000 ≤ 9000
unfolding store run
cooldown-le-claim_example =
    cooldown-le-claim (at_ms 2000) (at_ms 9000) (bytes "d1") digest_a [] [] 9000 claimed waiting
      d2_claimed waiting_record d2 [] (bytes "d2") (bytes "l") digest_b digest_b refl refl
