-- ===== src/Adapter/Delivery/Durable.antt =====
-- internal/adapter/server.go, handleDelivery: its answer and the database.
use orka_gateway_telegram.Prelude.{
  ℕ, zero, suc, ◌≡◌, refl, Bool, true, false, not, Option, none, some, List, [], Text,
  if◌then◌else◌, arith,
}
use orka_gateway_telegram.Prelude.Int.{ℤ, pos, negsuc}
use orka_gateway_telegram.Store.Types.{
  digest_conflict, Result, ok, err, DeliveryState, retryable, delivered, terminal, DeliveryRecord,
  Call, Time,
}
use orka_gateway_telegram.Store.Db.{Db}
use orka_gateway_telegram.Store.Ensures.{Post, Post-map}
use orka_gateway_telegram.Store.Reflects.{Reflects}
use orka_gateway_telegram.Store.Finished.{Finished, update_delivery_not_before-Finished}
use orka_gateway_telegram.Store.Deliveries.{begin_delivery_with_idempotency}
use orka_gateway_telegram.Store.Completion.{
  update_delivery_not_before, update_delivery, mark_delivery_delivered, mark_delivery_retryable,
  mark_delivery_retryable_not_before, mark_delivery_permanent, mark_delivery_unknown,
}
use orka_gateway_telegram.Store.Claims.Method.{Claim, create_or_begin_delivery-Claim}
use orka_gateway_telegram.Store.History.{run}
use orka_gateway_telegram.Telegram.ReplyTarget.{ReplyTarget}
use orka_gateway_telegram.Telegram.Client.{ResultClass}
use orka_gateway_telegram.Protocol.Types.{DeliveryRequest, DeliveryStatus}
use orka_gateway_telegram.Protocol.Validate.{decode_delivery_request}
use orka_gateway_telegram.Adapter.Http.{Reader, read_bounded_body}
use orka_gateway_telegram.Adapter.Delivery.{
  decoded, read, Config, Environment, Attempt, Handled, replay_delivery, valid_delivery_route,
  persist_as, persist_send_result, persisted, dispatched, execute, begun, replayed, claim, gated,
  inspected, deliver, handle_delivery, logical_digest,
}

-- The database holds a delivered record with the acknowledged message ID.
pub record Stored (h : Handled) : Type 0 where
  pub record_of : DeliveryRecord
  pub reflects : Reflects h.db.deliveries record_of
  pub state : record_of.state ≡ delivered
  pub provider_id : record_of.provider_message_id ≡ h.response.provider_message_id

abbrev pub Durable : Handled → Type 0
Durable h = h.response.status ≡ DeliveryStatus.delivered → Stored h

abbrev Reflected : Result DeliveryRecord × Db → Type 0
Reflected r = Post (λ a db. Reflects db.deliveries a) r

replay_delivery-delivered :
    (r : DeliveryRecord)
    → (replay_delivery r).status ≡ DeliveryStatus.delivered
    → (r.state ≡ delivered) × (r.provider_message_id ≡ (replay_delivery r).provider_message_id)
unfolding replay_delivery
replay_delivery-delivered r h = ground arith

Durable-replay :
    (r : DeliveryRecord) (calls : List (ReplyTarget × Text)) (db : Db)
    → Reflects db.deliveries r
    → Durable (record { http_status = 200; response = replay_delivery r; calls = calls; db = db })
Durable-replay r calls db h s =
    let (p, q) = replay_delivery-delivered r s in
    record { record_of = r; reflects = h; state = p; provider_id = q }

Durable-if : (b : Bool) (x y : Handled) → Durable x → Durable y → Durable (if b then x else y)
Durable-if true x y p q = p
Durable-if false x y p q = q

updated-Reflected :
    (call : Call) (d digest : Text) (state : DeliveryState) (pid message : Text) (t : Time)
    (db : Db)
    → Reflected (update_delivery_not_before call d digest state pid message t db)
updated-Reflected call d digest state pid message t db =
    Post-map (Finished db.deliveries state) (λ a x. Reflects x.deliveries a) _ (λ a x k. k.stored)
      ((update_delivery_not_before-Finished db.deliveries call d digest state pid message t).at db
        refl)

module _ (at : ℕ) (call : Call) (id digest : Text) (db : Db) where
  marked-Reflected :
      (state : DeliveryState) (pid message : Text)
      → Reflected (update_delivery call id digest state pid message db)
  unfolding update_delivery
  marked-Reflected state pid message = updated-Reflected call id digest state pid message none db

  persist_as-Reflected :
      (pid message : Text) (class : ResultClass) (retry_after : ℤ)
      → Reflected (persist_as at call id digest pid message class retry_after db)
  unfolding mark_delivery_delivered mark_delivery_retryable mark_delivery_retryable_not_before
      mark_delivery_permanent mark_delivery_unknown
  persist_as-Reflected pid message ResultClass.delivered t = marked-Reflected _ _ _
  persist_as-Reflected pid message ResultClass.retryable (pos zero) = marked-Reflected _ _ _
  persist_as-Reflected pid message ResultClass.retryable (pos (suc n)) =
      updated-Reflected call id digest retryable _ _ _ db
  persist_as-Reflected pid message ResultClass.retryable (negsuc n) = marked-Reflected _ _ _
  persist_as-Reflected pid message ResultClass.non_retryable t = marked-Reflected _ _ _
  persist_as-Reflected pid message ResultClass.ambiguous t = marked-Reflected _ _ _
  persist_as-Reflected pid message (ResultClass.other _) t = marked-Reflected _ _ _

  persist_send_result-Reflected :
      (a : Attempt) → Reflected (persist_send_result at call id digest a db)
  unfolding persist_send_result
  persist_send_result-Reflected a =
      persist_as-Reflected a.result.provider_message_id _ a.result.classification
        a.result.retry_after

  permanent-Reflected :
      (message : Text) → Reflected (mark_delivery_permanent call id digest message db)
  unfolding mark_delivery_permanent
  permanent-Reflected message = marked-Reflected _ _ _

persisted-Durable :
    (calls : List (ReplyTarget × Text)) (r : Result DeliveryRecord × Db)
    → Reflected r
    → Durable (persisted calls r)
persisted-Durable calls (ok r, db) h = Durable-replay r calls db h
persisted-Durable calls (err e, db) h = λ s. cc

abbrev ClaimReflected : Result (DeliveryRecord × Bool) × Db → Type 0
ClaimReflected r = Post (λ p db. Reflects db.deliveries p.0) r

module _ (cfg : Config) (env : Environment) (request : DeliveryRequest) where
  dispatched-Durable :
      (digest : Text) (r : DeliveryRecord) (db : Db) (o : Option ReplyTarget)
      → Durable (dispatched cfg env request digest r db o)
  dispatched-Durable digest r db none =
      persisted-Durable [] _
        (permanent-Reflected env.answered_at env.mark_call r.delivery_id digest db _)
  dispatched-Durable digest r db (some t) =
      Durable-if (not (valid_delivery_route cfg request t)) _ _
        (persisted-Durable [] _
          (permanent-Reflected env.answered_at env.mark_call r.delivery_id digest db _))
        (persisted-Durable _ _
          (persist_send_result-Reflected env.answered_at env.mark_call r.delivery_id digest _ _))

  begun-Durable :
      (digest : Text) (r : Result (DeliveryRecord × Bool) × Db)
      → ClaimReflected r
      → Durable (begun cfg env request digest r)
  unfolding execute
  begun-Durable digest (err digest_conflict, db) h = λ s. cc
  begun-Durable digest (err _, db) h = λ s. cc
  begun-Durable digest (ok (r, false), db) h = Durable-replay r [] db h
  begun-Durable digest (ok (r, true), db) h = dispatched-Durable digest r db _

replayed-Durable :
    (r : Result (DeliveryRecord × Bool) × Db) → ClaimReflected r → Durable (replayed r)
replayed-Durable (ok (r, _), db) h = Durable-replay r [] db h
replayed-Durable (err e, db) h = λ s. cc

module _ (decode : Text → Option DeliveryRequest) (digest_of : DeliveryRequest → Text)
    (cfg : Config) (env : Environment) where
  claim-Reflected :
      (call : Call) (request : DeliveryRequest) (db : Db)
      → ClaimReflected (claim decode digest_of call request db)
  unfolding claim begin_delivery_with_idempotency
  claim-Reflected call request db =
      Post-map (Claim call true db) (λ p x. Reflects x.deliveries p.0) _ (λ p x k. k.began.reflects)
        ((create_or_begin_delivery-Claim call db _ _ _ _ true).at db refl)

  gated-Durable :
      (request : DeliveryRequest) (db : Db) → Durable (gated decode digest_of cfg env request db)
  unfolding gated
  gated-Durable request db =
      Durable-if (not env.acquired) _ _ (λ s. cc)
        (begun-Durable cfg env request (logical_digest decode digest_of request) _
          (claim-Reflected env.begin_call request (run env.waiting db)))

  inspected-Durable :
      (request : DeliveryRequest) (r : Result (Option DeliveryRecord) × Db)
      → Durable (inspected decode digest_of cfg env request r)
  inspected-Durable request (err digest_conflict, db) = λ s. cc
  inspected-Durable request (err _, db) = λ s. cc
  inspected-Durable request (ok none, db) = gated-Durable request db
  inspected-Durable request (ok (some r), db) =
      Durable-if (terminal r.state) _ _
        (replayed-Durable _ (claim-Reflected env.begin_call request db)) (gated-Durable request db)

  decoded-Durable :
      (db : Db) (r : Option DeliveryRequest) → Durable (decoded decode digest_of cfg env db r)
  unfolding deliver
  decoded-Durable db none = λ s. cc
  decoded-Durable db (some request) = inspected-Durable request _

  read-Durable : (db : Db) (body : Option Text) → Durable (read decode digest_of cfg env db body)
  read-Durable db none = λ s. cc
  read-Durable db (some body) = decoded-Durable db (decode_delivery_request decode body)

  -- If the handler answers that a delivery is delivered, the database it leaves holds a delivered
  -- record with the message ID of the answer.
  pub handle_delivery-Durable :
      (reader : Reader) (db : Db)
      → (handle_delivery decode digest_of cfg env reader db).response.status
        ≡ DeliveryStatus.delivered
      → Stored (handle_delivery decode digest_of cfg env reader db)
  unfolding handle_delivery
  handle_delivery-Durable reader db =
      read-Durable db (read_bounded_body reader cfg.max_delivery_body_bytes)
