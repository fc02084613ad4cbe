-- ===== src/Adapter/Delivery.antt =====
-- internal/adapter/server.go and delivery_idempotency.go: the handler of POST /v1/deliveries.
pub mod Calls
pub mod Durable
pub mod Progress
pub mod Answered
use orka_gateway_telegram.Prelude.{
  ℕ, ◌+◌, ◌/◌, Bool, true, false, not, ◌&&◌, ◌||◌, Option, none, some, List, [], ◌∷◌, Text, bytes,
  ltb, length, ◌==◌, if◌then◌else◌, suc,
}
use orka_gateway_telegram.Prelude.Int.{ℤ, pos, negsuc, same_int, is_not_positive, ℤ-discrete}
use orka_gateway_telegram.Text.Decimal.{format_int}
use orka_gateway_telegram.Store.Types.{
  StoreError, digest_conflict, Result, ok, err, sending, retryable, delivered, permanent, unknown,
  other, terminal, DeliveryRecord, Call,
}
use orka_gateway_telegram.Store.Db.{Db}
use orka_gateway_telegram.Store.Deliveries.{begin_delivery_with_idempotency}
use orka_gateway_telegram.Store.Completion.{
  inspect_delivery_with_idempotency, mark_delivery_delivered, mark_delivery_retryable,
  mark_delivery_retryable_not_before, mark_delivery_permanent, mark_delivery_unknown,
}
use orka_gateway_telegram.Store.History.{Op, run}
use orka_gateway_telegram.Telegram.ReplyTarget.{
  ReplyTarget, conformance_reply_target, parse_reply_target,
}
use orka_gateway_telegram.Telegram.Client.{ResultClass, SendResult}
use orka_gateway_telegram.Telegram.Client as Client
use orka_gateway_telegram.Protocol.Types.{
  DeliveryRequest, DeliveryResponse, DeliveryStatus, retryable_error, non_retryable_error,
}
use orka_gateway_telegram.Protocol.Validate.{decode_delivery_request}
use orka_gateway_telegram.Adapter.Http.{Reader, read_bounded_body}

pub record Config : Type 0 where
  pub bot_id : ℤ
  pub conformance_chat_id : ℤ
  pub max_delivery_body_bytes : ℕ

-- What the sender returns: its result, and the text of its error, empty if there is none.
pub record Attempt : Type 0 where
  pub result : SendResult
  pub error_text : Text

-- What one request meets. Other calls reach the store while the handler waits for the provider gate
-- and while Telegram answers. `answered_at` is what time.Now gives after the answer, in nanoseconds
-- since 1970. `acquired` is false if the request is canceled first.
pub record Environment : Type 0 where
  pub inspect_call : Call
  pub begin_call : Call
  pub mark_call : Call
  pub waiting : List Op
  pub acquired : Bool
  pub sending_meanwhile : List Op
  pub answered_at : ℕ
  pub send : ReplyTarget → Text → Attempt

-- The answer, the messages that went to Telegram, and the database afterwards.
pub record Handled : Type 0 where
  pub http_status : ℕ
  pub response : DeliveryResponse
  pub calls : List (ReplyTarget × Text)
  pub db : Db

abbrev pub retry_later : Text → DeliveryResponse
retry_later message = record {
  status = retryable_error;
  provider_message_id = [];
  message = message;
}

abbrev pub refused : Text → DeliveryResponse
refused message = record {
  status = non_retryable_error;
  provider_message_id = [];
  message = message;
}

abbrev or_default : Text → Text → Text
or_default message default = if message == [] then default else message

unfoldable pub replay_delivery : DeliveryRecord → DeliveryResponse
replay_delivery r = elim r.state [
  | delivered ↦ record {
    status = DeliveryStatus.delivered;
    provider_message_id = r.provider_message_id;
    message = [];
  }
  | retryable ↦ retry_later (or_default r.safe_message (bytes "delivery is already in progress"))
  | sending ↦ retry_later (or_default r.safe_message (bytes "delivery is already in progress"))
  | permanent ↦ refused (or_default r.safe_message (bytes "delivery could not be completed"))
  | unknown ↦ refused (or_default r.safe_message (bytes "delivery could not be completed"))
  | other _ ↦ retry_later (bytes "delivery state is unavailable")
]

abbrev answer : ℕ → DeliveryResponse → List (ReplyTarget × Text) → Db → Handled
answer status response calls db = record {
  http_status = status;
  response = response;
  calls = calls;
  db = db;
}

abbrev unavailable : DeliveryResponse
unavailable = retry_later (bytes "delivery store unavailable")

abbrev conflict : DeliveryResponse
conflict = refused (bytes "delivery identity conflict")

-- The answer to what the store says after a result was persisted.
abbrev pub persisted : List (ReplyTarget × Text) → Result DeliveryRecord × Db → Handled
persisted calls (ok r, db) = answer 200 (replay_delivery r) calls db
persisted calls (err e, db) = answer 200 unavailable calls db

unfoldable pub valid_delivery_route : Config → DeliveryRequest → ReplyTarget → Bool
valid_delivery_route cfg r t =
    if r.reply_target == conformance_reply_target
    then r.account_id == conformance_reply_target
      && r.context_id == conformance_reply_target
      && r.thread_id == []
      && same_int t.chat_id cfg.conformance_chat_id
      && same_int t.thread_id (pos 0)
      && same_int t.message_id (pos 0)
    else r.account_id == format_int cfg.bot_id
      && r.context_id == format_int t.chat_id
      && r.thread_id == (if same_int t.thread_id (pos 0) then [] else format_int t.thread_id)

-- The method that a classification selects. A cooldown ends `retry_after` nanoseconds after `at`,
-- which time.Now gives in nanoseconds; the store keeps its milliseconds.
abbrev pub persist_as :
    (at : ℕ)
    → Call
    → Text
    → Text
    → (provider_id message : Text) → ResultClass
    → (retry_after : ℤ) → Db
    → Result DeliveryRecord × Db
persist_as at call id digest pid message ResultClass.delivered _ =
    mark_delivery_delivered call id digest pid
persist_as at call id digest pid message ResultClass.retryable (pos (suc n)) =
    mark_delivery_retryable_not_before call id digest message (some ((at + suc n) / 1000000))
persist_as at call id digest pid message ResultClass.retryable _ =
    mark_delivery_retryable call id digest message
persist_as at call id digest pid message ResultClass.non_retryable _ =
    mark_delivery_permanent call id digest message
persist_as at call id digest pid message ResultClass.ambiguous _ =
    mark_delivery_unknown call id digest message
persist_as at call id digest pid message (ResultClass.other _) _ =
    mark_delivery_unknown call id digest (bytes "Telegram delivery outcome is unknown")

unfoldable pub persist_send_result :
    (at : ℕ) → Call → Text → Text → Attempt → Db → Result DeliveryRecord × Db
persist_send_result at call id digest a =
    let message : Text =
      if a.result.description == [] then a.error_text else a.result.description in
    persist_as at call id digest a.result.provider_message_id message a.result.classification
      a.result.retry_after

-- The claim was granted: `r` is the stored record, under its canonical ID.
abbrev pub dispatched :
    Config
    → Environment
    → DeliveryRequest
    → Text
    → DeliveryRecord
    → Db
    → Option ReplyTarget
    → Handled
dispatched cfg env request digest r db none = persisted [] (
    mark_delivery_permanent env.mark_call r.delivery_id digest (bytes "delivery routing mismatch")
      db)
dispatched cfg env request digest r db (some target) =
    if not (valid_delivery_route cfg request target)
    then persisted [] (
        mark_delivery_permanent env.mark_call r.delivery_id digest
          (bytes "delivery routing mismatch") db)
    else persisted ((target, request.text) ∷ []) (
        persist_send_result env.answered_at env.mark_call r.delivery_id digest
          (env.send target request.text) (run env.sending_meanwhile db))

unfoldable pub execute :
    Config → Environment → DeliveryRequest → Text → DeliveryRecord → Db → Handled
execute cfg env request digest r db =
    dispatched cfg env request digest r db
      (parse_reply_target request.reply_target cfg.conformance_chat_id)

abbrev pub begun :
    Config → Environment → DeliveryRequest → Text → Result (DeliveryRecord × Bool) × Db → Handled
begun cfg env request digest (err digest_conflict, db) = answer 200 conflict [] db
begun cfg env request digest (err e, db) = answer 200 unavailable [] db
begun cfg env request digest (ok (r, false), db) = answer 200 (replay_delivery r) [] db
begun cfg env request digest (ok (r, true), db) = execute cfg env request digest r db

-- A terminal record is replayed, outside the gate.
abbrev pub replayed : Result (DeliveryRecord × Bool) × Db → Handled
replayed (ok (r, _), db) = answer 200 (replay_delivery r) [] db
replayed (err e, db) = answer 200 unavailable [] db

-- `digest_of` stands for json.Marshal and SHA-256, `decode` for the JSON decoder.
module _ (decode : Text → Option DeliveryRequest) (digest_of : DeliveryRequest → Text) where
  unfoldable pub legacy_digest : DeliveryRequest → Text
  legacy_digest request = digest_of request

  -- The delivery ID is left out of the digest of the logical delivery.
  unfoldable pub logical_digest : DeliveryRequest → Text
  logical_digest request = digest_of (record request { delivery_id = request.idempotency_id })

  unfoldable pub claim : Call → DeliveryRequest → Db → Result (DeliveryRecord × Bool) × Db
  claim call request =
      begin_delivery_with_idempotency call request.delivery_id request.idempotency_id
        (logical_digest request) (legacy_digest request)

  -- Through the gate: the claim, and what follows from it.
  unfoldable pub gated : Config → Environment → DeliveryRequest → Db → Handled
  gated cfg env request db =
      if not env.acquired
      then answer 200 (retry_later (bytes "delivery request canceled")) [] db
      else begun cfg env request (logical_digest request)
          (claim env.begin_call request (run env.waiting db))

  abbrev pub inspected :
      Config → Environment → DeliveryRequest → Result (Option DeliveryRecord) × Db → Handled
  inspected cfg env request (err digest_conflict, db) = answer 200 conflict [] db
  inspected cfg env request (err e, db) = answer 200 unavailable [] db
  inspected cfg env request (ok none, db) = gated cfg env request db
  inspected cfg env request (ok (some r), db) =
      if terminal r.state
      then replayed (claim env.begin_call request db)
      else gated cfg env request db

  unfoldable pub deliver : Config → Environment → DeliveryRequest → Db → Handled
  deliver cfg env request db = inspected cfg env request (
      inspect_delivery_with_idempotency env.inspect_call request.delivery_id request.idempotency_id
        (logical_digest request) (legacy_digest request) db)

  abbrev pub decoded : Config → Environment → Db → Option DeliveryRequest → Handled
  decoded cfg env db none = answer 400 (refused (bytes "invalid delivery")) [] db
  decoded cfg env db (some request) = deliver cfg env request db

  abbrev pub read : Config → Environment → Db → Option Text → Handled
  read cfg env db none = answer 400 (refused (bytes "invalid request body")) [] db
  read cfg env db (some body) = decoded cfg env db (decode_delivery_request decode body)

  unfoldable pub handle_delivery : Config → Environment → Reader → Db → Handled
  handle_delivery cfg env reader db =
      read cfg env db (read_bounded_body reader cfg.max_delivery_body_bytes)
