-- ===== src/Adapter/Tests.antt =====
-- The delivery handler on a small input.
pub mod Webhooks
use orka_gateway_telegram.Prelude.{
  ◌≡◌, refl, true, false, Option, none, some, List, [], ◌∷◌, Text, bytes,
}
use orka_gateway_telegram.Prelude.Int.{pos}
use orka_gateway_telegram.Store.Db.{Db, empty}
use orka_gateway_telegram.Store.Table.{find}
use orka_gateway_telegram.Store.Statements.{is_taken}
use orka_gateway_telegram.Store.Fresh.{Fresh}
use orka_gateway_telegram.Store.Run.{store}
use orka_gateway_telegram.Store.Extends.{Extends}
use orka_gateway_telegram.Store.History.{step, run}
use orka_gateway_telegram.Store.Tests.{digest_a, at_ms}
use orka_gateway_telegram.Telegram.ReplyTarget.{ReplyTarget, reply_targets}
use orka_gateway_telegram.Telegram.Client.{delivered}
use orka_gateway_telegram.Protocol.Types.{DeliveryRequest, DeliveryStatus, version}
use orka_gateway_telegram.Protocol.Validate.{
  is_unsafe, contains_unsafe_control, validate_required_identity, validate_delivery_request,
  decode_delivery_request,
}
use orka_gateway_telegram.Adapter.Http.{Reader, read_limit, read_bounded_body}
use orka_gateway_telegram.Adapter.Delivery.{
  Config, Environment, replay_delivery, valid_delivery_route, persist_send_result, execute,
  legacy_digest, logical_digest, claim, gated, deliver, handle_delivery,
}
use orka_gateway_telegram.Adapter.Delivery.Calls.{Justified, handle_delivery-calls}
use orka_gateway_telegram.Adapter.Delivery.Durable.{Stored, handle_delivery-Durable}
use orka_gateway_telegram.Store.Delivered.{Recorded}
use orka_gateway_telegram.Adapter.Delivery.Answered.{handle_delivery-delivered}
use orka_gateway_telegram.Adapter.Delivery.Progress.{handle_delivery-sends}

abbrev request : DeliveryRequest
request = record {
  protocol_version = version;
  delivery_id = bytes "d1";
  idempotency_id = bytes "k";
  originating_event = bytes "e";
  task_ref = none;
  session_ref = none;
  kind = bytes "final";
  account_id = bytes "7";
  context_id = bytes "5";
  thread_id = [];
  reply_target = bytes "tg:v1:5:0:0";
  text = bytes "hi";
  metadata = [];
}

abbrev decode_one : Text → Option DeliveryRequest
decode_one body = some request

abbrev same_digest : DeliveryRequest → Text
same_digest r = digest_a

abbrev config : Config
config = record { bot_id = pos 7; conformance_chat_id = pos 5; max_delivery_body_bytes = 1000 }

abbrev chat_5 : ReplyTarget
chat_5 = record { chat_id = pos 5; thread_id = pos 0; message_id = pos 0 }

-- Telegram accepts every message.
abbrev environment : Environment
environment = record {
  inspect_call = at_ms 1000;
  begin_call = at_ms 1001;
  mark_call = at_ms 1002;
  waiting = [];
  acquired = true;
  sending_meanwhile = [];
  answered_at = 1002000000;
  send = λ t text. record {
    result = record {
      classification = delivered;
      http_status = pos 200;
      error_code = pos 0;
      description = [];
      retry_after = pos 0;
      message_id = pos 9;
      provider_message_id = bytes "telegram:5:9";
      truncated = false;
    };
    error_text = [];
  };
}

abbrev body : Reader
body = record { content = bytes "{}"; broken = false }

abbrev after_one : Db
after_one = (handle_delivery decode_one same_digest config environment body empty).db

unfoldable handler : Unit {0}
unfolding store reply_targets run step is_unsafe contains_unsafe_control validate_required_identity
    validate_delivery_request decode_delivery_request replay_delivery valid_delivery_route
    persist_send_result execute legacy_digest logical_digest claim gated deliver handle_delivery
    read_limit read_bounded_body
handler = tt

sends_once :
    (handle_delivery decode_one same_digest config environment body empty).calls
    ≡ (chat_5, bytes "hi") ∷ []
unfolding handler
sends_once = refl

replays : (handle_delivery decode_one same_digest config environment body after_one).calls ≡ []
unfolding handler
replays = refl

abbrev no_calls : List (ReplyTarget × Text)
no_calls = []

handle_delivery-calls_example :
    (no_calls ≡ [])
    × ((content : Text) × (read_bounded_body body 1000 ≡ some content)
        × (r : DeliveryRequest) × (decode_delivery_request decode_one content ≡ some r)
        × Justified decode_one same_digest config environment r empty chat_5 (bytes "hi"))
unfolding handler
handle_delivery-calls_example =
    handle_delivery-calls decode_one same_digest config environment body empty chat_5 (bytes "hi")
      no_calls refl

handle_delivery-Durable_example :
    Stored (handle_delivery decode_one same_digest config environment body empty)
unfolding handler
handle_delivery-Durable_example =
    handle_delivery-Durable decode_one same_digest config environment body empty refl

empty-Fresh : Fresh (bytes "d1") (bytes "k") empty
unfolding find is_taken
empty-Fresh = record {
  no_delivery = refl;
  no_other = refl;
  no_alias = refl;
  no_other_alias = refl;
  no_row = refl;
  not_taken = refl;
}

handle_delivery-sends_example :
    (handle_delivery decode_one same_digest config environment body empty).calls
    ≡ (chat_5, bytes "hi") ∷ []
unfolding handler
handle_delivery-sends_example =
    handle_delivery-sends decode_one same_digest config environment (bytes "{}") empty body request
      chat_5 none (λ r. refl) refl refl refl refl refl refl refl empty-Fresh empty-Fresh refl refl

handle_delivery-delivered_example :
    ((handle_delivery decode_one same_digest config environment body empty).response.status
      ≡ DeliveryStatus.delivered)
    × ((handle_delivery decode_one same_digest config environment body
          empty).response.provider_message_id
        ≡ bytes "telegram:5:9")
    × Recorded (bytes "d1") (bytes "telegram:5:9") after_one
unfolding handler
handle_delivery-delivered_example =
    handle_delivery-delivered decode_one same_digest config environment (bytes "{}") empty body
      request chat_5 none (bytes "telegram:5:9") (λ r. refl) refl refl refl refl refl refl refl refl
      empty-Fresh empty-Fresh refl refl refl refl refl
