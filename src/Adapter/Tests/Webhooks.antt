-- ===== src/Adapter/Tests/Webhooks.antt =====
-- The webhook handler on a small input.
use orka_gateway_telegram.Prelude.{
  ◌≡◌, ◌<◌, refl, true, false, none, some, [], ◌∷◌, Text, bytes, arith, ltb, length, if◌then◌else◌,
  inl,
}
use orka_gateway_telegram.Prelude.Int.{pos, negsuc}
use orka_gateway_telegram.Text.Decimal.{parse_int}
use orka_gateway_telegram.Store.Db.{empty}
use orka_gateway_telegram.Store.Run.{store}
use orka_gateway_telegram.Store.History.{step, run}
use orka_gateway_telegram.Store.Tests.{digest_a, at_ms}
use orka_gateway_telegram.Text.Json.{is_valid, compact}
use orka_gateway_telegram.Store.Updates.{
  create_update, update_key, create_body, admit, get_update_row, insert_update, has_orka_response,
  save_update_response, normalize_orka_response, save_body, update_record, set_response,
}
use orka_gateway_telegram.Store.Responses.{Genuine}
use orka_gateway_telegram.Protocol.Types.{DeliveryRequest, EventEnvelope, version}
use orka_gateway_telegram.Protocol.Validate.{
  validate_required_identity, validate_ingress_response, contains_unsafe_control, is_unsafe,
  constant_time_bearer_equal,
}
use orka_gateway_telegram.Telegram.ReplyTarget.{parse_reply_target, reply_targets}
use orka_gateway_telegram.Telegram.Update.{Update, Message, plain, reply}
use orka_gateway_telegram.Telegram.Mapping.{event, event_of, map_update, mapping}
use orka_gateway_telegram.Telegram.Tests.Updates.{some_unicode, ada, hello, hello_update}
use orka_gateway_telegram.Adapter.Delivery as Delivery
use orka_gateway_telegram.Adapter.Http.{
  Reader, end_of_file, read_limit, read_bounded_body, decode_single_json, remainder, lock_index,
  chat_locks,
}
use orka_gateway_telegram.Adapter.Http.Bounds.{euclidean, read_bounded_body_lem, lock_index_lem}
use orka_gateway_telegram.Adapter.Webhook.{
  Config, Request, Libraries, Environment, Handled, responded, ingress_post, acknowledgement,
  admit_event, handle_telegram_webhook,
}
use orka_gateway_telegram.Adapter.Webhook.Acknowledged.{
  received, Acknowledged, handle_telegram_webhook-Acknowledged,
}
use orka_gateway_telegram.Adapter.Webhook.Once.{handle_telegram_webhook-again}
use orka_gateway_telegram.Adapter.Webhook.Progress.{handle_telegram_webhook-posts}
use orka_gateway_telegram.Adapter.Routing.{target_of, map_update-valid_delivery_route}
use orka_gateway_telegram.Adapter.Identities.{map_update-validate_required_identity}

abbrev message : Message
message = reply hello (plain hello)

abbrev hello_event : EventEnvelope
hello_event = event_of some_unicode (pos 7) (pos 3) message ada

mapped_test : map_update some_unicode (pos 7) hello_update ≡ event hello_event
unfolding mapping
mapped_test = refl

abbrev answer : DeliveryRequest
answer = record {
  protocol_version = version;
  delivery_id = bytes "d1";
  idempotency_id = bytes "k";
  originating_event = bytes "e";
  task_ref = none;
  session_ref = none;
  kind = bytes "final";
  account_id = hello_event.account_id;
  context_id = hello_event.context_id;
  thread_id = hello_event.thread_id;
  reply_target = hello_event.reply_target;
  text = bytes "hi";
  metadata = [];
}

abbrev delivery_config : Delivery.Config
delivery_config = record {
  bot_id = pos 7;
  conformance_chat_id = pos 5;
  max_delivery_body_bytes = 1000;
}

map_update-valid_delivery_route_example :
    (parse_reply_target answer.reply_target (pos 5) ≡ some (target_of message))
    × (Delivery.valid_delivery_route delivery_config answer (target_of message) ≡ true)
map_update-valid_delivery_route_example =
    map_update-valid_delivery_route some_unicode delivery_config hello_update hello_event message
      answer mapped_test refl (omega arith) (omega arith) (omega arith) refl refl refl refl refl

map_update-validate_required_identity_example :
    (validate_required_identity hello_event.external_event_id ≡ true)
    × (validate_required_identity hello_event.account_id ≡ true)
    × (validate_required_identity hello_event.context_id ≡ true)
    × (validate_required_identity hello_event.sender.id ≡ true)
    × (validate_required_identity hello_event.reply_target ≡ true)
map_update-validate_required_identity_example =
    map_update-validate_required_identity some_unicode (pos 7) hello_update hello_event message ada
      mapped_test refl refl (omega arith) (omega arith) (omega arith)
      (omega arith, omega arith, omega arith)

abbrev config : Config
config = record {
  bot_id = pos 7;
  webhook_secret = bytes "s";
  ingress_url = bytes "http://localhost/api/v1/gateways/a/b/events";
  ingress_bearer_token = bytes "t";
  max_webhook_body_bytes = 1000;
  max_upstream_body_bytes = 1000;
}

abbrev whole : Text → Reader
whole s = record { content = s; broken = false }

abbrev libraries : Libraries
libraries = record {
  unicode = some_unicode;
  update_decoder = record {
    decode = λ strict body. some (hello_update, []);
    decode_extra = λ rest. end_of_file;
  };
  ingress_decoder = record {
    decode = λ strict body. some (
      record {
        status = bytes "accepted";
        event_id = bytes "e";
        state = bytes "Queued";
        message = [];
      },
      [],
    );
    decode_extra = λ rest. end_of_file;
  };
  marshal_update = λ update. some (bytes "{}");
  marshal_event = λ ev. some (bytes "{}");
  digest_bytes = λ text. digest_a;
  is_request_url = λ url. true;
}

abbrev environment : Environment
environment = record {
  create_call = at_ms 1000;
  save_call = at_ms 1001;
  get_call = at_ms 1002;
  waiting = λ index. [];
  posting = [];
  saving = [];
  exchange = λ post. responded 202 (whole (bytes "{}"));
}

abbrev request : Request
request = record { secret_header = bytes "s"; body = whole (bytes "{}") }

abbrev first : Handled
first = handle_telegram_webhook libraries config environment request empty

unfoldable webhook : Unit {0}
unfolding store mapping reply_targets run step parse_int is_unsafe contains_unsafe_control
    validate_required_identity validate_ingress_response constant_time_bearer_equal read_limit
    read_bounded_body decode_single_json lock_index ingress_post acknowledgement admit_event
    handle_telegram_webhook create_update update_key create_body admit get_update_row insert_update
    has_orka_response save_update_response normalize_orka_response is_valid compact save_body
    update_record set_response
webhook = tt

posts_once : first.posts ≡ ingress_post libraries config environment (bytes "{}") ∷ []
unfolding webhook
posts_once = refl

answered_test : first.http_status ≡ 200
unfolding webhook
answered_test = refl

empty-Genuine : Genuine empty
unfolding store
empty-Genuine = λ u row h k. cc

handle_telegram_webhook-again_example :
    (handle_telegram_webhook libraries config environment request (run [] first.db)).posts ≡ []
handle_telegram_webhook-again_example =
    handle_telegram_webhook-again libraries config environment environment request empty []
      empty-Genuine answered_test

handle_telegram_webhook-Acknowledged_example :
    (update : Update) × (received libraries config request ≡ some update)
    × Acknowledged libraries config update first.db
handle_telegram_webhook-Acknowledged_example =
    handle_telegram_webhook-Acknowledged libraries config environment request empty answered_test

read_bounded_body_lem_example :
    read_bounded_body (whole (bytes "abc")) 2
    ≡ (if false then none else if ltb 2 (length (bytes "abc")) then none else some (bytes "abc"))
read_bounded_body_lem_example = read_bounded_body_lem (whole (bytes "abc")) 2 (omega arith)

lock_index_lem_example :
    (lock_index (negsuc 64) ≡ pos (euclidean (negsuc 64) chat_locks))
    × (euclidean (negsuc 64) chat_locks < chat_locks)
lock_index_lem_example = lock_index_lem (negsuc 64)

lock_test : lock_index (negsuc 64) ≡ pos 63
unfolding webhook remainder
lock_test = refl

handle_telegram_webhook-posts_example :
    (handle_telegram_webhook libraries config environment request empty).posts
    ≡ ingress_post libraries config environment (bytes "{}") ∷ []
unfolding webhook
handle_telegram_webhook-posts_example =
    handle_telegram_webhook-posts libraries config environment request empty (bytes "{}")
      hello_update hello_event (pos 5) (bytes "{}") (bytes "{}") digest_a 3 refl refl refl
      mapped_test refl refl refl refl refl refl refl (inl refl)
