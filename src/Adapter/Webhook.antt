-- ===== src/Adapter/Webhook.antt =====
-- internal/adapter/server.go: the handler of POST /telegram/webhook. encoding/json, SHA-256 and the
-- HTTP exchange with Orka are parameters.
pub mod History
pub mod Acknowledged
pub mod Once
pub mod Progress
use orka_gateway_telegram.Prelude.{
  ℕ, Bool, true, false, not, Option, none, some, List, [], ◌∷◌, ◌++◌, Text, bytes, eqb,
  if◌then◌else◌,
}
use orka_gateway_telegram.Prelude.Int.{ℤ}
use orka_gateway_telegram.Text.Decimal.{parse_int}
use orka_gateway_telegram.Text.Runes.{Unicode}
use orka_gateway_telegram.Store.Types.{
  digest_conflict, invalid_transition, Result, ok, err, UpdateRecord, Call,
}
use orka_gateway_telegram.Store.Db.{Db}
use orka_gateway_telegram.Store.Updates.{
  has_orka_response, create_update, get_update, save_update_response,
}
use orka_gateway_telegram.Store.History.{Op, run}
use orka_gateway_telegram.Protocol.Types.{EventEnvelope, IngressResponse}
use orka_gateway_telegram.Protocol.Validate.{validate_ingress_response, constant_time_bearer_equal}
use orka_gateway_telegram.Telegram.Update.{Update}
use orka_gateway_telegram.Telegram.Mapping.{Mapped, event, unsupported, invalid, map_update}
use orka_gateway_telegram.Adapter.Http.{
  Reader, read_bounded_body, Decoder, decode_single_json, lock_index,
}

pub record Config : Type 0 where
  pub bot_id : ℤ
  pub webhook_secret : Text
  pub ingress_url : Text
  pub ingress_bearer_token : Text
  pub max_webhook_body_bytes : ℕ
  pub max_upstream_body_bytes : ℕ

pub record Request : Type 0 where
  pub secret_header : Text
  pub body : Reader

-- A POST of an event to Orka.
pub record Post : Type 0 where
  pub url : Text
  pub authorization : Text
  pub content_type : Text
  pub body : Text

-- What client.Do gives: an error, or a response.
pub data Exchange : Type 0 where
  failed : Exchange
  responded : (status : ℕ) → Reader → Exchange

-- The libraries that the handler calls: json.Unmarshal and json.Marshal, and DigestBytes.
pub record Libraries : Type 0 where
  pub unicode : Unicode
  pub update_decoder : Decoder Update
  pub ingress_decoder : Decoder IngressResponse
  pub marshal_update : Update → Option Text
  pub marshal_event : EventEnvelope → Option Text
  pub digest_bytes : Text → Text
  pub is_request_url : Text → Bool

-- What one request meets. Other calls reach the store while it waits for the lock that the index
-- selects, while Orka answers, and after its response could not be saved.
pub record Environment : Type 0 where
  pub create_call : Call
  pub save_call : Call
  pub get_call : Call
  pub waiting : ℤ → List Op
  pub posting : List Op
  pub saving : List Op
  pub exchange : Post → Exchange

pub data Body : Type 0 where
  is_ok : Body
  error : Text → Body

-- The answer, the events that were posted to Orka, and the database afterwards.
pub record Handled : Type 0 where
  pub http_status : ℕ
  pub body : Body
  pub posts : List Post
  pub db : Db

abbrev pub acknowledge : List Post → Db → Handled
acknowledge posts db = record { http_status = 200; body = is_ok; posts = posts; db = db }

abbrev pub refuse : ℕ → Text → List Post → Db → Handled
refuse status message posts db = record {
  http_status = status;
  body = error message;
  posts = posts;
  db = db;
}

abbrev pub unavailable : List Post → Db → Handled
unavailable posts db = refuse 503 (bytes "temporarily unavailable") posts db

abbrev pub bad_update : Db → Handled
bad_update db = refuse 400 (bytes "invalid Telegram update") [] db

-- What GetUpdate says after another response was stored.
abbrev pub reread : List Post → Result UpdateRecord × Db → Handled
reread posts (ok stored, db) =
    if has_orka_response stored then acknowledge posts db else unavailable posts db
reread posts (err _, db) = unavailable posts db

module _ (lib : Libraries) (cfg : Config) (env : Environment) where
  unfoldable pub ingress_post : Text → Post
  ingress_post body = record {
    url = cfg.ingress_url;
    authorization = bytes "Bearer " ++ cfg.ingress_bearer_token;
    content_type = bytes "application/json";
    body = body;
  }

  -- The response body, if Orka acknowledged the event.
  unfoldable pub acknowledgement : Exchange → Option (Text × IngressResponse)
  acknowledgement failed = none
  acknowledgement (responded status reader) =
      elim (read_bounded_body reader cfg.max_upstream_body_bytes) [
        | none ↦ none
        | some body ↦
            if not (eqb status 202)
            then none
            else elim (decode_single_json lib.ingress_decoder body true) [
              | none ↦ none
              | some ingress ↦
                  if validate_ingress_response ingress then some (body, ingress) else none
            ]
      ]

  -- admitEvent: what was posted, and the acknowledgement.
  unfoldable pub admit_event : EventEnvelope → List Post × Option (Text × IngressResponse)
  admit_event ev = elim (lib.marshal_event ev) [
    | none ↦ ([], none)
    | some body ↦
        if not (lib.is_request_url cfg.ingress_url)
        then ([], none)
        else (ingress_post body ∷ [], acknowledgement (env.exchange (ingress_post body)))
  ]

  abbrev pub saved : ℤ → List Post → Result UpdateRecord × Db → Handled
  saved update_id posts (ok _, db) = acknowledge posts db
  saved update_id posts (err invalid_transition, db) =
      reread posts (get_update env.get_call update_id (run env.saving db))
  saved update_id posts (err _, db) = unavailable posts db

  abbrev pub posted : ℤ → Text → List Post × Option (Text × IngressResponse) → Db → Handled
  posted update_id digest (posts, none) db = unavailable posts db
  posted update_id digest (posts, some (body, _)) db =
      saved update_id posts (save_update_response env.save_call update_id digest body db)

  abbrev pub created : Update → Text → EventEnvelope → Result (UpdateRecord × Bool) × Db → Handled
  created update digest ev (err digest_conflict, db) =
      refuse 409 (bytes "Telegram update identity conflict") [] db
  created update digest ev (err _, db) = unavailable [] db
  created update digest ev (ok (r, _), db) =
      if has_orka_response r
      then acknowledge [] db
      else posted update.update_id digest (admit_event ev) (run env.posting db)

  -- With the lock of the chat: what json.Marshal gives for the update.
  abbrev pub normalized : Update → EventEnvelope → Db → Option Text → Handled
  normalized update ev db none = bad_update db
  normalized update ev db (some text) =
      created update (lib.digest_bytes text) ev
        (create_update env.create_call update.update_id (lib.digest_bytes text) db)

  -- What ParseInt gives for the context ID selects the lock.
  abbrev pub locked : Update → EventEnvelope → Db → Option ℤ → Handled
  locked update ev db none = bad_update db
  locked update ev db (some chat_id) =
      normalized update ev (run (env.waiting (lock_index chat_id)) db) (lib.marshal_update update)

  abbrev pub mapped : Update → Db → Mapped → Handled
  mapped update db unsupported = acknowledge [] db
  mapped update db invalid = bad_update db
  mapped update db (event ev) = locked update ev db (parse_int ev.context_id)

  abbrev pub decoded : Db → Option Update → Handled
  decoded db none = bad_update db
  decoded db (some update) = mapped update db (map_update lib.unicode cfg.bot_id update)

  abbrev pub read : Db → Option Text → Handled
  read db none = refuse 413 (bytes "invalid request body") [] db
  read db (some body) = decoded db (decode_single_json lib.update_decoder body false)

  unfoldable pub handle_telegram_webhook : Request → Db → Handled
  handle_telegram_webhook request db =
      if not (constant_time_bearer_equal request.secret_header cfg.webhook_secret)
      then refuse 401 (bytes "unauthorized") [] db
      else read db (read_bounded_body request.body cfg.max_webhook_body_bytes)
