-- ===== src/Adapter/Webhook/Progress.antt =====
-- internal/adapter/server.go, handleTelegramWebhook: an update that has no saved response.
use orka_gateway_telegram.Prelude.{
  ℕ, ◌≡◌, refl, ap, ◌∙◌, ◌⊎◌, inl, inr, Bool, true, false, Option, none, some, List, [], ◌∷◌, Text,
  ==-refl, arith,
}
use orka_gateway_telegram.Prelude.Int.{ℤ}
use orka_gateway_telegram.Text.Decimal.{parse_int}
use orka_gateway_telegram.Store.Types.{Result, ok, err, invalid_transition, UpdateRecord, Call}
use orka_gateway_telegram.Store.Table.{ℕ-key, find}
use orka_gateway_telegram.Store.Db.{UpdateRow, Db}
use orka_gateway_telegram.Store.Exec.{pure, lift, query, transaction, ◌>>=◌}
use orka_gateway_telegram.Store.Normalize.{normalize_digest}
use orka_gateway_telegram.Store.Updates.{
  update_key, update_record, get_update_row, insert_update, admit, create_body, create_update,
  has_orka_response,
}
use orka_gateway_telegram.Store.History.{run}
use orka_gateway_telegram.Protocol.Types.{EventEnvelope, IngressResponse}
use orka_gateway_telegram.Protocol.Validate.{constant_time_bearer_equal}
use orka_gateway_telegram.Telegram.Update.{Update}
use orka_gateway_telegram.Telegram.Mapping.{event, map_update}
use orka_gateway_telegram.Adapter.Http.{read_bounded_body, decode_single_json, lock_index}
use orka_gateway_telegram.Adapter.Webhook.{
  Config, Request, Libraries, Environment, Post, reread, saved, posted, created, ingress_post,
  acknowledgement, admit_event, handle_telegram_webhook,
}

-- The update is not stored, or it is stored with the digest and without a response.
abbrev pub Pending : ℕ → Text → Db → Type 0
Pending id digest db =
    (find id db.updates ≡ none)
    ⊎ ((row : UpdateRow) × (find id db.updates ≡ some row)
        × (row.digest ≡ digest)
        × (row.orka_response ≡ none))

create_update-Pending :
    (call : Call) (u : ℤ) (id : ℕ) (digest' digest : Text) (db : Db)
    → update_key u ≡ ok id
    → normalize_digest digest' ≡ ok digest
    → call.sqlite_ok ≡ true
    → Pending id digest db
    → (r : UpdateRecord) × (b : Bool) × ((create_update call u digest' db).0 ≡ ok (r, b))
      × (has_orka_response r ≡ false)
unfolding create_update create_body admit get_update_row insert_update transaction query lift pure
    ◌>>=◌ update_record has_orka_response
create_update-Pending call u id digest' digest db k n served (inl h) = (
  record {
    update_id = id;
    digest = digest;
    orka_response = none;
    created_at = call.now;
    updated_at = call.now;
  },
  true,
  ground (arith, k, n, served, h),
  refl,
)
create_update-Pending call u id digest' digest db k n served (inr (row, h, same, fresh)) = (
  update_record id row,
  false,
  ground (arith, k, n, served, h, same, ==-refl digest),
  rw fresh refl,
)

module _ (lib : Libraries) (cfg : Config) (env : Environment) where
  reread-posts : (posts : List Post) (x : Result UpdateRecord × Db) → (reread posts x).posts ≡ posts
  unfolding has_orka_response
  reread-posts posts (ok r, db) = ground arith
  reread-posts posts (err _, db) = refl

  saved-posts :
      (u : ℤ) (posts : List Post) (x : Result UpdateRecord × Db)
      → (saved lib cfg env u posts x).posts ≡ posts
  saved-posts u posts (ok r, db) = refl
  saved-posts u posts (err invalid_transition, db) = reread-posts posts _
  saved-posts u posts (err _, db) = refl

  posted-posts :
      (u : ℤ) (digest : Text) (x : List Post × Option (Text × IngressResponse)) (db : Db)
      → (posted lib cfg env u digest x db).posts ≡ x.0
  posted-posts u digest (posts, none) db = refl
  posted-posts u digest (posts, some (body, _)) db = saved-posts u posts _

  admit_event-posts :
      (ev : EventEnvelope) (body : Text)
      → lib.marshal_event ev ≡ some body
      → lib.is_request_url cfg.ingress_url ≡ true
      → admit_event lib cfg env ev ≡ (
        ingress_post lib cfg env body ∷ [],
        acknowledgement lib cfg env (env.exchange (ingress_post lib cfg env body)),
      )
  unfolding admit_event
  admit_event-posts ev body m url = ground (arith, m, url)

  created-posts :
      (update : Update) (digest : Text) (ev : EventEnvelope) (body : Text) (r : UpdateRecord)
      (b : Bool) (x : Result (UpdateRecord × Bool) × Db)
      → x.0 ≡ ok (r, b)
      → has_orka_response r ≡ false
      → lib.marshal_event ev ≡ some body
      → lib.is_request_url cfg.ingress_url ≡ true
      → (created lib cfg env update digest ev x).posts ≡ ingress_post lib cfg env body ∷ []
  created-posts update digest ev body r b (err _, db) e n m url = cc
  created-posts update digest ev body r b (ok (r', b'), db) e n m url =
      let n' : has_orka_response r' ≡ false = ground arith in
      rw n'
        (posted-posts update.update_id digest _ _ ∙ ap (λ x. x.0) (admit_event-posts ev body m url))

  -- An update that MapUpdate makes an event of, and that is not stored, or stored with the same
  -- digest and no response, once the request has the lock, is posted to Orka, once, if the
  -- request has the secret, its body is read and decoded, the chat ID is parsed, the update and
  -- the event have a JSON form, the update's ID and digest are accepted, SQLite serves
  -- CreateUpdate, and the ingress URL is one of a request.
  pub handle_telegram_webhook-posts :
      (request : Request) (db : Db) (raw : Text) (update : Update) (ev : EventEnvelope) (chat : ℤ)
      (text body digest : Text) (id : ℕ)
      → constant_time_bearer_equal request.secret_header cfg.webhook_secret ≡ true
      → read_bounded_body request.body cfg.max_webhook_body_bytes ≡ some raw
      → decode_single_json lib.update_decoder raw false ≡ some update
      → map_update lib.unicode cfg.bot_id update ≡ event ev
      → parse_int ev.context_id ≡ some chat
      → lib.marshal_update update ≡ some text
      → lib.marshal_event ev ≡ some body
      → lib.is_request_url cfg.ingress_url ≡ true
      → update_key update.update_id ≡ ok id
      → normalize_digest (lib.digest_bytes text) ≡ ok digest
      → env.create_call.sqlite_ok ≡ true
      → Pending id digest (run (env.waiting (lock_index chat)) db)
      → (handle_telegram_webhook lib cfg env request db).posts ≡ ingress_post lib cfg env body ∷ []
  unfolding handle_telegram_webhook
  handle_telegram_webhook-posts request db raw update ev chat text body digest id secret bounded
        decoded mapped parsed marshalled m url key hex served pending =
      let later = run (env.waiting (lock_index chat)) db in
      let (r, b, e, n) =
        create_update-Pending env.create_call update.update_id id (lib.digest_bytes text) digest
          later key hex served pending in
      rw (secret, bounded, decoded, mapped, parsed, marshalled)
        (created-posts update (lib.digest_bytes text) ev body r b
          (create_update env.create_call update.update_id (lib.digest_bytes text) later) e n m url)
