-- ===== src/Adapter/Webhook/Once.antt =====
-- internal/adapter/server.go, handleTelegramWebhook: a request that Telegram delivers again.
use orka_gateway_telegram.Prelude.{
  ◌≡◌, ◌≢◌, refl, sym, ap, subst, ◌∙◌, Bool, true, false, not, Option, none, some, List, [], Text,
  bytes, if◌then◌else◌, Bool-cases, inl, inr, arith,
}
use orka_gateway_telegram.Prelude.Int.{ℤ}
use orka_gateway_telegram.Text.Decimal.{parse_int}
use orka_gateway_telegram.Store.Types.{failure, err, UpdateRecord, Call}
use orka_gateway_telegram.Store.Db.{Db}
use orka_gateway_telegram.Store.Exec.{lift, transaction, ◌>>=◌}
use orka_gateway_telegram.Store.Updates.{has_orka_response, update_record, create_update}
use orka_gateway_telegram.Store.History.{Op, run}
use orka_gateway_telegram.Store.History.Admission.{Admitted, Admitted-run, create_update-repeat}
use orka_gateway_telegram.Store.Responses.{Genuine}
use orka_gateway_telegram.Store.Responses.History.{Answered, run-Genuine}
use orka_gateway_telegram.Protocol.Types.{EventEnvelope}
use orka_gateway_telegram.Protocol.Validate.{constant_time_bearer_equal}
use orka_gateway_telegram.Telegram.Update.{Update}
use orka_gateway_telegram.Telegram.Mapping.{Mapped, event, unsupported, invalid, map_update}
use orka_gateway_telegram.Adapter.Http.{read_bounded_body, lock_index}
use orka_gateway_telegram.Adapter.Webhook.{
  Config, Request, Libraries, Environment, Handled, refuse, created, normalized, locked, mapped,
  decoded, read, handle_telegram_webhook,
}
use orka_gateway_telegram.Adapter.Webhook.History.{handle_telegram_webhook-Reached}
use orka_gateway_telegram.Adapter.Webhook.Acknowledged.{
  brought, received, Acknowledged, handle_telegram_webhook-Acknowledged,
}

Answered-later :
    (u : ℤ) (digest : Text) (db : Db) (ops : List Op)
    → Answered u digest db
    → Answered u digest (run ops db)
Answered-later u digest db ops a =
    let (r, h, _, keeps) = Admitted-run u digest a.stored db ops a.admitted in
    record { stored = r; admitted = h; response = a.response; saved = keeps a.response a.saved }

response-has :
    (r : UpdateRecord) (t : Text) → r.orka_response ≡ some t → t ≢ [] → has_orka_response r ≡ true
unfolding has_orka_response
response-has r t e ne = ground arith

Genuine-has :
    (u : ℤ) (digest : Text) (db : Db) (a : Answered u digest db)
    → Genuine db
    → has_orka_response (update_record a.admitted.id a.admitted.row) ≡ true
unfolding has_orka_response update_record
Genuine-has u digest db a g =
    let saved : a.admitted.row.orka_response ≡ some a.response =
      ap (λ r. r.orka_response) (sym a.admitted.reads) ∙ a.saved in
    let ne = g a.admitted.id a.admitted.row a.admitted.stored in
    response-has (update_record a.admitted.id a.admitted.row) a.response saved
      (λ e. ne (saved ∙ ap some e))

create_update-refused :
    (call : Call) (u : ℤ) (digest : Text) (r : UpdateRecord) (db : Db)
    → Admitted u digest r db
    → call.sqlite_ok ≡ false
    → create_update call u digest db ≡ (err failure, db)
unfolding create_update lift transaction ◌>>=◌
create_update-refused call u digest r db a refused = ground (arith, a.key, a.normalized)

-- Nothing is posted for an update that is stored with a response.
module _ (lib : Libraries) (cfg : Config) (env : Environment) where
  abbrev Quiet : Handled → Type 0
  Quiet h = h.posts ≡ []

  Quiet-if : (b : Bool) (x y : Handled) → b ≡ true → Quiet x → Quiet (if b then x else y)
  Quiet-if true x y e q = q
  Quiet-if false x y e q = cc

  normalized-Quiet :
      (update : Update) (ev : EventEnvelope) (db : Db) (text : Text)
      → Answered update.update_id (lib.digest_bytes text) db
      → Genuine db
      → Quiet (normalized lib cfg env update ev db (some text))
  normalized-Quiet update ev db text a g =
      let digest = lib.digest_bytes text in
      elim (Bool-cases env.create_call.sqlite_ok) [
        | inl served ↦
            subst (λ x. Quiet (created lib cfg env update digest ev x))
              (sym (
                create_update-repeat update.update_id digest env.create_call a.admitted.id
                  a.admitted.row db served a.admitted.key a.admitted.normalized a.admitted.stored))
              (Quiet-if (has_orka_response (update_record a.admitted.id a.admitted.row)) _ _
                (Genuine-has update.update_id digest db a g) refl)
        | inr refused ↦
            subst (λ x. Quiet (created lib cfg env update digest ev x))
              (sym (
                create_update-refused env.create_call update.update_id digest a.stored db a.admitted
                  refused))
              refl
      ]

  locked-Quiet :
      (update : Update) (ev : EventEnvelope) (db : Db) (text : Text) (chat_id : Option ℤ)
      → lib.marshal_update update ≡ some text
      → Answered update.update_id (lib.digest_bytes text) db
      → Genuine db
      → Quiet (locked lib cfg env update ev db chat_id)
  locked-Quiet update ev db text none e a g = refl
  locked-Quiet update ev db text (some chat_id) e a g =
      let ops = env.waiting (lock_index chat_id) in
      subst (λ t. Quiet (normalized lib cfg env update ev (run ops db) t)) (sym e)
        (normalized-Quiet update ev (run ops db) text
          (Answered-later update.update_id (lib.digest_bytes text) db ops a) (run-Genuine ops db g))

  mapped-Quiet :
      (update : Update) (db : Db) (m : Mapped)
      → map_update lib.unicode cfg.bot_id update ≡ m
      → Acknowledged lib cfg update db
      → Genuine db
      → Quiet (mapped lib cfg env update db m)
  mapped-Quiet update db unsupported e a g = refl
  mapped-Quiet update db invalid e a g = refl
  mapped-Quiet update db (event ev) e a g = elim a.why [
    | inl none_of_them ↦ cc
    | inr (text, e', b) ↦ locked-Quiet update ev db text (parse_int ev.context_id) e' b g
  ]

  brought-Quiet :
      (db : Db) (refused : Bool) (body : Option Text) (update : Update)
      → brought lib cfg refused body ≡ some update
      → Acknowledged lib cfg update db
      → Genuine db
      → Quiet
          (if refused then refuse 401 (bytes "unauthorized") [] db else read lib cfg env db body)
  brought-Quiet db true body update e a g = refl
  brought-Quiet db false none update e a g = refl
  brought-Quiet db false (some body) update e a g =
      subst (λ x. Quiet (decoded lib cfg env db x)) (sym e)
        (mapped-Quiet update db (map_update lib.unicode cfg.bot_id update) refl a g)

  pub received-Quiet :
      (request : Request) (db : Db) (update : Update)
      → received lib cfg request ≡ some update
      → Acknowledged lib cfg update db
      → Genuine db
      → Quiet (handle_telegram_webhook lib cfg env request db)
  unfolding received handle_telegram_webhook
  received-Quiet request db update e a g =
      brought-Quiet db (not (constant_time_bearer_equal request.secret_header cfg.webhook_secret))
        (read_bounded_body request.body cfg.max_webhook_body_bytes) update e a g

Acknowledged-later :
    (lib : Libraries) (cfg : Config) (update : Update) (db : Db) (ops : List Op)
    → Acknowledged lib cfg update db
    → Acknowledged lib cfg update (run ops db)
Acknowledged-later lib cfg update db ops a = record {
  why = elim a.why [
    | inl e ↦ inl e
    | inr (text, e, b) ↦
        inr (text, e, Answered-later update.update_id (lib.digest_bytes text) db ops b)
  ];
}

-- When a request has been answered with 200, from a database in which no update has an empty
-- response, the same request posts nothing to Orka, whatever calls the store serves in between and
-- whatever the request meets.
pub handle_telegram_webhook-again :
    (lib : Libraries) (cfg : Config) (env again : Environment) (request : Request) (db : Db)
    (ops : List Op)
    → Genuine db
    → (handle_telegram_webhook lib cfg env request db).http_status ≡ 200
    → (handle_telegram_webhook lib cfg again request
        (run ops (handle_telegram_webhook lib cfg env request db).db)).posts
      ≡ []
handle_telegram_webhook-again lib cfg env again request db ops g h =
    let (update, e, a) = handle_telegram_webhook-Acknowledged lib cfg env request db h in
    let (before, reached) = handle_telegram_webhook-Reached lib cfg env request db in
    let after = (handle_telegram_webhook lib cfg env request db).db in
    let genuine : Genuine after = subst Genuine (sym reached) (run-Genuine before db g) in
    received-Quiet lib cfg again request (run ops after) update e
      (Acknowledged-later lib cfg update after ops a) (run-Genuine ops after genuine)
