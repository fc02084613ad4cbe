-- ===== src/Adapter/Webhook/Acknowledged.antt =====
-- internal/adapter/server.go, handleTelegramWebhook: the answer to Telegram and the stored response.
use orka_gateway_telegram.Prelude.{
  ℕ, ◌≡◌, ◌≢◌, ◌⊎◌, refl, sym, subst, Bool, true, false, not, Option, none, some, List, [], ◌∷◌,
  Text, bytes, if◌then◌else◌, Option-cases, Bool-cases, inl, inr, arith,
}
use orka_gateway_telegram.Prelude.Int.{ℤ}
use orka_gateway_telegram.Text.Decimal.{parse_int}
use orka_gateway_telegram.Store.Types.{
  digest_conflict, invalid_transition, failure, Result, ok, err, UpdateRecord, Call,
}
use orka_gateway_telegram.Store.Db.{Db}
use orka_gateway_telegram.Store.Exec.{raise, query, lift, ◌>>=◌}
use orka_gateway_telegram.Store.Ensures.{Post}
use orka_gateway_telegram.Store.Completion.{read_only}
use orka_gateway_telegram.Store.Updates.{
  has_orka_response, create_update, get_update, save_update_response,
}
use orka_gateway_telegram.Store.History.{Op, answer, step, run}
use orka_gateway_telegram.Store.History.Admission.{
  Admitted, Admitted-run, Holds, create_update-Admitted, row-found,
}
use orka_gateway_telegram.Store.Responses.History.{Answered, save_update_response-Answered}
use orka_gateway_telegram.Protocol.Types.{EventEnvelope, IngressResponse}
use orka_gateway_telegram.Protocol.Validate.{constant_time_bearer_equal}
use orka_gateway_telegram.Telegram.Update.{Update}
use orka_gateway_telegram.Telegram.Mapping.{Mapped, event, unsupported, invalid, map_update}
use orka_gateway_telegram.Adapter.Http.{read_bounded_body, decode_single_json}
use orka_gateway_telegram.Adapter.Webhook.{
  Config, Request, Libraries, Environment, Handled, refuse, reread, admit_event, saved, posted,
  created, normalized, locked, mapped, decoded, read, handle_telegram_webhook,
}
use orka_gateway_telegram.Adapter.Webhook as Webhook

-- No answer has two status codes.
differs : {A : Type 0} {m n : ℕ} → m ≡ n → m ≢ n → A
differs e ne = elim (ne e) [ ]

responded-Answered :
    (u : ℤ) (digest : Text) (r : UpdateRecord) (db : Db)
    → Admitted u digest r db
    → has_orka_response r ≡ true
    → Answered u digest db
unfolding has_orka_response
responded-Answered u digest r db a has = elim (Option-cases r.orka_response) [
  | inr (t, e) ↦ record { stored = r; admitted = a; response = t; saved = e }
  | inl e ↦ ground arith
]

-- Later calls leave an admitted update admitted.
Admitted-later :
    (u : ℤ) (digest : Text) (r : UpdateRecord) (db : Db) (ops : List Op)
    → Admitted u digest r db
    → (r' : UpdateRecord) × Admitted u digest r' (run ops db)
Admitted-later u digest r db ops a = let (r', h, _, _) = Admitted-run u digest r db ops a in (r', h)

get_update-Admitted :
    (call : Call) (u : ℤ) (digest : Text) (r : UpdateRecord) (db : Db)
    → Admitted u digest r db
    → (get_update call u db ≡ (ok r, db)) ⊎ (get_update call u db ≡ (err failure, db))
unfolding get_update read_only raise query lift ◌>>=◌
get_update-Admitted call u digest r db a = elim (Bool-cases call.sqlite_ok) [
  | inl served ↦ inl (ground (arith, a.key, a.reads, row-found a.id db a.row a.stored))
  | inr refused ↦ inr (ground (arith, a.key))
]

module _ (u : ℤ) (digest : Text) where
  -- The answer 200 is given only when a response is stored.
  abbrev Sound : Handled → Type 0
  Sound h = h.http_status ≡ 200 → Answered u digest h.db

  Sound-if :
      (b : Bool) (x y : Handled)
      → (b ≡ true → Sound x)
      → (b ≡ false → Sound y)
      → Sound (if b then x else y)
  Sound-if true x y f g = f refl
  Sound-if false x y f g = g refl

  reread-Sound :
      (r : UpdateRecord) (db : Db) (posts : List Webhook.Post) (x : Result UpdateRecord × Db)
      → Admitted u digest r db
      → (x ≡ (ok r, db)) ⊎ (x ≡ (err failure, db))
      → Sound (reread posts x)
  reread-Sound r db posts x a (inl e) =
      subst (λ x. Sound (reread posts x)) (sym e)
        (Sound-if (has_orka_response r) _ _ (λ has _. responded-Answered u digest r db a has)
          (λ _ h. differs h (omega arith)))
  reread-Sound r db posts x a (inr e) =
      subst (λ x. Sound (reread posts x)) (sym e) (λ h. differs h (omega arith))

  module _ (lib : Libraries) (cfg : Config) (env : Environment) where
    saved-Sound :
        (r : UpdateRecord) (posts : List Webhook.Post) (x : Result UpdateRecord × Db)
        → Admitted u digest r x.1
        → Post (λ _ db. Answered u digest db) x
        → Sound (saved lib cfg env u posts x)
    saved-Sound r posts (ok _, db) a h = λ _. h
    saved-Sound r posts (err invalid_transition, db) a h =
        let (r', a') = Admitted-later u digest r db env.saving a in
        reread-Sound r' (run env.saving db) posts (get_update env.get_call u (run env.saving db)) a'
          (get_update-Admitted env.get_call u digest r' (run env.saving db) a')
    saved-Sound r posts (err _, db) a h = λ e. differs e (omega arith)

    posted-Sound :
        (r : UpdateRecord) (x : List Webhook.Post × Option (Text × IngressResponse)) (db : Db)
        → Admitted u digest r db
        → Sound (posted lib cfg env u digest x db)
    unfolding step run
    posted-Sound r (posts, none) db a = λ e. differs e (omega arith)
    posted-Sound r (posts, some (body, _)) db a =
        let (r', a') = Admitted-later u digest r db (answer env.save_call u digest body ∷ []) a in
        saved-Sound r' posts (save_update_response env.save_call u digest body db) a'
          ((save_update_response-Answered env.save_call u digest body r).at db a)

module _ (lib : Libraries) (cfg : Config) where
  -- What a body that was read brings, unless the request is refused.
  abbrev pub brought : Bool → Option Text → Option Update
  brought true body = none
  brought false none = none
  brought false (some body) = decode_single_json lib.update_decoder body false

  -- The update that a request brings: its secret is right, its body is within the limit, and it is a
  -- single JSON value that decodes.
  unfoldable pub received : Request → Option Update
  received request =
      brought (not (constant_time_bearer_equal request.secret_header cfg.webhook_secret))
        (read_bounded_body request.body cfg.max_webhook_body_bytes)

  -- The update has no event, or it is stored with a response under the digest of its JSON form.
  pub record Acknowledged (update : Update) (db : Db) : Type 0 where
    pub why :
        (map_update lib.unicode cfg.bot_id update ≡ unsupported)
        ⊎ ((text : Text) × (lib.marshal_update update ≡ some text)
            × Answered update.update_id (lib.digest_bytes text) db)

module _ (lib : Libraries) (cfg : Config) (env : Environment) where
  created-Sound :
      (update : Update) (digest : Text) (ev : EventEnvelope) (x : Result (UpdateRecord × Bool) × Db)
      → Post (Holds update.update_id digest) x
      → Sound update.update_id digest (created lib cfg env update digest ev x)
  created-Sound update digest ev (err digest_conflict, db) a = λ e. differs e (omega arith)
  created-Sound update digest ev (err _, db) a = λ e. differs e (omega arith)
  created-Sound update digest ev (ok (r, _), db) a =
      Sound-if update.update_id digest (has_orka_response r) _ _
        (λ has _. responded-Answered update.update_id digest r db a has)
        (λ _.
          let (r', a') = Admitted-later update.update_id digest r db env.posting a in
          posted-Sound update.update_id digest lib cfg env r' (admit_event lib cfg env ev)
            (run env.posting db) a')

  normalized-Acknowledged :
      (update : Update) (ev : EventEnvelope) (db : Db) (text : Option Text)
      → lib.marshal_update update ≡ text
      → (normalized lib cfg env update ev db text).http_status ≡ 200
      → Acknowledged lib cfg update (normalized lib cfg env update ev db text).db
  normalized-Acknowledged update ev db none e h = differs h (omega arith)
  normalized-Acknowledged update ev db (some text) e h = record {
    why = inr (
      text,
      e,
      created-Sound update (lib.digest_bytes text) ev
          (create_update env.create_call update.update_id (lib.digest_bytes text) db)
          ((create_update-Admitted update.update_id (lib.digest_bytes text) env.create_call).at db
            tt)
          h,
    );
  }

  locked-Acknowledged :
      (update : Update) (ev : EventEnvelope) (db : Db) (chat_id : Option ℤ)
      → (locked lib cfg env update ev db chat_id).http_status ≡ 200
      → Acknowledged lib cfg update (locked lib cfg env update ev db chat_id).db
  locked-Acknowledged update ev db none h = differs h (omega arith)
  locked-Acknowledged update ev db (some chat_id) h =
      normalized-Acknowledged update ev _ (lib.marshal_update update) refl h

  mapped-Acknowledged :
      (update : Update) (db : Db) (m : Mapped)
      → map_update lib.unicode cfg.bot_id update ≡ m
      → (mapped lib cfg env update db m).http_status ≡ 200
      → Acknowledged lib cfg update (mapped lib cfg env update db m).db
  mapped-Acknowledged update db unsupported e h = record { why = inl e }
  mapped-Acknowledged update db invalid e h = differs h (omega arith)
  mapped-Acknowledged update db (event ev) e h =
      locked-Acknowledged update ev db (parse_int ev.context_id) h

  decoded-Acknowledged :
      (db : Db) (update : Option Update)
      → (decoded lib cfg env db update).http_status ≡ 200
      → (x : Update) × (update ≡ some x) × Acknowledged lib cfg x (decoded lib cfg env db update).db
  decoded-Acknowledged db none h = differs h (omega arith)
  decoded-Acknowledged db (some update) h = (
    update,
    refl,
    mapped-Acknowledged update db (map_update lib.unicode cfg.bot_id update) refl h,
  )

  brought-Acknowledged :
      (db : Db) (refused : Bool) (body : Option Text)
      → (if refused
          then refuse 401 (bytes "unauthorized") [] db
          else read lib cfg env db body).http_status
        ≡ 200
      → (update : Update) × (brought lib cfg refused body ≡ some update)
        × Acknowledged lib cfg update
            (if refused
              then refuse 401 (bytes "unauthorized") [] db
              else read lib cfg env db body).db
  brought-Acknowledged db true body h = differs h (omega arith)
  brought-Acknowledged db false none h = differs h (omega arith)
  brought-Acknowledged db false (some body) h =
      decoded-Acknowledged db (decode_single_json lib.update_decoder body false) h

  -- The answer 200 is given only to a request that brings an update, and either MapUpdate calls the
  -- update unsupported, or the update is stored with a response of Orka, under the digest of its
  -- JSON form.
  pub handle_telegram_webhook-Acknowledged :
      (request : Request) (db : Db)
      → (handle_telegram_webhook lib cfg env request db).http_status ≡ 200
      → (update : Update) × (received lib cfg request ≡ some update)
        × Acknowledged lib cfg update (handle_telegram_webhook lib cfg env request db).db
  unfolding handle_telegram_webhook received
  handle_telegram_webhook-Acknowledged request db h =
      brought-Acknowledged db
        (not (constant_time_bearer_equal request.secret_header cfg.webhook_secret))
        (read_bounded_body request.body cfg.max_webhook_body_bytes) h
