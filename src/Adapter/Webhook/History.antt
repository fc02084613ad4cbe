-- ===== src/Adapter/Webhook/History.antt =====
-- internal/adapter/server.go, handleTelegramWebhook: the database before and after.
use orka_gateway_telegram.Prelude.{
  ◌≡◌, refl, sym, subst, Bool, true, false, not, Option, none, some, List, Text, if◌then◌else◌,
}
use orka_gateway_telegram.Prelude.Int.{ℤ}
use orka_gateway_telegram.Text.Decimal.{parse_int}
use orka_gateway_telegram.Store.Types.{
  digest_conflict, invalid_transition, Result, ok, err, UpdateRecord, Call,
}
use orka_gateway_telegram.Store.Db.{Db}
use orka_gateway_telegram.Store.Keeps.{Keeps, keeps_rules}
use orka_gateway_telegram.Store.Completion.{read_only}
use orka_gateway_telegram.Store.Updates.{has_orka_response, get_update, save_update_response}
use orka_gateway_telegram.Store.History.{admit, answer, step, run}
use orka_gateway_telegram.Store.History.Reached.{
  Reached, Reached-refl, Reached-run, Reached-step, Reached-trans,
}
use orka_gateway_telegram.Protocol.Types.{EventEnvelope, IngressResponse}
use orka_gateway_telegram.Protocol.Validate.{constant_time_bearer_equal}
use orka_gateway_telegram.Telegram.Update.{Update}
use orka_gateway_telegram.Telegram.Mapping.{Mapped, event, unsupported, invalid, map_update}
use orka_gateway_telegram.Adapter.Http.{read_bounded_body, decode_single_json, lock_index}
use orka_gateway_telegram.Adapter.Webhook.{
  Config, Request, Post, Libraries, Environment, Handled, reread, saved, posted, created,
  normalized, locked, mapped, decoded, read, handle_telegram_webhook,
}

-- GetUpdate only reads.
get_update-Keeps : (P : Db → Type 0) (call : Call) (u : ℤ) → Keeps P (get_update call u)
unfolding get_update read_only
get_update-Keeps P call u = search keeps_rules

pub get_update-same : (call : Call) (u : ℤ) (db : Db) → (get_update call u db).1 ≡ db
get_update-same call u db = (get_update-Keeps (λ x. x ≡ db) call u).at db refl

Reached-if :
    (db : Db) (b : Bool) (x y : Handled)
    → Reached db x.db
    → Reached db y.db
    → Reached db (if b then x else y).db
Reached-if db true x y p q = p
Reached-if db false x y p q = q

reread-Reached :
    (db : Db) (posts : List Post) (r : Result UpdateRecord × Db)
    → Reached db r.1
    → Reached db (reread posts r).db
reread-Reached db posts (ok stored, _) h = Reached-if db (has_orka_response stored) _ _ h h
reread-Reached db posts (err _, _) h = h

module _ (lib : Libraries) (cfg : Config) (env : Environment) where
  saved-Reached :
      (db : Db) (u : ℤ) (posts : List Post) (r : Result UpdateRecord × Db)
      → Reached db r.1
      → Reached db (saved lib cfg env u posts r).db
  saved-Reached db u posts (ok _, _) h = h
  saved-Reached db u posts (err invalid_transition, after) h =
      reread-Reached db posts (get_update env.get_call u (run env.saving after)) (
        subst (Reached db) (sym (get_update-same env.get_call u (run env.saving after)))
          (Reached-trans db after _ h (Reached-run env.saving after)))
  saved-Reached db u posts (err _, _) h = h

  posted-Reached :
      (u : ℤ) (digest : Text) (r : List Post × Option (Text × IngressResponse)) (db : Db)
      → Reached db (posted lib cfg env u digest r db).db
  unfolding step
  posted-Reached u digest (posts, none) db = Reached-refl db
  posted-Reached u digest (posts, some (body, _)) db =
      saved-Reached db u posts (save_update_response env.save_call u digest body db)
        (Reached-step (answer env.save_call u digest body) db)

  created-Reached :
      (db : Db) (update : Update) (digest : Text) (ev : EventEnvelope)
      (r : Result (UpdateRecord × Bool) × Db)
      → Reached db r.1
      → Reached db (created lib cfg env update digest ev r).db
  created-Reached db update digest ev (err digest_conflict, _) h = h
  created-Reached db update digest ev (err _, _) h = h
  created-Reached db update digest ev (ok (r, _), after) h =
      Reached-if db (has_orka_response r) _ _ h (
        Reached-trans db _ _ (Reached-trans db after _ h (Reached-run env.posting after))
          (posted-Reached update.update_id digest _ (run env.posting after)))

  normalized-Reached :
      (update : Update) (ev : EventEnvelope) (db : Db) (text : Option Text)
      → Reached db (normalized lib cfg env update ev db text).db
  unfolding step
  normalized-Reached update ev db none = Reached-refl db
  normalized-Reached update ev db (some text) =
      created-Reached db update (lib.digest_bytes text) ev _
        (Reached-step (admit env.create_call update.update_id (lib.digest_bytes text)) db)

  locked-Reached :
      (update : Update) (ev : EventEnvelope) (db : Db) (chat_id : Option ℤ)
      → Reached db (locked lib cfg env update ev db chat_id).db
  locked-Reached update ev db none = Reached-refl db
  locked-Reached update ev db (some chat_id) =
      Reached-trans db _ _ (Reached-run (env.waiting (lock_index chat_id)) db)
        (normalized-Reached update ev _ (lib.marshal_update update))

  mapped-Reached :
      (update : Update) (db : Db) (m : Mapped) → Reached db (mapped lib cfg env update db m).db
  mapped-Reached update db unsupported = Reached-refl db
  mapped-Reached update db invalid = Reached-refl db
  mapped-Reached update db (event ev) = locked-Reached update ev db (parse_int ev.context_id)

  decoded-Reached :
      (db : Db) (update : Option Update) → Reached db (decoded lib cfg env db update).db
  decoded-Reached db none = Reached-refl db
  decoded-Reached db (some update) =
      mapped-Reached update db (map_update lib.unicode cfg.bot_id update)

  read-Reached : (db : Db) (body : Option Text) → Reached db (read lib cfg env db body).db
  read-Reached db none = Reached-refl db
  read-Reached db (some body) =
      decoded-Reached db (decode_single_json lib.update_decoder body false)

  -- Handling a request, with whatever other calls reach the store meanwhile, takes the database
  -- through calls of the store's methods only.
  pub handle_telegram_webhook-Reached :
      (request : Request) (db : Db) → Reached db (handle_telegram_webhook lib cfg env request db).db
  unfolding handle_telegram_webhook
  handle_telegram_webhook-Reached request db =
      Reached-if db (not (constant_time_bearer_equal request.secret_header cfg.webhook_secret)) _ _
        (Reached-refl db)
        (read-Reached db (read_bounded_body request.body cfg.max_webhook_body_bytes))
