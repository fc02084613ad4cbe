-- ===== src/Adapter/Delivery/Calls.antt =====
-- internal/adapter/server.go, handleDelivery: its calls of Telegram.
use orka_gateway_telegram.Prelude.{
  ◌≡◌, refl, Bool, true, false, not, Option, none, some, List, [], ◌∷◌, Text, Option-cases, inl,
  inr, if◌then◌else◌, arith, subst,
}
use orka_gateway_telegram.Store.Types.{
  digest_conflict, Result, ok, err, terminal, DeliveryRecord, Time, Call,
}
use orka_gateway_telegram.Store.Db.{Db}
use orka_gateway_telegram.Store.Query.{get_provider_cooldown}
use orka_gateway_telegram.Store.Deliveries.{is_before, begin_delivery_with_idempotency}
use orka_gateway_telegram.Store.Completion.{read_only, inspect_delivery_with_idempotency}
use orka_gateway_telegram.Store.Claims.{Claimable}
use orka_gateway_telegram.Store.Claims.Method.{create_or_begin_delivery_lem}
use orka_gateway_telegram.Store.Keeps.{Keeps, keeps_rules}
use orka_gateway_telegram.Store.History.{run}
use orka_gateway_telegram.Telegram.ReplyTarget.{ReplyTarget, parse_reply_target}
use orka_gateway_telegram.Protocol.Types.{DeliveryRequest}
use orka_gateway_telegram.Protocol.Validate.{decode_delivery_request}
use orka_gateway_telegram.Adapter.Http.{Reader, read_bounded_body}
use orka_gateway_telegram.Adapter.Delivery.{
  Config, Environment, Handled, valid_delivery_route, persisted, dispatched, execute, begun,
  replayed, claim, gated, inspected, deliver, handle_delivery, logical_digest, legacy_digest,
}

module _ (decode : Text → Option DeliveryRequest) (digest_of : DeliveryRequest → Text)
    (cfg : Config) (env : Environment) where
  -- The claim that a request was granted, over the database `db` at that moment.
  pub record Granted (request : DeliveryRequest) (db : Db) : Type 0 where
    pub claimed : DeliveryRecord
    pub after : Db
    pub granted : claim decode digest_of env.begin_call request db ≡ (ok (claimed, true), after)
    pub claimable : Claimable db.deliveries claimed.delivery_id
    pub cooldown : Time
    pub read : get_provider_cooldown db ≡ ok cooldown
    pub expired : is_before env.begin_call.now cooldown ≡ false

  -- Why `request` may be sent to `t`.
  pub record Justified (request : DeliveryRequest) (db : Db) (t : ReplyTarget) (text : Text)
      : Type 0 where
    pub content : text ≡ request.text
    pub target : parse_reply_target request.reply_target cfg.conformance_chat_id ≡ some t
    pub routed : valid_delivery_route cfg request t ≡ true
    pub grant : Granted request (run env.waiting db)

  -- There is no call, or a single one that is justified.
  abbrev pub AtMostOne : DeliveryRequest → Db → List (ReplyTarget × Text) → Type 0
  AtMostOne request db [] = Unit
  AtMostOne request db ((t, text) ∷ rest) = (rest ≡ []) × Justified request db t text

  module _ (request : DeliveryRequest) (db : Db) where
    abbrev Calls : Handled → Type 0
    Calls h = AtMostOne request db h.calls

    grant-of-claim :
        (r : DeliveryRecord) (after : Db)
        → claim decode digest_of env.begin_call request (run env.waiting db) ≡ (ok (r, true), after)
        → Granted request (run env.waiting db)
    unfolding claim begin_delivery_with_idempotency
    grant-of-claim r after e =
        let c =
          create_or_begin_delivery_lem env.begin_call (run env.waiting db) after _ _ _ _ true r true
            e in
        record {
          claimed = r;
          after = after;
          granted = e;
          claimable = c.began.was_claimable refl;
          cooldown = c.cooldown;
          read = c.gate;
          expired = c.began.no_cooldown refl;
        }

    persisted-Calls :
        (calls : List (ReplyTarget × Text)) (r : Result DeliveryRecord × Db)
        → AtMostOne request db calls
        → Calls (persisted calls r)
    persisted-Calls calls (ok r, _) h = h
    persisted-Calls calls (err e, _) h = h

    Calls-if :
        (b : Bool) (x y : Handled)
        → (b ≡ true → Calls x)
        → (b ≡ false → Calls y)
        → Calls (if b then x else y)
    Calls-if true x y p q = p refl
    Calls-if false x y p q = q refl

    dispatched-Calls :
        (digest : Text) (r : DeliveryRecord) (after : Db) (o : Option ReplyTarget)
        → parse_reply_target request.reply_target cfg.conformance_chat_id ≡ o
        → Granted request (run env.waiting db)
        → Calls (dispatched cfg env request digest r after o)
    dispatched-Calls digest r after none e g = persisted-Calls [] _ tt
    dispatched-Calls digest r after (some t) e g =
        Calls-if (not (valid_delivery_route cfg request t)) _ _ (λ bad. persisted-Calls [] _ tt)
          (λ good.
            persisted-Calls ((t, request.text) ∷ []) _
              (refl, record { content = refl; target = e; routed = ground arith; grant = g }))

    execute-Calls :
        (digest : Text) (r : DeliveryRecord) (after : Db)
        → Granted request (run env.waiting db)
        → Calls (execute cfg env request digest r after)
    unfolding execute
    execute-Calls digest r after g = dispatched-Calls digest r after _ refl g

    begun-Calls :
        (digest : Text) (r : Result (DeliveryRecord × Bool) × Db)
        → claim decode digest_of env.begin_call request (run env.waiting db) ≡ r
        → Calls (begun cfg env request digest r)
    begun-Calls digest (err digest_conflict, _) e = tt
    begun-Calls digest (err _, _) e = tt
    begun-Calls digest (ok (r, false), _) e = tt
    begun-Calls digest (ok (r, true), after) e =
        execute-Calls digest r after (grant-of-claim r after e)

    gated-Calls : Calls (gated decode digest_of cfg env request db)
    unfolding gated
    gated-Calls =
        Calls-if (not env.acquired) _ _ (λ _. tt)
          (λ _. begun-Calls (logical_digest decode digest_of request) _ refl)

    replayed-Calls : (r : Result (DeliveryRecord × Bool) × Db) → Calls (replayed r)
    replayed-Calls (ok r, _) = tt
    replayed-Calls (err e, _) = tt

  inspected-Calls :
      (request : DeliveryRequest) (r : Result (Option DeliveryRecord) × Db)
      → AtMostOne request r.1 (inspected decode digest_of cfg env request r).calls
  inspected-Calls request (err digest_conflict, db) = tt
  inspected-Calls request (err _, db) = tt
  inspected-Calls request (ok none, db) = gated-Calls request db
  inspected-Calls request (ok (some r), db) =
      Calls-if request db (terminal r.state) _ _ (λ _. replayed-Calls request db _)
        (λ _. gated-Calls request db)

  read_only-same :
      {A : Type 0} (call : Call) (q : Db → Result A) (db : Db)
      → Keeps (λ x. x ≡ db) (read_only call q)
  unfolding read_only
  read_only-same call q db = search keeps_rules

  pub inspect-same :
      (call : Call) (d i rd ld : Text) (db : Db)
      → Keeps (λ x. x ≡ db) (inspect_delivery_with_idempotency call d i rd ld)
  unfolding inspect_delivery_with_idempotency
  inspect-same call d i rd ld db = search (keeps_rules, read_only-same) depth 9

  deliver-Calls :
      (request : DeliveryRequest) (db : Db)
      → AtMostOne request db (deliver decode digest_of cfg env request db).calls
  unfolding deliver
  deliver-Calls request db =
      subst (λ x. AtMostOne request x (deliver decode digest_of cfg env request db).calls)
        ((inspect-same env.inspect_call request.delivery_id request.idempotency_id
            (logical_digest decode digest_of request) (legacy_digest decode digest_of request)
            db).at
          db refl)
        (inspected-Calls request (
          inspect_delivery_with_idempotency env.inspect_call request.delivery_id
            request.idempotency_id (logical_digest decode digest_of request)
            (legacy_digest decode digest_of request) db))

  -- Handling one request makes at most one call of Telegram. If it makes one, the body decoded to a
  -- valid request, the call carries the request's text to the target that its reply target parses
  -- to and that its route allows, and the store had granted the claim at a moment when the claimed
  -- delivery was absent or retryable and no cooldown of the bot was active.
  pub handle_delivery-calls :
      (reader : Reader) (db : Db) (t : ReplyTarget) (text : Text) (rest : List (ReplyTarget × Text))
      → (handle_delivery decode digest_of cfg env reader db).calls ≡ (t, text) ∷ rest
      → (rest ≡ [])
        × ((body : Text) × (read_bounded_body reader cfg.max_delivery_body_bytes ≡ some body)
            × (request : DeliveryRequest) × (decode_delivery_request decode body ≡ some request)
            × Justified request db t text)
  unfolding handle_delivery
  handle_delivery-calls reader db t text rest h =
      elim (Option-cases (read_bounded_body reader cfg.max_delivery_body_bytes)) [
        | inl big ↦ ground arith
        | inr (body, e') ↦ elim (Option-cases (decode_delivery_request decode body)) [
          | inl e ↦ ground arith
          | inr (request, e) ↦
              let justified : AtMostOne request db ((t, text) ∷ rest) =
                subst (AtMostOne request db) {y = (t, text) ∷ rest} (ground arith)
                  (deliver-Calls request db) in
              (justified.0, (body, e', request, e, justified.1))
        ]
      ]
