-- ===== src/Store/Claims.antt =====
-- internal/store/deliveries.go, createOrBeginDelivery: what it does to the table of deliveries.
pub mod Begin
pub mod Method
use orka_gateway_telegram.Prelude.{
  ℕ, ◌≡◌, refl, sym, ◌∙◌, ◌⊎◌, inl, inr, Bool, true, false, Option, none, some, arith, Text, not,
  ◌&&◌, if◌then◌else◌, ◌==◌, [], eqb,
}
use orka_gateway_telegram.Store.Types.{
  invalid_argument, DeliveryState, sending, retryable, DeliveryRecord, Time, Call, ok, err, after,
}
use orka_gateway_telegram.Store.Table.{
  Key, Text-key, find, insert, modify, Table, find-insert, find-modify,
}
use orka_gateway_telegram.Store.Db.{DeliveryRow, IdempotencyRow, Db}
use orka_gateway_telegram.Store.Exec.{Exec, pure, raise, query, ◌>>=◌, ◌>>◌}
use orka_gateway_telegram.Store.Ensures.{
  Ensures, Post, Ensures-pure, Ensures-raise, Ensures-if, Ensures-transaction, Ensures-bind,
  Ensures-lift, Ensures-weaken, Ensures-given, Ensures-query,
}
use orka_gateway_telegram.Store.Query.{resolve_delivery, digest_matches, get_provider_cooldown}
use orka_gateway_telegram.Store.Reflects.{
  Deliveries, Reflects, AllReflect, resolve_delivery-Reflects,
}
use orka_gateway_telegram.Store.Statements.{
  insert_delivery, update_where, insert_idempotency, insert_alias,
}
use orka_gateway_telegram.Store.Deliveries.{
  is_other_delivery, ensure_delivery_alias, upgrade_legacy_delivery, recover_stale, later,
  is_before, claim_retryable, begin_found, begin_new, begin_resolved, begin_body, upgraded,
  idempotency_row, expire_row, expire, claim_row, claim_record, new_row, new_record, must_wait,
  millis, create_or_begin_delivery,
}

-- A table in which a claim of the delivery is allowed.
abbrev pub Claimable : Deliveries → Text → Type 0
Claimable t d =
    (find d t ≡ none) ⊎ ((row : DeliveryRow) × (find d t ≡ some row) × (row.state ≡ retryable))

-- The result of a call at time `now`, over the table before it and the bot's cooldown.
pub record Began (now : ℕ) (cooldown : Time) (before : Deliveries) (r : DeliveryRecord)
    (should_send : Bool) (db : Db) : Type 0 where
  -- the record is the stored one
  pub reflects : Reflects db.deliveries r
  pub was_claimable : should_send ≡ true → Claimable before r.delivery_id
  pub is_sending : should_send ≡ true → r.state ≡ sending
  pub no_cooldown : should_send ≡ true → is_before now cooldown ≡ false

-- Writes to other tables leave the table of deliveries as it is.
module _ (t : Deliveries) where
  abbrev pub Same : Db → Type 0
  Same db = db.deliveries ≡ t

  insert_alias-Same : (i id : Text) → Ensures Same (insert_alias i id) (λ _. Same)
  unfolding insert_alias
  insert_alias-Same i id = record { at = λ db h. ground arith }

  insert_idempotency-Same :
      (id : Text) (row : IdempotencyRow) → Ensures Same (insert_idempotency id row) (λ _. Same)
  unfolding insert_idempotency
  insert_idempotency-Same id row = record { at = λ db h. ground arith }

  ensure_delivery_alias-Same : (i id : Text) → Ensures Same (ensure_delivery_alias i id) (λ _. Same)
  unfolding ensure_delivery_alias
  ensure_delivery_alias-Same i id =
      Ensures-query Same (λ _. Same) _ _
        (λ taken.
          Ensures-weaken Same (λ _. Same) _ _ (λ db h. h.0)
            (Ensures-if Same (λ _. Same) taken _ _ (λ _. Ensures-raise Same (λ _. Same) _)
              (λ _. insert_alias-Same i id)))

  pub update_where-Modifies :
      (id digest : Text) (from : DeliveryState) (change : DeliveryRow → DeliveryRow)
      (row : DeliveryRow)
      → find id t ≡ some row
      → row.request_digest ≡ digest
      → row.state ≡ from
      → Ensures Same
          (update_where id digest from change)
          (λ n db. (n ≡ 1) × (db.deliveries ≡ modify id change t))
  unfolding update_where
  update_where-Modifies id digest from change row p q r = record { at = λ db h. ground arith }

  upgraded-Reflects :
      (r : DeliveryRecord) (i rd : Text) → Reflects t r → Reflects t (upgraded i rd r)
  upgraded-Reflects r i rd h = record {
    row = h.row;
    stored = h.stored;
    state = h.state;
    digest = h.digest;
    provider_id = h.provider_id;
    message = h.message;
    updated = h.updated;
  }

  upgrade_legacy_delivery-Reflects :
      (found : DeliveryRecord) (i rd : Text)
      → Reflects t found
      → Ensures Same (upgrade_legacy_delivery found i rd) (λ r db. Same db × Reflects t r)
  unfolding upgrade_legacy_delivery
  upgrade_legacy_delivery-Reflects found i rd h =
      Ensures-if Same (λ r db. Same db × Reflects t r) (not (eqb found.digest_version 1))
        (raise invalid_argument)
        (ensure_delivery_alias i found.delivery_id
          >> (insert_idempotency found.delivery_id (idempotency_row i rd)
              >> pure (upgraded i rd found)))
        (λ _. Ensures-raise Same _ invalid_argument)
        (λ _.
          Ensures-bind Same (λ _. Same) _ _ _ (ensure_delivery_alias-Same i found.delivery_id)
            (λ _.
              Ensures-bind Same (λ _. Same) _ _ _
                (insert_idempotency-Same found.delivery_id (idempotency_row i rd))
                (λ _.
                  Ensures-pure Same _ (upgraded i rd found)
                    (λ db e. (e, upgraded-Reflects found i rd h)))))

-- A change of the stored row, and the same change of the record.
pub modify-Reflects :
    (t : Deliveries) (r : DeliveryRecord) (change : DeliveryRow → DeliveryRow)
    → (h : Reflects t r) → find r.delivery_id (modify r.delivery_id change t) ≡ some (change h.row)
modify-Reflects t r change h =
    ground (arith, h.stored, find-modify r.delivery_id r.delivery_id change t)

module _ (call : Call) (cooldown : Time) (t : Deliveries) where
  abbrev Q : DeliveryRecord × Bool → Db → Type 0
  Q p db = Began call.now cooldown t p.0 p.1 db

  -- Nothing was written; the time to retry is no part of what a record reflects.
  unchanged-Began : (r : DeliveryRecord) → Reflects t r → Ensures (Same t) (pure (r, false)) Q
  unchanged-Began r h =
      Ensures-pure (Same t) Q (r, false)
        (λ db e. record {
          reflects = rw e h;
          was_claimable = λ b. cc;
          is_sending = λ b. cc;
          no_cooldown = λ b. cc;
        })

  recover_stale-Began :
      (r : DeliveryRecord)
      → Reflects t r
      → r.state ≡ sending
      → Ensures (Same t) (recover_stale call r) Q
  unfolding recover_stale
  recover_stale-Began r h s =
      Ensures-bind (Same t)
        (λ n db. (n ≡ 1) × (db.deliveries ≡ modify r.delivery_id (expire_row call.now) t)) _ _ _
        (update_where-Modifies t _ _ _ _ h.row h.stored h.digest (h.state ∙ s))
        (λ n. Ensures-pure _ _ _ (λ db e. record {
          reflects = record {
            row = expire_row call.now h.row;
            stored = rw (e.1) (modify-Reflects t r (expire_row call.now) h);
            state = refl;
            digest = h.digest;
            provider_id = refl;
            message = refl;
            updated = refl;
          };
          was_claimable = λ b. cc;
          is_sending = λ b. cc;
          no_cooldown = λ b. cc;
        }))

  abbrev delayed : DeliveryRecord → DeliveryRecord
  delayed r = record r { retry_not_before = later cooldown r.retry_not_before }

  delayed-Reflects : (r : DeliveryRecord) → Reflects t r → Reflects t (delayed r)
  delayed-Reflects r h = record {
    row = h.row;
    stored = h.stored;
    state = h.state;
    digest = h.digest;
    provider_id = h.provider_id;
    message = h.message;
    updated = h.updated;
  }

  later-is_before :
      (now : ℕ) (own : Time)
      → is_before now (later cooldown own) ≡ false
      → is_before now cooldown ≡ false
  unfolding later is_before after
  later-is_before now own h = ground arith

  claim_retryable-Began :
      (r : DeliveryRecord)
      → Reflects t r
      → r.state ≡ retryable
      → Ensures (Same t) (claim_retryable call cooldown r) Q
  unfolding claim_retryable
  claim_retryable-Began r h s =
      Ensures-if (Same t) Q (is_before call.now (later cooldown r.retry_not_before)) _ _
        (λ _. unchanged-Began (delayed r) (delayed-Reflects r h))
        (λ free.
          Ensures-bind (Same t)
            (λ n db. (n ≡ 1) × (db.deliveries ≡ modify r.delivery_id (claim_row call.now) t)) _ _ _
            (update_where-Modifies t _ _ _ _ h.row h.stored h.digest (h.state ∙ s))
            (λ n. Ensures-pure _ _ _ (λ db e. record {
              reflects = record {
                row = claim_row call.now h.row;
                stored = rw (e.1) (modify-Reflects t r (claim_row call.now) h);
                state = refl;
                digest = h.digest;
                provider_id = refl;
                message = refl;
                updated = refl;
              };
              was_claimable = λ b. inr (h.row, h.stored, h.state ∙ s);
              is_sending = λ b. refl;
              no_cooldown = λ b. later-is_before call.now r.retry_not_before free;
            })))
