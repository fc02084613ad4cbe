-- ===== src/Store/History/Cooldown.antt =====
-- internal/store/deliveries.go: the bot's cooldown in a history.
use orka_gateway_telegram.Prelude.{
  ℕ, zero, suc, ◌≡◌, ◌≤◌, refl, sym, inl, inr, true, false, not, ◌||◌, some, List, Text, ◌==◌,
  arith, Bool-cases, Option-cases, eqb, max, subst,
}
use orka_gateway_telegram.Store.Types.{
  digest_conflict, invalid_argument, invalid_transition, Result, ok, err, sending, retryable,
  same_state, valid, DeliveryRecord, Time, Call, provider_cooldown_scope,
}
use orka_gateway_telegram.Store.Table.{Text-key, find, find-insert, find-modify}
use orka_gateway_telegram.Store.Db.{Db}
use orka_gateway_telegram.Store.Exec.{pure, raise, ◌>>◌}
use orka_gateway_telegram.Store.Ensures.{
  Ensures, Post, Ensures-pure, Ensures-raise, Ensures-if, Ensures-transaction, Ensures-bind,
  Ensures-lift, Ensures-query, Ensures-weaken,
}
use orka_gateway_telegram.Store.Query.{get_delivery, get_provider_cooldown}
use orka_gateway_telegram.Store.Normalize.{
  normalize_identity, normalize_digest, normalize_provider_message_id,
}
use orka_gateway_telegram.Store.Statements.{upsert_cooldown}
use orka_gateway_telegram.Store.Deliveries.{
  extend_provider_cooldown, is_before, create_or_begin_delivery,
}
use orka_gateway_telegram.Store.Completion.{
  Outcome, extend_if_positive, is_same_outcome, repeat_outcome, complete_sending, update_body,
  outcome_of, update_delivery_not_before, retry_millis,
}
use orka_gateway_telegram.Store.Claims.Method.{create_or_begin_delivery_lem}
use orka_gateway_telegram.Store.History.{Op, run}
use orka_gateway_telegram.Store.History.Promises.{run-Extends}

-- The bot waits until `t` or longer.
abbrev pub Waits : ℕ → Db → Type 0
Waits t db = (until : ℕ) × (find provider_cooldown_scope db.cooldowns ≡ some until) × (t ≤ until)

abbrev Any : Db → Type 0
Any db = Unit

abbrev Then : {A : Type 0} → ℕ → A → Db → Type 0
Then t a db = Waits t db

upsert_cooldown-Waits : (t : ℕ) → Ensures Any (upsert_cooldown t) (Then t)
unfolding upsert_cooldown
upsert_cooldown-Waits t = record {
  at = λ db h. elim (Option-cases (find provider_cooldown_scope db.cooldowns)) [
    | inl e ↦ (
      t,
      ground (arith, find-insert provider_cooldown_scope provider_cooldown_scope t db.cooldowns),
      omega arith,
    )
    | inr (old, e) ↦ (
      max old t,
      ground (
        arith,
        find-modify provider_cooldown_scope provider_cooldown_scope (λ s. max s t) db.cooldowns,
      ),
      omega arith,
    )
  ];
}

extend_if_positive-Waits : (t : ℕ) → eqb t 0 ≡ false → Ensures Any (extend_if_positive t) (Then t)
unfolding extend_if_positive extend_provider_cooldown
extend_if_positive-Waits zero h = cc
extend_if_positive-Waits (suc n) h =
    Ensures-if Any (Then (suc n)) (eqb (suc n) 0) (raise invalid_argument) (upsert_cooldown (suc n))
      (λ _. Ensures-raise Any (Then (suc n)) invalid_argument) (λ _. upsert_cooldown-Waits (suc n))

module _ (o : Outcome) (positive : eqb o.retry_not_before_ms 0 ≡ false) where
  abbrev wait : ℕ
  wait = o.retry_not_before_ms

  extended : {A : Type 0} (a : A) → Ensures Any (extend_if_positive wait >> pure a) (Then wait)
  extended a =
      Ensures-bind Any (Then wait) (Then wait) _ _ (extend_if_positive-Waits wait positive)
        (λ _. Ensures-pure (Waits wait) (Then wait) a (λ db h. h))

  repeat_outcome-Waits : (r : DeliveryRecord) → Ensures Any (repeat_outcome o r) (Then wait)
  unfolding repeat_outcome
  repeat_outcome-Waits r =
      Ensures-if Any (Then wait) (is_same_outcome o r) _ (raise invalid_transition)
        (λ _. extended r) (λ _. Ensures-raise Any (Then wait) invalid_transition)

  complete_sending-Waits :
      (call : Call) (id : Text) (r : DeliveryRecord)
      → Ensures Any (complete_sending call id o r) (Then wait)
  unfolding complete_sending
  complete_sending-Waits call id r =
      Ensures-bind Any (λ _ db. Any db) (Then wait) _ _ (record { at = λ db h. any db _ })
        (λ n.
          Ensures-if Any (Then wait) (not (eqb n 1)) (raise invalid_transition) _
            (λ _. Ensures-raise Any (Then wait) invalid_transition) (λ _. extended _))
    where
      any : {A : Type 0} (db : Db) (r : Result A × Db) → Post (λ _ x. Any x) r
      any db (ok a, _) = tt
      any db (err e, _) = tt

  update_body-Waits :
      (call : Call) (id digest : Text) → Ensures Any (update_body call id digest o) (Then wait)
  unfolding update_body
  update_body-Waits call id digest = Ensures-query Any (Then wait) (get_delivery id) _ (λ r.
      Ensures-weaken Any (Then wait) _ _ (λ db h. tt)
        (Ensures-if Any (Then wait) (not (r.request_digest == digest)) (raise digest_conflict) _
          (λ _. Ensures-raise Any (Then wait) digest_conflict)
          (λ _.
            Ensures-if Any (Then wait) (not (same_state r.state sending)) (repeat_outcome o r)
              (complete_sending call id o r) (λ _. repeat_outcome-Waits r)
              (λ _. complete_sending-Waits call id r))))

retry_millis-positive :
    (t ms : ℕ) → retry_millis retryable (some t) ≡ ok ms → (eqb ms 0 ≡ false) × (ms ≡ t)
unfolding retry_millis
retry_millis-positive t ms h = elim (Bool-cases (eqb t 0)) [
  | inl e ↦ ground arith
  | inr e ↦ ground arith
]

update_delivery_not_before-Waits :
    (call : Call) (d digest pid message : Text) (t : ℕ)
    → Ensures Any (update_delivery_not_before call d digest retryable pid message (some t)) (Then t)
unfolding update_delivery_not_before outcome_of
update_delivery_not_before-Waits call d digest pid message t =
    Ensures-lift _ _ (normalize_identity d) _ (λ id _.
      Ensures-lift _ _ (normalize_digest digest) _ (λ digest' _.
        Ensures-if _ _ (not (valid retryable) || same_state retryable sending)
          (raise invalid_argument) _ (λ _. Ensures-raise _ _ invalid_argument)
          (λ _. Ensures-lift _ _ (normalize_provider_message_id pid) _ (λ pid' _.
            Ensures-lift _ _ (retry_millis retryable (some t)) _ (λ ms e.
              let (positive, same) = retry_millis-positive t ms e in
              Ensures-transaction _ _ call _ (
                subst
                  (λ x.
                    Ensures Any (update_body call id digest' (outcome_of retryable pid' message ms))
                      (Then x))
                  same
                  (update_body-Waits (outcome_of retryable pid' message ms) positive call id
                    digest')))))))

waiting-le :
    (db : Db) (t now : ℕ) (c : Time)
    → Waits t db
    → get_provider_cooldown db ≡ ok c
    → is_before now c ≡ false
    → t ≤ now
unfolding get_provider_cooldown is_before
waiting-le db t now c (until, e, le) g free = elim (Bool-cases (eqb until 0)) [
  | inl z ↦ ground arith
  | inr z ↦
      let p : some until ≡ c = ground arith in
      let past = subst (λ x. is_before now x ≡ false) (sym p) free in ground arith
]

-- Once a result has been stored as retryable not before `t`, a call tells its caller to send only
-- if its clock shows `t` or later, whichever delivery it is for and whatever calls the store served
-- in between.
pub cooldown-le-claim :
    (call later : Call) (d digest pid message : Text) (t : ℕ) (db after db' : Db)
    (r r' : DeliveryRecord) (ops : List Op) (d' i rd ld : Text)
    → update_delivery_not_before call d digest retryable pid message (some t) db ≡ (ok r, after)
    → create_or_begin_delivery later d' i rd ld true (run ops after) ≡ (ok (r', true), db')
    → t ≤ later.now
cooldown-le-claim call later d digest pid message t db after db' r r' ops d' i rd ld e k =
    let (until, stored, le) : Waits t after =
      subst (Post (Then t)) e
        ((update_delivery_not_before-Waits call d digest pid message t).at db tt) in
    let (until', stored', le') = (run-Extends ops after).cooldown until stored in
    let c = create_or_begin_delivery_lem later (run ops after) db' d' i rd ld true r' true k in
    waiting-le (run ops after) t later.now c.cooldown (until', stored', omega arith) c.gate
      (c.began.no_cooldown refl)
