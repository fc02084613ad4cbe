-- ===== src/Store/Extends/Statements.antt =====
-- internal/store: the SQL statements, with respect to Extends.
use orka_gateway_telegram.Prelude.{
  ℕ, ◌≡◌, refl, Bool, true, false, arith, Text, max, Option-cases, inl, inr, ◌==◌, ◌&&◌,
  if◌then◌else◌,
}
use orka_gateway_telegram.Store.Types.{
  DeliveryState, same_state, terminal, Result, ok, err, failure, digest_conflict,
  provider_cooldown_scope,
}
use orka_gateway_telegram.Store.Table.{Text-key, find, insert, modify, find-modify}
use orka_gateway_telegram.Store.Db.{DeliveryRow, IdempotencyRow, Db}
use orka_gateway_telegram.Store.Statements.{
  insert_delivery, update_where, insert_idempotency, insert_alias, upsert_cooldown, is_taken,
}
use orka_gateway_telegram.Store.Exec.{Exec}
use orka_gateway_telegram.Store.Keeps.{Keeps}
use orka_gateway_telegram.Store.Extends.{Extends, Extends-refl, Extends-trans, SameRequest}
use orka_gateway_telegram.Store.Extends.Tables.{
  Extends-insert_delivery, Extends-modify, Extends-insert_idempotency, Extends-insert_alias,
  Extends-cooldowns,
}

-- The action extends every database that it is run on.
abbrev pub Growing : {A : Type 0} → Exec A → Type 0
Growing m = (a : Db) → Keeps (Extends a) m

pub Growing-intro : {A : Type 0} (m : Exec A) → ((db : Db) → Extends db (m db).1) → Growing m
Growing-intro m h = λ a. record { at = λ db e. Extends-trans e (h db) }

insert_delivery-Extends :
    (id : Text) (row : DeliveryRow) (db : Db) → Extends db (insert_delivery id row db).1
unfolding insert_delivery
insert_delivery-Extends id row db = elim (Option-cases (find id db.deliveries)) [
  | inl e ↦ rw (e, insert_delivery) (Extends-insert_delivery db id row e)
  | inr (r, e) ↦ rw (e, insert_delivery) (Extends-refl db)
]

pub insert_delivery-Growing : (id : Text) (row : DeliveryRow) → Growing (insert_delivery id row)
insert_delivery-Growing id row =
    Growing-intro (insert_delivery id row) (insert_delivery-Extends id row)

pub if-Extends :
    {A : Type 0} (b : Bool) (db : Db) (x y : Result A × Db)
    → (b ≡ true → Extends db x.1)
    → (b ≡ false → Extends db y.1)
    → Extends db (if◌then◌else◌ {A = Result A × Db} b x y).1
if-Extends true db x y h k = h refl
if-Extends false db x y h k = k refl

matching-unsettled :
    (r : DeliveryRow) (digest : Text) (from : DeliveryState)
    → terminal from ≡ false
    → (r.request_digest == digest && same_state r.state from) ≡ true
    → terminal r.state ≡ false
matching-unsettled r digest from h e = ground arith

update_where-Extends :
    (id digest : Text) (from : DeliveryState) (change : DeliveryRow → DeliveryRow) (db : Db)
    → terminal from ≡ false
    → ((r : DeliveryRow) → SameRequest r (change r))
    → Extends db (update_where id digest from change db).1
unfolding update_where
update_where-Extends id digest from change db h same = elim (Option-cases (find id db.deliveries)) [
  | inl e ↦ rw (e, update_where) (Extends-refl db)
  | inr (r, e) ↦
      rw (e, update_where)
        (if-Extends (r.request_digest == digest && same_state r.state from) db
          (ok 1, record db { deliveries = modify id change db.deliveries }) (ok 0, db)
          (λ t. Extends-modify db id r change e (matching-unsettled r digest from h t) same)
          (λ _. Extends-refl db))
]

pub update_where-Growing :
    (id digest : Text) (from : DeliveryState) (change : DeliveryRow → DeliveryRow)
    → terminal from ≡ false
    → ((r : DeliveryRow) → SameRequest r (change r))
    → Growing (update_where id digest from change)
update_where-Growing id digest from change h same =
    Growing-intro (update_where id digest from change)
      (λ db. update_where-Extends id digest from change db h same)

insert_idempotency-Extends :
    (id : Text) (row : IdempotencyRow) (db : Db) → Extends db (insert_idempotency id row db).1
unfolding insert_idempotency
insert_idempotency-Extends id row db = elim (Option-cases (find id db.deliveries)) [
  | inl e ↦ rw (e, insert_idempotency) (Extends-refl db)
  | inr (r, e) ↦ elim (Option-cases (find id db.idempotency)) [
    | inr (old, e') ↦ rw (e, e', insert_idempotency) (Extends-refl db)
    | inl e' ↦
        rw (e, e', insert_idempotency)
          (if-Extends (is_taken row.idempotency_id db.idempotency) db (err failure, db)
            (ok tt, record db { idempotency = insert id row db.idempotency }) (λ _. Extends-refl db)
            (λ _. Extends-insert_idempotency db id row e'))
  ]
]

insert_alias-Extends : (i id : Text) (db : Db) → Extends db (insert_alias i id db).1
unfolding insert_alias
insert_alias-Extends i id db = elim (Option-cases (find i db.aliases)) [
  | inr (r, e) ↦
      rw (e, insert_alias)
        (if-Extends (r == id) db (ok tt, db) (err digest_conflict, db) (λ _. Extends-refl db)
          (λ _. Extends-refl db))
  | inl e ↦ elim (Option-cases (find id db.deliveries)) [
    | inl e' ↦ rw (e, e', insert_alias) (Extends-refl db)
    | inr (r, e') ↦ rw (e, e', insert_alias) (Extends-insert_alias db i id e)
  ]
]

upsert_cooldown-Extends : (ms : ℕ) (db : Db) → Extends db (upsert_cooldown ms db).1
unfolding upsert_cooldown
upsert_cooldown-Extends ms db = elim (Option-cases (find provider_cooldown_scope db.cooldowns)) [
  | inl e ↦
      rw (e, upsert_cooldown)
        (Extends-cooldowns db (insert provider_cooldown_scope ms db.cooldowns) (λ t h. cc))
  | inr (old, e) ↦
      rw (e, upsert_cooldown)
        (Extends-cooldowns db (modify provider_cooldown_scope (λ t. max t ms) db.cooldowns) (λ t h.
          (
            max t ms,
            ground (
              arith,
              find-modify provider_cooldown_scope provider_cooldown_scope (λ t. max t ms)
                  db.cooldowns,
            ),
            omega arith,
          )))
]

pub insert_idempotency-Growing :
    (id : Text) (row : IdempotencyRow) → Growing (insert_idempotency id row)
insert_idempotency-Growing id row =
    Growing-intro (insert_idempotency id row) (insert_idempotency-Extends id row)

pub insert_alias-Growing : (i id : Text) → Growing (insert_alias i id)
insert_alias-Growing i id = Growing-intro (insert_alias i id) (insert_alias-Extends i id)

pub upsert_cooldown-Growing : (ms : ℕ) → Growing (upsert_cooldown ms)
upsert_cooldown-Growing ms = Growing-intro (upsert_cooldown ms) (upsert_cooldown-Extends ms)
