-- ===== src/Store/Reflects.antt =====
-- internal/store/deliveries.go: records that were read, and the table of deliveries.
use orka_gateway_telegram.Prelude.{
  ◌≡◌, refl, inl, inr, Option, none, some, arith, Text, ◌==◌, Bool-cases, Option-cases,
}
use orka_gateway_telegram.Store.Types.{DeliveryRecord, not_found, Result, ok, err, valid}
use orka_gateway_telegram.Store.Table.{Text-key, find, Table}
use orka_gateway_telegram.Store.Db.{DeliveryRow, IdempotencyRow, Db}
use orka_gateway_telegram.Store.Query.{
  ◌>>=◌, scan_delivery, joined, get_delivery, get_delivery_by_alias, if_found, agree,
  get_delivery_by_identity, resolve_delivery,
}

abbrev pub Deliveries : Type 0
Deliveries = Table Text DeliveryRow

pub record Reflects (t : Deliveries) (r : DeliveryRecord) : Type 0 where
  pub row : DeliveryRow
  pub stored : find r.delivery_id t ≡ some row
  pub state : row.state ≡ r.state
  pub digest : row.request_digest ≡ r.legacy_request_digest
  pub provider_id : row.provider_message_id ≡ r.provider_message_id
  pub message : row.safe_message ≡ r.safe_message
  pub updated : row.updated_at_ms ≡ r.updated_at

-- What a lookup may return.
abbrev pub AllReflect : Deliveries → Option DeliveryRecord → Type 0
AllReflect t none = Unit
AllReflect t (some r) = Reflects t r

abbrev pub ResultReflects : Deliveries → Result (Option DeliveryRecord) → Type 0
ResultReflects t (ok o) = AllReflect t o
ResultReflects t (err e) = Unit

abbrev pub RecordReflects : Deliveries → Result DeliveryRecord → Type 0
RecordReflects t (ok r) = Reflects t r
RecordReflects t (err e) = Unit

module _ (t : Deliveries) where
  joined-Reflects :
      (id : Text) (row : DeliveryRow) (i : Option IdempotencyRow)
      → find id t ≡ some row
      → Reflects t (joined id row i)
  unfolding joined
  joined-Reflects id row none h = record {
    row = row;
    stored = h;
    state = refl;
    digest = refl;
    provider_id = refl;
    message = refl;
    updated = refl;
  }
  joined-Reflects id row (some i) h = record {
    row = row;
    stored = h;
    state = refl;
    digest = refl;
    provider_id = refl;
    message = refl;
    updated = refl;
  }

  scan_delivery-Reflects :
      (id : Text) (o : Option DeliveryRow) (i : Option IdempotencyRow)
      → find id t ≡ o
      → RecordReflects t (scan_delivery id o i)
  unfolding scan_delivery
  scan_delivery-Reflects id none i h = tt
  scan_delivery-Reflects id (some row) i h = elim (Bool-cases (valid row.state)) [
    | inl e ↦ rw e (joined-Reflects id row i h)
    | inr e ↦ rw e tt
  ]

  if_found-Reflects :
      (r : Result DeliveryRecord) → RecordReflects t r → ResultReflects t (if_found r)
  unfolding if_found
  if_found-Reflects (ok r) h = h
  if_found-Reflects (err not_found) h = tt
  if_found-Reflects (err e) h = tt

  agree-Reflects :
      (a b : Option DeliveryRecord) → AllReflect t a → AllReflect t b → ResultReflects t (agree a b)
  unfolding agree
  agree-Reflects (some a) (some b) h k = elim (Bool-cases (a.delivery_id == b.delivery_id)) [
    | inl e ↦ rw e h
    | inr e ↦ rw e tt
  ]
  agree-Reflects (some a) none h k = h
  agree-Reflects none b h k = k

  agreed-Reflects :
      (a b : Result (Option DeliveryRecord))
      → ResultReflects t a
      → ResultReflects t b
      → ResultReflects t (a >>= λ x. b >>= λ y. agree x y)
  agreed-Reflects (ok a) (ok b) h k = agree-Reflects a b h k
  agreed-Reflects (ok a) (err e) h k = tt
  agreed-Reflects (err e) b h k = tt

pub get_delivery-Reflects :
    (id : Text) (db : Db) → RecordReflects db.deliveries (get_delivery id db)
unfolding get_delivery
get_delivery-Reflects id db = scan_delivery-Reflects db.deliveries id _ _ refl

scan_delivery-id :
    (id : Text) (o : Option DeliveryRow) (i : Option IdempotencyRow) (r : DeliveryRecord)
    → scan_delivery id o i ≡ ok r
    → r.delivery_id ≡ id
unfolding scan_delivery joined
scan_delivery-id id none i r h = cc
scan_delivery-id id (some row) none r h = ground arith
scan_delivery-id id (some row) (some j) r h = ground arith

-- A lookup by primary key returns the record of that key.
pub get_delivery-id :
    (id : Text) (db : Db) (r : DeliveryRecord) → get_delivery id db ≡ ok r → r.delivery_id ≡ id
unfolding get_delivery
get_delivery-id id db r h = scan_delivery-id id _ _ r h

get_delivery_by_alias-Reflects :
    (i : Text) (db : Db) → RecordReflects db.deliveries (get_delivery_by_alias i db)
unfolding get_delivery_by_alias
get_delivery_by_alias-Reflects i db = elim (Option-cases (find i db.aliases)) [
  | inl e ↦ rw (e, get_delivery_by_alias) tt
  | inr (id, e) ↦ rw (e, get_delivery_by_alias) (get_delivery-Reflects id db)
]

get_delivery_by_identity-Reflects :
    (i : Text) (db : Db) → ResultReflects db.deliveries (get_delivery_by_identity i db)
unfolding get_delivery_by_identity
get_delivery_by_identity-Reflects i db =
    agreed-Reflects db.deliveries _ _
      (if_found-Reflects db.deliveries _ (get_delivery_by_alias-Reflects i db))
      (if_found-Reflects db.deliveries _ (get_delivery-Reflects i db))

pub resolve_delivery-Reflects :
    (d i : Text) (db : Db) → ResultReflects db.deliveries (resolve_delivery d i db)
unfolding resolve_delivery
resolve_delivery-Reflects d i db =
    agreed-Reflects db.deliveries _ _ (get_delivery_by_identity-Reflects d db)
      (get_delivery_by_identity-Reflects i db)
