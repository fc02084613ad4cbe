-- ===== src/Store/Extends/Updates.antt =====
-- internal/store/updates.go: the operations on Telegram updates, with respect to Extends.
use orka_gateway_telegram.Prelude.{
  ℕ, ◌≡◌, refl, none, some, arith, Text, ℕ_discrete, Option-cases, inl, inr, ◌==◌,
}
use orka_gateway_telegram.Prelude.Int.{ℤ}
use orka_gateway_telegram.Store.Types.{UpdateRecord, Call, Result, ok, err, not_found}
use orka_gateway_telegram.Store.Table.{ℕ-key, find, insert, modify, Table, find-insert, find-modify}
use orka_gateway_telegram.Store.Db.{UpdateRow, Db}
use orka_gateway_telegram.Store.Keeps.{keeps_rules}
use orka_gateway_telegram.Store.Extends.{Extends, Extends-refl, SameUpdate, SameUpdate-refl}
use orka_gateway_telegram.Store.Extends.Statements.{Growing, Growing-intro, if-Extends}
use orka_gateway_telegram.Store.Updates.{
  insert_update, set_response, answered, admit, create_body, create_update, save_body,
  save_update_response,
}

module _ (db : Db) where
  Extends-updates :
      (t : Table ℕ UpdateRow)
      → ((u : ℕ) (row : UpdateRow)
          → find u db.updates ≡ some row
          → (row' : UpdateRow) × (find u t ≡ some row') × SameUpdate row row')
      → Extends db (record db { updates = t })
  Extends-updates t update = record {
    settled = (Extends-refl db).settled;
    delivery = (Extends-refl db).delivery;
    identity = (Extends-refl db).identity;
    alias = (Extends-refl db).alias;
    cooldown = (Extends-refl db).cooldown;
    update = update;
  }

  Extends-insert_update :
      (id : ℕ) (row : UpdateRow)
      → find id db.updates ≡ none
      → Extends db (record db { updates = insert id row db.updates })
  Extends-insert_update id row fresh =
      Extends-updates (insert id row db.updates)
        (λ u r h. (r, ground (arith, find-insert u id row db.updates), SameUpdate-refl r))

  answered-SameUpdate :
      (response : Text) (now : ℕ) (row : UpdateRow)
      → row.orka_response ≡ none
      → SameUpdate row (answered response now row)
  answered-SameUpdate response now row e = record {
    digest = refl;
    created = refl;
    response = λ t h. cc;
  }

  update-answered :
      (id u : ℕ) (response : Text) (now : ℕ) (old r : UpdateRow)
      → find id db.updates ≡ some old
      → old.orka_response ≡ none
      → find u db.updates ≡ some r
      → (r' : UpdateRow) × (find u (modify id (answered response now) db.updates) ≡ some r')
        × SameUpdate r r'
  update-answered id u response now old r present e h = elim (ℕ_discrete id u) [
    | yes p ↦ (
      answered response now r,
      ground (arith, find-modify u id (answered response now) db.updates),
      answered-SameUpdate response now r (ground arith),
    )
    | no p ↦
        (r, ground (arith, find-modify u id (answered response now) db.updates), SameUpdate-refl r)
  ]

insert_update-Extends :
    (id : ℕ) (row : UpdateRow) (db : Db) → Extends db (insert_update id row db).1
unfolding insert_update
insert_update-Extends id row db = elim (Option-cases (find id db.updates)) [
  | inl e ↦ rw (e, insert_update) (Extends-insert_update db id row e)
  | inr (r, e) ↦ rw (e, insert_update) (Extends-refl db)
]

set_response-Extends :
    (id : ℕ) (digest response : Text) (now : ℕ) (db : Db)
    → Extends db (set_response id digest response now db).1
unfolding set_response
set_response-Extends id digest response now db = elim (Option-cases (find id db.updates)) [
  | inl e ↦ rw (e, set_response) (Extends-refl db)
  | inr (r, e) ↦ elim (Option-cases r.orka_response) [
    | inr (old, e') ↦ rw (e, e', set_response) (Extends-refl db)
    | inl e' ↦
        rw (e, e', set_response)
          (if-Extends (r.digest == digest) db
            (ok tt, record db { updates = modify id (answered response now) db.updates })
            (ok tt, db)
            (λ _.
              Extends-updates db (modify id (answered response now) db.updates)
                (λ u row h. update-answered db id u response now r row e e' h))
            (λ _. Extends-refl db))
  ]
]

insert_update-Growing : (id : ℕ) (row : UpdateRow) → Growing (insert_update id row)
insert_update-Growing id row = Growing-intro (insert_update id row) (insert_update-Extends id row)

set_response-Growing :
    (id : ℕ) (digest response : Text) (now : ℕ) → Growing (set_response id digest response now)
set_response-Growing id digest response now =
    Growing-intro (set_response id digest response now)
      (set_response-Extends id digest response now)

admit-Growing :
    (call : Call) (id : ℕ) (digest : Text) (found : Result UpdateRecord)
    → Growing (admit call id digest found)
unfolding admit
admit-Growing call id digest (ok r) a = search keeps_rules
admit-Growing call id digest (err not_found) a = search (keeps_rules, insert_update-Growing)
admit-Growing call id digest (err e) a = search keeps_rules

create_body-Growing : (call : Call) (id : ℕ) (digest : Text) → Growing (create_body call id digest)
unfolding create_body
create_body-Growing call id digest a = search (keeps_rules, admit-Growing)

pub create_update-Growing :
    (call : Call) (u : ℤ) (digest : Text) → Growing (create_update call u digest)
unfolding create_update
create_update-Growing call u digest a = search (keeps_rules, create_body-Growing) depth 8

save_body-Growing :
    (call : Call) (id : ℕ) (digest response : Text) → Growing (save_body call id digest response)
unfolding save_body
save_body-Growing call id digest response a = search (keeps_rules, set_response-Growing) depth 9

pub save_update_response-Growing :
    (call : Call) (u : ℤ) (digest response : Text)
    → Growing (save_update_response call u digest response)
unfolding save_update_response
save_update_response-Growing call u digest response a =
    search (keeps_rules, save_body-Growing) depth 9
