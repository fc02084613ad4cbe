-- ===== src/Store/History/Admission.antt =====
-- internal/store/updates.go, CreateUpdate: its calls in a history.
use orka_gateway_telegram.Prelude.{
  ℕ, ◌≡◌, refl, sym, ◌∙◌, Bool, true, false, not, none, some, List, Text, ◌==◌, inl, inr, arith,
  Bool-cases, Option-cases, subst,
}
use orka_gateway_telegram.Prelude.Int.{ℤ}
use orka_gateway_telegram.Store.Types.{not_found, ok, err, UpdateRecord, Call}
use orka_gateway_telegram.Store.Table.{ℕ-key, find, find-insert}
use orka_gateway_telegram.Store.Db.{UpdateRow, Db}
use orka_gateway_telegram.Store.Exec.{pure, raise, lift, query, transaction, ◌>>=◌}
use orka_gateway_telegram.Store.Ensures.{
  Ensures, Post, Ensures-pure, Ensures-transaction, Ensures-bind, Ensures-lift,
}
use orka_gateway_telegram.Store.Normalize.{normalize_digest}
use orka_gateway_telegram.Store.Updates.{
  update_key, update_record, get_update_row, insert_update, admit, create_body, create_update,
}
use orka_gateway_telegram.Store.History.{Op, run}
use orka_gateway_telegram.Store.History.Promises.{run-Extends}

-- The record `r` is the stored one of the update, with the digest of the call.
pub record Admitted (u : ℤ) (digest : Text) (r : UpdateRecord) (db : Db) : Type 0 where
  pub id : ℕ
  pub key : update_key u ≡ ok id
  pub row : UpdateRow
  pub stored : find id db.updates ≡ some row
  pub normalized : normalize_digest digest ≡ ok row.digest
  pub reads : r ≡ update_record id row

row-missing : (id : ℕ) (db : Db) → find id db.updates ≡ none → get_update_row id db ≡ err not_found
unfolding get_update_row
row-missing id db e = ground arith

pub row-found :
    (id : ℕ) (db : Db) (row : UpdateRow)
    → find id db.updates ≡ some row
    → get_update_row id db ≡ ok (update_record id row)
unfolding get_update_row
row-found id db row e = ground arith

module _ (u : ℤ) (digest : Text) where
  abbrev pub Holds : UpdateRecord × Bool → Db → Type 0
  Holds p db = Admitted u digest p.0 db

  module _ (id : ℕ) (d : Text) (key : update_key u ≡ ok id)
      (normal : normalize_digest digest ≡ ok d) where
    found-Admitted :
        (call : Call) (db : Db) (row : UpdateRow)
        → find id db.updates ≡ some row
        → Post Holds (admit call id d (ok (update_record id row)) db)
    unfolding admit update_record raise pure
    found-Admitted call db row e = elim (Bool-cases (not (row.digest == d))) [
      | inl other ↦ rw other tt
      | inr same ↦
          let p : d ≡ row.digest = ground arith in
          rw same (record {
            id = id;
            key = key;
            row = row;
            stored = e;
            normalized = normal ∙ rw p refl;
            reads = refl;
          })
    ]

    abbrev Missing : Db → Type 0
    Missing db = find id db.updates ≡ none

    insert_update-stored :
        (row : UpdateRow)
        → Ensures Missing (insert_update id row) (λ _ db. find id db.updates ≡ some row)
    unfolding insert_update
    insert_update-stored row = record {
      at = λ db h. ground (arith, find-insert id id row db.updates);
    }

    abbrev admitted_row : Call → UpdateRow
    admitted_row call = record {
      digest = d;
      orka_response = none;
      created_at_ms = call.now;
      updated_at_ms = call.now;
    }

    new-Admitted : (call : Call) → Ensures Missing (admit call id d (err not_found)) Holds
    unfolding admit update_record
    new-Admitted call =
        Ensures-bind Missing (λ _ db. find id db.updates ≡ some (admitted_row call)) Holds _ _
          (insert_update-stored (admitted_row call))
          (λ _. Ensures-pure _ Holds _ (λ db e. record {
            id = id;
            key = key;
            row = admitted_row call;
            stored = e;
            normalized = normal;
            reads = refl;
          }))

    create_body-Admitted : (call : Call) → Ensures (λ db. Unit {0}) (create_body call id d) Holds
    unfolding create_body query ◌>>=◌
    create_body-Admitted call = record {
      at = λ db h. elim (Option-cases (find id db.updates)) [
        | inl e ↦
            subst (λ x. Post Holds (admit call id d x db)) (sym (row-missing id db e))
              ((new-Admitted call).at db e)
        | inr (row, e) ↦
            subst (λ x. Post Holds (admit call id d x db)) (sym (row-found id db row e))
              (found-Admitted call db row e)
      ];
    }

  pub create_update-Admitted :
      (call : Call) → Ensures (λ db. Unit {0}) (create_update call u digest) Holds
  unfolding create_update
  create_update-Admitted call = Ensures-lift _ Holds (update_key u) _ (λ id key.
      Ensures-lift _ Holds (normalize_digest digest) _ (λ d normal.
        Ensures-transaction _ Holds call _ (create_body-Admitted id d key normal call)))

  -- A repeated call, where the stored row has the digest of the call.
  pub create_update-repeat :
      (call : Call) (id : ℕ) (row : UpdateRow) (db : Db)
      → call.sqlite_ok ≡ true
      → update_key u ≡ ok id
      → normalize_digest digest ≡ ok row.digest
      → find id db.updates ≡ some row
      → create_update call u digest db ≡ (ok (update_record id row, false), db)
  unfolding create_update create_body admit query pure raise lift transaction ◌>>=◌ update_record
  create_update-repeat call id row db served key normal e =
      ground (arith, key, normal, served, row-found id db row e)

  -- Later calls keep what a later record of the same update shows.
  pub Admitted-run :
      (r : UpdateRecord) (db : Db) (ops : List Op)
      → Admitted u digest r db
      → (r' : UpdateRecord) × Admitted u digest r' (run ops db)
        × (r'.created_at ≡ r.created_at)
        × ((t : Text) → r.orka_response ≡ some t → r'.orka_response ≡ some t)
  unfolding update_record
  Admitted-run r db ops h =
      let (row', stored, same) = (run-Extends ops db).update h.id h.row h.stored in
      (
        update_record h.id row',
        record {
          id = h.id;
          key = h.key;
          row = row';
          stored = stored;
          normalized = rw (same.digest) h.normalized;
          reads = refl;
        },
        ground (arith, h.reads, same.created),
        λ t e. same.response t (ground (arith, h.reads)),
      )

-- Once CreateUpdate has admitted an update, a repeated call with the same digest, which SQLite
-- serves, is not told that it inserted the record and changes nothing, whatever calls the store
-- served in between. The record it is given is the stored one, with the stored response; it has the
-- creation time of the first call's record, and its response if that had one.
pub create_update-again :
    (call again : Call) (u : ℤ) (digest : Text) (db after : Db) (r : UpdateRecord) (created : Bool)
    (ops : List Op)
    → create_update call u digest db ≡ (ok (r, created), after)
    → again.sqlite_ok ≡ true
    → (r' : UpdateRecord) × (create_update again u digest (run ops after)
        ≡ (ok (r', false), run ops after))
      × Admitted u digest r' (run ops after)
      × (r'.created_at ≡ r.created_at)
      × ((t : Text) → r.orka_response ≡ some t → r'.orka_response ≡ some t)
create_update-again call again u digest db after r created ops e served =
    let admitted : Admitted u digest r after =
      subst (Post (Holds u digest)) e ((create_update-Admitted u digest call).at db tt) in
    let (r', h, same, response) = Admitted-run u digest r after ops admitted in
    (
      r',
      rw (h.reads) (
          create_update-repeat u digest again h.id h.row (run ops after) served h.key h.normalized
            h.stored),
      h,
      same,
      response,
    )
