-- ===== src/Store/Responses/History.antt =====
-- internal/store: the stored responses in a history, and what SaveUpdateResponse leaves.
use orka_gateway_telegram.Prelude.{
  ℕ, ◌≡◌, refl, sym, subst, ap, ◌∙◌, true, not, some, List, [], ◌∷◌, arith, Text, Option-cases, inl,
  inr, ◌==◌, ==-refl, if◌then◌else◌,
}
use orka_gateway_telegram.Prelude.Int.{ℤ}
use orka_gateway_telegram.Store.Types.{
  UpdateRecord, Call, Result, ok, err, digest_conflict, invalid_transition,
}
use orka_gateway_telegram.Store.Table.{ℕ-key, find, modify, find-modify}
use orka_gateway_telegram.Store.Db.{UpdateRow, Db}
use orka_gateway_telegram.Store.Exec.{Exec, pure, raise, ◌>>◌}
use orka_gateway_telegram.Store.Ensures.{
  Ensures, Post, Post-map, Ensures-pure, Ensures-raise, Ensures-if, Ensures-transaction,
  Ensures-bind, Ensures-lift, Ensures-query,
}
use orka_gateway_telegram.Store.Updates.{
  normalize_orka_response, has_orka_response, is_answered, update_key, update_record,
  get_update_row, set_response, answered, save_body, save_update_response,
}
use orka_gateway_telegram.Store.Responses.{
  Genuine, create_update-Genuine, save_update_response-Genuine,
}
use orka_gateway_telegram.Store.Responses.Deliveries.{
  create_or_begin_delivery-Leaves, update_delivery_not_before-Leaves,
  recover_interrupted_deliveries-Leaves,
}
use orka_gateway_telegram.Store.Normalize.{normalize_digest}
use orka_gateway_telegram.Store.Deliveries.{create_or_begin_delivery}
use orka_gateway_telegram.Store.Completion.{
  update_delivery_not_before, recover_interrupted_deliveries,
}
use orka_gateway_telegram.Store.History.Admission.{Admitted}
use orka_gateway_telegram.Store.History.{Op, begin, update, recover, admit, answer, step, run}

leaves-Genuine :
    {A : Type 0} (m : Exec A) (db : Db)
    → ((m db).1.updates ≡ db.updates)
    → Genuine db
    → Genuine (m db).1
leaves-Genuine m db e g = λ u row h. g u row (ap (find u) (sym e) ∙ h)

pub step-Genuine : (op : Op) (db : Db) → Genuine db → Genuine (step op db)
unfolding step
step-Genuine (begin k d i rd ld claim) db g =
    leaves-Genuine (create_or_begin_delivery k d i rd ld claim) db
      ((create_or_begin_delivery-Leaves db.updates k d i rd ld claim).at db refl) g
step-Genuine (update k d digest state pid message t) db g =
    leaves-Genuine (update_delivery_not_before k d digest state pid message t) db
      ((update_delivery_not_before-Leaves db.updates k d digest state pid message t).at db refl) g
step-Genuine (recover k) db g =
    leaves-Genuine (recover_interrupted_deliveries k) db
      ((recover_interrupted_deliveries-Leaves db.updates k).at db refl) g
step-Genuine (admit k u digest) db g = (create_update-Genuine k u digest).at db g
step-Genuine (answer k u digest response) db g =
    (save_update_response-Genuine k u digest response).at db g

-- A database in which no update has an empty response stays so, whatever calls the store serves.
pub run-Genuine : (ops : List Op) (db : Db) → Genuine db → Genuine (run ops db)
unfolding run
run-Genuine [] db g = g
run-Genuine (op ∷ ops) db g = run-Genuine ops (step op db) (step-Genuine op db g)

-- The update is stored with the digest of the call, and with a response.
pub record Answered (u : ℤ) (digest : Text) (db : Db) : Type 0 where
  pub stored : UpdateRecord
  pub admitted : Admitted u digest stored db
  pub response : Text
  pub saved : stored.orka_response ≡ some response

-- A row with the digest of `row`, and with a response.
record Replied (id : ℕ) (digest : Text) (db : Db) : Type 0 where
  row : UpdateRow
  stored : find id db.updates ≡ some row
  same : row.digest ≡ digest
  response : Text
  saved : row.orka_response ≡ some response

Replied-modify :
    (id : ℕ) (response : Text) (now : ℕ) (row : UpdateRow) (db : Db)
    → find id db.updates ≡ some row
    → Replied id row.digest (record db { updates = modify id (answered response now) db.updates })
Replied-modify id response now row db e = record {
  row = answered response now row;
  stored = ground (arith, find-modify id id (answered response now) db.updates);
  same = refl;
  response = response;
  saved = refl;
}

set_response-Replied :
    (id : ℕ) (response : Text) (now : ℕ) (row : UpdateRow) (db : Db)
    → find id db.updates ≡ some row
    → Replied id row.digest (set_response id row.digest response now db).1
unfolding set_response
set_response-Replied id response now row db e = elim (Option-cases row.orka_response) [
  | inr (old, e') ↦
      rw (e, e', set_response)
        (record { row = row; stored = e; same = refl; response = old; saved = e' })
  | inl e' ↦ rw (e, e', ==-refl row.digest, set_response) (Replied-modify id response now row db e)
]

Post-after : {A : Type 0} (Q : Db → Type 0) (r : Result A × Db) → Q r.1 → Post (λ _ db. Q db) r
Post-after Q (ok a, db) h = h
Post-after Q (err e, db) h = tt

row-Replied :
    (id : ℕ) (row : UpdateRow) (r : UpdateRecord) (db : Db)
    → find id db.updates ≡ some row
    → get_update_row id db ≡ ok r
    → has_orka_response r ≡ true
    → Replied id row.digest db
unfolding get_update_row update_record has_orka_response
row-Replied id row r db e f h = elim (Option-cases row.orka_response) [
  | inr (t, e') ↦ record { row = row; stored = e; same = refl; response = t; saved = e' }
  | inl e' ↦ ground arith
]

module _ (call : Call) (id : ℕ) (response : Text) (row : UpdateRow) where
  abbrev Stored : Db → Type 0
  Stored db = find id db.updates ≡ some row

  abbrev Done : UpdateRecord → Db → Type 0
  Done _ db = Replied id row.digest db

  abbrev Done' : Unit {0} → Db → Type 0
  Done' _ db = Replied id row.digest db

  set_response-Done :
      (r : UpdateRecord)
      → Ensures
          (λ db. Stored db × (get_update_row id db ≡ ok r))
          (set_response id row.digest response call.now)
          Done'
  set_response-Done r = record {
    at = λ db h.
        Post-after (Replied id row.digest) (set_response id row.digest response call.now db)
          (set_response-Replied id response call.now row db h.0);
  }

  abbrev repeated : UpdateRecord → Exec UpdateRecord
  repeated r = if is_answered r response then pure r else raise invalid_transition

  abbrev written : UpdateRecord → Exec UpdateRecord
  written r = do
    set_response id row.digest response call.now
    pure (record r { orka_response = some response; updated_at = call.now })

  abbrev Read : UpdateRecord → Db → Type 0
  Read r db = Stored db × (get_update_row id db ≡ ok r)

  repeated-Done :
      (r : UpdateRecord) → has_orka_response r ≡ true → Ensures (Read r) (repeated r) Done
  repeated-Done r has =
      Ensures-if (Read r) Done (is_answered r response) (pure r) (raise invalid_transition)
        (λ _. Ensures-pure (Read r) Done r (λ db h. row-Replied id row r db h.0 h.1 has))
        (λ _. Ensures-raise (Read r) Done invalid_transition)

  written-Done : (r : UpdateRecord) → Ensures (Read r) (written r) Done
  written-Done r =
      Ensures-bind (Read r) Done' Done (set_response id row.digest response call.now) _
        (set_response-Done r)
        (λ _.
          Ensures-pure _ Done (record r { orka_response = some response; updated_at = call.now })
            (λ db h. h))

  save_body-Replied : Ensures Stored (save_body call id row.digest response) Done
  unfolding save_body
  save_body-Replied = Ensures-query Stored Done (get_update_row id) _ (λ r.
      Ensures-if (Read r) Done (not (r.digest == row.digest)) (raise digest_conflict) _
        (λ _. Ensures-raise (Read r) Done digest_conflict)
        (λ _.
          Ensures-if (Read r) Done (has_orka_response r) (repeated r) (written r) (repeated-Done r)
            (λ _. written-Done r)))

Replied-Answered :
    (u : ℤ) (digest : Text) (id : ℕ) (row : UpdateRow) (db : Db)
    → update_key u ≡ ok id
    → normalize_digest digest ≡ ok row.digest
    → Replied id row.digest db
    → Answered u digest db
unfolding update_record
Replied-Answered u digest id row db key normal h = record {
  stored = update_record id h.row;
  admitted = record {
    id = id;
    key = key;
    row = h.row;
    stored = h.stored;
    normalized = rw h.same normal;
    reads = refl;
  };
  response = h.response;
  saved = h.saved;
}

module _ (call : Call) (u : ℤ) (digest response : Text) (r : UpdateRecord) where
  abbrev Kept : UpdateRecord → Db → Type 0
  Kept _ db = Answered u digest db

  save_body-Answered :
      (id : ℕ) (d t : Text)
      → update_key u ≡ ok id
      → normalize_digest digest ≡ ok d
      → Ensures (Admitted u digest r) (save_body call id d t) Kept
  save_body-Answered id d t key normal = record {
    at = λ db a.
        let same : a.id ≡ id = ground (arith, a.key) in
        let same' : a.row.digest ≡ d = ground (arith, a.normalized) in
        subst (λ i. Post Kept (save_body call i d t db)) same
          (subst (λ d. Post Kept (save_body call a.id d t db)) same'
            (Post-map _ Kept _
              (λ _ db' h. Replied-Answered u digest a.id a.row db' a.key a.normalized h)
              ((save_body-Replied call a.id t a.row).at db a.stored)));
  }

  -- When SaveUpdateResponse returns a record for an admitted update, the update has a response.
  pub save_update_response-Answered :
      Ensures (Admitted u digest r) (save_update_response call u digest response) Kept
  unfolding save_update_response
  save_update_response-Answered =
      Ensures-lift (Admitted u digest r) Kept (update_key u) _ (λ id key.
        Ensures-lift (Admitted u digest r) Kept (normalize_digest digest) _ (λ d normal.
          Ensures-lift (Admitted u digest r) Kept (normalize_orka_response response) _ (λ t _.
            Ensures-transaction (Admitted u digest r) Kept call (save_body call id d t)
              (save_body-Answered id d t key normal))))
