-- ===== src/Store/Open/Recovered.antt =====
-- internal/store/store.go, OpenContext: the database of a store that was opened.
use orka_gateway_telegram.Prelude.{
  ℕ, ◌≡◌, ◌≢◌, refl, subst, ap, ◌∙◌, Bool, true, false, Option, none, some, Text, arith, Bool-cases,
  Option-cases, inl, inr, if◌then◌else◌, ◌&&◌,
}
use orka_gateway_telegram.Text.Space.{trim_space}
use orka_gateway_telegram.Store.Types.{Call, sending, unknown, Result, ok, err}
use orka_gateway_telegram.Store.Table.{Text-key, find, modify_all, find-modify_all}
use orka_gateway_telegram.Store.Db.{DeliveryRow, Db}
use orka_gateway_telegram.Store.Completion.{interrupted, recover_interrupted_deliveries}
use orka_gateway_telegram.Store.Migrate.{File, deliveries, has_table, migrate}
use orka_gateway_telegram.Store.Migrate.Version.{current, Released, migrate-current}
use orka_gateway_telegram.Store.Open.{
  Opening, connects, is_database_path, recovered, recover_file, migrated, located, open_context,
  open_store,
}

-- No delivery is being sent.
abbrev pub Idle : Db → Type 0
Idle db = (d : Text) (row : DeliveryRow) → find d db.deliveries ≡ some row → row.state ≢ sending

interrupted-ne-sending : (now : ℕ) (row : DeliveryRow) → (interrupted now row).state ≢ sending
unfolding interrupted
interrupted-ne-sending now row h = ground arith

recover-Idle :
    (call : Call) (db : Db)
    → (recover_interrupted_deliveries call db).0 ≡ ok tt
    → Idle (recover_interrupted_deliveries call db).1
unfolding recover_interrupted_deliveries
recover-Idle call db h d row e s = elim (Bool-cases call.sqlite_ok) [
  | inr refused ↦ ground arith
  | inl served ↦ elim (Option-cases (find d db.deliveries)) [
    | inl none' ↦ ground (arith, find-modify_all d (interrupted call.now) db.deliveries)
    | inr (old, e') ↦
        let same : interrupted call.now old ≡ row =
          ground (arith, find-modify_all d (interrupted call.now) db.deliveries) in
        interrupted-ne-sending call.now old (ap (λ r. r.state) same ∙ s)
  ]
]

-- A store that was opened.
abbrev Ready : Bool × File → Type 0
Ready (opened, f) = opened ≡ true → Idle f.db

Ready-if : (c : Bool) (x y : Bool × File) → Ready x → Ready y → Ready (if c then x else y)
Ready-if true x y h k = h
Ready-if false x y h k = k

recovered-Ready :
    (f : File) (r : Result (Unit {0}) × Db) → (r.0 ≡ ok tt → Idle r.1) → Ready (recovered f r)
recovered-Ready f (ok tt, db) h = λ e. h refl
recovered-Ready f (err _, db) h = λ e. cc

migrated-Ready : (call : Call) (m : Bool × File) → Ready (migrated call m)
unfolding recover_file
migrated-Ready call (false, f) = λ e. cc
migrated-Ready call (true, f) =
    Ready-if (has_table deliveries f.tables && f.has_retry_not_before) _ _
      (recovered-Ready f (recover_interrupted_deliveries call f.db) (recover-Idle call f.db))
      (λ e. cc)

located-Ready : (o : Opening) (f : File) (path : Option Text) → Ready (located o f path)
located-Ready o f none = λ e. cc
located-Ready o f (some path) =
    Ready-if (connects o path) _ _ (migrated-Ready o.recovery (migrate o.migration_ok f)) (λ e. cc)

-- When Open returns a store, no delivery in its file is being sent.
pub open_store-Idle :
    (o : Opening) (path : Text) (f : File)
    → (open_store o path f).0 ≡ true
    → Idle (open_store o path f).1.db
unfolding open_store open_context
open_store-Idle o path f =
    Ready-if (is_database_path (trim_space path)) _ _
      (located-Ready o f (o.absolute (trim_space path))) (λ e. cc)

-- What the recovery leaves of the rows: a delivery that was being sent is unknown, and all else is as
-- it was.
pub record Recovered (before after : Db) : Type 0 where
  pub idle : Idle after
  pub interrupted_rows :
      (d : Text) (row : DeliveryRow)
      → find d before.deliveries ≡ some row
      → row.state ≡ sending
      → (row' : DeliveryRow) × (find d after.deliveries ≡ some row') × (row'.state ≡ unknown)
  pub other_rows :
      (d : Text) (row : DeliveryRow)
      → find d before.deliveries ≡ some row
      → row.state ≢ sending
      → find d after.deliveries ≡ some row
  pub no_new_rows : (d : Text) → find d before.deliveries ≡ none → find d after.deliveries ≡ none
  pub same_updates : after.updates ≡ before.updates
  pub same_idempotency : after.idempotency ≡ before.idempotency
  pub same_aliases : after.aliases ≡ before.aliases
  pub same_cooldowns : after.cooldowns ≡ before.cooldowns

interrupted-sending :
    (now : ℕ) (row : DeliveryRow) → row.state ≡ sending → (interrupted now row).state ≡ unknown
unfolding interrupted
interrupted-sending now row h = ground arith

interrupted-other : (now : ℕ) (row : DeliveryRow) → row.state ≢ sending → interrupted now row ≡ row
unfolding interrupted
interrupted-other now row h = ground arith

recover-Recovered :
    (call : Call) (db : Db)
    → call.sqlite_ok ≡ true
    → (after : Db) × (recover_interrupted_deliveries call db ≡ (ok tt, after)) × Recovered db after
unfolding recover_interrupted_deliveries
recover-Recovered call db served =
    let after = record db { deliveries = modify_all (interrupted call.now) db.deliveries } in
    let done : recover_interrupted_deliveries call db ≡ (ok tt, after) = ground arith in
    (
      after,
      done,
      record {
        idle = subst Idle (ap (λ x. x.1) done) (recover-Idle call db (ap (λ x. x.0) done));
        interrupted_rows = λ d row h s. (
          interrupted call.now row,
          ground (arith, h, find-modify_all d (interrupted call.now) db.deliveries),
          interrupted-sending call.now row s,
        );
        other_rows = λ d row h s.
            let same = interrupted-other call.now row s in
            ground (arith, h, same, find-modify_all d (interrupted call.now) db.deliveries);
        no_new_rows =
            λ d h. ground (arith, h, find-modify_all d (interrupted call.now) db.deliveries);
        same_updates = refl;
        same_idempotency = refl;
        same_aliases = refl;
        same_cooldowns = refl;
      },
    )

-- Open returns a store, if the path is one of a file that the file system and SQLite serve, and the
-- file is new or one that the adapter left at one of its versions. The file then has the current
-- schema, and the rows that are kept of it, of which the deliveries that were being sent are unknown
-- and the others are unchanged.
pub open_store-Recovered :
    (o : Opening) (path absolute : Text) (f : File) (kept : Db)
    → Released f kept
    → is_database_path (trim_space path) ≡ true
    → o.absolute (trim_space path) ≡ some absolute
    → connects o absolute ≡ true
    → o.migration_ok ≡ true
    → o.recovery.sqlite_ok ≡ true
    → (after : Db) × (open_store o path f ≡ (true, current after)) × Recovered kept after
unfolding open_store open_context recover_file
open_store-Recovered o path absolute f kept released valid located' connected ok' served =
    let (after, done, r) = recover-Recovered o.recovery kept served in
    let m = (migrate-current f kept released).0 in
    (after, rw (valid, located', connected, ok', m, done) refl, r)
