-- ===== src/Store/Migrate.antt =====
-- internal/store/store.go: the migrations. A statement acts on the tables, the index and the column
-- that it names, and on the rows that it reads or writes.
pub mod Version
use orka_gateway_telegram.Prelude.{
  ℕ, suc, ◌+◌, Bool, true, false, not, ◌&&◌, ◌||◌, Option, none, some, List, [], ◌∷◌, ◌++◌, map,
  Text, ltb, leb, eqb, max, ◌==◌, length, if◌then◌else◌,
}
use orka_gateway_telegram.Store.Table as Rows
use orka_gateway_telegram.Store.Table.{Text-key, find, modify_all}
use orka_gateway_telegram.Store.Db.{DeliveryRow, Db}

pub data Table : Type 0 where
  telegram_updates deliveries delivery_idempotency delivery_aliases provider_cooldowns : Table

pub data Statement : Type 0 where
  create_table : Table → Statement
  create_alias_index alias_deliveries add_retry_not_before : Statement

pub record Migration : Type 0 where
  pub version : ℕ
  pub statements : List Statement

-- A database file: `versions` are the rows of schema_migrations, `tables` the tables that exist, and
-- `db` the rows. Rows of a table that does not exist mean nothing, nor does the field of a column
-- that does not. The checks and foreign keys of a new table are left out: no statement of a
-- migration can violate them.
pub record File : Type 0 where
  pub versions : List ℕ
  pub tables : List Table
  pub has_alias_index : Bool
  pub has_retry_not_before : Bool
  pub db : Db

abbrev pub number : Table → ℕ
number telegram_updates = 1
number deliveries = 2
number delivery_idempotency = 3
number delivery_aliases = 4
number provider_cooldowns = 5

abbrev pub has_table : Table → List Table → Bool
has_table t [] = false
has_table t (x ∷ xs) = eqb (number t) (number x) || has_table t xs

-- An alias that the table has already: the primary key refuses it.
abbrev pub some_alias : Rows.Table Text DeliveryRow → Rows.Table Text Text → Bool
some_alias [] aliases = false
some_alias ((id, _) ∷ rest) aliases =
    elim (find id aliases) [ none ↦ false | some _ ↦ true ] || some_alias rest aliases

-- SELECT delivery_id, delivery_id FROM deliveries
abbrev pub self_aliases : Rows.Table Text DeliveryRow → Rows.Table Text Text
self_aliases [] = []
self_aliases ((id, _) ∷ rest) = (id, id) ∷ self_aliases rest

-- A new table has no row.
abbrev pub emptied : Table → Db → Db
emptied telegram_updates db = record db { updates = [] }
emptied deliveries db = record db { deliveries = [] }
emptied delivery_idempotency db = record db { idempotency = [] }
emptied delivery_aliases db = record db { aliases = [] }
emptied provider_cooldowns db = record db { cooldowns = [] }

-- DEFAULT 0
abbrev pub without_retry : DeliveryRow → DeliveryRow
without_retry row = record row { retry_not_before_ms = 0 }

-- `none` is an error of SQLite.
unfoldable pub exec_statement : Statement → File → Option File
exec_statement (create_table t) f =
    if has_table t f.tables
    then none
    else some (record f { tables = t ∷ f.tables; db = emptied t f.db })
exec_statement create_alias_index f =
    if not (has_table delivery_aliases f.tables) || f.has_alias_index
    then none
    else some (record f { has_alias_index = true })
exec_statement alias_deliveries f =
    if not (has_table delivery_aliases f.tables)
      || not (has_table deliveries f.tables)
      || some_alias f.db.deliveries f.db.aliases
    then none
    else some
        (record f { db = record f.db { aliases = self_aliases f.db.deliveries ++ f.db.aliases } })
exec_statement add_retry_not_before f =
    if not (has_table deliveries f.tables) || f.has_retry_not_before
    then none
    else some (record f {
      has_retry_not_before = true;
      db = record f.db { deliveries = modify_all without_retry f.db.deliveries };
    })

unfoldable pub exec_statements : List Statement → File → Option File
exec_statements [] s = some s
exec_statements (x ∷ xs) s = elim (exec_statement x s) [
  | none ↦ none
  | some s' ↦ exec_statements xs s'
]

abbrev pub migrations : List Migration
migrations =
    record {
      version = 1;
      statements = create_table telegram_updates ∷ create_table deliveries ∷ [];
    }
    ∷ record {
      version = 2;
      statements =
          create_table delivery_idempotency
          ∷ create_table delivery_aliases
          ∷ create_alias_index
          ∷ alias_deliveries
          ∷ [];
    }
    ∷ record {
      version = 3;
      statements = add_retry_not_before ∷ create_table provider_cooldowns ∷ [];
    }
    ∷ []

-- SELECT COALESCE(MAX(version), 0)
unfoldable pub current_version : List ℕ → ℕ
current_version [] = 0
current_version (v ∷ vs) = max v (current_version vs)

unfoldable pub apply_migrations : List Migration → ℕ → File → Option File
apply_migrations [] current s = some s
apply_migrations (m ∷ ms) current s =
    let skipped = apply_migrations ms current s in
    if leb m.version current
    then skipped
    else if not (eqb m.version (current + 1))
    then none
    else elim (exec_statements m.statements s) [
      | none ↦ none
      | some s' ↦ apply_migrations ms m.version (record s' { versions = m.version ∷ s'.versions })
    ]

-- migrate, and the database afterwards: the transaction is rolled back on every error.
-- `sqlite_ok` says whether it begins and commits.
unfoldable pub migrate : Bool → File → Bool × File
migrate sqlite_ok s =
    if not sqlite_ok || ltb (length migrations) (current_version s.versions)
    then (false, s)
    else elim (apply_migrations migrations (current_version s.versions) s) [
      | none ↦ (false, s)
      | some s' ↦ (true, s')
    ]
