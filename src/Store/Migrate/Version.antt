-- ===== src/Store/Migrate/Version.antt =====
-- internal/store/store.go: the schema that the migrations lead to, and the rows that they keep.
use orka_gateway_telegram.Prelude.{◌≡◌, refl, ap, true, false, List, [], ◌∷◌, ◌++◌, Text, arith}
use orka_gateway_telegram.Store.Table as Rows
use orka_gateway_telegram.Store.Table.{Text-key, find, modify_all}
use orka_gateway_telegram.Store.Db.{DeliveryRow, Db, empty}
use orka_gateway_telegram.Store.Migrate.{
  Table, telegram_updates, deliveries, delivery_idempotency, delivery_aliases, provider_cooldowns,
  File, self_aliases, some_alias, without_retry, exec_statement, exec_statements, current_version,
  apply_migrations, migrate,
}

abbrev no_tables : List Table
no_tables = []

abbrev tables_1 : List Table
tables_1 = deliveries ∷ telegram_updates ∷ []

abbrev tables_2 : List Table
tables_2 = delivery_aliases ∷ delivery_idempotency ∷ tables_1

abbrev tables_3 : List Table
tables_3 = provider_cooldowns ∷ tables_2

abbrev new_file : Db → File
new_file db = record {
  versions = [];
  tables = no_tables;
  has_alias_index = false;
  has_retry_not_before = false;
  db = db;
}

abbrev pub file_1 : Db → File
file_1 db = record {
  versions = 1 ∷ [];
  tables = tables_1;
  has_alias_index = false;
  has_retry_not_before = false;
  db = db;
}

abbrev file_2 : Db → File
file_2 db = record {
  versions = 2 ∷ 1 ∷ [];
  tables = tables_2;
  has_alias_index = true;
  has_retry_not_before = false;
  db = db;
}

-- The current schema, with the given rows.
abbrev pub current : Db → File
current db = record {
  versions = 3 ∷ 2 ∷ 1 ∷ [];
  tables = tables_3;
  has_alias_index = true;
  has_retry_not_before = true;
  db = db;
}

-- A file that is new, or that the adapter has left at one of its versions, and the rows that the
-- current schema keeps of it: from version 1 the updates and the deliveries, each of which gets its
-- own ID as an alias, from version 2 also aliases and idempotency rows, from version 3 all.
pub data Released : File → Db → Type 0 where
  version_0 : (db : Db) → Released (new_file db) empty
  version_1 :
      (db : Db)
      → Released (file_1 db) (record empty {
        updates = db.updates;
        deliveries = modify_all without_retry db.deliveries;
        aliases = self_aliases db.deliveries;
      })
  version_2 :
      (db : Db)
      → Released
          (file_2 db)
          (record db { deliveries = modify_all without_retry db.deliveries; cooldowns = [] })
  version_3 : (db : Db) → Released (current db) db

no_alias : (t : Rows.Table Text DeliveryRow) → some_alias t [] ≡ false
unfolding find
no_alias [] = refl
no_alias ((id, _) ∷ rest) = no_alias rest

append-nil : (xs : Rows.Table Text Text) → (xs ++ []) ≡ xs
append-nil [] = refl
append-nil (x ∷ xs) = ap (λ ys. x ∷ ys) (append-nil xs)

-- A file that is new, or that the adapter left at one of its versions, is migrated to the current
-- schema, with the rows that are kept of it: updates and deliveries stay, a delivery from before
-- version 2 gets its own ID as an alias, and later aliases and idempotency rows stay. A second
-- migration changes nothing.
pub migrate-current :
    (f : File) (kept : Db)
    → Released f kept
    → (migrate true f ≡ (true, current kept)) × (migrate true (current kept) ≡ (true, current kept))
unfolding migrate apply_migrations exec_statements exec_statement current_version modify_all
migrate-current _ _ (version_0 db) = (refl, refl)
migrate-current _ _ (version_1 db) =
    (ground (arith, no_alias db.deliveries, append-nil (self_aliases db.deliveries)), refl)
migrate-current _ _ (version_2 db) = (refl, refl)
migrate-current _ _ (version_3 db) = (refl, refl)
