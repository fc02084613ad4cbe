-- ===== src/Store/Tests/Migrations.antt =====
-- A migration and the opening of a database, on small inputs.
use orka_gateway_telegram.Prelude.{Text-discrete, ◌≡◌, refl, true, false, some, [], ◌∷◌, bytes}
use orka_gateway_telegram.Text.Space.{trim_space}
use orka_gateway_telegram.Text.Replace.{has_prefix}
use orka_gateway_telegram.Store.Types.{sending}
use orka_gateway_telegram.Store.Table.{modify_all}
use orka_gateway_telegram.Store.Db.{DeliveryRow, Db, empty}
use orka_gateway_telegram.Store.Open.{Opening, open_store, connects, is_database_path, is_wal}
use orka_gateway_telegram.Store.Open.Recovered.{Recovered, open_store-Recovered}
use orka_gateway_telegram.Store.Migrate.{migrate}
use orka_gateway_telegram.Store.Migrate.Version.{
  file_1, current, Released, version_1, migrate-current,
}

abbrev row : DeliveryRow
row = record {
  request_digest = bytes "abc";
  state = sending;
  provider_message_id = [];
  safe_message = [];
  retry_not_before_ms = 0;
  created_at_ms = 1;
  updated_at_ms = 1;
}

abbrev pub sending_db : Db
sending_db = record empty { deliveries = (bytes "d1", row) ∷ [] }

-- The rows that are kept of a file of version 1.
abbrev kept : Db
kept = record sending_db { aliases = (bytes "d1", bytes "d1") ∷ [] }

released : Released (file_1 sending_db) kept
unfolding modify_all
released = version_1 sending_db

migrate-current_example :
    (migrate true (file_1 sending_db) ≡ (true, current kept))
    × (migrate true (current kept) ≡ (true, current kept))
migrate-current_example = migrate-current (file_1 sending_db) kept released

abbrev pub opening : Opening
opening = record {
  absolute = some;
  dir = λ path. bytes ".";
  make_dir = λ path. false;
  opens = λ path. true;
  pings = true;
  journal_mode = some (bytes "WAL");
  migration_ok = true;
  recovery = record { sqlite_ok = true; checked_at = 5; now = 5 };
}

open_store-Recovered_example :
    (after : Db) × (open_store opening (bytes " a.db ") (file_1 sending_db) ≡ (true, current after))
    × Recovered kept after
unfolding is_database_path is_wal connects Text-discrete trim_space has_prefix
open_store-Recovered_example =
    open_store-Recovered opening (bytes " a.db ") (bytes "a.db") (file_1 sending_db) kept released
      refl refl refl refl refl
