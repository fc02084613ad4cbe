-- ===== src/Store/Open.antt =====
-- internal/store/store.go: OpenContext, from the path to the recovered database. What the file
-- system and SQLite's connection do is a parameter.
pub mod Recovered
use orka_gateway_telegram.Prelude.{
  Bool, true, false, not, ◌&&◌, ◌||◌, Option, none, some, [], ◌∷◌, map, Text, bytes, ◌==◌,
  if◌then◌else◌,
}
use orka_gateway_telegram.Text.Space.{trim_space}
use orka_gateway_telegram.Text.Replace.{has_prefix}
use orka_gateway_telegram.Protocol.Validate.{lower}
use orka_gateway_telegram.Store.Types.{Call, Result, ok, err}
use orka_gateway_telegram.Store.Db.{Db}
use orka_gateway_telegram.Store.Migrate.{File, deliveries, has_table, migrate}
use orka_gateway_telegram.Store.Completion.{recover_interrupted_deliveries}

-- `absolute` is filepath.Abs of filepath.Clean, `journal_mode` what the pragma answers.
pub record Opening : Type 0 where
  pub absolute : Text → Option Text
  pub dir : Text → Text
  pub make_dir : Text → Bool
  pub opens : Text → Bool
  pub pings : Bool
  pub journal_mode : Option Text
  pub migration_ok : Bool
  pub recovery : Call

unfoldable pub is_database_path : Text → Bool
is_database_path path =
    not (path == []) && not (path == bytes ":memory:") && not (has_prefix (bytes "file:") path)

unfoldable pub is_wal : Option Text → Bool
is_wal none = false
is_wal (some mode) = map lower mode == bytes "wal"

-- Whether the store was opened, and its file afterwards.
abbrev pub recovered : File → Result (Unit {0}) × Db → Bool × File
recovered f (ok _, db) = (true, record f { db = db })
recovered f (err _, db) = (false, record f { db = db })

-- The recovery is one statement on deliveries, which names the column of version 3.
unfoldable pub recover_file : Call → File → Bool × File
recover_file call f =
    if has_table deliveries f.tables && f.has_retry_not_before
    then recovered f (recover_interrupted_deliveries call f.db)
    else (false, f)

abbrev pub migrated : Call → Bool × File → Bool × File
migrated call (false, f) = (false, f)
migrated call (true, f) = recover_file call f

-- The directory is made unless it is the current one.
unfoldable pub connects : Opening → Text → Bool
connects o path =
    (o.dir path == bytes "." || o.make_dir (o.dir path))
    && o.opens path
    && o.pings
    && is_wal o.journal_mode

abbrev pub located : Opening → File → Option Text → Bool × File
located o f none = (false, f)
located o f (some path) =
    if connects o path then migrated o.recovery (migrate o.migration_ok f) else (false, f)

-- OpenContext, with a context or with nil.
unfoldable pub open_context : (has_context : Bool) → Opening → Text → File → Bool × File
open_context has_context o path f =
    if not has_context
    then (false, f)
    else if is_database_path (trim_space path)
    then located o f (o.absolute (trim_space path))
    else (false, f)

-- Open
unfoldable pub open_store : Opening → Text → File → Bool × File
open_store o path f = open_context true o path f

-- Ping, over whether the store is ready, and what SELECT 1 gives.
unfoldable pub ping : (ready : Bool) → Option Bool → Bool
ping ready none = false
ping ready (some is_one) = ready && is_one
