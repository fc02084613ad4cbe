-- ===== src/Store/Exec.antt =====
-- Code that reads and writes the database and may fail, and SQL transactions.
use orka_gateway_telegram.Prelude.{if◌then◌else◌}
use orka_gateway_telegram.Store.Types.{StoreError, failure, Result, ok, err, Call}
use orka_gateway_telegram.Store.Db.{Db}

abbrev pub Exec : Type 0 → Type 0
Exec A = Db → Result A × Db

module _ {A : Type 0} where
  unfoldable pub pure : A → Exec A
  pure a db = (ok a, db)

  unfoldable pub raise : StoreError → Exec A
  raise e db = (err e, db)

  unfoldable pub lift : Result A → Exec A
  lift r db = (r, db)

  unfoldable pub query : (Db → Result A) → Exec A
  query q db = (q db, db)

  abbrev pub rolled_back : Db → Result A × Db → Result A × Db
  rolled_back db (ok a, db') = (ok a, db')
  rolled_back db (err e, db') = (err e, db)

  -- BeginTx, the body, and Commit; the deferred Rollback undoes the body on every error.
  unfoldable pub transaction : Call → Exec A → Exec A
  transaction call body db = if call.sqlite_ok then rolled_back db (body db) else (err failure, db)

module _ {A B : Type 0} where
  abbrev pub continue : (A → Exec B) → Result A × Db → Result B × Db
  continue f (ok a, db) = f a db
  continue f (err e, db) = (err e, db)

  infixl 5 ◌>>=◌
  unfoldable pub ◌>>=◌ : Exec A → (A → Exec B) → Exec B
  ◌>>=◌ m f db = continue f (m db)

infixl 5 ◌>>◌
abbrev pub ◌>>◌ : {B : Type 0} → Exec (Unit {0}) → Exec B → Exec B
m >> k = m >>= λ _. k
