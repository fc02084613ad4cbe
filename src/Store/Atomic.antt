-- ===== src/Store/Atomic.antt =====
-- Actions that change nothing when they fail, with a rule for each way to build a method.
use orka_gateway_telegram.Prelude.{
  ◌≡◌, refl, Bool, true, false, if◌then◌else◌, Bool-cases, inl, inr,
}
use orka_gateway_telegram.Store.Types.{StoreError, Result, ok, err, Call}
use orka_gateway_telegram.Store.Db.{Db}
use orka_gateway_telegram.Store.Exec.{Exec, pure, raise, lift, transaction, rolled_back, ◌>>=◌}

abbrev pub Unchanged : {A : Type 0} → Db → Result A × Db → Type 0
Unchanged db (ok a, db') = Unit
Unchanged db (err e, db') = db' ≡ db

pub record Atomic {A : Type 0} (m : Exec A) : Type 0 where
  pub at : (db : Db) → Unchanged db (m db)

module _ {A : Type 0} where
  pub Atomic-pure : (a : A) → Atomic (pure a)
  unfolding pure
  Atomic-pure a = record { at = λ db. tt }

  pub Atomic-raise : (e : StoreError) → Atomic (raise {A = A} e)
  unfolding raise
  Atomic-raise e = record { at = λ db. refl }

  pub Atomic-if : (b : Bool) (m n : Exec A) → Atomic m → Atomic n → Atomic (if b then m else n)
  Atomic-if true m n h k = h
  Atomic-if false m n h k = k

  rolled_back-Unchanged : (db : Db) (r : Result A × Db) → Unchanged db (rolled_back db r)
  rolled_back-Unchanged db (ok a, db') = tt
  rolled_back-Unchanged db (err e, db') = refl

  -- A transaction is atomic, whatever its body does.
  pub Atomic-transaction : (call : Call) (m : Exec A) → Atomic (transaction call m)
  unfolding transaction
  Atomic-transaction call m = record {
    at = λ db. elim (Bool-cases call.sqlite_ok) [
      | inl served ↦ rw served (rolled_back-Unchanged db (m db))
      | inr refused ↦ rw refused refl
    ];
  }

module _ {A B : Type 0} where
  pub Atomic-lift :
      (r : Result A) (f : A → Exec B) → ((a : A) → Atomic (f a)) → Atomic (lift r >>= f)
  unfolding ◌>>=◌ lift
  Atomic-lift (ok a) f h = record { at = (h a).at }
  Atomic-lift (err e) f h = record { at = λ db. refl }

pub ruleset atomic_rules = (Atomic-pure, Atomic-raise, Atomic-if, Atomic-transaction, Atomic-lift)
