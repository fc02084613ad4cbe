-- ===== src/Store/Keeps.antt =====
-- Predicates on the database that an action keeps, with a rule for each way to build an action.
use orka_gateway_telegram.Prelude.{Bool, true, false, if◌then◌else◌, Bool-cases, inl, inr}
use orka_gateway_telegram.Store.Types.{StoreError, Result, ok, err, Call}
use orka_gateway_telegram.Store.Db.{Db}
use orka_gateway_telegram.Store.Exec.{
  Exec, pure, raise, lift, query, transaction, rolled_back, ◌>>=◌, continue,
}

-- `P` holds after the action, whether it succeeds or fails.
pub record Keeps {A : Type 0} (P : Db → Type 0) (m : Exec A) : Type 0 where
  pub at : (db : Db) → P db → P (m db).1

rolled_back-keeps :
    {A : Type 0} (P : Db → Type 0) (db : Db) (r : Result A × Db)
    → P db
    → P r.1
    → P (rolled_back db r).1
rolled_back-keeps P db (ok a, db') h h' = h'
rolled_back-keeps P db (err e, db') h h' = h

continue-keeps :
    {A B : Type 0} (P : Db → Type 0) (f : A → Exec B) (r : Result A × Db)
    → P r.1
    → ((a : A) → Keeps P (f a))
    → P (continue f r).1
continue-keeps P f (ok a, db) h kf = (kf a).at db h
continue-keeps P f (err e, db) h kf = h

module _ {A : Type 0} {P : Db → Type 0} where
  pub Keeps-pure : (a : A) → Keeps P (pure a)
  unfolding pure
  Keeps-pure a = record { at = λ db h. h }

  pub Keeps-raise : (e : StoreError) → Keeps P (raise {A = A} e)
  unfolding raise
  Keeps-raise e = record { at = λ db h. h }

  pub Keeps-lift : (r : Result A) → Keeps P (lift r)
  unfolding lift
  Keeps-lift r = record { at = λ db h. h }

  pub Keeps-query : (q : Db → Result A) → Keeps P (query q)
  unfolding query
  Keeps-query q = record { at = λ db h. h }

  pub Keeps-if : (b : Bool) (m n : Exec A) → Keeps P m → Keeps P n → Keeps P (if b then m else n)
  Keeps-if true m n km kn = km
  Keeps-if false m n km kn = kn

  pub Keeps-transaction : (call : Call) (m : Exec A) → Keeps P m → Keeps P (transaction call m)
  unfolding transaction
  Keeps-transaction call m km = record {
    at = λ db h. elim (Bool-cases call.sqlite_ok) [
      | inl served ↦ rw served (rolled_back-keeps P db (m db) h (km.at db h))
      | inr refused ↦ rw refused h
    ];
  }

module _ {A B : Type 0} {P : Db → Type 0} where
  pub Keeps-bind :
      (m : Exec A) (f : A → Exec B) → Keeps P m → ((a : A) → Keeps P (f a)) → Keeps P (m >>= f)
  unfolding ◌>>=◌
  Keeps-bind m f km kf = record { at = λ db h. continue-keeps P f (m db) (km.at db h) kf }

pub ruleset keeps_rules =
    (Keeps-pure, Keeps-raise, Keeps-lift, Keeps-query, Keeps-if, Keeps-transaction, Keeps-bind)
