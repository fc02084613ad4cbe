-- ===== src/Store/Ensures.antt =====
-- What a successful action establishes, with a rule for each way to build an action.
use orka_gateway_telegram.Prelude.{
  ◌≡◌, refl, Bool, true, false, if◌then◌else◌, Bool-cases, inl, inr,
}
use orka_gateway_telegram.Store.Types.{StoreError, Result, ok, err, Call}
use orka_gateway_telegram.Store.Db.{Db}
use orka_gateway_telegram.Store.Exec.{
  Exec, pure, raise, lift, query, transaction, rolled_back, ◌>>=◌, continue,
}

-- A failure promises nothing.
abbrev pub Post : {A : Type 0} → (A → Db → Type 0) → Result A × Db → Type 0
Post Q (ok a, db) = Q a db
Post Q (err e, db) = Unit

pub Post-map :
    {A : Type 0} (Q R : A → Db → Type 0) (r : Result A × Db)
    → ((a : A) (db : Db) → Q a db → R a db)
    → Post Q r
    → Post R r
Post-map Q R (ok a, db) f h = f a db h
Post-map Q R (err e, db) f h = tt

pub record Ensures {A : Type 0} (P : Db → Type 0) (m : Exec A) (Q : A → Db → Type 0) : Type 0 where
  pub at : (db : Db) → P db → Post Q (m db)

module _ {A : Type 0} (P : Db → Type 0) (Q : A → Db → Type 0) where
  pub Ensures-pure : (a : A) → ((db : Db) → P db → Q a db) → Ensures P (pure a) Q
  unfolding pure
  Ensures-pure a h = record { at = h }

  pub Ensures-raise : (e : StoreError) → Ensures P (raise e) Q
  unfolding raise
  Ensures-raise e = record { at = λ db h. tt }

  pub Ensures-if :
      (b : Bool) (m n : Exec A)
      → (b ≡ true → Ensures P m Q)
      → (b ≡ false → Ensures P n Q)
      → Ensures P (if b then m else n) Q
  Ensures-if true m n km kn = km refl
  Ensures-if false m n km kn = kn refl

  pub Ensures-given : (X : Type 0) (m : Exec A) → (X → Ensures P m Q) → Ensures (λ db. P db × X) m Q
  Ensures-given X m h = record { at = λ db k. (h k.1).at db k.0 }

  pub Ensures-weaken :
      (P' : Db → Type 0) (m : Exec A) → ((db : Db) → P' db → P db) → Ensures P m Q → Ensures P' m Q
  Ensures-weaken P' m h k = record { at = λ db p. k.at db (h db p) }

  pub Ensures-fact :
      (X : Type 0) (m : Exec A) → ((db : Db) → P db → X) → (X → Ensures P m Q) → Ensures P m Q
  Ensures-fact X m f h = record { at = λ db p. (h (f db p)).at db p }

  Post-rolled_back : (db : Db) (r : Result A × Db) → Post Q r → Post Q (rolled_back db r)
  Post-rolled_back db (ok a, db') h = h
  Post-rolled_back db (err e, db') h = tt

  pub Ensures-transaction :
      (call : Call) (m : Exec A) → Ensures P m Q → Ensures P (transaction call m) Q
  unfolding transaction
  Ensures-transaction call m km = record {
    at = λ db h. elim (Bool-cases call.sqlite_ok) [
      | inl served ↦ rw served (Post-rolled_back db (m db) (km.at db h))
      | inr refused ↦ rw refused tt
    ];
  }

module _ {A B : Type 0} (P : Db → Type 0) (Q : A → Db → Type 0) (R : B → Db → Type 0) where
  Post-continue :
      (f : A → Exec B) (r : Result A × Db)
      → Post Q r
      → ((a : A) → Ensures (Q a) (f a) R)
      → Post R (continue f r)
  Post-continue f (ok a, db) h kf = (kf a).at db h
  Post-continue f (err e, db) h kf = tt

  pub Ensures-bind :
      (m : Exec A) (f : A → Exec B)
      → Ensures P m Q
      → ((a : A) → Ensures (Q a) (f a) R)
      → Ensures P (m >>= f) R
  unfolding ◌>>=◌
  Ensures-bind m f km kf = record { at = λ db h. Post-continue f (m db) (km.at db h) kf }

module _ {A B : Type 0} (P : Db → Type 0) (R : B → Db → Type 0) where
  -- The result of the argument checks, before the database is read.
  pub Ensures-lift :
      (r : Result A) (f : A → Exec B)
      → ((a : A) → r ≡ ok a → Ensures P (f a) R)
      → Ensures P (lift r >>= f) R
  unfolding ◌>>=◌ lift
  Ensures-lift (ok a) f kf = record { at = (kf a refl).at }
  Ensures-lift (err e) f kf = record { at = λ db h. tt }

  query-Post :
      (db : Db) (r : Result A) (f : A → Exec B)
      → ((a : A) → r ≡ ok a → Post R (f a db))
      → Post R (continue f (r, db))
  query-Post db (ok a) f kf = kf a refl
  query-Post db (err e) f kf = tt

  pub Ensures-query :
      (q : Db → Result A) (f : A → Exec B)
      → ((a : A) → Ensures (λ db. P db × (q db ≡ ok a)) (f a) R)
      → Ensures P (query q >>= f) R
  unfolding ◌>>=◌ query
  Ensures-query q f kf = record { at = λ db h. query-Post db (q db) f (λ a e. (kf a).at db (h, e)) }
