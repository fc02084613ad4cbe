-- ===== src/Store/Lifecycle.antt =====
-- internal/store: the life of one delivery as a machine, and code that makes a move of it.
pub mod Operations
pub mod Refined
use orka_gateway_telegram.Prelude.{
  ◌≡◌, refl, sym, ap, subst, Bool, true, false, none, some, Option, Text, Text-discrete, arith,
  ◌==◌, ◌&&◌, if◌then◌else◌, Bool-cases, Option-cases, inl, inr,
}
use orka_gateway_telegram.Store.Types.{
  DeliveryState, sending, retryable, unknown, same_state, Result, ok, err, Call,
}
use orka_gateway_telegram.Store.Table.{Text-key, find, insert, modify, find-modify, find-insert}
use orka_gateway_telegram.Store.Db.{DeliveryRow, Db}
use orka_gateway_telegram.Store.Exec.{
  Exec, pure, raise, lift, query, transaction, rolled_back, ◌>>=◌, continue,
}
use orka_gateway_telegram.Store.Keeps.{Keeps}
use orka_gateway_telegram.Store.Reflects.{Deliveries}
use orka_gateway_telegram.Store.Statements.{insert_delivery, update_where}

-- What happens to a delivery: a claim, a result, a recovery, or a call that is not about deliveries.
pub data Event : Type 0 where
  begins recovers other_call : Event
  finishes : DeliveryState → Event

abbrev pub Phase : Type 0
Phase = Option DeliveryState

-- The moves of a delivery, from no record on.
pub data Move : Event → Phase → Phase → Type 0 where
  stays : (e : Event) (p : Phase) → Move e p p
  claimed : Move begins none (some sending)
  waits : Move begins none (some retryable)
  retried : Move begins (some retryable) (some sending)
  lost : Move begins (some sending) (some unknown)
  finished : (s : DeliveryState) → Move (finishes s) (some sending) (some s)
  cut_off : Move recovers (some sending) (some unknown)

abbrev pub state_of : Option DeliveryRow → Phase
state_of none = none
state_of (some row) = some row.state

abbrev pub phase : Text → Deliveries → Phase
phase d t = state_of (find d t)

module _ (d : Text) (e : Event) where
  -- The action makes a move of the delivery `d`, or leaves it.
  pub record Moves {A : Type 0} (m : Exec A) : Type 0 where
    pub at : (db : Db) → Move e (phase d db.deliveries) (phase d (m db).1.deliveries)

  module _ {A : Type 0} where
    pub Moves-pure : (a : A) → Moves (pure a)
    unfolding pure
    Moves-pure a = record { at = λ db. stays e _ }

    pub Moves-raise : (x : _) → Moves (raise {A = A} x)
    unfolding raise
    Moves-raise x = record { at = λ db. stays e _ }

    -- An action that leaves the deliveries makes no move.
    pub Moves-of : (m : Exec A) → ((t : Deliveries) → Keeps (λ db. db.deliveries ≡ t) m) → Moves m
    Moves-of m k = record {
      at = λ db. rw ((k db.deliveries).at db refl) (stays e (phase d db.deliveries));
    }

    pub Moves-if : (b : Bool) (m n : Exec A) → Moves m → Moves n → Moves (if b then m else n)
    Moves-if true m n k l = k
    Moves-if false m n k l = l

    rolled_back-Moves :
        (db : Db) (r : Result A × Db)
        → Move e (phase d db.deliveries) (phase d r.1.deliveries)
        → Move e (phase d db.deliveries) (phase d (rolled_back db r).1.deliveries)
    rolled_back-Moves db (ok a, db') h = h
    rolled_back-Moves db (err x, db') h = stays e _

    pub Moves-transaction : (call : Call) (m : Exec A) → Moves m → Moves (transaction call m)
    unfolding transaction
    Moves-transaction call m k = record {
      at = λ db. elim (Bool-cases call.sqlite_ok) [
        | inl served ↦ rw served (rolled_back-Moves db (m db) (k.at db))
        | inr refused ↦ rw refused (stays e _)
      ];
    }

  module _ {A B : Type 0} where
    -- An action that leaves the deliveries, and then a move.
    pub Moves-after :
        (m : Exec A) (f : A → Exec B)
        → ((t : Deliveries) → Keeps (λ db. db.deliveries ≡ t) m)
        → ((a : A) → Moves (f a))
        → Moves (m >>= f)
    unfolding ◌>>=◌
    Moves-after m f k l = record { at = λ db. go db (m db) ((k db.deliveries).at db refl) }
      where
        go :
            (db : Db) (r : Result A × Db)
            → r.1.deliveries ≡ db.deliveries
            → Move e (phase d db.deliveries) (phase d (continue f r).1.deliveries)
        go db (ok a, db') h = rw (sym h) ((l a).at db')
        go db (err x, db') h = rw h (stays e _)

    -- A move, and then actions that leave the deliveries.
    pub Moves-before :
        (m : Exec A) (f : A → Exec B)
        → Moves m
        → ((a : A) (t : Deliveries) → Keeps (λ db. db.deliveries ≡ t) (f a))
        → Moves (m >>= f)
    unfolding ◌>>=◌
    Moves-before m f k l = record { at = λ db. go db (m db) (k.at db) }
      where
        go :
            (db : Db) (r : Result A × Db)
            → Move e (phase d db.deliveries) (phase d r.1.deliveries)
            → Move e (phase d db.deliveries) (phase d (continue f r).1.deliveries)
        go db (ok a, db') h = rw ((l a db'.deliveries).at db' refl) h
        go db (err x, db') h = h

    pub Moves-lift :
        (r : Result A) (f : A → Exec B) → ((a : A) → Moves (f a)) → Moves (lift r >>= f)
    unfolding ◌>>=◌ lift
    Moves-lift (ok a) f l = record { at = λ db. (l a).at db }
    Moves-lift (err x) f l = record { at = λ db. stays e _ }

    pub Moves-query :
        (q : Db → Result A) (f : A → Exec B) → ((a : A) → Moves (f a)) → Moves (query q >>= f)
    unfolding ◌>>=◌ query
    Moves-query q f l = record { at = λ db. go db (q db) }
      where
        go :
            (db : Db) (r : Result A)
            → Move e (phase d db.deliveries) (phase d (continue f (r, db)).1.deliveries)
        go db (ok a) = (l a).at db
        go db (err x) = stays e _

  pub by_phases : (p q p' q' : Phase) → p ≡ p' → q ≡ q' → Move e p' q' → Move e p q
  by_phases p q p' q' h k m = subst (λ x. Move e x q) (sym h) (subst (Move e p') (sym k) m)

  pub same_phase : (p q : Phase) → q ≡ p → Move e p q
  same_phase p q h = rw h (stays e p)

  insert-Move :
      (id : Text) (row : DeliveryRow) (t : Deliveries)
      → find id t ≡ none
      → Move e none (some row.state)
      → Move e (phase d t) (phase d (insert id row t))
  insert-Move id row t h m = elim (Text-discrete id d) [
    | yes p ↦
        by_phases _ _ none (some row.state) (ground (arith, h, p))
          (ground (arith, find-insert d id row t)) m
    | no p ↦ same_phase _ _ (ground (arith, find-insert d id row t))
  ]

  modify-Move :
      (id : Text) (row : DeliveryRow) (from to : DeliveryState) (change : DeliveryRow → DeliveryRow)
      (t : Deliveries)
      → find id t ≡ some row
      → row.state ≡ from
      → (change row).state ≡ to
      → Move e (some from) (some to)
      → Move e (phase d t) (phase d (modify id change t))
  modify-Move id row from to change t h k c m = elim (Text-discrete id d) [
    | yes p ↦
        let h' : find d t ≡ some row = ground (arith, h, p) in
        by_phases _ _ (some from) (some to) (rw h' (ap some k))
          (ground (arith, h', find-modify d id change t)) m
    | no p ↦ same_phase _ _ (ground (arith, find-modify d id change t))
  ]

  pub insert_delivery-Moves :
      (id : Text) (row : DeliveryRow)
      → Move e none (some row.state)
      → Moves (insert_delivery id row)
  unfolding insert_delivery
  insert_delivery-Moves id row m = record {
    at = λ db. elim (Option-cases (find id db.deliveries)) [
      | inr (old, h) ↦ rw (h, insert_delivery) (stays e _)
      | inl h ↦ rw (h, insert_delivery) (insert-Move id row db.deliveries h m)
    ];
  }

  pub update_where-Moves :
      (id digest : Text) (from to : DeliveryState) (change : DeliveryRow → DeliveryRow)
      → ((row : DeliveryRow) → (change row).state ≡ to)
      → Move e (some from) (some to)
      → Moves (update_where id digest from change)
  unfolding update_where
  update_where-Moves id digest from to change c m = record {
    at = λ db. elim (Option-cases (find id db.deliveries)) [
      | inl h ↦ rw (h, update_where) (stays e _)
      | inr (row, h) ↦
          elim (Bool-cases (row.request_digest == digest && same_state row.state from)) [
            | inl g ↦
                rw (h, update_where, g)
                  (modify-Move id row from to change db.deliveries h (ground arith) (c row) m)
            | inr g ↦ rw (h, update_where, g) (stays e _)
          ]
    ];
  }
