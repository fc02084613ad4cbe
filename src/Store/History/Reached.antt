-- ===== src/Store/History/Reached.antt =====
-- internal/store: the databases that calls of the store's methods lead to.
use orka_gateway_telegram.Prelude.{◌≡◌, refl, List, [], ◌∷◌, ◌++◌}
use orka_gateway_telegram.Store.Db.{Db}
use orka_gateway_telegram.Store.History.{Op, step, run}

run-append : (a b : List Op) (db : Db) → run (a ++ b) db ≡ run b (run a db)
unfolding run
run-append [] b db = refl
run-append (op ∷ a) b db = run-append a b (step op db)

-- `after` is reached from `db` by calls of the store's methods.
abbrev pub Reached : Db → Db → Type 0
Reached db after = (ops : List Op) × (after ≡ run ops db)

pub Reached-refl : (db : Db) → Reached db db
unfolding run
Reached-refl db = ([], refl)

pub Reached-run : (ops : List Op) (db : Db) → Reached db (run ops db)
Reached-run ops db = (ops, refl)

pub Reached-step : (op : Op) (db : Db) → Reached db (step op db)
unfolding run
Reached-step op db = (op ∷ [], refl)

pub Reached-trans : (a b c : Db) → Reached a b → Reached b c → Reached a c
Reached-trans a b c (p, e) (q, f) = (p ++ q, rw (run-append p q a) (rw (← e) f))
