-- ===== src/Store/History/Promises.antt =====
-- internal/store: a history with respect to Extends.
use orka_gateway_telegram.Prelude.{List, [], ◌∷◌}
use orka_gateway_telegram.Store.Db.{Db}
use orka_gateway_telegram.Store.Extends.{Extends, Extends-refl, Extends-trans}
use orka_gateway_telegram.Store.Extends.Operations.{
  create_or_begin_delivery-Growing, update_delivery_not_before-Growing,
  recover_interrupted_deliveries-Growing,
}
use orka_gateway_telegram.Store.Extends.Updates.{
  create_update-Growing, save_update_response-Growing,
}
use orka_gateway_telegram.Store.History.{Op, begin, update, recover, admit, answer, step, run}

pub step-Extends : (op : Op) (db : Db) → Extends db (step op db)
unfolding step
step-Extends (begin k d i rd ld claim) db =
    (create_or_begin_delivery-Growing k d i rd ld claim db).at db (Extends-refl db)
step-Extends (update k d digest state pid message t) db =
    (update_delivery_not_before-Growing k d digest state pid message t db).at db (Extends-refl db)
step-Extends (recover k) db = (recover_interrupted_deliveries-Growing k db).at db (Extends-refl db)
step-Extends (admit k u digest) db = (create_update-Growing k u digest db).at db (Extends-refl db)
step-Extends (answer k u digest response) db =
    (save_update_response-Growing k u digest response db).at db (Extends-refl db)

-- Whatever calls the store serves: a terminal delivery keeps its row, every delivery and every
-- update keeps its digest and creation time, a saved response stays, identities and aliases stay
-- bound to their deliveries, and the bot's cooldown is not shortened.
pub run-Extends : (ops : List Op) (db : Db) → Extends db (run ops db)
unfolding run
run-Extends [] db = Extends-refl db
run-Extends (op ∷ ops) db = Extends-trans (step-Extends op db) (run-Extends ops (step op db))
