-- ===== src/Store/Statements.antt =====
-- The SQL statements of internal/store/deliveries.go and store.go that change the database.
-- PRIMARY KEY, UNIQUE and REFERENCES are checked as SQLite does.
use orka_gateway_telegram.Prelude.{
  ℕ, max, Bool, false, ◌&&◌, ◌||◌, none, some, List, [], ◌∷◌, Text, ◌==◌, if◌then◌else◌,
}
use orka_gateway_telegram.Store.Types.{
  digest_conflict, failure, ok, err, DeliveryState, same_state, provider_cooldown_scope,
}
use orka_gateway_telegram.Store.Table.{Text-key, find, insert, modify}
use orka_gateway_telegram.Store.Db.{DeliveryRow, IdempotencyRow}
use orka_gateway_telegram.Store.Exec.{Exec}

unfoldable pub insert_delivery : Text → DeliveryRow → Exec (Unit {0})
insert_delivery id row db = elim (find id db.deliveries) [
  | some _ ↦ (err failure, db)
  | none ↦ (ok tt, record db { deliveries = insert id row db.deliveries })
]

-- UPDATE deliveries SET ... WHERE delivery_id = ? AND request_digest = ? AND state = ?; the result
-- is the number of rows.
unfoldable pub update_where : Text → Text → DeliveryState → (DeliveryRow → DeliveryRow) → Exec ℕ
update_where id digest from change db = elim (find id db.deliveries) [
  | none ↦ (ok 0, db)
  | some row ↦
      if row.request_digest == digest && same_state row.state from
      then (ok 1, record db { deliveries = modify id change db.deliveries })
      else (ok 0, db)
]

unfoldable pub is_taken : Text → List (Text × IdempotencyRow) → Bool
is_taken i [] = false
is_taken i ((_, row) ∷ t) = row.idempotency_id == i || is_taken i t

unfoldable pub insert_idempotency : Text → IdempotencyRow → Exec (Unit {0})
insert_idempotency id row db = elim (find id db.deliveries) [
  | none ↦ (err failure, db)
  | some _ ↦ elim (find id db.idempotency) [
    | some _ ↦ (err failure, db)
    | none ↦
        if is_taken row.idempotency_id db.idempotency
        then (err failure, db)
        else (ok tt, record db { idempotency = insert id row db.idempotency })
  ]
]

-- INSERT ... ON CONFLICT(alias_id) DO NOTHING, and then the SELECT of the alias that was there.
unfoldable pub insert_alias : Text → Text → Exec (Unit {0})
insert_alias alias id db = elim (find alias db.aliases) [
  | some existing ↦ if existing == id then (ok tt, db) else (err digest_conflict, db)
  | none ↦ elim (find id db.deliveries) [
    | none ↦ (err failure, db)
    | some _ ↦ (ok tt, record db { aliases = insert alias id db.aliases })
  ]
]

-- The upsert of extendProviderCooldown: the later of the two times.
unfoldable pub upsert_cooldown : ℕ → Exec (Unit {0})
upsert_cooldown ms db = (
  ok tt,
  record db {
    cooldowns = elim (find provider_cooldown_scope db.cooldowns) [
      | none ↦ insert provider_cooldown_scope ms db.cooldowns
      | some old ↦ modify provider_cooldown_scope (λ t. max t ms) db.cooldowns
    ];
  },
)
