-- ===== src/Store/Updates.antt =====
-- internal/store/updates.go: the admission of Telegram updates. `update_id` is an int64 in the
-- source; a negative one is refused before the table is read, so the key is a natural number.
use orka_gateway_telegram.Prelude.{
  ℕ, Bool, true, false, not, ◌||◌, none, some, Text, [], length, ltb, ◌==◌, if◌then◌else◌,
}
use orka_gateway_telegram.Prelude.Int.{ℤ, pos, negsuc}
use orka_gateway_telegram.Text.Json
use orka_gateway_telegram.Store.Types.{
  not_found, digest_conflict, invalid_argument, invalid_transition, failure, Result, ok, err,
  UpdateRecord, Call,
}
use orka_gateway_telegram.Store.Table.{ℕ-key, find, insert, modify}
use orka_gateway_telegram.Store.Db.{UpdateRow, Db}
use orka_gateway_telegram.Store.Exec.{Exec, pure, raise, lift, query, transaction, ◌>>=◌, ◌>>◌}
use orka_gateway_telegram.Store.Normalize.{normalize_digest}
use orka_gateway_telegram.Store.Completion.{read_only}

abbrev pub max_orka_response_bytes : ℕ
max_orka_response_bytes = 65536

unfoldable pub normalize_orka_response : Text → Result Text
normalize_orka_response response =
    if response == []
      || ltb max_orka_response_bytes (length response)
      || not (Json.is_valid response)
    then err invalid_argument
    else ok (Json.compact response)

-- HasOrkaResponse: a response that is not empty.
unfoldable pub has_orka_response : UpdateRecord → Bool
has_orka_response r = elim r.orka_response [ none ↦ false | some t ↦ not (t == []) ]

unfoldable pub update_key : ℤ → Result ℕ
update_key (pos n) = ok n
update_key (negsuc n) = err invalid_argument

unfoldable pub update_record : ℕ → UpdateRow → UpdateRecord
update_record id row = record {
  update_id = id;
  digest = row.digest;
  orka_response = row.orka_response;
  created_at = row.created_at_ms;
  updated_at = row.updated_at_ms;
}

unfoldable pub get_update_row : ℕ → Db → Result UpdateRecord
get_update_row id db = elim (find id db.updates) [
  | none ↦ err not_found
  | some row ↦ ok (update_record id row)
]

-- INSERT INTO telegram_updates
unfoldable pub insert_update : ℕ → UpdateRow → Exec (Unit {0})
insert_update id row db = elim (find id db.updates) [
  | some _ ↦ (err failure, db)
  | none ↦ (ok tt, record db { updates = insert id row db.updates })
]

abbrev pub answered : Text → ℕ → UpdateRow → UpdateRow
answered response now row = record row { orka_response = some response; updated_at_ms = now }

-- UPDATE telegram_updates ... WHERE update_id = ? AND digest = ? AND orka_response IS NULL
unfoldable pub set_response : ℕ → Text → Text → ℕ → Exec (Unit {0})
set_response id digest response now db = elim (find id db.updates) [
  | none ↦ (ok tt, db)
  | some row ↦ elim row.orka_response [
    | some _ ↦ (ok tt, db)
    | none ↦
        if row.digest == digest
        then (ok tt, record db { updates = modify id (answered response now) db.updates })
        else (ok tt, db)
  ]
]

unfoldable pub admit : Call → ℕ → Text → Result UpdateRecord → Exec (UpdateRecord × Bool)
admit call id digest (ok r) =
    if not (r.digest == digest) then raise digest_conflict else pure (r, false)
admit call id digest (err not_found) = do
  insert_update id (record {
    digest = digest;
    orka_response = none;
    created_at_ms = call.now;
    updated_at_ms = call.now;
  })
  pure (
    record {
      update_id = id;
      digest = digest;
      orka_response = none;
      created_at = call.now;
      updated_at = call.now;
    },
    true,
  )
admit call id digest (err e) = raise e

unfoldable pub create_body : Call → ℕ → Text → Exec (UpdateRecord × Bool)
create_body call id digest = do
  found ← query (λ db. ok (get_update_row id db))
  admit call id digest found

unfoldable pub create_update : Call → ℤ → Text → Exec (UpdateRecord × Bool)
create_update call update_id digest = do
  id ← lift (update_key update_id)
  d ← lift (normalize_digest digest)
  transaction call (create_body call id d)

unfoldable pub get_update : Call → ℤ → Exec UpdateRecord
get_update call update_id = do id ← lift (update_key update_id); read_only call (get_update_row id)

unfoldable pub is_answered : UpdateRecord → Text → Bool
is_answered r response = elim r.orka_response [ none ↦ false | some t ↦ t == response ]

unfoldable pub save_body : Call → ℕ → Text → Text → Exec UpdateRecord
save_body call id digest response = do
  r ← query (get_update_row id)
  if not (r.digest == digest)
      then raise digest_conflict
      else if has_orka_response r
      then (if is_answered r response then pure r else raise invalid_transition)
      else do
        set_response id digest response call.now
        pure (record r { orka_response = some response; updated_at = call.now })

unfoldable pub save_update_response : Call → ℤ → Text → Text → Exec UpdateRecord
save_update_response call update_id digest response = do
  id ← lift (update_key update_id)
  d ← lift (normalize_digest digest)
  t ← lift (normalize_orka_response response)
  transaction call (save_body call id d t)
