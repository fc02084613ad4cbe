-- ===== src/Store/Fresh.antt =====
-- internal/store/deliveries.go: createOrBeginDelivery for a delivery that the store does not know.
use orka_gateway_telegram.Prelude.{◌≡◌, refl, true, false, none, some, Text, Text-discrete, arith}
use orka_gateway_telegram.Store.Types.{not_found, ok, err, Time, Call}
use orka_gateway_telegram.Store.Table.{Text-key, find, insert}
use orka_gateway_telegram.Store.Db.{Db}
use orka_gateway_telegram.Store.Exec.{pure, lift, query, transaction, ◌>>=◌}
use orka_gateway_telegram.Store.Normalize.{normalize_identity, normalize_digest}
use orka_gateway_telegram.Store.Query.{
  scan_delivery, get_delivery, get_delivery_by_alias, if_found, agree, get_delivery_by_identity,
  resolve_delivery, get_provider_cooldown,
}
use orka_gateway_telegram.Store.Statements.{
  insert_delivery, is_taken, insert_idempotency, insert_alias,
}
use orka_gateway_telegram.Store.Deliveries.{
  is_other_delivery, ensure_delivery_alias, millis, is_before, begin_new, new_row, new_record,
  idempotency_row, begin_body, create_or_begin_delivery,
}

-- The store knows neither ID, as a delivery, as an alias or as an idempotency ID.
pub record Fresh (d i : Text) (db : Db) : Type 0 where
  pub no_delivery : find d db.deliveries ≡ none
  pub no_other : find i db.deliveries ≡ none
  pub no_alias : find d db.aliases ≡ none
  pub no_other_alias : find i db.aliases ≡ none
  pub no_row : find d db.idempotency ≡ none
  pub not_taken : is_taken i db.idempotency ≡ false

get_delivery_by_alias-none :
    (id : Text) (db : Db) → find id db.aliases ≡ none → get_delivery_by_alias id db ≡ err not_found
unfolding get_delivery_by_alias
get_delivery_by_alias-none id db h = ground (arith, h)

get_delivery_by_identity-none :
    (id : Text) (db : Db)
    → find id db.deliveries ≡ none
    → find id db.aliases ≡ none
    → get_delivery_by_identity id db ≡ ok none
unfolding get_delivery_by_identity get_delivery scan_delivery if_found agree
get_delivery_by_identity-none id db h k = rw (get_delivery_by_alias-none id db k, h) refl

pub resolve_delivery-Fresh :
    (d i : Text) (db : Db) → Fresh d i db → resolve_delivery d i db ≡ ok none
unfolding resolve_delivery agree
resolve_delivery-Fresh d i db f =
    rw
      (
        get_delivery_by_identity-none d db f.no_delivery f.no_alias,
        get_delivery_by_identity-none i db f.no_other f.no_other_alias,
      )
      refl

module _ (call : Call) (d i rd ld : Text) (db : Db) where
  begin_new-Fresh :
      (cooldown : Time)
      → Fresh d i db
      → is_before call.now cooldown ≡ false
      → (begin_new call d i rd ld true cooldown db).0
        ≡ ok (new_record d i rd ld false call.now (millis cooldown), true)
  unfolding begin_new insert_delivery insert_idempotency ensure_delivery_alias is_other_delivery
      insert_alias find insert is_taken ◌>>=◌ query pure
  begin_new-Fresh cooldown f now = elim (Text-discrete d i) [
    | yes p ↦
        ground
          (arith, f.no_delivery, f.no_other, f.no_alias, f.no_other_alias, f.no_row, f.not_taken)
    | no p ↦
        ground
          (arith, f.no_delivery, f.no_other, f.no_alias, f.no_other_alias, f.no_row, f.not_taken)
  ]

  -- A claim of a delivery that the store does not know is granted, if SQLite serves the call, the
  -- arguments are accepted and the bot's cooldown does not lie in the future.
  pub create_or_begin_delivery-Fresh :
      (d' i' rd' ld' : Text) (cooldown : Time)
      → normalize_identity d' ≡ ok d
      → normalize_identity i' ≡ ok i
      → normalize_digest rd' ≡ ok rd
      → normalize_digest ld' ≡ ok ld
      → call.sqlite_ok ≡ true
      → Fresh d i db
      → get_provider_cooldown db ≡ ok cooldown
      → is_before call.now cooldown ≡ false
      → (create_or_begin_delivery call d' i' rd' ld' true db).0
        ≡ ok (new_record d i rd ld false call.now (millis cooldown), true)
  unfolding create_or_begin_delivery begin_body transaction lift query ◌>>=◌
  create_or_begin_delivery-Fresh d' i' rd' ld' cooldown nd ni nr nl served f c now =
      let e = begin_new-Fresh cooldown f now in
      let r = resolve_delivery-Fresh d i db f in ground (arith, nd, ni, nr, nl, served, c, r, e)

  begin_new-Fresh-stored :
      (cooldown : Time)
      → Fresh d i db
      → is_before call.now cooldown ≡ false
      → (find d (begin_new call d i rd ld true cooldown db).1.deliveries
          ≡ some (new_row ld false call.now (millis cooldown)))
        × (find d (begin_new call d i rd ld true cooldown db).1.idempotency
            ≡ some (idempotency_row i rd))
  unfolding begin_new insert_delivery insert_idempotency ensure_delivery_alias is_other_delivery
      insert_alias find insert is_taken ◌>>=◌ query pure
  begin_new-Fresh-stored cooldown f now = elim (Text-discrete d i) [
    | yes p ↦ (
      ground
          (arith, f.no_delivery, f.no_other, f.no_alias, f.no_other_alias, f.no_row, f.not_taken),
      ground
          (arith, f.no_delivery, f.no_other, f.no_alias, f.no_other_alias, f.no_row, f.not_taken),
    )
    | no p ↦ (
      ground
          (arith, f.no_delivery, f.no_other, f.no_alias, f.no_other_alias, f.no_row, f.not_taken),
      ground
          (arith, f.no_delivery, f.no_other, f.no_alias, f.no_other_alias, f.no_row, f.not_taken),
    )
  ]

  -- Such a claim stores the delivery as sending, with its digests.
  pub create_or_begin_delivery-Fresh-stored :
      (d' i' rd' ld' : Text) (cooldown : Time)
      → normalize_identity d' ≡ ok d
      → normalize_identity i' ≡ ok i
      → normalize_digest rd' ≡ ok rd
      → normalize_digest ld' ≡ ok ld
      → call.sqlite_ok ≡ true
      → Fresh d i db
      → get_provider_cooldown db ≡ ok cooldown
      → is_before call.now cooldown ≡ false
      → (find d (create_or_begin_delivery call d' i' rd' ld' true db).1.deliveries
          ≡ some (new_row ld false call.now (millis cooldown)))
        × (find d (create_or_begin_delivery call d' i' rd' ld' true db).1.idempotency
            ≡ some (idempotency_row i rd))
  unfolding create_or_begin_delivery begin_body transaction lift query ◌>>=◌
  create_or_begin_delivery-Fresh-stored d' i' rd' ld' cooldown nd ni nr nl served f c now =
      let e = begin_new-Fresh cooldown f now in
      let (a, b) = begin_new-Fresh-stored cooldown f now in
      let r = resolve_delivery-Fresh d i db f in
      (
        ground (arith, nd, ni, nr, nl, served, c, r, e, a),
        ground (arith, nd, ni, nr, nl, served, c, r, e, b),
      )
