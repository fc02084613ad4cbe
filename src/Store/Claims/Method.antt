-- ===== src/Store/Claims/Method.antt =====
-- The methods that claim a delivery, from the caller's side.
use orka_gateway_telegram.Prelude.{
  ◌≡◌, refl, subst, Bool, true, false, Option, none, some, arith, Text, if◌then◌else◌,
}
use orka_gateway_telegram.Store.Types.{DeliveryRecord, Time, Call, ok, err, Result}
use orka_gateway_telegram.Store.Db.{Db}
use orka_gateway_telegram.Store.Exec.{Exec, pure, query}
use orka_gateway_telegram.Store.Ensures.{
  Ensures, Post, Ensures-transaction, Ensures-bind, Ensures-lift, Ensures-query, Ensures-weaken,
  Ensures-given, Ensures-fact, Post-map,
}
use orka_gateway_telegram.Store.Query.{resolve_delivery, get_provider_cooldown}
use orka_gateway_telegram.Store.Reflects.{AllReflect, ResultReflects, resolve_delivery-Reflects}
use orka_gateway_telegram.Store.Normalize.{normalize_identity, normalize_digest}
use orka_gateway_telegram.Store.Deliveries.{
  is_before, must_wait, begin_resolved, begin_body, create_or_begin_delivery,
}
use orka_gateway_telegram.Store.Claims.{Began, Same, Q}
use orka_gateway_telegram.Store.Claims.Begin.{begin_found-Began, begin_new-Began}

-- The cooldown that a call goes by: the bot's, where the caller means to send.
abbrev pub Gate : Bool → Db → Time → Type 0
Gate true db c = get_provider_cooldown db ≡ ok c
Gate false db c = c ≡ none

-- What a successful call has established, over the database `db` before it.
pub record Claim (call : Call) (claim : Bool) (db : Db) (p : DeliveryRecord × Bool) (after : Db)
    : Type 0 where
  pub cooldown : Time
  pub gate : Gate claim db cooldown
  pub began : Began call.now cooldown db.deliveries p.0 p.1 after

abbrev At : Db → Db → Type 0
At db x = x ≡ db

module _ (call : Call) (db : Db) where
  Gate-free :
      (claim : Bool) (c : Time)
      → Gate claim db c
      → must_wait claim call.now c ≡ false
      → is_before call.now c ≡ false
  unfolding is_before
  Gate-free true c g h = h
  Gate-free false c g h = ground arith

  cooldown-Gate :
      (claim : Bool)
      → Ensures
          (At db)
          (if claim then query get_provider_cooldown else pure none)
          (λ c x. At db x × Gate claim db c)
  unfolding query pure
  cooldown-Gate true = record { at = λ x e. rw e (served (get_provider_cooldown db) refl) }
    where
      served :
          (r : Result Time)
          → get_provider_cooldown db ≡ r
          → Post (λ c x. At db x × Gate true db c) (r, db)
      served (ok c) h = (refl, h)
      served (err e) h = tt
  cooldown-Gate false = record { at = λ x e. (e, refl) }

  found-Reflects :
      (d i : Text) (found : Option DeliveryRecord)
      → resolve_delivery d i db ≡ ok found
      → AllReflect db.deliveries found
  found-Reflects d i found e =
      subst (ResultReflects db.deliveries) e (resolve_delivery-Reflects d i db)

  module _ (claim : Bool) (c : Time) (g : Gate claim db c) (d i rd ld : Text) where
    began-Claim :
        (m : Exec (DeliveryRecord × Bool))
        → Ensures (Same db.deliveries) m (Q call c db.deliveries)
        → Ensures (At db) m (Claim call claim db)
    began-Claim m h = record {
      at = λ x e.
          Post-map (Q call c db.deliveries) (Claim call claim db) (m x)
            (λ p after k. record { cooldown = c; gate = g; began = k }) (h.at x (rw e refl));
    }

    begin_resolved-Claim :
        (found : Option DeliveryRecord)
        → AllReflect db.deliveries found
        → Ensures (At db) (begin_resolved call d i rd ld claim c found) (Claim call claim db)
    begin_resolved-Claim none h =
        began-Claim _ (begin_new-Began call c db.deliveries d i rd ld claim (Gate-free claim c g))
    begin_resolved-Claim (some r) h =
        began-Claim _ (begin_found-Began call c db.deliveries d i rd ld claim r h)

  begin_body-Claim :
      (d i rd ld : Text) (claim : Bool)
      → Ensures (At db) (begin_body call d i rd ld claim) (Claim call claim db)
  unfolding begin_body
  begin_body-Claim d i rd ld claim =
      Ensures-bind (At db) (λ c x. At db x × Gate claim db c) (Claim call claim db)
        (if claim then query get_provider_cooldown else pure none) _ (cooldown-Gate claim)
        (λ c. Ensures-given (At db) (Claim call claim db) (Gate claim db c) _ (λ g.
          Ensures-query (At db) (Claim call claim db) (resolve_delivery d i) _ (λ found.
            Ensures-fact _ _ (resolve_delivery d i db ≡ ok found) _ (λ x h. rw (← h.0) h.1)
              (λ e.
                Ensures-weaken (At db) (Claim call claim db) _ _ (λ x h. h.0)
                  (begin_resolved-Claim claim c g d i rd ld found (found-Reflects d i found e))))))

  pub create_or_begin_delivery-Claim :
      (d i rd ld : Text) (claim : Bool)
      → Ensures (At db) (create_or_begin_delivery call d i rd ld claim) (Claim call claim db)
  unfolding create_or_begin_delivery
  create_or_begin_delivery-Claim d i rd ld claim =
      Ensures-lift _ _ (normalize_identity d) _ (λ d' _.
        Ensures-lift _ _ (normalize_identity i) _ (λ i' _.
          Ensures-lift _ _ (normalize_digest rd) _ (λ rd' _.
            Ensures-lift _ _ (normalize_digest ld) _
              (λ ld' _. Ensures-transaction _ _ call _ (begin_body-Claim d' i' rd' ld' claim)))))

pub create_or_begin_delivery_lem :
    (call : Call) (db after : Db) (d i rd ld : Text) (claim : Bool) (r : DeliveryRecord)
    (should_send : Bool)
    → create_or_begin_delivery call d i rd ld claim db ≡ (ok (r, should_send), after)
    → Claim call claim db (r, should_send) after
create_or_begin_delivery_lem call db after d i rd ld claim r should_send e =
    subst (Post (Claim call claim db)) e
      ((create_or_begin_delivery-Claim call db d i rd ld claim).at db refl)
