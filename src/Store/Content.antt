-- ===== src/Store/Content.antt =====
-- internal/store/deliveries.go, createOrBeginDelivery: the identity and the digest of its result.
use orka_gateway_telegram.Prelude.{
  ◌≡◌, refl, Bool, true, false, not, Option, none, some, Text, arith, if◌then◌else◌, eqb, subst,
}
use orka_gateway_telegram.Store.Types.{
  invalid_argument, Result, ok, err, DeliveryRecord, Time, Call,
}
use orka_gateway_telegram.Store.Db.{Db}
use orka_gateway_telegram.Store.Exec.{Exec, pure, raise}
use orka_gateway_telegram.Store.Ensures.{
  Ensures, Post, Ensures-pure, Ensures-raise, Ensures-if, Ensures-transaction, Ensures-bind,
  Ensures-lift, Post-map,
}
use orka_gateway_telegram.Store.Query.{digest_matches}
use orka_gateway_telegram.Store.Normalize.{normalize_identity, normalize_digest}
use orka_gateway_telegram.Store.Deliveries.{
  upgrade_legacy_delivery, recover_stale, claim_retryable, is_before, later, begin_found, begin_new,
  begin_resolved, begin_body, create_or_begin_delivery,
}

abbrev Any : Db → Type 0
Any db = Unit

any : {A : Type 0} (m : Exec A) → Ensures Any m (λ _. Any)
any m = record { at = λ db h. held (m db) }
  where
    held : {A : Type 0} (r : Result A × Db) → Post (λ _ x. Any x) r
    held (ok a, _) = tt
    held (err e, _) = tt

module _ (i rd : Text) where
  -- The record is one for the request.
  abbrev pub IsFor : DeliveryRecord → Type 0
  IsFor r = (r.idempotency_id ≡ i) × (r.request_digest ≡ rd)

  abbrev Q : DeliveryRecord × Bool → Db → Type 0
  Q p db = IsFor p.0

  upgrade_legacy_delivery-IsFor :
      (found : DeliveryRecord) → Ensures Any (upgrade_legacy_delivery found i rd) (λ r _. IsFor r)
  unfolding upgrade_legacy_delivery
  upgrade_legacy_delivery-IsFor found =
      Ensures-if Any (λ r _. IsFor r) (not (eqb found.digest_version 1)) (raise invalid_argument) _
        (λ _. Ensures-raise Any (λ r _. IsFor r) invalid_argument)
        (λ _.
          Ensures-bind Any (λ _. Any) _ _ _ (any _)
            (λ _.
              Ensures-bind Any (λ _. Any) _ _ _ (any _)
                (λ _. Ensures-pure Any _ _ (λ db h. (refl, refl)))))

  recover_stale-IsFor :
      (call : Call) (r : DeliveryRecord) → IsFor r → Ensures Any (recover_stale call r) Q
  unfolding recover_stale
  recover_stale-IsFor call r h =
      Ensures-bind Any (λ _. Any) Q _ _ (any _) (λ _. Ensures-pure Any Q _ (λ db k. h))

  claim_retryable-IsFor :
      (call : Call) (c : Time) (r : DeliveryRecord)
      → IsFor r
      → Ensures Any (claim_retryable call c r) Q
  unfolding claim_retryable
  claim_retryable-IsFor call c r h =
      Ensures-if Any Q (is_before call.now (later c r.retry_not_before)) _ _
        (λ _. Ensures-pure Any Q _ (λ db k. h))
        (λ _. Ensures-bind Any (λ _. Any) Q _ _ (any _) (λ _. Ensures-pure Any Q _ (λ db k. h)))

  decide-IsFor :
      (call : Call) (stale claim : Bool) (c : Time) (r : DeliveryRecord)
      → IsFor r
      → Ensures Any
          (if stale
            then recover_stale call r
            else if claim
            then claim_retryable call c r
            else pure (r, false))
          Q
  decide-IsFor call stale claim c r h =
      Ensures-if Any Q stale (recover_stale call r) _ (λ _. recover_stale-IsFor call r h)
        (λ _.
          Ensures-if Any Q claim (claim_retryable call c r) (pure (r, false))
            (λ _. claim_retryable-IsFor call c r h)
            (λ _. Ensures-pure Any Q (r, false) (λ db k. h)))

  digest_matches-IsFor :
      (d ld : Text) (r : DeliveryRecord) → digest_matches d i rd ld r ≡ ok false → IsFor r
  unfolding digest_matches
  digest_matches-IsFor d ld r h = ground arith

  adopted-IsFor :
      (is_legacy : Bool) (d ld : Text) (r : DeliveryRecord)
      → digest_matches d i rd ld r ≡ ok is_legacy
      → Ensures Any (if is_legacy then upgrade_legacy_delivery r i rd else pure r) (λ a _. IsFor a)
  adopted-IsFor true d ld r h = upgrade_legacy_delivery-IsFor r
  adopted-IsFor false d ld r h =
      Ensures-pure Any (λ a _. IsFor a) r (λ db k. digest_matches-IsFor d ld r h)

  begin_found-IsFor :
      (call : Call) (d ld : Text) (claim : Bool) (c : Time) (found : DeliveryRecord)
      → Ensures Any (begin_found call d i rd ld claim c found) Q
  unfolding begin_found
  begin_found-IsFor call d ld claim c found =
      Ensures-lift Any Q (digest_matches d i rd ld found) _ (λ is_legacy e.
        Ensures-bind Any (λ a _. IsFor a) Q _ _ (adopted-IsFor is_legacy d ld found e)
          (λ r. record {
            at = λ db h.
                (Ensures-bind Any (λ _. Any) Q _ _ (any _)
                    (λ _.
                      Ensures-bind Any (λ _. Any) Q _ _ (any _)
                        (λ _. decide-IsFor call _ _ c r h))).at
                  db tt;
          }))

  begin_new-IsFor :
      (call : Call) (d ld : Text) (claim : Bool) (c : Time)
      → Ensures Any (begin_new call d i rd ld claim c) Q
  unfolding begin_new
  begin_new-IsFor call d ld claim c =
      Ensures-bind Any (λ _. Any) Q _ _ (any _)
        (λ _.
          Ensures-bind Any (λ _. Any) Q _ _ (any _)
            (λ _.
              Ensures-bind Any (λ _. Any) Q _ _ (any _)
                (λ _.
                  Ensures-bind Any (λ _. Any) Q _ _ (any _)
                    (λ _. Ensures-pure Any Q _ (λ db k. (refl, refl))))))

  begin_resolved-IsFor :
      (call : Call) (d ld : Text) (claim : Bool) (c : Time) (found : Option DeliveryRecord)
      → Ensures Any (begin_resolved call d i rd ld claim c found) Q
  begin_resolved-IsFor call d ld claim c none = begin_new-IsFor call d ld claim c
  begin_resolved-IsFor call d ld claim c (some r) = begin_found-IsFor call d ld claim c r

  begin_body-IsFor :
      (call : Call) (d ld : Text) (claim : Bool) → Ensures Any (begin_body call d i rd ld claim) Q
  unfolding begin_body
  begin_body-IsFor call d ld claim =
      Ensures-bind Any (λ _. Any) Q _ _ (any _)
        (λ c.
          Ensures-bind Any (λ _. Any) Q _ _ (any _)
            (λ found. begin_resolved-IsFor call d ld claim c found))

-- The record has the idempotency ID and the digest of the request, normalised.
pub record Content (idempotency digest : Text) (r : DeliveryRecord) : Type 0 where
  pub idempotency_id : normalize_identity idempotency ≡ ok r.idempotency_id
  pub request_digest : normalize_digest digest ≡ ok r.request_digest

module _ (idempotency digest : Text) where
  abbrev R : DeliveryRecord × Bool → Db → Type 0
  R p db = Content idempotency digest p.0

  body-Content :
      (call : Call) (d ld i rd : Text) (claim : Bool)
      → normalize_identity idempotency ≡ ok i
      → normalize_digest digest ≡ ok rd
      → Ensures Any (begin_body call d i rd ld claim) R
  body-Content call d ld i rd claim p q = record {
    at = λ db h.
        Post-map (Q i rd) R _
          (λ a x k. record { idempotency_id = rw (k.0) p; request_digest = rw (k.1) q })
          ((begin_body-IsFor i rd call d ld claim).at db h);
  }

  method-Content :
      (call : Call) (d ld : Text) (claim : Bool)
      → Ensures Any (create_or_begin_delivery call d idempotency digest ld claim) R
  unfolding create_or_begin_delivery
  method-Content call d ld claim = Ensures-lift Any R (normalize_identity d) _ (λ d' _.
      Ensures-lift Any R (normalize_identity idempotency) _ (λ i p.
        Ensures-lift Any R (normalize_digest digest) _ (λ rd q.
          Ensures-lift Any R (normalize_digest ld) _
            (λ ld' _. Ensures-transaction Any R call _ (body-Content call d' ld' i rd claim p q)))))

-- A successful call of createOrBeginDelivery returns a record with the call's idempotency ID and
-- digest, both normalised.
pub create_or_begin_delivery-Content :
    (call : Call) (db after : Db) (d i rd ld : Text) (claim : Bool) (r : DeliveryRecord)
    (should_send : Bool)
    → create_or_begin_delivery call d i rd ld claim db ≡ (ok (r, should_send), after)
    → Content i rd r
create_or_begin_delivery-Content call db after d i rd ld claim r should_send e =
    subst (Post (R i rd)) e ((method-Content i rd call d ld claim).at db tt)
