-- ===== src/Store/Extends/Tables.antt =====
-- What one change of one table preserves of the whole database.
use orka_gateway_telegram.Prelude.{ℕ, ◌≤◌, ◌≡◌, true, false, none, some, arith, Text, Text-discrete}
use orka_gateway_telegram.Store.Types.{terminal, provider_cooldown_scope}
use orka_gateway_telegram.Store.Table.{
  Text-key, find, insert, modify, modify_all, Table, find-insert, find-modify, find-modify_all,
}
use orka_gateway_telegram.Store.Db.{DeliveryRow, IdempotencyRow, Db}
use orka_gateway_telegram.Store.Extends.{Extends, Extends-refl, SameRequest, SameRequest-refl}

-- The fields that are left when a statement writes one table.
module _ (db : Db) where
  pub Extends-deliveries :
      (t : Table Text DeliveryRow)
      → ((d : Text) (row : DeliveryRow)
          → find d db.deliveries ≡ some row
          → terminal row.state ≡ true
          → find d t ≡ some row)
      → ((d : Text) (row : DeliveryRow)
          → find d db.deliveries ≡ some row
          → (row' : DeliveryRow) × (find d t ≡ some row') × SameRequest row row')
      → Extends db (record db { deliveries = t })
  Extends-deliveries t settled delivery = record {
    settled = settled;
    delivery = delivery;
    identity = (Extends-refl db).identity;
    alias = (Extends-refl db).alias;
    cooldown = (Extends-refl db).cooldown;
    update = (Extends-refl db).update;
  }

  pub Extends-insert_delivery :
      (id : Text) (row : DeliveryRow)
      → find id db.deliveries ≡ none
      → Extends db (record db { deliveries = insert id row db.deliveries })
  Extends-insert_delivery id row fresh =
      Extends-deliveries (insert id row db.deliveries)
        (λ d r h t. ground (arith, find-insert d id row db.deliveries))
        (λ d r h. (r, ground (arith, find-insert d id row db.deliveries), SameRequest-refl r))

  delivery-modify :
      (id d : Text) (change : DeliveryRow → DeliveryRow) (r : DeliveryRow)
      → ((r : DeliveryRow) → SameRequest r (change r))
      → find d db.deliveries ≡ some r
      → (r' : DeliveryRow) × (find d (modify id change db.deliveries) ≡ some r') × SameRequest r r'
  delivery-modify id d change r same h = elim (Text-discrete id d) [
    | yes p ↦ (change r, ground (arith, find-modify d id change db.deliveries), same r)
    | no p ↦ (r, ground (arith, find-modify d id change db.deliveries), SameRequest-refl r)
  ]

  pub Extends-modify :
      (id : Text) (old : DeliveryRow) (change : DeliveryRow → DeliveryRow)
      → find id db.deliveries ≡ some old
      → terminal old.state ≡ false
      → ((r : DeliveryRow) → SameRequest r (change r))
      → Extends db (record db { deliveries = modify id change db.deliveries })
  Extends-modify id old change present unsettled same =
      Extends-deliveries (modify id change db.deliveries)
        (λ d r h t. ground (arith, find-modify d id change db.deliveries))
        (λ d r h. delivery-modify id d change r same h)

  delivery-modify_all :
      (d : Text) (change : DeliveryRow → DeliveryRow) (r : DeliveryRow)
      → ((r : DeliveryRow) → SameRequest r (change r))
      → find d db.deliveries ≡ some r
      → (r' : DeliveryRow) × (find d (modify_all change db.deliveries) ≡ some r') × SameRequest r r'
  delivery-modify_all d change r same h =
      (change r, ground (arith, find-modify_all d change db.deliveries), same r)

  pub Extends-modify_all :
      (change : DeliveryRow → DeliveryRow)
      → ((r : DeliveryRow) → terminal r.state ≡ true → change r ≡ r)
      → ((r : DeliveryRow) → SameRequest r (change r))
      → Extends db (record db { deliveries = modify_all change db.deliveries })
  Extends-modify_all change fixed same =
      Extends-deliveries (modify_all change db.deliveries)
        (λ d r h t. ground (arith, find-modify_all d change db.deliveries, fixed r t))
        (λ d r h. delivery-modify_all d change r same h)

  pub Extends-insert_idempotency :
      (id : Text) (row : IdempotencyRow)
      → find id db.idempotency ≡ none
      → Extends db (record db { idempotency = insert id row db.idempotency })
  Extends-insert_idempotency id row fresh = record {
    settled = (Extends-refl db).settled;
    delivery = (Extends-refl db).delivery;
    identity = λ d r h. ground (arith, find-insert d id row db.idempotency);
    alias = (Extends-refl db).alias;
    cooldown = (Extends-refl db).cooldown;
    update = (Extends-refl db).update;
  }

  pub Extends-insert_alias :
      (i id : Text)
      → find i db.aliases ≡ none
      → Extends db (record db { aliases = insert i id db.aliases })
  Extends-insert_alias i id fresh = record {
    settled = (Extends-refl db).settled;
    delivery = (Extends-refl db).delivery;
    identity = (Extends-refl db).identity;
    alias = λ a d h. ground (arith, find-insert a i id db.aliases);
    cooldown = (Extends-refl db).cooldown;
    update = (Extends-refl db).update;
  }

  pub Extends-cooldowns :
      (t : Table Text ℕ)
      → ((ms : ℕ)
          → find provider_cooldown_scope db.cooldowns ≡ some ms
          → (ms' : ℕ) × (find provider_cooldown_scope t ≡ some ms') × (ms ≤ ms'))
      → Extends db (record db { cooldowns = t })
  Extends-cooldowns t later = record {
    settled = (Extends-refl db).settled;
    delivery = (Extends-refl db).delivery;
    identity = (Extends-refl db).identity;
    alias = (Extends-refl db).alias;
    cooldown = later;
    update = (Extends-refl db).update;
  }
