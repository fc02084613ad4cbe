-- ===== src/Store/Db.antt =====
-- The database of internal/store/store.go: the tables of its migrations. Times are milliseconds
-- since 1970. `telegram_updates` is `updates`, `delivery_idempotency` is `idempotency`,
-- `delivery_aliases` is `aliases`, `provider_cooldowns` is `cooldowns`.
use orka_gateway_telegram.Prelude.{ℕ, Option, [], Text}
use orka_gateway_telegram.Store.Types.{DeliveryState}
use orka_gateway_telegram.Store.Table.{Table}

pub record UpdateRow : Type 0 where
  pub digest : Text
  pub orka_response : Option Text
  pub created_at_ms : ℕ
  pub updated_at_ms : ℕ

pub record DeliveryRow : Type 0 where
  pub request_digest : Text
  pub state : DeliveryState
  pub provider_message_id : Text
  pub safe_message : Text
  pub retry_not_before_ms : ℕ
  pub created_at_ms : ℕ
  pub updated_at_ms : ℕ

pub record IdempotencyRow : Type 0 where
  pub idempotency_id : Text
  pub digest_version : ℕ
  pub request_digest : Text

pub record Db : Type 0 where
  pub updates : Table ℕ UpdateRow
  pub deliveries : Table Text DeliveryRow
  pub idempotency : Table Text IdempotencyRow
  pub aliases : Table Text Text
  pub cooldowns : Table Text ℕ

abbrev pub empty : Db
empty = record { updates = []; deliveries = []; idempotency = []; aliases = []; cooldowns = [] }
