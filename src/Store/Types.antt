-- ===== src/Store/Types.antt =====
-- The types of internal/store/deliveries.go, updates.go and the errors of store.go.
use orka_gateway_telegram.Prelude.{
  ℕ, Bool, true, false, Option, none, some, Text, Text-discrete, ltb, bytes,
}

-- The sentinel errors of store.go; `failure` is any other error: SQLite's, or a broken record.
pub data StoreError : Type 0 where
  not_found digest_conflict invalid_argument invalid_transition failure : StoreError

pub data Result {ℓ} (A : Type ℓ) : Type ℓ where
  ok : A → Result A
  err : StoreError → Result A

-- A string type in the source: `other` is a value that no constant names.
pub data DeliveryState : Type 0 where
  sending retryable delivered permanent unknown : DeliveryState
  other : Text → DeliveryState

unfoldable pub DeliveryState-discrete : Discrete DeliveryState
unfolding Text-discrete
DeliveryState-discrete = hlevel Text-discrete

abbrev pub same_state : DeliveryState → DeliveryState → Bool
same_state s t = elim (DeliveryState-discrete s t) [ yes _ ↦ true | no _ ↦ false ]

unfoldable pub valid : DeliveryState → Bool
valid (other _) = false
valid _ = true

unfoldable pub terminal : DeliveryState → Bool
terminal delivered = true
terminal permanent = true
terminal unknown = true
terminal _ = false

-- A time.Time that the store reads or writes: the zero time, or milliseconds since 1970.
abbrev pub Time : Type 0
Time = Option ℕ

-- a.After(b)
unfoldable pub after : Time → Time → Bool
after none b = false
after (some a) none = true
after (some a) (some b) = ltb b a

pub record DeliveryRecord : Type 0 where
  pub delivery_id : Text
  pub idempotency_id : Text
  pub digest_version : ℕ
  pub request_digest : Text
  pub legacy_request_digest : Text
  pub state : DeliveryState
  pub provider_message_id : Text
  pub safe_message : Text
  pub retry_not_before : Time
  pub created_at : ℕ
  pub updated_at : ℕ

pub record UpdateRecord : Type 0 where
  pub update_id : ℕ
  pub digest : Text
  pub orka_response : Option Text
  pub created_at : ℕ
  pub updated_at : ℕ

-- What a call of the store meets: whether SQLite serves its transaction, and what the clock shows
-- at its test of a lease and at its write, in milliseconds since 1970.
pub record Call : Type 0 where
  pub sqlite_ok : Bool
  pub checked_at : ℕ
  pub now : ℕ

-- 2 * time.Minute
abbrev pub delivery_sending_lease : ℕ
delivery_sending_lease = 120000

abbrev pub provider_cooldown_scope : Text
provider_cooldown_scope = bytes "telegram-bot"

abbrev pub provider_cooldown_active_message : Text
provider_cooldown_active_message = bytes "Telegram provider cooldown is active"

abbrev pub delivery_outcome_unknown_message : Text
delivery_outcome_unknown_message = bytes "delivery outcome is unknown after adapter restart"
