-- ===== src/Protocol/Types.antt =====
-- internal/protocol/types.go
use orka_gateway_telegram.Prelude.{ℕ, Option, Text, List, bytes}
use orka_gateway_telegram.Prelude.Int.{ℤ}

abbrev pub version : Text
version = bytes "orka.gateway.v1"

pub record ResourceReference : Type 0 where
  pub namespace : Text
  pub name : Text

pub record Sender : Type 0 where
  pub id : Text
  pub display_name : Text

-- `occurred_at` is in seconds since 1970, in UTC. A nil map of metadata is the empty list.
pub record EventEnvelope : Type 0 where
  pub protocol_version : Text
  pub external_event_id : Text
  pub event_type : Text
  pub account_id : Text
  pub context_id : Text
  pub thread_id : Text
  pub sender : Sender
  pub text : Text
  pub reply_target : Text
  pub occurred_at : Option ℤ
  pub metadata : List (Text × Text)

pub record DeliveryRequest : Type 0 where
  pub protocol_version : Text
  pub delivery_id : Text
  pub idempotency_id : Text
  pub originating_event : Text
  pub task_ref : Option ResourceReference
  pub session_ref : Option ResourceReference
  pub kind : Text
  pub account_id : Text
  pub context_id : Text
  pub thread_id : Text
  pub reply_target : Text
  pub text : Text
  pub metadata : List (Text × Text)

pub data DeliveryStatus : Type 0 where
  delivered retryable_error non_retryable_error : DeliveryStatus

pub record DeliveryResponse : Type 0 where
  pub status : DeliveryStatus
  pub provider_message_id : Text
  pub message : Text

pub record IngressResponse : Type 0 where
  pub status : Text
  pub event_id : Text
  pub state : Text
  pub message : Text

abbrev pub max_http_body_bytes : ℕ
max_http_body_bytes = 262144

abbrev pub max_text_bytes : ℕ
max_text_bytes = 65536

abbrev pub max_identity_bytes : ℕ
max_identity_bytes = 256

abbrev pub max_metadata_value_bytes : ℕ
max_metadata_value_bytes = 256
