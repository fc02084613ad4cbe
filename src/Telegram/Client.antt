-- ===== src/Telegram/Client.antt =====
-- internal/telegram/client.go: how an attempt to send is classified. The HTTP exchange and the JSON
-- of its response are what the client meets: a `Reply`.
pub mod Send
pub mod Setup
pub mod Safety
use orka_gateway_telegram.Prelude.{
  ℕ, zero, suc, ◌+◌, ◌-◌, ◌*◌, ◌%◌, ◌^◌, ◌≡◌, refl, Bool, true, false, not, ◌&&◌, ◌||◌, Option,
  none, some, List, [], ◌∷◌, ◌++◌, Text, bytes, ltb, leb, eqb, length, ◌==◌, if◌then◌else◌,
}
use orka_gateway_telegram.Prelude.Int.{ℤ, pos, negsuc, same_int, is_not_positive, ℤ-discrete}
use orka_gateway_telegram.Text.Utf8.{valid_string, is_control, contains_func, rune_count}
use orka_gateway_telegram.Text.Space.{trim_space}
use orka_gateway_telegram.Text.Replace.{replace_all, path_escape, query_escape}
use orka_gateway_telegram.Text.Sanitize.{drop_controls, longest_valid}
use orka_gateway_telegram.Text.Decimal.{format_int}
use orka_gateway_telegram.Telegram.ReplyTarget.{ReplyTarget, validate}

-- ResultClass; `other` is a string that no constant names.
pub data ResultClass : Type 0 where
  delivered retryable non_retryable ambiguous : ResultClass
  other : Text → ResultClass

pub record SendResult : Type 0 where
  pub classification : ResultClass
  pub http_status : ℤ
  pub error_code : ℤ
  pub description : Text
  pub retry_after : ℤ  -- nanoseconds, an int64
  pub message_id : ℤ
  pub provider_message_id : Text
  pub truncated : Bool

-- The part of a Message that SendMessage reads.
pub record SentMessage : Type 0 where
  pub message_id : ℤ
  pub chat_id : ℤ
  pub message_thread_id : ℤ

-- The result of an envelope with ok = true, decoded.
pub data Result (A : Type 0) : Type 0 where
  missing invalid : Result A
  decoded : A → Result A

pub record ApiEnvelope (A : Type 0) : Type 0 where
  pub ok : Option Bool
  pub result : Result A
  pub error_code : ℤ
  pub description : Text
  pub retry_after : Option ℤ  -- parameters.retry_after, in seconds

pub data ContextError : Type 0 where
  no_error deadline_exceeded canceled : ContextError

-- What the HTTP exchange comes to. `transport_failed` says what the context shows, whether the error
-- is a timeout, and whether the request was written.
pub data Reply (A : Type 0) : Type 0 where
  not_encoded not_created : Reply A
  transport_failed : ContextError → (timeout wrote_request : Bool) → Reply A
  unreadable oversized not_json trailing_data : (status : ℤ) → Reply A
  envelope : (status : ℤ) → ApiEnvelope A → Reply A

abbrev in_range : ℕ → ℕ → ℤ → Bool
in_range lo hi (pos n) = leb lo n && leb n hi
in_range lo hi (negsuc n) = false

-- The codes that mean: not now.
unfoldable pub is_retry_code : ℤ → Bool
is_retry_code code =
    same_int code (pos 408)
    || same_int code (pos 409)
    || same_int code (pos 425)
    || same_int code (pos 420)
    || same_int code (pos 429)
    || in_range 500 599 code

unfoldable pub classify_telegram_failure : (http_status error_code : ℤ) → ResultClass
unfolding is_retry_code
classify_telegram_failure http_status error_code =
    let code = if same_int error_code (pos 0) then http_status else error_code in
    if is_retry_code code
    then retryable
    else if in_range 400 499 code
    then non_retryable
    else if in_range 300 499 http_status
    then non_retryable
    else if in_range 500 599 http_status
    then retryable
    else ambiguous

abbrev pub failed : ResultClass → ℤ → ℤ → Text → ℤ → SendResult
failed class status code description retry_after = record {
  classification = class;
  http_status = status;
  error_code = code;
  description = description;
  retry_after = retry_after;
  message_id = pos 0;
  provider_message_id = [];
  truncated = false;
}

-- time.Duration(seconds) * time.Second, in the int64 that holds it.
unfoldable pub retry_after_duration : Option ℤ → ℤ
retry_after_duration none = pos 0
retry_after_duration (some (pos n)) =
    let ns = n * 1000000000 % 2 ^ 64 in if ltb ns (2 ^ 63) then pos ns else negsuc (2 ^ 64 - ns - 1)
retry_after_duration (some (negsuc n)) = pos 0

abbrev transport_description : ContextError → Bool → Text
transport_description deadline_exceeded timeout =
    bytes "request deadline exceeded; outcome is unknown"
transport_description canceled timeout = bytes "request was canceled; outcome is unknown"
transport_description no_error true = bytes "request timed out; outcome is unknown"
transport_description no_error false =
    bytes "request failed before a complete Telegram response was received"

-- Only a request that was never written may be sent again.
unfoldable pub transport_error : ContextError → (timeout wrote_request : Bool) → SendResult
transport_error context timeout wrote_request =
    if not wrote_request
    then failed retryable (pos 0) (pos 0) (bytes "request failed before it was sent") (pos 0)
    else failed ambiguous (pos 0) (pos 0) (transport_description context timeout) (pos 0)

unfoldable pub response_error : ℤ → Text → SendResult
response_error status description = failed ambiguous status (pos 0) description (pos 0)

-- protocol.SanitizeMessage for a positive limit.
unfoldable pub sanitize_message : Text → ℕ → Text
sanitize_message text limit =
    let text' = drop_controls (trim_space text) in
    if ltb limit (length text') then longest_valid limit text' else text'

-- An outcome of `do`: the decoded result of a success with its status, or the error.
pub data Outcome (A : Type 0) : Type 0 where
  sent : (status : ℤ) → A → Outcome A
  error : SendResult → Outcome A

unfoldable pub redact_secrets : List Text → Text → Text
redact_secrets [] value = value
redact_secrets (secret ∷ secrets) value =
    let plain = replace_all value secret (bytes "[REDACTED]") in
    let path = replace_all plain (path_escape secret) (bytes "[REDACTED]") in
    let query = replace_all path (query_escape secret) (bytes "[REDACTED]") in
    if secret == [] then redact_secrets secrets value else redact_secrets secrets query

max_provider_description : ℕ
max_provider_description = 1024

-- The secrets are the bot token and those of the request.
unfoldable pub safe_description : List Text → Text → Text
unfolding redact_secrets sanitize_message max_provider_description
safe_description secrets value =
    sanitize_message (redact_secrets secrets value) max_provider_description

module _ {A : Type 0} (bot_token : Text) (extra_secrets : List Text) where
  unfoldable pub rejection : ℤ → ApiEnvelope A → SendResult
  rejection status e =
      let description = safe_description (bot_token ∷ extra_secrets) e.description in
      failed (classify_telegram_failure status e.error_code) status e.error_code
        (if description == [] then bytes "Telegram rejected the request" else description)
        (retry_after_duration e.retry_after)

  abbrev pub accepted : ℤ → Result A → Outcome A
  accepted status missing = error (response_error status (bytes "response omitted result"))
  accepted status invalid = error (response_error status (bytes "response result was invalid"))
  accepted status (decoded m) = sent status m

  abbrev pub enveloped : ℤ → ApiEnvelope A → Option Bool → Outcome A
  enveloped status e none = error (response_error status (bytes "response omitted result status"))
  enveloped status e (some false) = error (rejection status e)
  enveloped status e (some true) = accepted status e.result

  -- Client.do
  unfoldable pub do_request : Reply A → Outcome A
  do_request not_encoded =
      error (failed non_retryable (pos 0) (pos 0) (bytes "request could not be encoded") (pos 0))
  do_request not_created =
      error (failed non_retryable (pos 0) (pos 0) (bytes "request could not be created") (pos 0))
  do_request (transport_failed context timeout wrote) =
      error (transport_error context timeout wrote)
  do_request (unreadable status) =
      error (response_error status (bytes "response body could not be read"))
  do_request (oversized status) =
      error (response_error status (bytes "response body exceeded limit"))
  do_request (not_json status) = error (response_error status (bytes "response was not valid JSON"))
  do_request (trailing_data status) =
      error (response_error status (bytes "response contained trailing data"))
  do_request (envelope status e) = enveloped status e e.ok
