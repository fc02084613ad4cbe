-- ===== src/Protocol/Validate.antt =====
-- internal/protocol/validate.go. The source's errors differ only in their text, which no caller
-- reads: a check is a Boolean here.
use orka_gateway_telegram.Prelude.{
  ℕ, ◌+◌, map, Bool, true, false, not, ◌&&◌, ◌||◌, Option, none, some, List, [], ◌∷◌, Text, bytes,
  ltb, leb, eqb, length, ◌==◌, if◌then◌else◌,
}
use orka_gateway_telegram.Text.Space.{trim_space}
use orka_gateway_telegram.Text.Cut.{fields}
use orka_gateway_telegram.Text.Utf8.{valid_string, is_control, contains_func}
use orka_gateway_telegram.Protocol.Types.{
  DeliveryRequest, IngressResponse, version, max_http_body_bytes, max_text_bytes,
  max_identity_bytes,
}

-- A control rune that `allow_newlines` does not let through.
unfoldable pub is_unsafe : Bool → Text → Bool
is_unsafe allow_newlines [] = false
is_unsafe allow_newlines (b ∷ s) =
    is_control (b ∷ s) && not (allow_newlines && (eqb b 10 || eqb b 13 || eqb b 9))

unfoldable pub contains_unsafe_control : Text → Bool → Bool
contains_unsafe_control value allow_newlines = contains_func (is_unsafe allow_newlines) value

unfoldable pub validate_required_identity : Text → Bool
validate_required_identity value =
    not (value == [])
    && value == trim_space value
    && leb (length value) max_identity_bytes
    && valid_string value
    && not (contains_unsafe_control value false)

unfoldable pub validate_delivery_request : DeliveryRequest → Bool
validate_delivery_request r =
    r.protocol_version == version
    && validate_required_identity r.delivery_id
    && validate_required_identity r.idempotency_id
    && validate_required_identity r.originating_event
    && validate_required_identity r.account_id
    && validate_required_identity r.context_id
    && validate_required_identity r.reply_target
    && (r.kind == bytes "final" || r.kind == bytes "error")
    && not (r.text == [])
    && leb (length r.text) max_text_bytes
    && valid_string r.text
    && not (contains_unsafe_control r.text true)

abbrev pub one_of : List Text → Text → Bool
one_of [] value = false
one_of (x ∷ xs) value = value == x || one_of xs value

unfoldable pub validate_ingress_response : IngressResponse → Bool
validate_ingress_response r =
    one_of (bytes "accepted" ∷ bytes "duplicate" ∷ bytes "rejected" ∷ bytes "deadLettered" ∷ [])
      r.status
    && validate_required_identity r.event_id
    && one_of
        (bytes "Accepted"
          ∷ bytes "Queued"
          ∷ bytes "Dispatching"
          ∷ bytes "TaskCreated"
          ∷ bytes "Completed"
          ∷ bytes "Rejected"
          ∷ bytes "DeadLettered"
          ∷ bytes "Expired"
          ∷ [])
        r.state
    && leb (length r.message) 1024
    && valid_string r.message
    && not (contains_unsafe_control r.message true)

-- DecodeDeliveryRequest. `decode` stands for the strict decoder of encoding/json on one value.
unfoldable pub decode_delivery_request :
    (Text → Option DeliveryRequest) → Text → Option DeliveryRequest
decode_delivery_request decode body =
    if body == [] || ltb max_http_body_bytes (length body) then none else elim (decode body) [
      | none ↦ none
      | some request ↦ if validate_delivery_request request then some request else none
    ]

-- ConstantTimeBearerEqual
unfoldable pub constant_time_bearer_equal : (got want : Text) → Bool
constant_time_bearer_equal got want =
    let got' = trim_space got in
    let want' = trim_space want in
    if got' == [] || want' == [] || not (eqb (length got') (length want'))
    then false
    else got' == want'

abbrev pub lower : ℕ → ℕ
lower c = if leb b'A' c && leb c b'Z' then c + 32 else c

-- strings.EqualFold with "Bearer": no rune outside ASCII folds to one of its letters.
unfoldable pub is_bearer : Text → Bool
is_bearer word = map lower word == bytes "bearer"

abbrev second_field : List Text → Text
second_field (scheme ∷ token ∷ []) = if is_bearer scheme then token else []
second_field _ = []

-- BearerToken
unfoldable pub bearer_token : Text → Text
bearer_token header = second_field (fields header)
