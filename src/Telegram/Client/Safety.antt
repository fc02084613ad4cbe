-- ===== src/Telegram/Client/Safety.antt =====
-- internal/telegram/client.go: what a classification says about what Telegram answered.
use orka_gateway_telegram.Prelude.{
  ◌≡◌, ◌≢◌, refl, inl, inr, Bool, true, false, Option, none, some, List, [], Text, arith,
  Option-cases, Bool-cases,
}
use orka_gateway_telegram.Prelude.Int.{ℤ}
use orka_gateway_telegram.Telegram.ReplyTarget.{ReplyTarget, validate}
use orka_gateway_telegram.Telegram.Client.{
  retryable, SentMessage, ApiEnvelope, Reply, transport_failed, envelope, classify_telegram_failure,
  transport_error, response_error, rejection, do_request, accepted, missing, invalid, decoded,
  Result, enveloped,
}
use orka_gateway_telegram.Telegram.Client.Send.{
  send_result, valid_outbound_text, message_request, send_message, SendMessageRequest,
  truncate_telegram_text,
}

-- Telegram cannot have accepted the message: the request was not written, or Telegram answered
-- that it refuses it with a code that classifies as retryable.
abbrev pub NotAccepted : Reply SentMessage → Type 0
NotAccepted (transport_failed context timeout wrote) = wrote ≡ false
NotAccepted (envelope status e) =
    (e.ok ≡ some false) × (classify_telegram_failure status e.error_code ≡ retryable)
NotAccepted _ = ⊥

module _ (bot_token : Text) (extra_secrets : List Text) where
  accepted-ne-retryable :
      (t : ReplyTarget) (truncated : Bool) (status : ℤ) (r : Result SentMessage)
      → (send_result t truncated (accepted bot_token extra_secrets status r)).classification
        ≢ retryable
  unfolding send_result response_error
  accepted-ne-retryable t truncated status missing h = cc
  accepted-ne-retryable t truncated status invalid h = cc
  accepted-ne-retryable t truncated status (decoded m) h = ground arith

  enveloped-retryable :
      (t : ReplyTarget) (truncated : Bool) (status : ℤ) (e : ApiEnvelope SentMessage)
      (o : Option Bool)
      → (send_result t truncated (enveloped bot_token extra_secrets status e o)).classification
        ≡ retryable
      → (o ≡ some false) × (classify_telegram_failure status e.error_code ≡ retryable)
  unfolding send_result rejection response_error
  enveloped-retryable t truncated status e none h = cc
  enveloped-retryable t truncated status e (some false) h = (refl, h)
  enveloped-retryable t truncated status e (some true) h =
      absurd (accepted-ne-retryable t truncated status e.result h)

  do_request-retryable :
      (t : ReplyTarget) (truncated : Bool) (reply : Reply SentMessage)
      → (send_result t truncated (do_request bot_token extra_secrets reply)).classification
        ≡ retryable
      → NotAccepted reply
  unfolding do_request send_result transport_error response_error
  do_request-retryable t truncated (transport_failed context timeout wrote) h = ground arith
  do_request-retryable t truncated (envelope status e) h =
      enveloped-retryable t truncated status e e.ok h
  do_request-retryable t truncated _ h = cc

module _ (graphemes : Text → List Text) (bot_token : Text) where
  -- SendMessage classifies a send as retryable only if its request was not written, or Telegram
  -- refused it with a code that classifies as retryable.
  pub send_message-retryable :
      (exchange : SendMessageRequest → Reply SentMessage) (t : ReplyTarget) (text : Text)
      → (send_message graphemes bot_token exchange t text).classification ≡ retryable
      → NotAccepted (exchange (message_request graphemes t text))
  unfolding send_message
  send_message-retryable exchange t text h = elim (Option-cases (validate t)) [
    | inr (why, e) ↦ ground arith
    | inl e ↦ elim (Bool-cases (valid_outbound_text text)) [
      | inr bad ↦ ground arith
      | inl good ↦
          do_request-retryable bot_token [] t (truncate_telegram_text graphemes text).1
            (exchange (message_request graphemes t text)) (ground arith)
    ]
  ]
