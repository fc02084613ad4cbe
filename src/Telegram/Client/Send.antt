-- ===== src/Telegram/Client/Send.antt =====
-- internal/telegram/client.go: SendMessage, from the checks of its text to the classified result.
use orka_gateway_telegram.Prelude.{
  ℕ, ◌+◌, ◌-◌, Bool, true, false, not, ◌&&◌, ◌||◌, Option, none, some, List, [], ◌∷◌, ◌++◌, Text,
  bytes, ltb, leb, eqb, length, ◌==◌, if◌then◌else◌,
}
use orka_gateway_telegram.Prelude.Int.{ℤ, pos, same_int, is_not_positive}
use orka_gateway_telegram.Text.Utf8.{valid_string, is_control, contains_func, rune_count}
use orka_gateway_telegram.Text.Decimal.{format_int}
use orka_gateway_telegram.Telegram.ReplyTarget.{ReplyTarget, validate}
use orka_gateway_telegram.Telegram.Client.{
  delivered, non_retryable, SendResult, SentMessage, Reply, response_error, Outcome, sent, error,
  do_request, failed,
}

max_text_bytes : ℕ
max_text_bytes = 65536

-- A control rune other than a line feed, a carriage return and a tab.
unfoldable pub is_unsafe_control : Text → Bool
is_unsafe_control [] = false
is_unsafe_control (b ∷ s) = is_control (b ∷ s) && not (eqb b 10) && not (eqb b 13) && not (eqb b 9)

unfoldable pub valid_outbound_text : Text → Bool
unfolding max_text_bytes
valid_outbound_text text =
    not (text == [])
    && leb (length text) max_text_bytes
    && valid_string text
    && not (contains_func is_unsafe_control text)

abbrev pub validation_error : Text → SendResult
validation_error description = failed non_retryable (pos 0) (pos 0) description (pos 0)

-- The checks of the message that Telegram says it sent.
unfoldable pub is_for_target : ReplyTarget → SentMessage → Bool
is_for_target t m =
    not (is_not_positive m.message_id)
    && same_int m.chat_id t.chat_id
    && (is_not_positive t.thread_id || same_int m.message_thread_id t.thread_id)

unfoldable pub send_result : ReplyTarget → Bool → Outcome SentMessage → SendResult
send_result t truncated (error r) = r
send_result t truncated (sent status m) =
    if is_for_target t m
    then record {
      classification = delivered;
      http_status = status;
      error_code = pos 0;
      description = [];
      retry_after = pos 0;
      message_id = m.message_id;
      provider_message_id =
          bytes "telegram:" ++ (format_int t.chat_id ++ b':' ∷ format_int m.message_id);
      truncated = truncated;
    }
    else response_error status (bytes "invalid message result")

abbrev pub telegram_truncation_suffix : Text
telegram_truncation_suffix = 10 ∷ 10 ∷ bytes "[response truncated to fit Telegram]"

abbrev pub telegram_send_message_max_characters : ℕ
telegram_send_message_max_characters = 4096

-- The loop over grapheme clusters.
unfoldable pub take_clusters : ℕ → ℕ → List Text → Text
take_clusters limit used [] = []
take_clusters limit used (cluster ∷ clusters) =
    let rest = take_clusters limit (used + rune_count cluster) clusters in
    if ltb limit (used + rune_count cluster) then [] else cluster ++ rest

pub record SendMessageRequest : Type 0 where
  pub chat_id : ℤ
  pub message_thread_id : ℤ
  pub text : Text
  pub reply_to : Option ℤ

-- `graphemes` stands for github.com/rivo/uniseg.
module _ (graphemes : Text → List Text) where
  unfoldable pub truncate_telegram_text : Text → Text × Bool
  unfolding take_clusters
  truncate_telegram_text text =
      if leb (rune_count text) telegram_send_message_max_characters then (text, false) else (
        take_clusters (telegram_send_message_max_characters - rune_count telegram_truncation_suffix)
              0 (graphemes text)
            ++ telegram_truncation_suffix,
        true,
      )

  unfoldable pub message_request : ReplyTarget → Text → SendMessageRequest
  message_request t text = record {
    chat_id = t.chat_id;
    message_thread_id = t.thread_id;
    text = (truncate_telegram_text text).0;
    reply_to = if is_not_positive t.message_id then none else some t.message_id;
  }

  -- Client.SendMessage, over what the exchange of a request comes to.
  unfoldable pub send_message :
      (bot_token : Text)
      → (SendMessageRequest → Reply SentMessage)
      → ReplyTarget
      → Text
      → SendResult
  send_message bot_token exchange t text = elim (validate t) [
    | some message ↦ validation_error message
    | none ↦
        if not (valid_outbound_text text)
        then validation_error (bytes "message text is invalid")
        else send_result t (truncate_telegram_text text).1
            (do_request bot_token [] (exchange (message_request t text)))
  ]
