-- ===== src/Telegram/Tests.antt =====
-- Reply targets and sends, on small inputs.
pub mod Updates
use orka_gateway_telegram.Prelude.{◌≡◌, ◌≢◌, refl, false, none, some, List, [], ◌∷◌, Text, bytes}
use orka_gateway_telegram.Prelude.Int.{pos, negsuc}
use orka_gateway_telegram.Text.Space.{trim_space}
use orka_gateway_telegram.Telegram.ReplyTarget.{
  ReplyTarget, conformance_reply_target, to_text, validate, parse_reply_target, reply_targets,
}
use orka_gateway_telegram.Telegram.ReplyTarget.Canonical.{to_text-parse_reply_target}
use orka_gateway_telegram.Telegram.Client.{
  SentMessage, Reply, envelope, missing, classify_telegram_failure, do_request, rejection,
}
use orka_gateway_telegram.Telegram.Client.Send.{
  SendMessageRequest, send_message, message_request, valid_outbound_text, is_unsafe_control,
  send_result,
}
use orka_gateway_telegram.Text.Utf8.{valid_string, contains_func, is_control}
use orka_gateway_telegram.Telegram.Client.Safety.{NotAccepted, send_message-retryable}

abbrev chat_5 : ReplyTarget
chat_5 = record { chat_id = negsuc 4; thread_id = pos 0; message_id = pos 17 }

parse_test : parse_reply_target (bytes " tg:v1:-5:0:17") (pos 0) ≡ some chat_5
unfolding reply_targets
parse_test = refl

padded_test : parse_reply_target (bytes "tg:v1:-05:0:17") (pos 0) ≡ none
unfolding reply_targets
padded_test = refl

to_text-parse_reply_target_example :
    (to_text chat_5 ≡ trim_space (bytes " tg:v1:-5:0:17")) × (validate chat_5 ≡ none)
unfolding reply_targets
to_text-parse_reply_target_example =
    to_text-parse_reply_target (bytes " tg:v1:-5:0:17") (pos 0) chat_5 not_conformance refl
  where
    not_conformance : trim_space (bytes " tg:v1:-5:0:17") ≢ conformance_reply_target
    not_conformance h = cc

-- Telegram asks to slow down.
abbrev busy : SendMessageRequest → Reply SentMessage
busy request = envelope (pos 429) (record {
  ok = some false;
  result = missing;
  error_code = pos 429;
  description = bytes "Too Many Requests";
  retry_after = some (pos 3);
})

abbrev one_grapheme : Text → List Text
one_grapheme text = text ∷ []

send_message-retryable_example :
    NotAccepted (busy (message_request one_grapheme chat_5 (bytes "hi")))
unfolding reply_targets send_message classify_telegram_failure valid_outbound_text valid_string
    contains_func is_unsafe_control is_control send_result do_request rejection
send_message-retryable_example =
    send_message-retryable one_grapheme (bytes "12:AB") busy chat_5 (bytes "hi") refl
