-- ===== src/Telegram/Tests/Updates.antt =====
-- Updates and their events, on small inputs.
use orka_gateway_telegram.Prelude.{
  ◌≡◌, refl, true, false, not, ◌&&◌, none, some, [], ◌∷◌, Text, bytes, eqb, leb, arith,
  if◌then◌else◌,
}
use orka_gateway_telegram.Prelude.Int.{pos, negsuc}
use orka_gateway_telegram.Text.Runes.{Unicode, runes}
use orka_gateway_telegram.Telegram.ReplyTarget.{parse_reply_target, reply_targets}
use orka_gateway_telegram.Telegram.ReplyTarget.RoundTrip.{parse_reply_target-to_text}
use orka_gateway_telegram.Telegram.Update.{User, Chat, Body, plain, reply, Update}
use orka_gateway_telegram.Telegram.Mapping.{
  is_refused_control, is_visible, is_malformed_text, valid_message_text, ignorable_message_text,
  display_name, reply_metadata, mapping,
}
use orka_gateway_telegram.Telegram.Mapping.Texts.{some_rune, text_checks_lem}

-- U+00AD and U+200B are format characters, U+0301 is a mark.
abbrev pub some_unicode : Unicode
some_unicode = record {
  cf = λ r. if eqb r 0xAD then true else leb 0x200B r && leb r 0x200F;
  mn = λ r. eqb r 0x301;
  me = λ r. false;
  other_default_ignorable = some (λ r. eqb r 0x3164);
}

abbrev pub ada : User
ada = record {
  id = pos 7;
  is_bot = false;
  first_name = bytes " Ada ";
  last_name = bytes "L.";
  username = bytes "ada";
  language_code = [];
}

abbrev pub private_chat : Chat
private_chat = record {
  id = pos 5;
  type = bytes "private";
  first_name = [];
  last_name = [];
  username = [];
  title = [];
}

abbrev pub hello : Body
hello = record {
  message_id = pos 17;
  message_thread_id = pos 0;
  from = some ada;
  date = pos 1700000000;
  chat = private_chat;
  text = bytes "hello";
  quote = some (record { text = bytes "a\tb" });
}

abbrev pub hello_update : Update
hello_update = record {
  update_id = pos 3;
  message = some (reply hello (plain hello));
  edited_message = none;
  channel_post = none;
}

name_test : display_name some_unicode ada ≡ bytes "Ada L."
unfolding mapping
name_test = refl

metadata_test :
    reply_metadata some_unicode (some (reply hello (plain hello)))
    ≡ (bytes "replyToMessageId", bytes "17")
      ∷ (bytes "replyToText", bytes "hello")
      ∷ (bytes "quoteText", bytes "a b")
      ∷ []
unfolding mapping
metadata_test = refl

parse_reply_target-to_text_example :
    parse_reply_target (bytes "tg:v1:-5:0:17") (pos 1)
    ≡ some (record { chat_id = negsuc 4; thread_id = pos 0; message_id = pos 17 })
unfolding reply_targets
parse_reply_target-to_text_example =
    parse_reply_target-to_text
      (record { chat_id = negsuc 4; thread_id = pos 0; message_id = pos 17 }) (pos 1)
      (omega arith, omega arith, omega arith) refl

text_checks_lem_example :
    (valid_message_text some_unicode (bytes " hi") ≡ (
      not (is_malformed_text (bytes " hi"))
      && (not (some_rune is_refused_control (runes (bytes " hi")))
          && some_rune (is_visible some_unicode) (runes (bytes " hi")))))
    × (ignorable_message_text some_unicode (bytes " hi") ≡ (
        not (is_malformed_text (bytes " hi"))
        && (not (some_rune is_refused_control (runes (bytes " hi")))
            && not (some_rune (is_visible some_unicode) (runes (bytes " hi"))))))
text_checks_lem_example = text_checks_lem some_unicode (bytes " hi")
