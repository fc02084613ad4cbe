-- ===== src/Telegram/Mapping.antt =====
-- internal/telegram/mapping.go: from a Telegram update to an event of the gateway protocol.
pub mod Sanitized
pub mod Fields
pub mod Texts
use orka_gateway_telegram.Prelude.{
  ℕ, ◌+◌, Bool, true, false, not, ◌&&◌, ◌||◌, Option, none, some, List, [], ◌∷◌, ◌++◌, Text,
  Text-discrete, bytes, length, ltb, eqb, ◌==◌, if◌then◌else◌,
}
use orka_gateway_telegram.Prelude.Int.{ℤ, ℤ-discrete, pos, same_int, is_negative, is_not_positive}
use orka_gateway_telegram.Text.Space.{trim_space}
use orka_gateway_telegram.Text.Utf8.{valid_string}
use orka_gateway_telegram.Text.Decimal.{format_int}
use orka_gateway_telegram.Text.Runes.{
  Unicode, runes, to_valid_utf8, rune_len, encode_rune, is_space, is_control_rune,
}
use orka_gateway_telegram.Protocol.Types.{
  Sender, EventEnvelope, version, max_text_bytes, max_identity_bytes, max_metadata_value_bytes,
}
use orka_gateway_telegram.Telegram.ReplyTarget.{format_reply_target}
use orka_gateway_telegram.Telegram.Update.{
  User, Chat, TextQuote, Body, Message, Update, body, reply_to_message,
}

-- What MapUpdate returns: an event, ErrUnsupportedUpdate, or an error that is ErrInvalidUpdate.
pub data Mapped : Type 0 where
  event : EventEnvelope → Mapped
  unsupported invalid : Mapped

unfoldable pub is_private_text_update : Update → Bool
is_private_text_update u = elim u.message [
  | none ↦ false
  | some m ↦ (body m).chat.type == bytes "private" && not ((body m).text == [])
]

-- One round of the loop of SanitizeDisplayName and of sanitizeMetadataText: the loop goes on with
-- the pending space and the builder, or it stops with the builder.
pub data Scan : Type 0 where
  next : Bool → Text → Scan
  stopped : Text → Scan

unfoldable pub write_rune : ℕ → Text → ℕ → Scan
write_rune limit out r = elim (rune_len r) [
  | none ↦ stopped out
  | some n ↦ if ltb limit (length out + n) then stopped out else next false (out ++ encode_rune r)
]

-- A control rune other than a line feed, a carriage return and a tab.
unfoldable pub is_refused_control : ℕ → Bool
is_refused_control r = is_control_rune r && not (eqb r 10) && not (eqb r 13) && not (eqb r 9)

-- The guard that validMessageText and ignorableMessageText begin with.
unfoldable pub is_malformed_text : Text → Bool
is_malformed_text text = text == [] || ltb max_text_bytes (length text) || not (valid_string text)

module _ (u : Unicode) where
  unfoldable pub is_default_ignorable : ℕ → Bool
  is_default_ignorable r = elim u.other_default_ignorable [ none ↦ false | some f ↦ f r ]

  unfoldable pub is_invisible_mark : ℕ → Bool
  is_invisible_mark r = u.mn r || u.me r

  unfoldable pub scan_rune : ℕ → Bool → Text → ℕ → Scan
  scan_rune limit pending out r =
      if is_space r
      then next (pending || not (out == [])) out
      else if is_control_rune r || u.cf r || is_default_ignorable r
      then next pending out
      else if pending
      then (if ltb limit (length out + 1) then stopped out else write_rune limit (out ++ 32 ∷ []) r)
      else write_rune limit out r

  unfoldable pub scan : ℕ → Bool → Text → List ℕ → Text
  scan limit pending out [] = out
  scan limit pending out (r ∷ rs) = elim (scan_rune limit pending out r) [
    | stopped out' ↦ out'
    | next pending' out' ↦ scan limit pending' out' rs
  ]

  -- The body that the two functions share, with its limit.
  unfoldable pub sanitize : ℕ → Text → Text
  sanitize limit value = trim_space (scan limit false [] (runes (to_valid_utf8 value)))

  unfoldable pub sanitize_display_name : Text → Text
  sanitize_display_name value = sanitize max_identity_bytes value

  unfoldable pub sanitize_metadata_text : Text → Text
  sanitize_metadata_text value = sanitize max_metadata_value_bytes value

  unfoldable pub display_name : User → Text
  display_name user =
      let name = sanitize_display_name (trim_space (user.first_name ++ 32 ∷ user.last_name)) in
      if name == [] then sanitize_display_name user.username else name

  unfoldable pub is_visible : ℕ → Bool
  is_visible r =
      not (is_space r)
      && not (is_control_rune r)
      && not (u.cf r)
      && not (is_invisible_mark r)
      && not (is_default_ignorable r)

  unfoldable pub visible_text : Bool → List ℕ → Bool
  visible_text seen [] = seen
  visible_text seen (r ∷ rs) =
      let rest = visible_text (seen || is_visible r) rs in
      if is_refused_control r then false else rest

  unfoldable pub invisible_text : List ℕ → Bool
  invisible_text [] = true
  invisible_text (r ∷ rs) =
      let rest = invisible_text rs in if is_refused_control r || is_visible r then false else rest

  unfoldable pub valid_message_text : Text → Bool
  valid_message_text text =
      if is_malformed_text text then false else visible_text false (runes text)

  unfoldable pub ignorable_message_text : Text → Bool
  ignorable_message_text text =
      if is_malformed_text text then false else invisible_text (runes text)

  -- metadata[key] = text, if the sanitized text is not empty.
  unfoldable pub text_entry : Text → Text → List (Text × Text)
  text_entry key value =
      let text = sanitize_metadata_text value in if text == [] then [] else (key, text) ∷ []

  unfoldable pub reply_entries : Option Message → List (Text × Text)
  reply_entries none = []
  reply_entries (some m) =
      if is_not_positive (body m).message_id
      then []
      else (bytes "replyToMessageId", format_int (body m).message_id)
        ∷ text_entry (bytes "replyToText") (body m).text

  unfoldable pub quote_entries : Option TextQuote → List (Text × Text)
  quote_entries none = []
  quote_entries (some q) = text_entry (bytes "quoteText") q.text

  unfoldable pub reply_metadata : Option Message → List (Text × Text)
  reply_metadata none = []
  reply_metadata (some m) = reply_entries (reply_to_message m) ++ quote_entries (body m).quote

  unfoldable pub event_of : ℤ → ℤ → Message → User → EventEnvelope
  event_of bot_id update_id m from = record {
    protocol_version = version;
    external_event_id = bytes "telegram:" ++ (format_int bot_id ++ b':' ∷ format_int update_id);
    event_type = bytes "text";
    account_id = format_int bot_id;
    context_id = format_int (body m).chat.id;
    thread_id =
        if is_not_positive (body m).message_thread_id
        then []
        else format_int (body m).message_thread_id;
    sender = record { id = format_int from.id; display_name = display_name from };
    text = (body m).text;
    reply_target =
        format_reply_target (body m).chat.id (body m).message_thread_id (body m).message_id;
    occurred_at = some (body m).date;
    metadata = reply_metadata (some m);
  }

  unfoldable pub map_message : ℤ → ℤ → Message → Mapped
  map_message bot_id update_id m = elim (body m).from [
    | none ↦ invalid
    | some from ↦
        if is_not_positive bot_id
          || is_negative update_id
          || is_not_positive (body m).message_id
          || same_int (body m).chat.id (pos 0)
          || same_int from.id (pos 0)
          || is_not_positive (body m).date
        then invalid
        else if ignorable_message_text (body m).text
        then unsupported
        else if not (valid_message_text (body m).text)
        then invalid
        else event (event_of bot_id update_id m from)
  ]

  unfoldable pub map_update : ℤ → Update → Mapped
  map_update bot_id update =
      if not (is_private_text_update update)
      then unsupported
      else elim update.message [ none ↦ invalid | some m ↦ map_message bot_id update.update_id m ]

  -- UpdateToEvent
  unfoldable pub update_to_event : Update → ℤ → Mapped
  update_to_event update bot_id = map_update bot_id update

unfoldable pub mapping : Unit {0}
unfolding is_default_ignorable is_invisible_mark write_rune scan_rune scan sanitize
    sanitize_display_name sanitize_metadata_text display_name is_refused_control is_visible
    visible_text invisible_text is_malformed_text valid_message_text ignorable_message_text
    text_entry reply_entries quote_entries reply_metadata event_of map_message map_update
    is_private_text_update runes to_valid_utf8 rune_len encode_rune is_space is_control_rune
    valid_string trim_space format_int format_reply_target Text-discrete ℤ-discrete
mapping = tt
