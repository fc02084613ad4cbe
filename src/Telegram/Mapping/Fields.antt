-- ===== src/Telegram/Mapping/Fields.antt =====
-- internal/telegram/mapping.go, MapUpdate: the fields of an event.
use orka_gateway_telegram.Prelude.{
  ◌≡◌, Bool, true, false, ◌||◌, inl, inr, some, arith, Bool-cases, Option-cases,
}
use orka_gateway_telegram.Prelude.Int.{ℤ, pos, same_int, is_negative, is_not_positive}
use orka_gateway_telegram.Text.Runes.{Unicode}
use orka_gateway_telegram.Protocol.Types.{EventEnvelope}
use orka_gateway_telegram.Telegram.Update.{Update, User, Message, body}
use orka_gateway_telegram.Telegram.Mapping.{
  event, is_private_text_update, ignorable_message_text, valid_message_text, event_of, map_message,
  map_update,
}

-- An update with a message that MapUpdate maps to an event.
pub record Accepted (u : Unicode) (bot_id : ℤ) (update : Update) : Type 0 where
  pub message : Message
  pub from : User
  pub has_message : update.message ≡ some message
  pub has_from : (body message).from ≡ some from
  pub private_text : is_private_text_update update ≡ true
  pub bot_positive : is_not_positive bot_id ≡ false
  pub update_not_negative : is_negative update.update_id ≡ false
  pub message_positive : is_not_positive (body message).message_id ≡ false
  pub chat_not_zero : same_int (body message).chat.id (pos 0) ≡ false
  pub user_not_zero : same_int from.id (pos 0) ≡ false
  pub date_positive : is_not_positive (body message).date ≡ false
  pub valid_text : valid_message_text u (body message).text ≡ true

module _ (u : Unicode) where
  -- The guards of MapUpdate, in the order in which it tests them.
  abbrev is_incomplete : ℤ → ℤ → Message → User → Bool
  is_incomplete bot_id update_id m from =
      is_not_positive bot_id
      || is_negative update_id
      || is_not_positive (body m).message_id
      || same_int (body m).chat.id (pos 0)
      || same_int from.id (pos 0)
      || is_not_positive (body m).date

  map_message-from :
      (bot_id update_id : ℤ) (m : Message) (from : User) (ev : EventEnvelope)
      → (body m).from ≡ some from
      → map_message u bot_id update_id m ≡ event ev
      → (is_incomplete bot_id update_id m from ≡ false)
        × (valid_message_text u (body m).text ≡ true)
        × (ev ≡ event_of u bot_id update_id m from)
  unfolding map_message
  map_message-from bot_id update_id m from ev e h =
      elim (Bool-cases (is_incomplete bot_id update_id m from)) [
        | inl x ↦ ground arith
        | inr x ↦ elim (Bool-cases (ignorable_message_text u (body m).text)) [
          | inl y ↦ ground arith
          | inr y ↦ elim (Bool-cases (valid_message_text u (body m).text)) [
            | inl z ↦ (x, z, ground arith)
            | inr z ↦ ground arith
          ]
        ]
      ]

  map_update-message :
      (bot_id : ℤ) (update : Update) (ev : EventEnvelope)
      → map_update u bot_id update ≡ event ev
      → (is_private_text_update update ≡ true)
        × (m : Message) × (update.message ≡ some m)
        × (map_message u bot_id update.update_id m ≡ event ev)
  unfolding map_update
  map_update-message bot_id update ev h = elim (Bool-cases (is_private_text_update update)) [
    | inl x ↦ elim (Option-cases update.message) [
      | inl y ↦ ground arith
      | inr (m, y) ↦ (x, m, y, ground arith)
    ]
    | inr x ↦ ground arith
  ]

  from-some :
      (bot_id update_id : ℤ) (m : Message) (ev : EventEnvelope)
      → map_message u bot_id update_id m ≡ event ev
      → (from : User) × ((body m).from ≡ some from)
  unfolding map_message
  from-some bot_id update_id m ev h = elim (Option-cases (body m).from) [
    | inl e ↦ ground arith
    | inr (from, e) ↦ (from, e)
  ]

  -- An update that is mapped to an event is accepted, and the event is made from its fields.
  pub map_update-Accepted :
      (bot_id : ℤ) (update : Update) (ev : EventEnvelope)
      → map_update u bot_id update ≡ event ev
      → (a : Accepted u bot_id update) × (ev ≡ event_of u bot_id update.update_id a.message a.from)
  map_update-Accepted bot_id update ev h =
      let (p, m, e, k) = map_update-message bot_id update ev h in
      let (from, f) = from-some bot_id update.update_id m ev k in
      let (g, v, same) = map_message-from bot_id update.update_id m from ev f k in
      (
        record {
          message = m;
          from = from;
          has_message = e;
          has_from = f;
          private_text = p;
          bot_positive = ground arith;
          update_not_negative = ground arith;
          message_positive = ground arith;
          chat_not_zero = ground arith;
          user_not_zero = ground arith;
          date_positive = ground arith;
          valid_text = v;
        },
        same,
      )
