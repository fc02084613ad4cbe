-- ===== src/Telegram/Update.antt =====
-- internal/telegram/types.go: the updates that the webhook decodes.
use orka_gateway_telegram.Prelude.{Bool, Option, none, some, Text}
use orka_gateway_telegram.Prelude.Int.{ℤ}

pub record User : Type 0 where
  pub id : ℤ
  pub is_bot : Bool
  pub first_name : Text
  pub last_name : Text
  pub username : Text
  pub language_code : Text

pub record Chat : Type 0 where
  pub id : ℤ
  pub type : Text
  pub first_name : Text
  pub last_name : Text
  pub username : Text
  pub title : Text

pub record TextQuote : Type 0 where
  pub text : Text

-- The fields of a Message but ReplyToMessage.
pub record Body : Type 0 where
  pub message_id : ℤ
  pub message_thread_id : ℤ
  pub from : Option User
  pub date : ℤ
  pub chat : Chat
  pub text : Text
  pub quote : Option TextQuote

-- A Message whose ReplyToMessage is nil, or one that replies to another.
pub data Message : Type 0 where
  plain : Body → Message
  reply : Body → Message → Message

abbrev pub body : Message → Body
body (plain b) = b
body (reply b _) = b

abbrev pub reply_to_message : Message → Option Message
reply_to_message (plain _) = none
reply_to_message (reply _ m) = some m

pub record Update : Type 0 where
  pub update_id : ℤ
  pub message : Option Message
  pub edited_message : Option Message
  pub channel_post : Option Message
