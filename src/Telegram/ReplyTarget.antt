-- ===== src/Telegram/ReplyTarget.antt =====
-- internal/telegram/reply_target.go, and ReplyTarget of types.go. The source's errors differ only in
-- their text, which no caller reads: here they are `none`.
pub mod Canonical
pub mod RoundTrip
use orka_gateway_telegram.Prelude.{
  ℕ, ◌≡◌, refl, Bool, true, false, not, ◌&&◌, ◌||◌, Option, none, some, List, [], ◌∷◌, ◌++◌, Text,
  Text-discrete, bytes, eqb, ◌==◌, if◌then◌else◌,
}
use orka_gateway_telegram.Prelude.Int.{ℤ, pos, negsuc, ℤ-discrete, same_int, is_negative}
use orka_gateway_telegram.Text.Space.{trim_space}
use orka_gateway_telegram.Text.Split.{split}
use orka_gateway_telegram.Text.Decimal.{format_int, parse_int}

pub record ReplyTarget : Type 0 where
  pub chat_id : ℤ
  pub thread_id : ℤ
  pub message_id : ℤ

abbrev pub reply_target_prefix : Text
reply_target_prefix = bytes "tg:v1:"

abbrev pub conformance_reply_target : Text
conformance_reply_target = bytes "conformance"

-- ReplyTarget.String
unfoldable pub to_text : ReplyTarget → Text
to_text t =
    reply_target_prefix
    ++ (format_int t.chat_id ++ b':' ∷ (format_int t.thread_id ++ b':' ∷ format_int t.message_id))

unfoldable pub format_reply_target : ℤ → ℤ → ℤ → Text
unfolding to_text
format_reply_target chat thread message =
    to_text (record { chat_id = chat; thread_id = thread; message_id = message })

-- ReplyTarget.Validate: the message of its error.
unfoldable pub validate : ReplyTarget → Option Text
validate t =
    if same_int t.chat_id (pos 0)
    then some (bytes "telegram reply target chat id is required")
    else if is_negative t.thread_id
    then some (bytes "telegram reply target thread id is invalid")
    else if is_negative t.message_id
    then some (bytes "telegram reply target message id is invalid")
    else none

unfoldable pub starts_with_plus : Text → Bool
starts_with_plus [] = false
starts_with_plus (c ∷ _) = eqb c b'+'

unfoldable pub parse_canonical_int64 : Text → Option ℤ
parse_canonical_int64 value =
    if value == [] || not (trim_space value == value) || starts_with_plus value
    then none
    else elim (parse_int value) [
      | none ↦ none
      | some n ↦ if format_int n == value then some n else none
    ]

infixl 5 ◌>>=◌
abbrev pub ◌>>=◌ : {A B : Type 0} → Option A → (A → Option B) → Option B
none >>= f = none
some a >>= f = f a

abbrev pub checked : ReplyTarget → Option ReplyTarget
checked t = elim (validate t) [ none ↦ some t | some _ ↦ none ]

-- The five parts of a target: "tg", "v1" and three numbers.
unfoldable pub parse_parts : List Text → Option ReplyTarget
parse_parts (tag ∷ version ∷ chat ∷ thread ∷ message ∷ []) =
    if not (tag == bytes "tg") || not (version == bytes "v1") then none else do
      chat_id ← parse_canonical_int64 chat
      thread_id ← parse_canonical_int64 thread
      message_id ← parse_canonical_int64 message
      checked (record { chat_id = chat_id; thread_id = thread_id; message_id = message_id })
parse_parts _ = none

-- The conformance target stands for the chat that the caller gives, without a thread or a message.
unfoldable pub parse_reply_target : Text → ℤ → Option ReplyTarget
parse_reply_target value conformance_chat_id =
    let value' = trim_space value in
    if value' == conformance_reply_target
    then checked (record { chat_id = conformance_chat_id; thread_id = pos 0; message_id = pos 0 })
    else parse_parts (split b':' value')

unfoldable pub reply_targets : Unit {0}
unfolding Text-discrete ℤ-discrete trim_space split format_int parse_int to_text validate
    starts_with_plus parse_canonical_int64 parse_parts parse_reply_target
reply_targets = tt
