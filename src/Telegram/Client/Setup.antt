-- ===== src/Telegram/Client/Setup.antt =====
-- internal/telegram/client.go: the identity of the bot, and the webhook. An error is a `SendResult`
-- that is `failed`, as in the other operations of the client. Package net/url is a parameter.
use orka_gateway_telegram.Prelude.{
  ℕ, Bool, true, false, not, ◌&&◌, ◌||◌, Option, none, some, List, [], ◌∷◌, ◌++◌, Text, bytes, ltb,
  leb, eqb, length, ◌==◌, if◌then◌else◌,
}
use orka_gateway_telegram.Prelude.Int.{is_not_positive}
use orka_gateway_telegram.Text.Space.{trim_space, space_len}
use orka_gateway_telegram.Text.Utf8.{is_control, contains_func}
use orka_gateway_telegram.Text.Cut.{trim_right_of}
use orka_gateway_telegram.Telegram.Update.{User}
use orka_gateway_telegram.Telegram.Client.{
  SendResult, Reply, Outcome, sent, error, do_request, response_error,
}
use orka_gateway_telegram.Telegram.Client.Send.{validation_error}

-- The parts of a url.URL that the client reads.
pub record Url : Type 0 where
  pub scheme : Text
  pub host : Text
  pub has_user : Bool
  pub raw_query : Text
  pub fragment : Text
  pub path : Text

-- The call failed with an error, or it gave a value.
pub data Called (A : Type 0) : Type 0 where
  done : A → Called A
  refused : SendResult → Called A

-- A byte of "/\?#" or a rune that is white space or a control.
unfoldable pub is_bad_token_byte : ℕ → Bool
is_bad_token_byte c = eqb c b'/' || eqb c 92 || eqb c b'?' || eqb c b'#'

unfoldable pub starts_badly : Text → Bool
unfolding is_bad_token_byte
starts_badly [] = false
starts_badly (c ∷ s) = is_bad_token_byte c || not (eqb (space_len (c ∷ s)) 0) || is_control (c ∷ s)

unfoldable pub valid_bot_token : Text → Bool
valid_bot_token token =
    not (token == []) && leb (length token) 512 && not (contains_func starts_badly token)

unfoldable pub is_secret_byte : ℕ → Bool
is_secret_byte c =
    (leb b'a' c && leb c b'z')
    || (leb b'A' c && leb c b'Z')
    || (leb b'0' c && leb c b'9')
    || eqb c b'_'
    || eqb c b'-'

unfoldable pub all_secret_bytes : Text → Bool
unfolding is_secret_byte
all_secret_bytes [] = true
all_secret_bytes (c ∷ s) = is_secret_byte c && all_secret_bytes s

unfoldable pub valid_webhook_secret : Text → Bool
valid_webhook_secret secret =
    if ltb 256 (length secret) then false else all_secret_bytes secret && not (secret == [])

abbrev is_web : Text → Bool
is_web scheme = scheme == bytes "https" || scheme == bytes "http"

module _ (parse_url : Text → Option Url) where
  unfoldable pub parse_base_url : Text → Option Url
  parse_base_url value = elim (parse_url (trim_space value)) [
    | none ↦ none
    | some u ↦
        if u.scheme == []
          || u.host == []
          || u.has_user
          || not (u.raw_query == [])
          || not (u.fragment == [])
          || not (is_web u.scheme)
        then none
        else some (record u { path = trim_right_of (λ c. eqb c b'/') u.path })
  ]

  unfoldable pub valid_webhook_url : Text → Bool
  valid_webhook_url value = elim (parse_url value) [
    | none ↦ false
    | some u ↦ not (u.host == []) && is_web u.scheme && not u.has_user
  ]

  -- NewClient: the base URL and the token.
  unfoldable pub new_client : (base_url bot_token : Text) → Option (Url × Text)
  new_client base_url bot_token = elim (parse_base_url base_url) [
    | none ↦ none
    | some u ↦
        if not (valid_bot_token (trim_space bot_token))
        then none
        else some (u, trim_space bot_token)
  ]

-- endpoint: the path of the URL of an operation.
unfoldable pub endpoint_path : Url → (bot_token operation : Text) → Text
endpoint_path u bot_token operation =
    trim_right_of (λ c. eqb c b'/') u.path ++ (bytes "/bot" ++ (bot_token ++ b'/' ∷ operation))

pub record SetWebhookRequest : Type 0 where
  pub url : Text
  pub secret_token : Text
  pub drop_pending_updates : Bool
  pub max_connections : ℕ
  pub allowed_updates : List Text

pub record WebhookConfig : Type 0 where
  pub url : Text
  pub secret_token : Text
  pub drop_pending_updates : Bool

-- What is asked of Telegram: getMe, or setWebhook.
module _ (parse_url : Text → Option Url) (bot_token : Text) (get_me_reply : Reply User)
    (set_webhook_reply : SetWebhookRequest → Reply Bool) where
  abbrev pub identified : Outcome User → Called User
  identified (error e) = refused e
  identified (sent status bot) =
      if is_not_positive bot.id || not bot.is_bot
      then refused (response_error status (bytes "invalid bot identity"))
      else done bot

  unfoldable pub get_me : Called User
  get_me = identified (do_request bot_token [] get_me_reply)

  abbrev pub applied : Outcome Bool → Called SetWebhookRequest → Called SetWebhookRequest
  applied (error e) request = refused e
  applied (sent status false) request =
      refused (response_error status (bytes "webhook was not applied"))
  applied (sent status true) request = request

  unfoldable pub webhook_request : (url secret : Text) → Bool → SetWebhookRequest
  webhook_request url secret drop_pending = record {
    url = url;
    secret_token = secret;
    drop_pending_updates = drop_pending;
    max_connections = 1;
    allowed_updates = bytes "message" ∷ [];
  }

  -- SetWebhook: what was asked for, if Telegram applied it.
  unfoldable pub set_webhook : (webhook_url secret_token : Text) → Bool → Called SetWebhookRequest
  set_webhook webhook_url secret_token drop_pending =
      let url = trim_space webhook_url in
      let secret = trim_space secret_token in
      let request = webhook_request url secret drop_pending in
      if not (valid_webhook_url parse_url url)
      then refused (validation_error (bytes "webhook URL is invalid"))
      else if not (secret == []) && not (valid_webhook_secret secret)
      then refused (validation_error (bytes "webhook secret is invalid"))
      else applied (do_request bot_token (secret ∷ []) (set_webhook_reply request)) (done request)

  -- ConfigureWebhook: nothing is asked for without a URL.
  unfoldable pub configure_webhook :
      (webhook_url secret_token : Text) → Bool → Called (Option SetWebhookRequest)
  configure_webhook webhook_url secret_token drop_pending =
      if trim_space webhook_url == []
      then done none
      else elim (set_webhook webhook_url secret_token drop_pending) [
        | done request ↦ done (some request)
        | refused e ↦ refused e
      ]

  abbrev with_webhook : Option WebhookConfig → User → Called User
  with_webhook none bot = done bot
  with_webhook (some w) bot = elim (configure_webhook w.url w.secret_token w.drop_pending_updates) [
    | done _ ↦ done bot
    | refused e ↦ refused e
  ]

  unfoldable pub initialize : Option WebhookConfig → Called User
  initialize webhook = elim get_me [ refused e ↦ refused e | done bot ↦ with_webhook webhook bot ]
