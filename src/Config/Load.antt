-- ===== src/Config/Load.antt =====
-- internal/config/config.go: Load and Validate.
pub mod Valid
use orka_gateway_telegram.Prelude.{
  ℕ, Bool, true, false, not, ◌&&◌, ◌||◌, Option, none, some, List, [], ◌∷◌, ◌++◌, reverse, Text,
  bytes, length, ltb, eqb, ◌==◌, if◌then◌else◌,
}
use orka_gateway_telegram.Prelude.Int.{ℤ, pos, is_not_positive}
use orka_gateway_telegram.Text.Space.{trim_space}
use orka_gateway_telegram.Text.Cut.{trim_right_of}
use orka_gateway_telegram.Text.Decimal.{parse_int}
use orka_gateway_telegram.Config.System.{
  System, Error, not_a_duration, not_an_integer, incomplete, Loaded, ok, err, ◌>>=◌,
}
use orka_gateway_telegram.Config.Secret.{secret}

-- Times are in nanoseconds.
pub record Config : Type 0 where
  pub listen_address : Text
  pub database_path : Text
  pub telegram_api_base_url : Text
  pub telegram_bot_token : Text
  pub telegram_webhook_secret : Text
  pub telegram_webhook_url : Text
  pub drop_pending_updates : Bool
  pub orka_ingress_url : Text
  pub orka_inbound_token : Text
  pub orka_outbound_token : Text
  pub conformance_chat_id : ℤ
  pub request_timeout : ℤ
  pub shutdown_timeout : ℤ
  pub max_webhook_body_bytes : ℕ
  pub max_delivery_body_bytes : ℕ
  pub adapter_name : Text
  pub adapter_version : Text

abbrev one_of : List Text → Text → Bool
one_of [] value = false
one_of (x ∷ xs) value = value == x || one_of xs value

-- strconv.ParseBool
unfoldable pub parse_bool : Text → Option Bool
parse_bool value =
    if one_of (bytes "1" ∷ bytes "t" ∷ bytes "T" ∷ bytes "true" ∷ bytes "TRUE" ∷ bytes "True" ∷ [])
      value
    then some true
    else if one_of
        (bytes "0" ∷ bytes "f" ∷ bytes "F" ∷ bytes "false" ∷ bytes "FALSE" ∷ bytes "False" ∷ [])
        value
    then some false
    else none

-- "NAME is required", for each value that is blank.
abbrev required : List (Text × Text) → List Text
required [] = []
required ((name, value) ∷ rest) =
    let missing = required rest in
    if trim_space value == [] then (name ++ bytes " is required") ∷ missing else missing

abbrev required_values : Config → List (Text × Text)
required_values c =
    (bytes "TELEGRAM_BOT_TOKEN", c.telegram_bot_token)
    ∷ (bytes "TELEGRAM_WEBHOOK_SECRET", c.telegram_webhook_secret)
    ∷ (bytes "ORKA_GATEWAY_INGRESS_URL", c.orka_ingress_url)
    ∷ (bytes "ORKA_GATEWAY_INBOUND_TOKEN", c.orka_inbound_token)
    ∷ (bytes "ORKA_GATEWAY_OUTBOUND_TOKEN", c.orka_outbound_token)
    ∷ (bytes "DATABASE_PATH", c.database_path)
    ∷ []

abbrev same_tokens : Config → Bool
same_tokens c = not (c.orka_inbound_token == []) && c.orka_inbound_token == c.orka_outbound_token

abbrev bad_secret : Config → Bool
bad_secret c =
    ltb (length c.telegram_webhook_secret) 16 || ltb 256 (length c.telegram_webhook_secret)

abbrev problem : Bool → Text → List Text
problem b message = if b then message ∷ [] else []

-- Validate: the messages of the joined errors, which the source gives in no fixed order.
unfoldable pub validate : Config → List Text
validate c =
    required (required_values c)
    ++ (problem (same_tokens c) (bytes "orka inbound and outbound tokens must differ")
        ++ problem (bad_secret c) (bytes "telegram webhook secret must be 16-256 characters"))

abbrev pub checked : Config → Loaded Config
checked c = elim (validate c) [ [] ↦ ok c | e ∷ es ↦ err (incomplete (e ∷ es)) ]

abbrev pub default_timeout : ℤ
default_timeout = pos 15000000000

module _ (sys : System) where
  abbrev env : Text → Text
  env name = trim_space (sys.getenv name)

  unfoldable pub env_or : Text → Text → Text
  env_or name fallback = if env name == [] then fallback else env name

  unfoldable pub bool_env : Text → Bool → Bool
  bool_env name fallback =
      if env name == []
      then fallback
      else elim (parse_bool (env name)) [ none ↦ fallback | some b ↦ b ]

  unfoldable pub duration_env : Text → ℤ → Loaded ℤ
  duration_env name fallback =
      if env name == [] then ok fallback else elim (sys.parse_duration (env name)) [
        | none ↦ err (not_a_duration name)
        | some d ↦ if is_not_positive d then err (not_a_duration name) else ok d
      ]

  unfoldable pub int64_env : Text → ℤ → Loaded ℤ
  int64_env name fallback =
      if env name == []
      then ok fallback
      else elim (parse_int (env name)) [ none ↦ err (not_an_integer name) | some n ↦ ok n ]

  unfoldable pub load : Loaded Config
  load = do
    bot_token ← secret sys (bytes "TELEGRAM_BOT_TOKEN")
    webhook_secret ← secret sys (bytes "TELEGRAM_WEBHOOK_SECRET")
    inbound_token ← secret sys (bytes "ORKA_GATEWAY_INBOUND_TOKEN")
    outbound_token ← secret sys (bytes "ORKA_GATEWAY_OUTBOUND_TOKEN")
    request_timeout ← duration_env (bytes "REQUEST_TIMEOUT") default_timeout
    shutdown_timeout ← duration_env (bytes "SHUTDOWN_TIMEOUT") default_timeout
    chat_id ← int64_env (bytes "TELEGRAM_CONFORMANCE_CHAT_ID") (pos 0)
    checked (record {
      listen_address = env_or (bytes "LISTEN_ADDRESS") (bytes ":8080");
      database_path = env_or (bytes "DATABASE_PATH") (bytes "/data/telegram-adapter.db");
      telegram_api_base_url =
          trim_right_of (λ c. eqb c b'/')
            (env_or (bytes "TELEGRAM_API_BASE_URL") (bytes "https://api.telegram.org"));
      telegram_bot_token = bot_token;
      telegram_webhook_secret = webhook_secret;
      telegram_webhook_url = env (bytes "TELEGRAM_WEBHOOK_URL");
      drop_pending_updates = bool_env (bytes "TELEGRAM_DROP_PENDING_UPDATES") false;
      orka_ingress_url = env (bytes "ORKA_GATEWAY_INGRESS_URL");
      orka_inbound_token = inbound_token;
      orka_outbound_token = outbound_token;
      conformance_chat_id = chat_id;
      request_timeout = request_timeout;
      shutdown_timeout = shutdown_timeout;
      max_webhook_body_bytes = 262144;
      max_delivery_body_bytes = 262144;
      adapter_name = bytes "orka-gateway-telegram";
      adapter_version = env_or (bytes "ADAPTER_VERSION") (bytes "dev");
    })
