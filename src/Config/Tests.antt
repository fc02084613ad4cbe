-- ===== src/Config/Tests.antt =====
-- The configuration, from a small environment.
use orka_gateway_telegram.Prelude.{
  ℕ, ◌≡◌, refl, true, false, none, some, List, [], ◌∷◌, Text, Text-discrete, bytes, ◌==◌,
  if◌then◌else◌,
}
use orka_gateway_telegram.Prelude.Int.{pos}
use orka_gateway_telegram.Text.Space.{trim_space}
use orka_gateway_telegram.Text.Replace.{has_prefix}
use orka_gateway_telegram.Text.Decimal.{parse_int}
use orka_gateway_telegram.Text.Cut.{trim_right_of}
use orka_gateway_telegram.Config.System.{System, accessible_file, ok, err}
use orka_gateway_telegram.Config.Secret.{
  escapes, is_exposed, resolved_link, actual_path, resolve_secret_file, secret,
}
use orka_gateway_telegram.Config.Secret.Safe.{Source, secret-Source}
use orka_gateway_telegram.Config.Load.{
  Config, parse_bool, validate, env_or, bool_env, duration_env, int64_env, load,
}
use orka_gateway_telegram.Config.Load.Valid.{Usable, load-Usable}

abbrev lookup : List (Text × Text) → Text → Text
lookup [] name = []
lookup ((n, v) ∷ rest) name = if n == name then v else lookup rest name

-- The webhook's secret is in a file, behind a symlink; the files have the permissions `permissions`.
abbrev pub system : ℕ → System
system permissions = record {
  getenv = lookup (
      (bytes "TELEGRAM_BOT_TOKEN", bytes "12:AB")
      ∷ (bytes "TELEGRAM_WEBHOOK_SECRET_FILE", bytes "/s/w")
      ∷ (bytes "ORKA_GATEWAY_INBOUND_TOKEN", bytes "in")
      ∷ (bytes "ORKA_GATEWAY_OUTBOUND_TOKEN", bytes "out")
      ∷ (bytes "ORKA_GATEWAY_INGRESS_URL", bytes "http://o.svc/api/v1/gateways/a/b/events")
      ∷ []);
  is_symlink = λ path. some true;
  eval_symlinks = λ path. some (if path == bytes "/s/w" then bytes "/s/d/w" else path);
  dir = λ path. bytes "/s";
  abs = λ path. some path;
  rel = λ base target. some (bytes "d/w");
  stat = λ path. some (record { permissions = permissions; is_regular = true });
  read_file = λ path. some (bytes "0123456789abcdef");
  parse_duration = λ text. none;
}

unfoldable pub configuration : Unit {0}
unfolding Text-discrete trim_space has_prefix parse_int trim_right_of escapes is_exposed
    resolved_link actual_path resolve_secret_file secret parse_bool validate env_or bool_env
    duration_env int64_env load
configuration = tt

secret_test : secret (system 416) (bytes "TELEGRAM_WEBHOOK_SECRET") ≡ ok (bytes "0123456789abcdef")
unfolding configuration
secret_test = refl

exposed_test :
    secret (system 420) (bytes "TELEGRAM_WEBHOOK_SECRET")
    ≡ err (accessible_file (bytes "TELEGRAM_WEBHOOK_SECRET"))
unfolding configuration
exposed_test = refl

secret-Source_example :
    Source (system 416) (bytes "TELEGRAM_WEBHOOK_SECRET") (bytes "0123456789abcdef")
secret-Source_example =
    secret-Source (system 416) (bytes "TELEGRAM_WEBHOOK_SECRET") (bytes "0123456789abcdef")
      secret_test

abbrev pub configured : Config
configured = record {
  listen_address = bytes ":8080";
  database_path = bytes "/data/telegram-adapter.db";
  telegram_api_base_url = bytes "https://api.telegram.org";
  telegram_bot_token = bytes "12:AB";
  telegram_webhook_secret = bytes "0123456789abcdef";
  telegram_webhook_url = [];
  drop_pending_updates = false;
  orka_ingress_url = bytes "http://o.svc/api/v1/gateways/a/b/events";
  orka_inbound_token = bytes "in";
  orka_outbound_token = bytes "out";
  conformance_chat_id = pos 0;
  request_timeout = pos 15000000000;
  shutdown_timeout = pos 15000000000;
  max_webhook_body_bytes = 262144;
  max_delivery_body_bytes = 262144;
  adapter_name = bytes "orka-gateway-telegram";
  adapter_version = bytes "dev";
}

load_test : load (system 416) ≡ ok configured
unfolding configuration
load_test = refl

load-Usable_example : Usable (system 416) configured
load-Usable_example = load-Usable (system 416) configured load_test
