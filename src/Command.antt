-- ===== src/Command.antt =====
-- cmd/orka-gateway-telegram/main.go: run, from the configuration to the server that listens. What the
-- packages that it calls meet is a parameter.
pub mod Started
pub mod Tests
use orka_gateway_telegram.Prelude.{
  Bool, true, false, not, ◌&&◌, Option, none, some, [], ◌∷◌, Text, bytes, ◌==◌, if◌then◌else◌,
}
use orka_gateway_telegram.Prelude.Int.{ℤ, pos}
use orka_gateway_telegram.Config.System.{System}
use orka_gateway_telegram.Config.System as System
use orka_gateway_telegram.Config.Load as Load
use orka_gateway_telegram.Store.Migrate.{File}
use orka_gateway_telegram.Store.Open.{Opening, open_store}
use orka_gateway_telegram.Adapter.Server as Server
use orka_gateway_telegram.Telegram.Update.{User}
use orka_gateway_telegram.Telegram.Client.{Reply}
use orka_gateway_telegram.Telegram.Client.Setup as Setup

-- What the packages meet: the environment and the file system, net/url and net/netip, SQLite and
-- the database file, and the replies of Telegram.
pub record World : Type 0 where
  pub system : System
  pub net : Server.Net
  pub parse_url : Text → Option Setup.Url
  pub opening : Opening
  pub file : File
  pub get_me_reply : Reply User
  pub set_webhook_reply : Setup.SetWebhookRequest → Reply Bool

-- Why run returns an error before it listens, or the configuration of the server that listens.
pub data Start : Type 0 where
  bad_configuration no_store no_client no_bot no_server no_webhook : Start
  listening : Server.Config → Start

unfoldable pub adapter_version : (version loaded : Text) → Text
adapter_version version loaded =
    if loaded == bytes "dev" && not (version == []) then version else loaded

unfoldable pub server_config : (version : Text) → Load.Config → (bot_id : ℤ) → Server.Config
server_config version c bot_id = record {
  bot_id = bot_id;
  webhook_secret = c.telegram_webhook_secret;
  outbound_bearer_token = c.orka_outbound_token;
  ingress_url = c.orka_ingress_url;
  ingress_bearer_token = c.orka_inbound_token;
  conformance_chat_id = c.conformance_chat_id;
  adapter_name = c.adapter_name;
  adapter_version = adapter_version version c.adapter_version;
  max_webhook_body_bytes = pos c.max_webhook_body_bytes;
  max_delivery_body_bytes = pos c.max_delivery_body_bytes;
  max_upstream_body_bytes = pos 0;
}

-- What Telegram says to the webhook.
abbrev pub answered : Server.Config → Setup.Called Setup.SetWebhookRequest → Start
answered server (Setup.done _) = listening server
answered server (Setup.refused _) = no_webhook

module _ (w : World) (version : Text) where
  abbrev pub webhook_set : Load.Config → Text → Server.Config → Start
  webhook_set c token server =
      if c.telegram_webhook_url == []
      then listening server
      else answered server (
          Setup.set_webhook w.parse_url token w.get_me_reply w.set_webhook_reply
            c.telegram_webhook_url c.telegram_webhook_secret c.drop_pending_updates)

  abbrev pub served : Load.Config → Text → Option Server.Config → Start
  served c token none = no_server
  served c token (some server) = webhook_set c token server

  abbrev pub known : Load.Config → Text → Setup.Called User → Start
  known c token (Setup.refused _) = no_bot
  known c token (Setup.done bot) =
      served c token (Server.new_server w.net (server_config version c bot.id) true true)

  abbrev pub connected : Load.Config → Option (Setup.Url × Text) → Start
  connected c none = no_client
  connected c (some (_, token)) =
      known c token (Setup.get_me w.parse_url token w.get_me_reply w.set_webhook_reply)

  abbrev pub opened : Load.Config → Bool × File → Start
  opened c (false, _) = no_store
  opened c (true, _) =
      connected c (Setup.new_client w.parse_url c.telegram_api_base_url c.telegram_bot_token)

  abbrev pub loaded : System.Loaded Load.Config → Start
  loaded (System.err _) = bad_configuration
  loaded (System.ok c) = opened c (open_store w.opening c.database_path w.file)

  unfoldable pub start : Start
  start = loaded (Load.load w.system)
