-- ===== src/Command/Started.antt =====
-- cmd/orka-gateway-telegram/main.go: a server that listens.
use orka_gateway_telegram.Prelude.{
  ◌≡◌, ◌≢◌, refl, true, false, not, Option, none, some, [], ◌∷◌, Text, bytes, ◌&&◌, ◌==◌, arith,
}
use orka_gateway_telegram.Prelude.Int.{ℤ, is_not_positive}
use orka_gateway_telegram.Text.Space.{trim_space}
use orka_gateway_telegram.Config.System as System
use orka_gateway_telegram.Config.Load as Load
use orka_gateway_telegram.Config.Load.Valid.{Complete, Usable}
use orka_gateway_telegram.Adapter.Server as Server
use orka_gateway_telegram.Adapter.Server.{
  is_incomplete, completed, validate_ingress_url, new_server,
}
use orka_gateway_telegram.Adapter.Server.Ingress.{IngressUrl}
use orka_gateway_telegram.Telegram.Update.{User}
use orka_gateway_telegram.Telegram.Client.{sent, do_request}
use orka_gateway_telegram.Telegram.Client.Setup as Setup
use orka_gateway_telegram.Store.Open.{open_store}
use orka_gateway_telegram.Store.Open.Recovered.{Idle}
use orka_gateway_telegram.Command.{World, server_config}

blank-false : (t : Text) → trim_space t ≢ [] → (trim_space t == []) ≡ false
blank-false t ne = ground arith

different-false : (s t : Text) → s ≢ t → (s == t) ≡ false
different-false s t ne = ground arith

module _ (net : Server.Net) (version : Text) (c : Load.Config) (bot_id : ℤ) where
  Complete-is_incomplete :
      Complete c
      → is_not_positive bot_id ≡ false
      → is_incomplete (server_config version c bot_id) ≡ false
  unfolding is_incomplete server_config
  Complete-is_incomplete k bot =
      rw
        (
          bot,
          blank-false c.telegram_webhook_secret k.webhook_secret,
          blank-false c.orka_outbound_token k.outbound_token,
          blank-false c.orka_inbound_token k.inbound_token,
          blank-false c.orka_ingress_url k.ingress_url,
        )
        refl

  abbrev pub checked_url : Option Text → Option Server.Config
  checked_url none = none
  checked_url (some url) = some (completed (server_config version c bot_id) url)

  -- New accepts the configuration that run gives it, which passed Validate, exactly if it accepts
  -- the ingress URL, when the bot has a positive ID.
  pub Complete-new_server :
      Complete c
      → is_not_positive bot_id ≡ false
      → new_server net (server_config version c bot_id) true true
        ≡ checked_url (validate_ingress_url net c.orka_ingress_url)
  unfolding new_server server_config
  Complete-new_server k bot =
      rw
        (
          Complete-is_incomplete k bot,
          different-false c.orka_inbound_token c.orka_outbound_token k.different,
        )
        refl

-- No webhook is configured, or Telegram has applied the one that is, to a valid URL and with a
-- secret that is valid or empty, for messages only and one connection at a time.
pub data Webhook (w : World) (c : Load.Config) : Type 0 where
  no_webhook_url : c.telegram_webhook_url ≡ [] → Webhook w c
  applied :
      (token : Text) (status : ℤ) (request : Setup.SetWebhookRequest)
      → request.url ≡ trim_space c.telegram_webhook_url
      → request.secret_token ≡ trim_space c.telegram_webhook_secret
      → request.drop_pending_updates ≡ c.drop_pending_updates
      → request.max_connections ≡ 1
      → request.allowed_updates ≡ bytes "message" ∷ []
      → Setup.valid_webhook_url w.parse_url request.url ≡ true
      → (not (request.secret_token == []) && not (Setup.valid_webhook_secret request.secret_token))
        ≡ false
      → do_request token (request.secret_token ∷ []) (w.set_webhook_reply request)
        ≡ sent status true
      → Webhook w c

-- What run has made sure of before it listens.
pub record Running (w : World) (version : Text) (server : Server.Config) : Type 0 where
  pub config : Load.Config
  pub loads : Load.load w.system ≡ System.ok config
  pub usable : Usable w.system config
  pub opens : (open_store w.opening config.database_path w.file).0 ≡ true
  pub idle : Idle (open_store w.opening config.database_path w.file).1.db
  pub bot : User
  pub positive : is_not_positive bot.id ≡ false
  pub is_bot : bot.is_bot ≡ true
  pub url : Text
  pub ingress : IngressUrl w.net config.orka_ingress_url url
  pub webhook : Webhook w config
  pub same : server ≡ completed (server_config version config bot.id) url
