-- ===== src/Command/Tests.antt =====
-- The start of the adapter, and the migrations, on a small input.
use orka_gateway_telegram.Prelude.{true, false, none, some, [], bytes}
use orka_gateway_telegram.Prelude.Int.{pos}
use orka_gateway_telegram.Config.Tests.{system, configured}
use orka_gateway_telegram.Adapter.Server as Server
use orka_gateway_telegram.Adapter.Server.{completed}
use orka_gateway_telegram.Telegram.Update.{User}
use orka_gateway_telegram.Telegram.Client.{envelope, decoded, not_created}
use orka_gateway_telegram.Store.Migrate.Version.{file_1}
use orka_gateway_telegram.Store.Tests.Migrations.{opening, sending_db}
use orka_gateway_telegram.Command.{World, server_config}

abbrev bot : User
bot = record {
  id = pos 12;
  is_bot = true;
  first_name = bytes "Bot";
  last_name = [];
  username = [];
  language_code = [];
}

abbrev world : World
world = record {
  system = system 416;
  net = record {
    parse_url = λ raw. some (record {
      scheme = bytes "http";
      host = bytes "o.svc";
      has_user = false;
      raw_query = [];
      fragment = [];
      escaped_path = bytes "/api/v1/gateways/a/b/events";
      hostname = bytes "o.svc";
      string = raw;
    });
    to_lower = λ text. text;
    is_loopback = λ text. false;
  };
  parse_url = λ raw. some (record {
    scheme = bytes "https";
    host = bytes "api.telegram.org";
    has_user = false;
    raw_query = [];
    fragment = [];
    path = [];
  });
  opening = opening;
  file = file_1 sending_db;
  get_me_reply = envelope (pos 200) (record {
    ok = some true;
    result = decoded bot;
    error_code = pos 0;
    description = [];
    retry_after = none;
  });
  set_webhook_reply = λ request. not_created;
}

abbrev started : Server.Config
started =
    completed (server_config (bytes "v1") configured (pos 12))
      (bytes "http://o.svc/api/v1/gateways/a/b/events")
