-- ===== src/Adapter/Server.antt =====
-- internal/adapter/server.go: New, the check of the ingress URL, the routes and their authentication,
-- and the handlers that do not change the database. Packages net/url and net/netip, and
-- strings.ToLower, are parameters.
pub mod Ingress
use orka_gateway_telegram.Prelude.{
  ℕ, Bool, true, false, not, ◌&&◌, ◌||◌, Option, none, some, List, [], ◌∷◌, Text, bytes, eqb, ◌==◌,
  if◌then◌else◌,
}
use orka_gateway_telegram.Prelude.Int.{ℤ, pos, is_not_positive}
use orka_gateway_telegram.Text.Space.{trim_space}
use orka_gateway_telegram.Text.Cut.{trim_of, has_suffix}
use orka_gateway_telegram.Text.Split.{split}
use orka_gateway_telegram.Protocol.Types.{version}
use orka_gateway_telegram.Protocol.Validate.{constant_time_bearer_equal, bearer_token}

-- The parts of a url.URL that New reads, and its String.
pub record Url : Type 0 where
  pub scheme : Text
  pub host : Text
  pub has_user : Bool
  pub raw_query : Text
  pub fragment : Text
  pub escaped_path : Text
  pub hostname : Text
  pub string : Text

-- `is_loopback` says whether netip.ParseAddr accepts the text, and IsLoopback the address.
pub record Net : Type 0 where
  pub parse_url : Text → Option Url
  pub to_lower : Text → Text
  pub is_loopback : Text → Bool

pub record Config : Type 0 where
  pub bot_id : ℤ
  pub webhook_secret : Text
  pub outbound_bearer_token : Text
  pub ingress_url : Text
  pub ingress_bearer_token : Text
  pub conformance_chat_id : ℤ
  pub adapter_name : Text
  pub adapter_version : Text
  pub max_webhook_body_bytes : ℤ
  pub max_delivery_body_bytes : ℤ
  pub max_upstream_body_bytes : ℤ

-- api/v1/gateways/<namespace>/<name>/events
unfoldable pub is_ingress_path : List Text → Bool
is_ingress_path (api ∷ v1 ∷ gateways ∷ namespace ∷ name ∷ events ∷ []) =
    api == bytes "api"
    && v1 == bytes "v1"
    && gateways == bytes "gateways"
    && not (namespace == [])
    && not (name == [])
    && events == bytes "events"
is_ingress_path _ = false

abbrev or_limit : ℤ → ℤ → ℤ
or_limit value default = if is_not_positive value then default else value

abbrev or_name : Text → Text → Text
or_name value default = if value == [] then default else value

unfoldable pub is_incomplete : Config → Bool
is_incomplete c =
    is_not_positive c.bot_id
    || trim_space c.webhook_secret == []
    || trim_space c.outbound_bearer_token == []
    || trim_space c.ingress_bearer_token == []
    || trim_space c.ingress_url == []

-- What New makes of a configuration: the URL that was checked, and the defaults.
abbrev pub completed : Config → Text → Config
completed c url = record c {
  ingress_url = url;
  adapter_name = or_name c.adapter_name (bytes "orka-gateway-telegram");
  adapter_version = or_name c.adapter_version (bytes "dev");
  max_webhook_body_bytes = or_limit c.max_webhook_body_bytes (pos 262144);
  max_delivery_body_bytes = or_limit c.max_delivery_body_bytes (pos 262144);
  max_upstream_body_bytes = or_limit c.max_upstream_body_bytes (pos 65536);
}

module _ (net : Net) where
  unfoldable pub is_trusted_plaintext_ingress_host : Text → Bool
  is_trusted_plaintext_ingress_host host =
      let host' = net.to_lower (trim_of (λ c. eqb c b'[' || eqb c b']') (trim_space host)) in
      host' == bytes "localhost"
      || has_suffix (bytes ".svc") host'
      || has_suffix (bytes ".svc.cluster.local") host'
      || net.is_loopback host'

  -- The checks of a parsed URL, in the order of the source.
  unfoldable pub is_ingress_url : Url → Bool
  is_ingress_url u =
      not (u.scheme == [])
      && not (u.host == [])
      && (u.scheme == bytes "http" || u.scheme == bytes "https")
      && not u.has_user
      && u.raw_query == []
      && u.fragment == []
      && is_ingress_path (split b'/' (trim_of (λ c. eqb c b'/') u.escaped_path))
      && not (u.scheme == bytes "http" && not (is_trusted_plaintext_ingress_host u.hostname))

  unfoldable pub validate_ingress_url : Text → Option Text
  validate_ingress_url raw = elim (net.parse_url (trim_space raw)) [
    | none ↦ none
    | some u ↦ if is_ingress_url u then some u.string else none
  ]

  -- New, for a configuration, and whether a store and a client are given.
  unfoldable pub new_server : Config → (has_store has_client : Bool) → Option Config
  new_server c has_store has_client =
      if not has_store
        || not has_client
        || is_incomplete c
        || c.ingress_bearer_token == c.outbound_bearer_token
      then none
      else elim (validate_ingress_url c.ingress_url) [
        | none ↦ none
        | some url ↦ some (completed c url)
      ]

pub data Handler : Type 0 where
  kubernetes_health kubernetes_ready health capabilities delivery telegram_webhook : Handler

-- The patterns of routes, each with its method and path, whether `auth` is around its handler, and
-- the handler.
unfoldable pub routes : List (Text × Text × Bool × Handler)
routes =
    (bytes "GET", bytes "/healthz", false, kubernetes_health)
    ∷ (bytes "GET", bytes "/readyz", false, kubernetes_ready)
    ∷ (bytes "GET", bytes "/v1/health", true, health)
    ∷ (bytes "GET", bytes "/v1/capabilities", true, capabilities)
    ∷ (bytes "POST", bytes "/v1/deliveries", true, delivery)
    ∷ (bytes "POST", bytes "/telegram/webhook", false, telegram_webhook)
    ∷ (bytes "POST", bytes "/v1/telegram/webhook", false, telegram_webhook)
    ∷ []

-- auth: the handler is called, or 401 is answered.
unfoldable pub auth : Config → (authorization : Text) → Bool
auth c authorization =
    constant_time_bearer_equal (bearer_token authorization) c.outbound_bearer_token

pub record Capabilities : Type 0 where
  pub protocol_version : Text
  pub adapter_name : Text
  pub adapter_version : Text
  pub inbound_text : Bool
  pub outbound_text : Bool
  pub threads : Bool
  pub sender_identity : Bool
  pub explicit_sessions : Bool
  pub idempotent_delivery : Bool

unfoldable pub handle_capabilities : Config → Capabilities
handle_capabilities c = record {
  protocol_version = version;
  adapter_name = c.adapter_name;
  adapter_version = c.adapter_version;
  inbound_text = true;
  outbound_text = true;
  threads = false;
  sender_identity = true;
  explicit_sessions = false;
  idempotent_delivery = true;
}

-- The status of the answer to /readyz, by whether Ping succeeds.
unfoldable pub handle_kubernetes_ready : Bool → ℕ × Text
handle_kubernetes_ready true = (200, bytes "ok")
handle_kubernetes_ready false = (503, bytes "unavailable")

unfoldable pub handle_kubernetes_health : ℕ × Text
handle_kubernetes_health = (200, bytes "ok")

unfoldable pub handle_health : ℕ × Text
handle_health = (200, bytes "ok")
