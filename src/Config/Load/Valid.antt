-- ===== src/Config/Load/Valid.antt =====
-- internal/config/config.go: what Load guarantees.
use orka_gateway_telegram.Prelude.{
  ◌≡◌, ◌≢◌, ◌≤◌, refl, sym, ap, subst, ◌∙◌, Bool, true, false, List, [], ◌∷◌, ◌++◌, Text, bytes,
  length, ◌==◌, arith, Bool-cases, inl, inr,
}
use orka_gateway_telegram.Prelude.Int.{ℤ, pos, is_not_positive}
use orka_gateway_telegram.Text.Space.{strip_by, trim_left, trim_right, trim_space}
use orka_gateway_telegram.Config.System.{System, incomplete, Loaded, ok, err, ◌>>=◌}
use orka_gateway_telegram.Config.Secret.{secret}
use orka_gateway_telegram.Config.Secret.Safe.{Source, secret-Source}
use orka_gateway_telegram.Config.Load.{
  Config, required, required_values, same_tokens, bad_secret, problem, validate, duration_env,
  int64_env, checked, default_timeout, load,
}

-- What Validate asks for.
pub record Complete (c : Config) : Type 0 where
  pub bot_token : trim_space c.telegram_bot_token ≢ []
  pub webhook_secret : trim_space c.telegram_webhook_secret ≢ []
  pub ingress_url : trim_space c.orka_ingress_url ≢ []
  pub inbound_token : trim_space c.orka_inbound_token ≢ []
  pub outbound_token : trim_space c.orka_outbound_token ≢ []
  pub database_path : trim_space c.database_path ≢ []
  pub different : c.orka_inbound_token ≢ c.orka_outbound_token
  pub secret_long : 16 ≤ length c.telegram_webhook_secret
  pub secret_short : length c.telegram_webhook_secret ≤ 256

append-nil : (a b : List Text) → (a ++ b) ≡ [] → (a ≡ []) × (b ≡ [])
append-nil [] b h = (refl, h)
append-nil (x ∷ a) b h = cc

problem-nil : (b : Bool) (x : Text) → problem b x ≡ [] → b ≡ false
problem-nil true x h = cc
problem-nil false x h = refl

not_blank : (t : Text) → (t == []) ≡ false → t ≢ []
not_blank t e p = ground arith

required-nil :
    (name value : Text) (rest : List (Text × Text))
    → required ((name, value) ∷ rest) ≡ []
    → (trim_space value ≢ []) × (required rest ≡ [])
required-nil name value rest h = elim (Bool-cases (trim_space value == [])) [
  | inl e ↦ ground arith
  | inr e ↦ (not_blank (trim_space value) e, ground arith)
]

-- No value is blank.
abbrev AllPresent : List (Text × Text) → Type 0
AllPresent [] = Unit
AllPresent ((name, value) ∷ rest) = (trim_space value ≢ []) × AllPresent rest

required-AllPresent : (xs : List (Text × Text)) → required xs ≡ [] → AllPresent xs
required-AllPresent [] h = tt
required-AllPresent ((name, value) ∷ rest) h =
    let (a, h') = required-nil name value rest h in (a, required-AllPresent rest h')

abbrev tokens_message : Text
tokens_message = bytes "orka inbound and outbound tokens must differ"

abbrev secret_message : Text
secret_message = bytes "telegram webhook secret must be 16-256 characters"

trim_space-nil : trim_space [] ≡ []
unfolding trim_space trim_left trim_right strip_by
trim_space-nil = refl

module _ (c : Config) where
  validate-nil :
      validate c ≡ []
      → (required (required_values c) ≡ []) × (same_tokens c ≡ false) × (bad_secret c ≡ false)
  unfolding validate
  validate-nil h =
      let others =
        problem (same_tokens c) tokens_message ++ problem (bad_secret c) secret_message in
      let (a, b) = append-nil (required (required_values c)) others h in
      let (d, e) =
        append-nil (problem (same_tokens c) tokens_message) (problem (bad_secret c) secret_message)
          b in
      (a, problem-nil (same_tokens c) tokens_message d, problem-nil (bad_secret c) secret_message e)

  different_tokens :
      c.orka_inbound_token ≢ []
      → same_tokens c ≡ false
      → c.orka_inbound_token ≢ c.orka_outbound_token
  different_tokens ne h e = ground arith

  validate-Complete : validate c ≡ [] → Complete c
  validate-Complete h =
      let (names, tokens, size) = validate-nil h in
      let (a, (b, (d, (e, (f, (g, _)))))) = required-AllPresent (required_values c) names in
      record {
        bot_token = a;
        webhook_secret = b;
        ingress_url = d;
        inbound_token = e;
        outbound_token = f;
        database_path = g;
        different = different_tokens (λ p. e (ap trim_space p ∙ trim_space-nil)) tokens;
        secret_long = ground arith;
        secret_short = ground arith;
      }

bind-ok :
    {A B : Type 0} (m : Loaded A) (f : A → Loaded B) (b : B)
    → (m >>= f) ≡ ok b
    → (a : A) × (m ≡ ok a) × (f a ≡ ok b)
bind-ok (ok a) f b h = (a, refl, h)
bind-ok (err e) f b h = cc

checked-ok : (c d : Config) → checked c ≡ ok d → (c ≡ d) × (validate c ≡ [])
checked-ok c d h = go (validate c) refl h
  where
    go :
        (es : List Text)
        → validate c ≡ es
        → elim es as (λ _. Loaded Config) [ [] ↦ ok c | e ∷ es ↦ err (incomplete (e ∷ es)) ] ≡ ok d
        → (c ≡ d) × (validate c ≡ [])
    go [] v h = (ground arith, v)
    go (e ∷ es) v h = cc

duration_env-positive :
    (sys : System) (name : Text) (fallback d : ℤ)
    → is_not_positive fallback ≡ false
    → duration_env sys name fallback ≡ ok d
    → is_not_positive d ≡ false
unfolding duration_env
duration_env-positive sys name fallback d f h = ground arith

-- The checks that a loaded configuration has passed, and where its secrets are from.
pub record Usable (sys : System) (c : Config) : Type 0 where
  pub complete : Complete c
  pub request_positive : is_not_positive c.request_timeout ≡ false
  pub shutdown_positive : is_not_positive c.shutdown_timeout ≡ false
  pub bot_token : Source sys (bytes "TELEGRAM_BOT_TOKEN") c.telegram_bot_token
  pub webhook_secret : Source sys (bytes "TELEGRAM_WEBHOOK_SECRET") c.telegram_webhook_secret
  pub inbound_token : Source sys (bytes "ORKA_GATEWAY_INBOUND_TOKEN") c.orka_inbound_token
  pub outbound_token : Source sys (bytes "ORKA_GATEWAY_OUTBOUND_TOKEN") c.orka_outbound_token

-- A configuration that Load returns passes Validate, its timeouts are positive, and each of its
-- secrets has a source.
pub load-Usable : (sys : System) (c : Config) → load sys ≡ ok c → Usable sys c
unfolding load
load-Usable sys c h =
    let (bot, e₁, h₁) = bind-ok (secret sys (bytes "TELEGRAM_BOT_TOKEN")) _ c h in
    let (webhook, e₂, h₂) = bind-ok (secret sys (bytes "TELEGRAM_WEBHOOK_SECRET")) _ c h₁ in
    let (inbound, e₃, h₃) = bind-ok (secret sys (bytes "ORKA_GATEWAY_INBOUND_TOKEN")) _ c h₂ in
    let (outbound, e₄, h₄) = bind-ok (secret sys (bytes "ORKA_GATEWAY_OUTBOUND_TOKEN")) _ c h₃ in
    let (request, e₅, h₅) =
      bind-ok (duration_env sys (bytes "REQUEST_TIMEOUT") default_timeout) _ c h₄ in
    let (shutdown, e₆, h₆) =
      bind-ok (duration_env sys (bytes "SHUTDOWN_TIMEOUT") default_timeout) _ c h₅ in
    let (chat, e₇, h₇) =
      bind-ok (int64_env sys (bytes "TELEGRAM_CONFORMANCE_CHAT_ID") (pos 0)) _ c h₆ in
    let (p, valid) = checked-ok _ c h₇ in
    record {
      complete = subst Complete p (validate-Complete _ valid);
      request_positive =
          ap (λ c. is_not_positive c.request_timeout) (sym p)
          ∙ duration_env-positive sys _ default_timeout request refl e₅;
      shutdown_positive =
          ap (λ c. is_not_positive c.shutdown_timeout) (sym p)
          ∙ duration_env-positive sys _ default_timeout shutdown refl e₆;
      bot_token =
          subst (λ c. Source sys (bytes "TELEGRAM_BOT_TOKEN") c.telegram_bot_token) p
            (secret-Source sys _ bot e₁);
      webhook_secret =
          subst (λ c. Source sys (bytes "TELEGRAM_WEBHOOK_SECRET") c.telegram_webhook_secret) p
            (secret-Source sys _ webhook e₂);
      inbound_token =
          subst (λ c. Source sys (bytes "ORKA_GATEWAY_INBOUND_TOKEN") c.orka_inbound_token) p
            (secret-Source sys _ inbound e₃);
      outbound_token =
          subst (λ c. Source sys (bytes "ORKA_GATEWAY_OUTBOUND_TOKEN") c.orka_outbound_token) p
            (secret-Source sys _ outbound e₄);
    }
