-- ===== src/Adapter/Server/Ingress.antt =====
-- internal/adapter/server.go: which configurations New accepts, and which ingress URLs.
use orka_gateway_telegram.Prelude.{
  ◌≡◌, ◌≢◌, ◌⊎◌, true, false, not, ◌&&◌, ◌||◌, some, [], Text, bytes, eqb, ◌==◌, arith, Bool-cases,
  Option-cases, inl, inr,
}
use orka_gateway_telegram.Text.Space.{trim_space}
use orka_gateway_telegram.Text.Cut.{trim_of}
use orka_gateway_telegram.Text.Split.{split}
use orka_gateway_telegram.Adapter.Server.{
  Url, Net, is_ingress_path, is_trusted_plaintext_ingress_host, is_ingress_url,
  validate_ingress_url,
}

module _ (net : Net) where
  -- The events URL of a gateway: absolute, without credentials, a query and a fragment, under
  -- api/v1/gateways, and plaintext only to a trusted host.
  pub record IngressUrl (raw url : Text) : Type 0 where
    pub parsed : Url
    pub parses : net.parse_url (trim_space raw) ≡ some parsed
    pub string : url ≡ parsed.string
    pub has_host : parsed.host ≢ []
    pub no_user : parsed.has_user ≡ false
    pub no_query : parsed.raw_query ≡ []
    pub no_fragment : parsed.fragment ≡ []
    pub path : is_ingress_path (split b'/' (trim_of (λ c. eqb c b'/') parsed.escaped_path)) ≡ true
    pub secure :
        (parsed.scheme ≡ bytes "https")
        ⊎ ((parsed.scheme ≡ bytes "http")
            × (is_trusted_plaintext_ingress_host net parsed.hostname ≡ true))

  secure-cases :
      (u : Url)
      → (u.scheme == bytes "http" || u.scheme == bytes "https") ≡ true
      → (u.scheme == bytes "http" && not (is_trusted_plaintext_ingress_host net u.hostname)) ≡ false
      → (u.scheme ≡ bytes "https")
        ⊎ ((u.scheme ≡ bytes "http") × (is_trusted_plaintext_ingress_host net u.hostname ≡ true))
  secure-cases u a b = elim (Bool-cases (u.scheme == bytes "http")) [
    | inl e ↦ inr (ground arith, ground arith)
    | inr e ↦ inl (ground arith)
  ]

  pub validate_ingress_url-IngressUrl :
      (raw url : Text) → validate_ingress_url net raw ≡ some url → IngressUrl raw url
  unfolding validate_ingress_url is_ingress_url
  validate_ingress_url-IngressUrl raw url h = elim (Option-cases (net.parse_url (trim_space raw))) [
    | inl e ↦ ground arith
    | inr (u, e) ↦ elim (Bool-cases (is_ingress_url net u)) [
      | inr bad ↦ ground arith
      | inl good ↦ record {
        parsed = u;
        parses = e;
        string = ground arith;
        has_host = ground arith;
        no_user = ground arith;
        no_query = ground arith;
        no_fragment = ground arith;
        path = ground arith;
        secure = secure-cases u (ground arith) (ground arith);
      }
    ]
  ]
