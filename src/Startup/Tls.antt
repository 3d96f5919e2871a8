-- ===== src/Startup/Tls.antt =====
-- The TLS settings of the connection to the Flow Aggregator (cmd/server/main.go).
use antrea_ui.Base.{
  ap, ◌∙◌, sym, ℕ, String, ◌≡◌, ◌≢◌, Bool, true, false, ◌||◌, Option, none, some, str_eq,
  if◌then◌else◌, refl, inl, inr, arith, Bool-cases, str_eq→eq, str_ne,
}
use antrea_ui.Settings.Types.{FlowAggregatorConfig}
use antrea_ui.Startup.Steps.{StartupError, Step, goes, stops, and_then, and_then-goes}

-- A pool of certificates is a number that names it; without one the system's is used.
pub record TlsConfig : Type 0 where
  pub min_version : ℕ
  pub insecure_skip_verify : Bool
  pub root_cas : Option ℕ
  pub server_name : String

-- The cluster's answer for a ConfigMap of a namespace: the value of its key ca.crt, if it has one.
pub data ConfigMapAnswer : Type 0 where
  not_got : ConfigMapAnswer
  got : Option String → ConfigMapAnswer

pub record Certificates : Type 0 where
  pub config_map : String → String → ConfigMapAnswer
  pub parse_pool : String → Option ℕ

abbrev pub version_tls12 : ℕ
version_tls12 = 771

abbrev pub with_pool : FlowAggregatorConfig → Option ℕ → Step TlsConfig
with_pool cfg none = stops StartupError.invalid_ca_certificate
with_pool cfg (some pool) = goes (record {
  min_version = version_tls12;
  insecure_skip_verify = false;
  root_cas = some pool;
  server_name = cfg.server_name;
})

unfoldable pub build_flow_aggregator_tls_config :
    Certificates → FlowAggregatorConfig → String → Step TlsConfig
build_flow_aggregator_tls_config certs cfg ca_data =
    let plain : TlsConfig = record {
      min_version = version_tls12;
      insecure_skip_verify = cfg.insecure_skip_verify;
      root_cas = none;
      server_name = cfg.server_name;
    } in
    if cfg.insecure_skip_verify || str_eq ca_data ""
    then goes plain
    else with_pool cfg (certs.parse_pool ca_data)

abbrev pub certificate_of : ConfigMapAnswer → Step String
certificate_of not_got = stops StartupError.no_ca_config_map
certificate_of (got none) = stops StartupError.no_ca_certificate
certificate_of (got (some ca)) =
    if str_eq ca "" then stops StartupError.no_ca_certificate else goes ca

-- The certificate, empty where no ConfigMap is named.
unfoldable pub ca_data : Certificates → FlowAggregatorConfig → Step String
ca_data certs cfg =
    let namespace = if str_eq cfg.namespace "" then "flow-aggregator" else cfg.namespace in
    if str_eq cfg.ca_config_map ""
    then goes ""
    else certificate_of (certs.config_map namespace cfg.ca_config_map)

unfoldable pub flow_tls : Certificates → FlowAggregatorConfig → Step TlsConfig
unfolding ca_data build_flow_aggregator_tls_config
flow_tls certs cfg =
    and_then (ca_data certs cfg) (λ ca. build_flow_aggregator_tls_config certs cfg ca)

-- How the server's certificate is verified.
pub data Verified (certs : Certificates) (cfg : FlowAggregatorConfig) (t : TlsConfig) : Type 0 where
  not_verified :
      cfg.insecure_skip_verify ≡ true → t.insecure_skip_verify ≡ true → Verified certs cfg t
  by_config_map :
      (ca : String) (pool : ℕ)
      → cfg.insecure_skip_verify ≡ false
      → cfg.ca_config_map ≢ ""
      → ca_data certs cfg ≡ goes ca
      → certs.parse_pool ca ≡ some pool
      → t.insecure_skip_verify ≡ false
      → t.root_cas ≡ some pool
      → Verified certs cfg t
  by_system :
      cfg.insecure_skip_verify ≡ false
      → cfg.ca_config_map ≡ ""
      → t.insecure_skip_verify ≡ false
      → t.root_cas ≡ none
      → Verified certs cfg t

certificate_of-named :
    (a : ConfigMapAnswer) (ca : String) → certificate_of a ≡ goes ca → str_eq ca "" ≡ false
certificate_of-named not_got ca h = cc
certificate_of-named (got none) ca h = cc
certificate_of-named (got (some x)) ca h = ground arith

-- The certificate is empty just where no ConfigMap is named.
pub ca_data-named :
    (certs : Certificates) (cfg : FlowAggregatorConfig) (ca : String)
    → ca_data certs cfg ≡ goes ca
    → str_eq cfg.ca_config_map "" ≡ str_eq ca ""
unfolding ca_data
ca_data-named certs cfg ca h = elim (Bool-cases (str_eq cfg.ca_config_map "")) [
  | inl unnamed ↦
      let empty : goes "" ≡ goes ca = rw (unnamed, ca_data) at h in
      let same : ◌≡◌ {A = String} "" ca = cc in unnamed ∙ ap (λ (s : String). str_eq s "") same
  | inr named ↦
      named
      ∙ sym (
          certificate_of-named
            (certs.config_map (if str_eq cfg.namespace "" then "flow-aggregator" else cfg.namespace)
              cfg.ca_config_map)
            ca (ground arith))
]

with_pool-Verified :
    (certs : Certificates) (cfg : FlowAggregatorConfig) (ca : String) (t : TlsConfig) (o : Option ℕ)
    → cfg.insecure_skip_verify ≡ false
    → cfg.ca_config_map ≢ ""
    → ca_data certs cfg ≡ goes ca
    → certs.parse_pool ca ≡ o
    → with_pool cfg o ≡ goes t
    → Verified certs cfg t
with_pool-Verified certs cfg ca t none i named c p h = cc
with_pool-Verified certs cfg ca t (some pool) i named c p h =
    by_config_map ca pool i named c p (ground arith) (ground arith)

built-Verified :
    (certs : Certificates) (cfg : FlowAggregatorConfig) (ca : String) (t : TlsConfig)
    → ca_data certs cfg ≡ goes ca
    → build_flow_aggregator_tls_config certs cfg ca ≡ goes t
    → Verified certs cfg t
unfolding build_flow_aggregator_tls_config
built-Verified certs cfg ca t c h = elim (Bool-cases cfg.insecure_skip_verify) [
  | inl insecure ↦ not_verified insecure (ground arith)
  | inr secure ↦ elim (Bool-cases (str_eq ca "")) [
    | inl empty ↦
        by_system secure (str_eq→eq cfg.ca_config_map "" (ca_data-named certs cfg ca c ∙ empty))
          (ground arith) (ground arith)
    | inr full ↦
        with_pool-Verified certs cfg ca t (certs.parse_pool ca) secure
          (str_ne cfg.ca_config_map "" (ca_data-named certs cfg ca c ∙ full)) c refl (ground arith)
  ]
]

-- Where the TLS settings of the connection to the Flow Aggregator can be built: its certificate goes
-- unverified only if the configuration says so. Otherwise it is verified by the certificates of the
-- ConfigMap that is named, and by those of the system where none is named.
pub flow_tls-Verified :
    (certs : Certificates) (cfg : FlowAggregatorConfig) (t : TlsConfig)
    → flow_tls certs cfg ≡ goes t
    → Verified certs cfg t
unfolding flow_tls
flow_tls-Verified certs cfg t h =
    let (ca, c, b) =
      and_then-goes (ca_data certs cfg)
        (λ (ca : String). build_flow_aggregator_tls_config certs cfg ca) h in
    built-Verified certs cfg ca t c b
