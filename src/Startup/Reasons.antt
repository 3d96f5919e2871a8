-- ===== src/Startup/Reasons.antt =====
-- Why the start of the process stops (cmd/server/main.go: run).
use antrea_ui.Base.{
  ◌≡◌, ◌≢◌, refl, ◌⊎◌, inl, inr, true, false, Option, none, some, ℕ, String, arith, subst, str_eq,
  if◌then◌else◌,
}
use antrea_ui.Authn.Types.{Net, Url}
use antrea_ui.Password.Store.{PasswordError, PasswordStore, password_store, init}
use antrea_ui.Password.Secret.{Cluster, k8s_secret}
use antrea_ui.AntreaSvc.Factory.{Rest}
use antrea_ui.Oidc.Provider.{OidcProvider, Progress, new_oidc_provider, init_provider}
use antrea_ui.Settings.Types as SettingsTypes
use antrea_ui.Startup.Steps.{StartupError, goes, stops, or_stop, and_then-stops, or_stop-stops}
use antrea_ui.Startup.Tls.{ConfigMapAnswer, TlsConfig, flow_tls}
use antrea_ui.Startup.Clients.{client, HasNoClients}
use antrea_ui.Startup.Run.{
  admin_of, Environment, provider_config, initialized, password_step, discovered, provider_step,
}

module _ (rest : Rest) (k : Cluster) (net : Net) (env : Environment rest k)
    (c : SettingsTypes.Config) where
  -- What the cluster says of the ConfigMap with the FlowAggregator's certificate.
  abbrev pub aggregator_answer : ConfigMapAnswer
  aggregator_answer =
      let cfg = c.flow_aggregator in
      env.certificates.config_map
        (if str_eq cfg.namespace "" then "flow-aggregator" else cfg.namespace) cfg.ca_config_map

  abbrev pub AggregatorNamed : Type 0
  AggregatorNamed = (c.flow_aggregator.enabled ≡ true) × (c.flow_aggregator.ca_config_map ≢ "")

  -- A URL has no host where it cannot be parsed or names none.
  pub data HasNoHost (url : String) : Type 0 where
    unparsed : net.parse_url url ≡ none → HasNoHost url
    hostless : (u : Url) → net.parse_url url ≡ some u → u.host ≡ "" → HasNoHost url

  abbrev pub Reason : StartupError → Type 0
  Reason StartupError.no_clients = HasNoClients env.client_go env.service_host
  Reason StartupError.invalid_host = net.parse_url env.host ≡ none
  Reason StartupError.no_admin_client =
      (conf : rest.Conf) × (transport : ℕ) × (client env.client_go env.service_host
        ≡ some (conf, transport))
      × (env.client_go.dynamic_client conf (rest.impersonating (admin_of rest k env) transport)
          ≡ false)
  Reason StartupError.no_client_factory =
      (conf : rest.Conf) × (transport : ℕ) × (client env.client_go env.service_host
        ≡ some (conf, transport))
      × (rest.round_tripper (rest.anonymous_client_config conf) ≡ none)
  Reason StartupError.no_clientset = env.clientset ≡ false
  Reason StartupError.no_antrea_handler = env.antrea_client ≡ false
  Reason StartupError.no_password =
      (c.auth.basic_enabled ≡ true)
      × ((init (k8s_secret k) env.hasher env.salt (password_store (k8s_secret k) env.secrets)).0
          ≢ none)
  Reason StartupError.no_provider =
      (c.auth.oidc.enabled ≡ true)
      × (new_oidc_provider net env.urls env.regexps env.state_secret (provider_config c) ≡ none)
  Reason StartupError.provider_not_ready =
      (c.auth.oidc.enabled ≡ true) × ((init_provider env.discovery).0 ≢ Progress.ready)
  Reason StartupError.no_ca_config_map =
      AggregatorNamed × (aggregator_answer ≡ ConfigMapAnswer.not_got)
  Reason StartupError.no_ca_certificate =
      AggregatorNamed
      × ((aggregator_answer ≡ ConfigMapAnswer.got none)
          ⊎ (aggregator_answer ≡ ConfigMapAnswer.got (some "")))
  Reason StartupError.invalid_ca_certificate =
      AggregatorNamed
      × (ca : String) × (aggregator_answer ≡ ConfigMapAnswer.got (some ca))
      × (env.certificates.parse_pool ca ≡ none)
  Reason StartupError.no_flow_client =
      (c.flow_aggregator.enabled ≡ true)
      × (t : TlsConfig) × (flow_tls env.certificates c.flow_aggregator ≡ goes t)
      × (env.dial t ≡ false)
  Reason StartupError.no_validator = ⊥
  Reason StartupError.no_bearer_validator =
      (c.auth.bearer_token_enabled ≡ true) × (env.bearer_validator ≡ false)
  Reason StartupError.invalid_server_url = (c.url ≢ "") × HasNoHost c.url

  initialized-Reason :
      (r : Option PasswordError × PasswordStore (k8s_secret k)) (e : StartupError)
      → c.auth.basic_enabled ≡ true
      → init (k8s_secret k) env.hasher env.salt (password_store (k8s_secret k) env.secrets) ≡ r
      → initialized rest k r ≡ stops e
      → Reason e
  initialized-Reason (none, st) e on i h = cc
  initialized-Reason (some problem, st) e on i h =
      let x : StartupError.no_password ≡ e = cc in
      subst Reason x (on, λ n. absurd (ground (arith, n, i)))

  pub password_step-Reason :
      (e : StartupError)
      → c.auth.basic_enabled ≡ true
      → password_step rest k env ≡ stops e
      → Reason e
  unfolding password_step
  password_step-Reason e on h = initialized-Reason _ e on refl h

  discovered-Reason :
      (p : OidcProvider) (r : Progress) (e : StartupError)
      → c.auth.oidc.enabled ≡ true
      → (init_provider env.discovery).0 ≡ r
      → discovered rest k p r ≡ stops e
      → Reason e
  discovered-Reason p Progress.ready e on i h = cc
  discovered-Reason p Progress.cancelled e on i h =
      let x : StartupError.provider_not_ready ≡ e = cc in subst Reason x (on, λ n. cc)
  discovered-Reason p Progress.running e on i h =
      let x : StartupError.provider_not_ready ≡ e = cc in subst Reason x (on, λ n. cc)

  pub provider_step-Reason :
      (e : StartupError)
      → c.auth.oidc.enabled ≡ true
      → provider_step rest k net env c ≡ stops e
      → Reason e
  unfolding provider_step
  provider_step-Reason e on h =
      elim (and_then-stops
        (or_stop StartupError.no_provider
          (new_oidc_provider net env.urls env.regexps env.state_secret (provider_config c)))
        _ h) [
          | inl s ↦
              let (n, x) = or_stop-stops StartupError.no_provider _ s in subst Reason x (on, n)
          | inr q ↦ discovered-Reason q.0 (init_provider env.discovery).0 e on refl q.2
        ]
