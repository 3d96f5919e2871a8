-- ===== src/Startup/Run.antt =====
-- The start of the process, up to the routes (cmd/server/main.go: run; pkg/k8s/client.go:
-- ServiceAccountUserName; pkg/env/env.go).
use Prim.Native.String.{◌++◌ as str_append}
use antrea_ui.Base.{
  ℕ, String, Bool, ◌||◌, ◌&&◌, not, Option, none, some, List, str_eq, if◌then◌else◌, Bytes,
}
use antrea_ui.Session.Types.{Options}
use antrea_ui.Session.Expiry.{set_defaults}
use antrea_ui.Authn.Types.{Config, Net}
use antrea_ui.Password.Store.{PasswordError, PasswordStore, Hasher, password_store, init}
use antrea_ui.Password.Secret.{Cluster, k8s_secret}
use antrea_ui.AntreaSvc.Factory.{Rest, ClientFactory, new_client_factory}
use antrea_ui.AntreaSvc.Requests.{ServiceHandler, new_requests_handler}
use antrea_ui.Oidc.Template.{Regexps}
use antrea_ui.Oidc.Provider.{
  Urls, OidcProvider, ProviderConfig, Round, Progress, new_oidc_provider, init_provider,
}
use antrea_ui.Login.Types.{ServerConfig}
use antrea_ui.Settings.Types as SettingsTypes
use antrea_ui.Settings.Derived.{session_options, server_config}
use antrea_ui.Api.Routes.{ApiServer}
use antrea_ui.Startup.Steps.{
  StartupError, Step, goes, stops, require, and_then, attempt, or_stop, has_some,
}
use antrea_ui.Startup.Clients.{ClientLibrary, client, impersonated_client}
use antrea_ui.Startup.Tls.{Certificates, TlsConfig, flow_tls}
use antrea_ui.Startup.Authenticator.{new_from_server_config}

unfoldable pub is_development_env : String → Bool
is_development_env app_env = str_eq app_env "dev" || str_eq app_env "development"

unfoldable pub is_running_in_pod : String → String → Bool
is_running_in_pod pod_namespace service_host =
    not (str_eq pod_namespace "") && not (str_eq service_host "")

-- `os.Getenv`, which does not tell an unset variable from an empty one.
abbrev pub getenv : Option String → String
getenv none = ""
getenv (some value) = value

unfoldable pub get_namespace : String → String
get_namespace pod_namespace = if str_eq pod_namespace "" then "kube-system" else pod_namespace

unfoldable pub service_account_user_name : String → String → String
service_account_user_name namespace service_account_name =
    str_append "system:serviceaccount:" (str_append namespace (str_append ":" service_account_name))

unfoldable pub provider_config : SettingsTypes.Config → ProviderConfig
provider_config c = record {
  server_url = c.url;
  issuer_url = c.auth.oidc.issuer_url;
  discovery_url = c.auth.oidc.discovery_url;
  client_id = c.auth.oidc.client_id;
  client_secret = c.auth.oidc.client_secret;
  logout_url_template = c.auth.oidc.logout_url;
  scopes = c.auth.oidc.scopes;
}

-- `server.NewServer`: the authenticator of the server and the configuration of its login.
unfoldable pub new_server :
    Net → Bool → Bool → SettingsTypes.Config → String → Step (Config × ServerConfig)
unfolding new_from_server_config server_config
new_server net bearer dev_mode c admin_user_name =
    and_then (new_from_server_config net bearer dev_mode c)
      (λ authenticator. goes (authenticator, server_config c admin_user_name))

module _ (rest : Rest) (k : Cluster) where
  -- What the process finds: the environment variables (KUBERNETES_SERVICE_HOST may be unset), the
  -- client library, the host of its configuration, whether it builds the clientsets of the server and
  -- of the Antrea Service,
  -- the Secret's API server, what is drawn at random, the rounds of the provider's discovery until
  -- its context ends, and whether the cache of bearer tokens and the connection can be set up.
  pub record Environment : Type 0 where
    pub app_env : String
    pub pod_namespace : String
    pub service_host : Option String
    pub client_go : ClientLibrary rest
    pub host : String
    pub clientset : Bool
    pub antrea_client : Bool
    pub secrets : k.World
    pub hasher : Hasher
    pub salt : Option Bytes
    pub urls : Urls
    pub regexps : Regexps
    pub state_secret : Option Bytes
    pub discovery : List Round
    pub bearer_validator : Bool
    pub certificates : Certificates
    pub dial : TlsConfig → Bool

  -- What calls Kubernetes and the Antrea Service: the transport of the administrator, which the
  -- collection of traceflows uses, the factory for the requests, and the Antrea Service's handler.
  pub record Clients : Type 0 where
    pub admin_transport : ℕ
    pub client_factory : ClientFactory rest
    pub antrea_svc : ServiceHandler rest

  abbrev pub admin_of : Environment → String
  admin_of env = service_account_user_name (get_namespace env.pod_namespace) "antrea-ui-admin"

  -- What the server runs with. The optional parts are there or not.
  pub record Started : Type 0 where
    pub admin_user_name : String
    pub plugins_namespace : String
    pub clients : Clients
    pub options : Options
    pub passwords : Option (PasswordStore (k8s_secret k))
    pub oidc_provider : Option OidcProvider
    pub flow_tls_config : Option TlsConfig
    pub authenticator : Config
    pub login : ServerConfig

  abbrev pub initialized :
      Option PasswordError × PasswordStore (k8s_secret k) → Step (PasswordStore (k8s_secret k))
  initialized (none, st) = goes st
  initialized (some e, st) = stops StartupError.no_password

  -- The steps of the optional parts.
  unfoldable pub password_step : Environment → Step (PasswordStore (k8s_secret k))
  unfolding init
  password_step env =
      initialized
        (init (k8s_secret k) env.hasher env.salt (password_store (k8s_secret k) env.secrets))

  abbrev pub discovered : OidcProvider → Progress → Step OidcProvider
  discovered p Progress.ready = goes p
  discovered p _ = stops StartupError.provider_not_ready

  unfoldable pub provider_step : Net → Environment → SettingsTypes.Config → Step OidcProvider
  unfolding new_oidc_provider init_provider provider_config
  provider_step net env c =
      and_then
        (or_stop StartupError.no_provider
          (new_oidc_provider net env.urls env.regexps env.state_secret (provider_config c)))
        (λ p. discovered p (init_provider env.discovery).0)

  abbrev pub dialled : Environment → TlsConfig → Step TlsConfig
  dialled env t = require (env.dial t) StartupError.no_flow_client (goes t)

  unfoldable pub flow_step : Environment → SettingsTypes.FlowAggregatorConfig → Step TlsConfig
  unfolding flow_tls
  flow_step env cfg = and_then (flow_tls env.certificates cfg) (λ t. dialled env t)

  -- The parts that the configuration turns on, in the order in which they are set up.
  unfoldable pub set_up : Net → Environment → SettingsTypes.Config → Clients → Step Started
  unfolding password_step provider_step flow_step get_namespace service_account_user_name
      is_development_env new_server session_options
  set_up net env c clients =
      let namespace = get_namespace env.pod_namespace in
      let admin = admin_of env in
      let dev_mode = is_development_env env.app_env in
      and_then (attempt c.auth.basic_enabled (password_step env)) (λ store.
        and_then (attempt c.auth.oidc.enabled (provider_step net env c)) (λ provider.
          and_then (attempt c.flow_aggregator.enabled (flow_step env c.flow_aggregator)) (λ flow.
            and_then (new_server net env.bearer_validator dev_mode c admin) (λ server.
              goes (record {
                admin_user_name = admin;
                plugins_namespace =
                    if str_eq c.plugins.namespace "" then namespace else c.plugins.namespace;
                clients = clients;
                options = set_defaults (session_options c.session);
                passwords = store;
                oidc_provider = provider;
                flow_tls_config = flow;
                authenticator = server.0;
                login = server.1;
              })))))

  -- The clients of Kubernetes, for which `conf` and `transport` are the client library's.
  unfoldable pub with_clients :
      Net → Environment → SettingsTypes.Config → rest.Conf → ℕ → Step Started
  unfolding set_up new_client_factory new_requests_handler is_running_in_pod impersonated_client
  with_clients net env c conf transport =
      let in_pod = is_running_in_pod env.pod_namespace (getenv env.service_host) in
      require (has_some (net.parse_url env.host)) StartupError.invalid_host (
        and_then
          (or_stop StartupError.no_admin_client
            (impersonated_client env.client_go conf transport (admin_of env)))
          (λ admin_transport.
            and_then
              (or_stop StartupError.no_client_factory
                (new_client_factory rest conf transport "k8s"))
              (λ factory. require env.clientset StartupError.no_clientset (
                require env.antrea_client StartupError.no_antrea_handler (
                  set_up net env c (record {
                    admin_transport = admin_transport;
                    client_factory = factory;
                    antrea_svc = new_requests_handler rest in_pod conf c.antrea_namespace;
                  }))))))

  unfoldable pub run : Net → Environment → SettingsTypes.Config → Step Started
  unfolding with_clients client
  run net env c =
      and_then (or_stop StartupError.no_clients (client env.client_go env.service_host))
        (λ clients. with_clients net env c clients.0 clients.1)

  -- What `api.NewServer` is given.
  unfoldable pub api_server : SettingsTypes.Config → Started → ApiServer
  api_server c s = record {
    max_traceflows_per_hour = c.limits.max_traceflows_per_hour;
    has_password_store = has_some s.passwords;
    has_flow_stream = has_some s.flow_tls_config;
  }
