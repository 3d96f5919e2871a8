-- ===== src/Startup/Tests.antt =====
-- A start with every optional part, and starts that stop.
use antrea_ui.Base.{◌≡◌, refl, true, false, none, some, [], ◌∷◌}
use antrea_ui.Session.Expiry.{set_defaults}
use antrea_ui.Authn.Tests.{go_net}
use antrea_ui.Password.Store.{PasswordStore, password_store, init, write_hash}
use antrea_ui.Password.Secret.{k8s_secret, read_secret, read_answer, write_secret, write_answer}
use antrea_ui.Password.Tests.{cluster, salting, salt}
use antrea_ui.AntreaSvc.Factory.{new_client_factory}
use antrea_ui.AntreaSvc.Requests.{new_requests_handler}
use antrea_ui.AntreaSvc.Tests.{client_go}
use antrea_ui.Oidc.Provider.{Round, provider_of, new_oidc_provider, init_provider}
use antrea_ui.Oidc.Tests.{urls, regexps, secret}
use antrea_ui.Settings.Types.{Config, default_config}
use antrea_ui.Settings.Validation.{validate_config}
use antrea_ui.Settings.Derived.{session_options, server_config}
use antrea_ui.Startup.Steps.{StartupError, goes, stops}
use antrea_ui.Startup.Tls.{
  ConfigMapAnswer, Certificates, TlsConfig, Verified, version_tls12, flow_tls, ca_data,
  build_flow_aggregator_tls_config, flow_tls-Verified,
}
use antrea_ui.Startup.Authenticator.{server_origin, new_authenticator, new_from_server_config}
use antrea_ui.Startup.Clients.{ClientLibrary, client, rest_config, impersonated_client}
use antrea_ui.Startup.Run.{
  new_server, Environment, Started, provider_config, run, with_clients, set_up, password_step,
  provider_step, flow_step, get_namespace, is_development_env, is_running_in_pod,
  service_account_user_name,
}
use antrea_ui.Startup.Backing.{IsBacked, run-IsBacked}
use antrea_ui.Startup.Outcome.{StartOutcome, run-StartOutcome}

-- A cluster with one certificate, which is the pool 1.
abbrev certificates : Certificates
certificates = record {
  config_map = λ namespace name. ConfigMapAnswer.got (some "pem");
  parse_pool = λ ca. some 1;
}

abbrev library : ClientLibrary client_go
library = record {
  in_cluster_config = some [];
  kubeconfig = none;
  http_client = λ config. some 100;
  dynamic_client = λ config transport. true;
}

abbrev in_cluster : Environment client_go cluster
in_cluster = record {
  app_env = "";
  pod_namespace = "antrea-ui";
  service_host = some "10.96.0.1";
  client_go = library;
  host = "https://10.96.0.1";
  clientset = true;
  antrea_client = true;
  secrets = [];
  hasher = salting;
  salt = some salt;
  urls = urls;
  regexps = regexps;
  state_secret = some secret;
  discovery = Round.waits ∷ Round.succeeds ∷ [];
  bearer_validator = true;
  certificates = certificates;
  dial = λ t. true;
}

abbrev full_config : Config
full_config = record default_config {
  url = "https://ui.example.com/traceflow";
  auth = record (default_config.auth) {
    oidc = record (default_config.auth.oidc) {
      enabled = true;
      provider_name = "idp";
      client_id = "antrea-ui";
      client_secret = "secret";
      issuer_url = "https://idp.example.com";
    };
  };
  flow_aggregator = record (default_config.flow_aggregator) { enabled = true };
}

full_config_accepted : validate_config full_config ≡ none
unfolding validate_config
full_config_accepted = refl

abbrev by_pool : TlsConfig
by_pool = record {
  min_version = version_tls12;
  insecure_skip_verify = false;
  root_cas = some 1;
  server_name = "";
}

by_pool_built : flow_tls certificates full_config.flow_aggregator ≡ goes by_pool
unfolding flow_tls ca_data build_flow_aggregator_tls_config
by_pool_built = refl

flow_tls-Verified_example : Verified certificates full_config.flow_aggregator by_pool
flow_tls-Verified_example =
    flow_tls-Verified certificates full_config.flow_aggregator by_pool by_pool_built

-- The store over a Secret that `Init` has created.
abbrev fresh_store : PasswordStore (k8s_secret cluster)
fresh_store =
    (init (k8s_secret cluster) salting (some salt) (password_store (k8s_secret cluster) [])).1

abbrev started : Started client_go cluster
started = record {
  admin_user_name = "system:serviceaccount:antrea-ui:antrea-ui-admin";
  plugins_namespace = "antrea-ui";
  clients = record {
    admin_transport = 102;
    client_factory = record {
      config = [];
      base_transport = 100;
      sa_transport = 100;
      transport_key = "k8s";
    };
    antrea_svc = new_requests_handler client_go true [] "kube-system";
  };
  options = set_defaults (session_options full_config.session);
  passwords = some fresh_store;
  oidc_provider = some (
      provider_of go_net urls regexps (provider_config full_config) secret
        (record { tpl = ""; required_vars = "Token" ∷ [] }));
  flow_tls_config = some by_pool;
  authenticator = record {
    bearer_fallback_enabled = true;
    dev_mode = false;
    server_origin = "https://ui.example.com";
  };
  login = server_config full_config "system:serviceaccount:antrea-ui:antrea-ui-admin";
}

full_config_starts : run client_go cluster go_net in_cluster full_config ≡ goes started
unfolding run client rest_config impersonated_client with_clients set_up password_step provider_step
    flow_step get_namespace is_development_env is_running_in_pod service_account_user_name
    new_from_server_config new_server new_authenticator server_origin flow_tls ca_data
    build_flow_aggregator_tls_config init write_hash read_secret read_answer write_secret
    write_answer new_client_factory new_requests_handler new_oidc_provider init_provider
    provider_config
full_config_starts = refl

-- A provider that cannot be discovered within its context stops the start.
undiscovered :
    run client_go cluster go_net
      (record in_cluster { discovery = Round.waits ∷ Round.ends ∷ [] })
      full_config
    ≡ stops StartupError.provider_not_ready
unfolding run client rest_config impersonated_client with_clients set_up password_step provider_step
    init write_hash read_secret read_answer write_secret write_answer new_client_factory
    new_oidc_provider init_provider provider_config
undiscovered = refl

full_config-IsBacked : IsBacked go_net in_cluster full_config started
full_config-IsBacked =
    run-IsBacked go_net in_cluster full_config started full_config_accepted full_config_starts

run-StartOutcome_example :
    StartOutcome client_go cluster go_net in_cluster full_config
      (run client_go cluster go_net in_cluster full_config)
run-StartOutcome_example =
    run-StartOutcome client_go cluster go_net in_cluster full_config full_config_accepted
