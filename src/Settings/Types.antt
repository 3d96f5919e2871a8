-- ===== src/Settings/Types.antt =====
-- The configuration (pkg/config/server/config.go). Sizes and durations are Go's signed integers.
use antrea_ui.Base.{String, ◌*◌, Bool, true, false, List, [], ◌∷◌}
use antrea_ui.Base.Int.{ℤ, pos}
use antrea_ui.Session.Types.{second}

pub record FlowAggregatorConfig : Type 0 where
  pub enabled : Bool
  pub address : String
  pub ca_config_map : String
  pub namespace : String
  pub server_name : String
  pub insecure_skip_verify : Bool

pub record PluginsConfig : Type 0 where
  pub label_selector : String
  pub namespace : String

pub record SessionConfig : Type 0 where
  pub idle_timeout : ℤ
  pub max_lifetime : ℤ
  pub max_sessions : ℤ
  pub max_sessions_per_user : ℤ

pub record OidcConfig : Type 0 where
  pub enabled : Bool
  pub provider_name : String
  pub client_id : String
  pub client_secret : String
  pub issuer_url : String
  pub discovery_url : String
  pub logout_url : String
  pub scopes : List String

pub record AuthConfig : Type 0 where
  pub basic_enabled : Bool
  pub oidc : OidcConfig
  pub kubeconfig_enabled : Bool
  pub service_account_token_enabled : Bool
  pub bearer_token_enabled : Bool
  pub cookie_secure : Bool

pub record Limits : Type 0 where
  pub max_logins_per_second : ℤ
  pub max_traceflows_per_hour : ℤ

pub record Config : Type 0 where
  pub addr : String
  pub url : String
  pub auth : AuthConfig
  pub session : SessionConfig
  pub flow_aggregator : FlowAggregatorConfig
  pub limits : Limits
  pub log_verbosity : ℤ
  pub antrea_namespace : String
  pub plugins : PluginsConfig

-- What LoadConfig sets where neither the file nor a flag nor the environment says otherwise.
abbrev pub default_config : Config
default_config = record {
  addr = ":8080";
  url = "";
  auth = record {
    basic_enabled = true;
    oidc = record {
      enabled = false;
      provider_name = "";
      client_id = "";
      client_secret = "";
      issuer_url = "";
      discovery_url = "";
      logout_url = "";
      scopes = "openid" ∷ "email" ∷ "groups" ∷ "offline_access" ∷ [];
    };
    kubeconfig_enabled = false;
    service_account_token_enabled = true;
    bearer_token_enabled = true;
    cookie_secure = true;
  };
  session = record {
    idle_timeout = pos (30 * 60 * second);
    max_lifetime = pos (12 * 3600 * second);
    max_sessions = pos 1000;
    max_sessions_per_user = pos 10;
  };
  flow_aggregator = record {
    enabled = false;
    address = "flow-aggregator.flow-aggregator.svc:14740";
    ca_config_map = "flow-aggregator-ca";
    namespace = "flow-aggregator";
    server_name = "";
    insecure_skip_verify = false;
  };
  limits = record { max_logins_per_second = pos 1; max_traceflows_per_hour = pos 100 };
  log_verbosity = pos 0;
  antrea_namespace = "kube-system";
  plugins = record { label_selector = "ui.antrea.io/plugin=true"; namespace = "" };
}
