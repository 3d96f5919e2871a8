-- ===== src/Settings/Derived.antt =====
-- What the parts of the server take from the configuration (pkg/server/server.go: NewServer;
-- pkg/server/api/frontend_settings.go; the options of the session store in cmd/server/main.go).
use antrea_ui.Base.{String, Bool, not, str_eq}
use antrea_ui.Session.Expiry.{GivenOptions}
use antrea_ui.Login.Types.{ServerConfig}
use antrea_ui.Settings.Types.{Config, SessionConfig}

unfoldable pub server_config : Config → String → ServerConfig
server_config c admin_user_name = record {
  basic_auth_enabled = c.auth.basic_enabled;
  oidc_auth_enabled = c.auth.oidc.enabled;
  oidc_needs_logout = not (str_eq c.auth.oidc.logout_url "");
  kubeconfig_auth_enabled = c.auth.kubeconfig_enabled;
  sa_token_auth_enabled = c.auth.service_account_token_enabled;
  cookie_secure = c.auth.cookie_secure;
  max_logins_per_second = c.limits.max_logins_per_second;
  admin_user_name = admin_user_name;
}

unfoldable pub session_options : SessionConfig → GivenOptions
session_options s = record {
  idle_timeout = s.idle_timeout;
  max_lifetime = s.max_lifetime;
  max_sessions = s.max_sessions;
  max_sessions_per_user = s.max_sessions_per_user;
}

-- What the frontend is told.
pub record FrontendSettings : Type 0 where
  pub version : String
  pub basic_enabled : Bool
  pub oidc_enabled : Bool
  pub oidc_provider_name : String
  pub kubeconfig_enabled : Bool
  pub service_account_token_enabled : Bool
  pub flow_visibility_enabled : Bool

unfoldable pub build_frontend_settings : String → Config → FrontendSettings
build_frontend_settings version c = record {
  version = version;
  basic_enabled = c.auth.basic_enabled;
  oidc_enabled = c.auth.oidc.enabled;
  oidc_provider_name = c.auth.oidc.provider_name;
  kubeconfig_enabled = c.auth.kubeconfig_enabled;
  service_account_token_enabled = c.auth.service_account_token_enabled;
  flow_visibility_enabled = c.flow_aggregator.enabled;
}
