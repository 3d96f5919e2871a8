-- ===== src/Startup/Authenticator.antt =====
-- The authenticator's constructor (pkg/server/authn/authn.go: New, NewFromServerConfig).
use Prim.Native.String.{◌++◌ as str_append}
use antrea_ui.Base.{String, Bool, true, not, ◌&&◌, Option, none, some, str_eq, if◌then◌else◌}
use antrea_ui.Authn.Types.{Config, Url, Net}
use antrea_ui.Settings.Types as SettingsTypes
use antrea_ui.Startup.Steps.{StartupError, Step, goes, stops, require, and_then}

pub record AuthnOptions : Type 0 where
  pub server_url : String
  pub bearer_fallback_enabled : Bool
  pub has_bearer_validator : Bool
  pub dev_mode : Bool

abbrev pub origin_of : Option Url → Step String
origin_of none = stops StartupError.invalid_server_url
origin_of (some u) =
    if str_eq u.host ""
    then stops StartupError.invalid_server_url
    else goes (str_append u.scheme (str_append "://" u.host))

-- The origin of the server, empty where no URL is configured.
unfoldable pub server_origin : Net → String → Step String
server_origin net server_url =
    if str_eq server_url "" then goes "" else origin_of (net.parse_url server_url)

-- `bearer` tells whether the validator of bearer tokens can be set up.
unfoldable pub new_authenticator : Net → Bool → AuthnOptions → Step Config
unfolding server_origin
new_authenticator net bearer o =
    require (not (o.bearer_fallback_enabled && not o.has_bearer_validator))
      StartupError.no_validator
      (require (not (o.bearer_fallback_enabled && not bearer)) StartupError.no_bearer_validator (
        and_then (server_origin net o.server_url) (λ origin. goes (record {
          bearer_fallback_enabled = o.bearer_fallback_enabled;
          dev_mode = o.dev_mode;
          server_origin = origin;
        }))))

-- `NewFromServerConfig`, to which the server gives its client factory as the validator.
unfoldable pub new_from_server_config : Net → Bool → Bool → SettingsTypes.Config → Step Config
unfolding new_authenticator
new_from_server_config net bearer dev_mode c = new_authenticator net bearer (record {
  server_url = c.url;
  bearer_fallback_enabled = c.auth.bearer_token_enabled;
  has_bearer_validator = true;
  dev_mode = dev_mode;
})
