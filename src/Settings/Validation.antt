-- ===== src/Settings/Validation.antt =====
-- anyModeEnabled, validateConfig and the end of LoadConfig (pkg/config/server/config.go). Reading the
-- file, the flags and the environment is a third-party library.
use antrea_ui.Base.{
  zero, suc, Bool, true, false, ◌&&◌, ◌||◌, not, Option, none, some, str_eq, ltb, if◌then◌else◌,
}
use antrea_ui.Base.Int.{ℤ, pos, negsuc}
use antrea_ui.Settings.Types.{Config, AuthConfig, SessionConfig}

pub data ConfigError : Type 0 where
  invalid_verbosity url_required no_authentication_mode : ConfigError
  idle_timeout_not_positive max_lifetime_not_positive lifetime_below_idle : ConfigError
  max_sessions_not_positive max_per_user_not_positive per_user_above_max : ConfigError
  unreadable not_unmarshalled : ConfigError

-- `x <= 0`.
abbrev pub is_not_positive : ℤ → Bool
is_not_positive (pos zero) = true
is_not_positive (pos (suc n)) = false
is_not_positive (negsuc n) = true

-- `x < y`.
abbrev pub less : ℤ → ℤ → Bool
less (pos m) (pos n) = ltb m n
less (pos m) (negsuc n) = false
less (negsuc m) (pos n) = true
less (negsuc m) (negsuc n) = ltb n m

unfoldable pub any_mode_enabled : AuthConfig → Bool
any_mode_enabled a =
    a.basic_enabled || a.oidc.enabled || a.kubeconfig_enabled || a.service_account_token_enabled

-- The first failed test, or `none`.
abbrev pub check : Bool → ConfigError → Option ConfigError → Option ConfigError
check failed e later = if failed then some e else later

unfoldable pub validate_session : SessionConfig → Option ConfigError
validate_session s = check (is_not_positive s.idle_timeout) ConfigError.idle_timeout_not_positive (
    check (is_not_positive s.max_lifetime) ConfigError.max_lifetime_not_positive (
      check (less s.max_lifetime s.idle_timeout) ConfigError.lifetime_below_idle (
        check (is_not_positive s.max_sessions) ConfigError.max_sessions_not_positive (
          check (is_not_positive s.max_sessions_per_user) ConfigError.max_per_user_not_positive (
            check (less s.max_sessions s.max_sessions_per_user) ConfigError.per_user_above_max
              none)))))

unfoldable pub validate_config : Config → Option ConfigError
unfolding any_mode_enabled validate_session
validate_config c =
    check (less c.log_verbosity (pos 0) || not (less c.log_verbosity (pos 128)))
      ConfigError.invalid_verbosity
      (check (c.auth.oidc.enabled && str_eq c.url "") ConfigError.url_required (
        check (not (any_mode_enabled c.auth)) ConfigError.no_authentication_mode
          (validate_session c.session)))

-- What ReadInConfig and Unmarshal answer.
pub data ConfigFile : Type 0 where
  read not_there broken : ConfigFile

pub data Loaded : Type 0 where
  loaded : Config → Loaded
  not_loaded : ConfigError → Loaded

abbrev pub validated : Config → Option ConfigError → Loaded
validated c none = loaded c
validated c (some e) = not_loaded e

-- A file that is not there is no error.
unfoldable pub load_config : ConfigFile → Option Config → Loaded
unfolding validate_config
load_config broken values = not_loaded ConfigError.unreadable
load_config _ none = not_loaded ConfigError.not_unmarshalled
load_config _ (some c) = validated c (validate_config c)
