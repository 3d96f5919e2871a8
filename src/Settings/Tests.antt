-- ===== src/Settings/Tests.antt =====
-- The default configuration, and one that is refused.
use antrea_ui.Base.{◌≡◌, refl, ◌↔◌, none, some}
use antrea_ui.Base.Int.{pos}
use antrea_ui.Settings.Types.{Config, default_config}
use antrea_ui.Settings.Validation.{ConfigError, validate_config}
use antrea_ui.Settings.Soundness.{IsUsable, validate_config-IsUsable}
use antrea_ui.Settings.Serving.{IsServed, validate_config-IsServed}

default_accepted : validate_config default_config ≡ none
unfolding validate_config
default_accepted = refl

abbrev long_idle : Config
long_idle = record default_config {
  session = record (default_config.session) { max_lifetime = pos 5 };
}

long_idle_refused : validate_config long_idle ≡ some ConfigError.lifetime_below_idle
unfolding validate_config
long_idle_refused = refl

validate_config-IsUsable_example : (validate_config default_config ≡ none) ↔ IsUsable default_config
validate_config-IsUsable_example = validate_config-IsUsable default_config

default_config-IsServed : IsServed default_config "antrea-ui-admin"
default_config-IsServed = validate_config-IsServed default_config "antrea-ui-admin" default_accepted
