-- ===== src/Settings/Serving.antt =====
-- A server with an accepted configuration runs with what the configuration says.
use antrea_ui.Base.{
  ℕ, String, zero, suc, ◌≤◌, ◌<◌, ◌≡◌, refl, Bool, true, false, ◌||◌, some, List, [], ◌∷◌, ◌++◌,
  arith, ◌∙◌, Option, none,
}
use antrea_ui.Base.Int.{pos}
use antrea_ui.Session.Types.{Options}
use antrea_ui.Session.Expiry.{set_defaults}
use antrea_ui.Login.Routes.{
  kubeconfig_login, token_login, password_login, route, login_rate_limit, Limit, if_enabled, Route,
  Handler, Endpoint, auth_routes, login_handlers, oauth2_routes,
}
use antrea_ui.Settings.Types.{Config, SessionConfig}
use antrea_ui.Settings.Validation.{validate_config}
use antrea_ui.Settings.Derived.{session_options, server_config}
use antrea_ui.Settings.Soundness.{IsSessionConfig, IsUsable, validate_config-IsUsable}
use antrea_ui.Login.Types.{ServerConfig}

abbrev numbers : ℕ → ℕ → ℕ → ℕ → Options
numbers i l w u = record {
  idle_timeout = i;
  max_lifetime = l;
  max_sessions = w;
  max_sessions_per_user = u;
}

kept :
    (i l w u : ℕ)
    → 0 < i
    → i ≤ l
    → 0 < u
    → u ≤ w
    → set_defaults (
        session_options (record {
          idle_timeout = pos i;
          max_lifetime = pos l;
          max_sessions = pos w;
          max_sessions_per_user = pos u;
        }))
      ≡ numbers i l w u
unfolding set_defaults session_options
kept zero l w u a b c d = absurd (omega arith)
kept (suc i) zero w u a b c d = absurd (omega arith)
kept (suc i) (suc l) w zero a b c d = absurd (omega arith)
kept (suc i) (suc l) zero (suc u) a b c d = absurd (omega arith)
kept (suc i) (suc l) (suc w) (suc u) a b c d = ground arith

abbrev begins_session : Endpoint → Bool
begins_session Endpoint.session_probe = false
begins_session Endpoint.sign_out = false
begins_session _ = true

-- Whether an endpoint of the chain begins a session.
abbrev pub is_login : List Handler → Bool
is_login [] = false
is_login (Handler.serves e ∷ hs) = begins_session e
is_login (_ ∷ hs) = is_login hs

abbrev pub offers_login : List Route → Bool
offers_login [] = false
offers_login (r ∷ rs) = is_login r.handlers || offers_login rs

-- The store's options are the numbers of the configuration, and some route begins a session.
pub record IsServed (c : Config) (admin_user_name : String) : Type 0 where
  pub options : Options
  pub made : set_defaults (session_options c.session) ≡ options
  pub idle : c.session.idle_timeout ≡ pos options.idle_timeout
  pub lifetime : c.session.max_lifetime ≡ pos options.max_lifetime
  pub whole : c.session.max_sessions ≡ pos options.max_sessions
  pub share : c.session.max_sessions_per_user ≡ pos options.max_sessions_per_user
  pub login : offers_login (auth_routes (server_config c admin_user_name)) ≡ true

offers-append : (xs ys : List Route) → offers_login (xs ++ ys) ≡ offers_login xs || offers_login ys
offers-append [] ys = refl
offers-append (x ∷ xs) ys = ground (arith, offers-append xs ys)

chain-is_login :
    (limit : Option Limit) (e : Endpoint) → is_login (login_handlers limit e) ≡ begins_session e
unfolding login_handlers
chain-is_login none e = refl
chain-is_login (some l) e = refl

-- A login route is offered where its mode is enabled.
enabled_login :
    (limit : Option Limit) (path : String) (e : Endpoint) (b : Bool)
    → begins_session e ≡ true
    → offers_login (if_enabled b (route "POST" path (login_handlers limit e) ∷ [])) ≡ b
enabled_login limit path e true begins = rw (chain-is_login limit e, begins) refl
enabled_login limit path e false begins = refl

enabled_oidc : (b : Bool) → offers_login (if_enabled b oauth2_routes) ≡ b
unfolding oauth2_routes
enabled_oidc true = refl
enabled_oidc false = refl

offers-auth_routes :
    (cfg : ServerConfig)
    → offers_login (auth_routes cfg) ≡ (
        cfg.basic_auth_enabled || cfg.sa_token_auth_enabled || cfg.kubeconfig_auth_enabled
        || cfg.oidc_auth_enabled)
unfolding auth_routes
offers-auth_routes cfg =
    let limit = login_rate_limit cfg.max_logins_per_second in
    simp (
      offers-append,
      enabled_login limit "/auth/login" password_login cfg.basic_auth_enabled refl,
      enabled_login limit "/auth/login/token" token_login cfg.sa_token_auth_enabled refl,
      enabled_login limit "/auth/login/kubeconfig" kubeconfig_login cfg.kubeconfig_auth_enabled
          refl,
      enabled_oidc cfg.oidc_auth_enabled,
    )

offers_some :
    (c : Config) (admin_user_name : String)
    → IsUsable c
    → offers_login (auth_routes (server_config c admin_user_name)) ≡ true
unfolding server_config
offers_some c name u = offers-auth_routes (server_config c name) ∙ ground (arith, u.has_mode)

options_kept :
    (s : SessionConfig) (g : IsSessionConfig s)
    → set_defaults (session_options s) ≡ numbers g.idle g.lifetime g.whole g.share
unfolding session_options
options_kept s g =
    rw (g.idle_is, g.lifetime_is, g.whole_is, g.share_is)
      (kept g.idle g.lifetime g.whole g.share g.idle_positive g.idle_fits g.share_positive
        g.share_fits)

-- With an accepted configuration no default of the session store steps in: its limits are the numbers
-- of the configuration, unchanged. And some route of the server begins a session.
pub validate_config-IsServed :
    (c : Config) (admin_user_name : String) → validate_config c ≡ none → IsServed c admin_user_name
validate_config-IsServed c name e =
    let u = (validate_config-IsUsable c).0 e in
    record {
      options = numbers u.session.idle u.session.lifetime u.session.whole u.session.share;
      made = options_kept c.session u.session;
      idle = u.session.idle_is;
      lifetime = u.session.lifetime_is;
      whole = u.session.whole_is;
      share = u.session.share_is;
      login = offers_some c name u;
    }
