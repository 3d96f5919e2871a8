-- ===== src/Startup/Parts.antt =====
-- Which parts a server that has started has, and how they were set up (cmd/server/main.go: run).
use antrea_ui.Base.{
  ◌≡◌, refl, Bool, true, Option, none, some, ap, subst, ◌∙◌, ℕ, false, ◌&&◌, not, String,
}
use antrea_ui.Session.Expiry.{set_defaults}
use antrea_ui.Authn.Types.{Config, Net}
use antrea_ui.Password.Store.{PasswordError, PasswordStore, password_store, init}
use antrea_ui.Password.Secret.{Cluster, k8s_secret}
use antrea_ui.Password.Laws.Starting.{IsInitialized, init-IsInitialized}
use antrea_ui.AntreaSvc.Factory.{Rest, new_client_factory}
use antrea_ui.Oidc.Provider.{OidcProvider, Progress, new_oidc_provider, init_provider}
use antrea_ui.Login.Types.{ServerConfig}
use antrea_ui.Settings.Types as SettingsTypes
use antrea_ui.Settings.Derived.{session_options, server_config}
use antrea_ui.Startup.Steps.{
  StartupError, goes, attempt, or_stop, has_some, and_then-goes, require-goes, attempt-goes,
  or_stop-goes, goes-injective,
}
use antrea_ui.Startup.Tls.{TlsConfig, Verified, flow_tls, flow_tls-Verified}
use antrea_ui.Startup.Authenticator.{new_authenticator, new_from_server_config, server_origin}
use antrea_ui.Startup.Clients.{client, impersonated_client}
use antrea_ui.Startup.Run.{
  Clients, admin_of, Environment, Started, provider_config, initialized, password_step, discovered,
  provider_step, dialled, flow_step, set_up, with_clients, run, is_development_env, new_server,
}

implied : (on b : Bool) → not (on && not b) ≡ true → on ≡ true → b ≡ true
implied true true h e = refl
implied true false h e = cc
implied false b h e = cc

-- What the server gets: an authenticator that accepts bearer tokens just if this is on, and then
-- with a validator for them, with the origin of the configured URL, and the login's configuration.
pub record IsMade (net : Net) (bearer : Bool) (c : SettingsTypes.Config) (admin : String)
    (a : Config) (login : ServerConfig) : Type 0 where
  pub tokens : a.bearer_fallback_enabled ≡ c.auth.bearer_token_enabled
  pub validator : c.auth.bearer_token_enabled ≡ true → bearer ≡ true
  pub origin : server_origin net c.url ≡ goes a.server_origin
  pub configured : login ≡ server_config c admin

new_from_server_config-IsMade :
    (net : Net) (bearer dev_mode : Bool) (c : SettingsTypes.Config) (admin : String) (a : Config)
    → new_from_server_config net bearer dev_mode c ≡ goes a
    → IsMade net bearer c admin a (server_config c admin)
unfolding new_from_server_config new_authenticator
new_from_server_config-IsMade net bearer dev_mode c admin a h =
    let on = c.auth.bearer_token_enabled in
    let (_, rest₁) = require-goes (not (on && not true)) StartupError.no_validator _ h in
    let (has, rest₂) =
      require-goes (not (on && not bearer)) StartupError.no_bearer_validator _ rest₁ in
    let (origin, parsed, made) = and_then-goes (server_origin net c.url) _ rest₂ in
    subst (λ x. IsMade net bearer c admin x (server_config c admin)) (goes-injective made)
      (record {
        tokens = refl;
        validator = implied on bearer has;
        origin = parsed;
        configured = refl;
      })

new_server-IsMade :
    (net : Net) (bearer dev_mode : Bool) (c : SettingsTypes.Config) (admin : String)
    (r : Config × ServerConfig)
    → new_server net bearer dev_mode c admin ≡ goes r
    → IsMade net bearer c admin r.0 r.1
unfolding new_server
new_server-IsMade net bearer dev_mode c admin r h =
    let (a, made, e) = and_then-goes (new_from_server_config net bearer dev_mode c) _ h in
    subst (λ (x : Config × ServerConfig). IsMade net bearer c admin x.0 x.1) (goes-injective e)
      (new_from_server_config-IsMade net bearer dev_mode c admin a made)

module _ (rest : Rest) (k : Cluster) (net : Net) (env : Environment rest k)
    (c : SettingsTypes.Config) where
  -- The provider is the configured one, and its discovery has succeeded.
  pub record IsDiscovered (p : OidcProvider) : Type 0 where
    pub configured :
        new_oidc_provider net env.urls env.regexps env.state_secret (provider_config c) ≡ some p
    pub ready : (init_provider env.discovery).0 ≡ Progress.ready

  pub record HasParts (s : Started rest k) : Type 0 where
    pub passwords : has_some s.passwords ≡ c.auth.basic_enabled
    pub initial :
        (st : PasswordStore (k8s_secret k))
        → s.passwords ≡ some st
        → IsInitialized (k8s_secret k) env.hasher st
    pub provider : has_some s.oidc_provider ≡ c.auth.oidc.enabled
    pub discovery : (p : OidcProvider) → s.oidc_provider ≡ some p → IsDiscovered p
    pub stream : has_some s.flow_tls_config ≡ c.flow_aggregator.enabled
    pub verified :
        (t : TlsConfig) → s.flow_tls_config ≡ some t → Verified env.certificates c.flow_aggregator t
    pub options : s.options ≡ set_defaults (session_options c.session)
    pub server : IsMade net env.bearer_validator c s.admin_user_name s.authenticator s.login

  initialized-IsInitialized :
      (r : Option PasswordError × PasswordStore (k8s_secret k)) (st : PasswordStore (k8s_secret k))
      → init (k8s_secret k) env.hasher env.salt (password_store (k8s_secret k) env.secrets) ≡ r
      → initialized rest k r ≡ goes st
      → IsInitialized (k8s_secret k) env.hasher st
  initialized-IsInitialized (some e, su) st i h = cc
  initialized-IsInitialized (none, su) st i h =
      init-IsInitialized (k8s_secret k) env.hasher env.salt
        (password_store (k8s_secret k) env.secrets) st (i ∙ ap (λ x. (none, x)) (goes-injective h))

  password_step-IsInitialized :
      (st : PasswordStore (k8s_secret k))
      → password_step rest k env ≡ goes st
      → IsInitialized (k8s_secret k) env.hasher st
  unfolding password_step
  password_step-IsInitialized st h = initialized-IsInitialized _ st refl h

  discovered-goes :
      (p q : OidcProvider) (r : Progress)
      → discovered rest k p r ≡ goes q
      → (p ≡ q) × (r ≡ Progress.ready)
  discovered-goes p q Progress.ready h = (goes-injective h, refl)
  discovered-goes p q Progress.cancelled h = cc
  discovered-goes p q Progress.running h = cc

  provider_step-IsDiscovered :
      (p : OidcProvider) → provider_step rest k net env c ≡ goes p → IsDiscovered p
  unfolding provider_step
  provider_step-IsDiscovered p h =
      let (q, made, d) =
        and_then-goes
          (or_stop StartupError.no_provider
            (new_oidc_provider net env.urls env.regexps env.state_secret (provider_config c)))
          _ h in
      let (same, r) = discovered-goes q p (init_provider env.discovery).0 d in
      record { configured = or_stop-goes _ _ made ∙ ap some same; ready = r }

  flow_step-Verified :
      (t : TlsConfig)
      → flow_step rest k env c.flow_aggregator ≡ goes t
      → Verified env.certificates c.flow_aggregator t
  unfolding flow_step
  flow_step-Verified t h =
      let (u, built, d) =
        and_then-goes (flow_tls env.certificates c.flow_aggregator)
          (λ (u : TlsConfig). dialled rest k env u) h in
      subst (Verified env.certificates c.flow_aggregator)
        (goes-injective (require-goes (env.dial u) _ (goes u) d).1)
        (flow_tls-Verified env.certificates c.flow_aggregator u built)

  set_up-HasParts :
      (clients : Clients rest k) (s : Started rest k)
      → set_up rest k net env c clients ≡ goes s
      → HasParts s
  unfolding set_up
  set_up-HasParts clients s h =
      let (store, h₁, rest₁) =
        and_then-goes (attempt c.auth.basic_enabled (password_step rest k env)) _ h in
      let (provider, h₂, rest₂) =
        and_then-goes (attempt c.auth.oidc.enabled (provider_step rest k net env c)) _ rest₁ in
      let (flow, h₃, rest₃) =
        and_then-goes (attempt c.flow_aggregator.enabled (flow_step rest k env c.flow_aggregator)) _
          rest₂ in
      let admin = admin_of rest k env in
      let dev_mode = is_development_env env.app_env in
      let (server, h₄, rest₄) =
        and_then-goes (new_server net env.bearer_validator dev_mode c admin) _ rest₃ in
      let (has_store, from_store) =
        attempt-goes c.auth.basic_enabled (password_step rest k env) store h₁ in
      let (has_provider, from_provider) =
        attempt-goes c.auth.oidc.enabled (provider_step rest k net env c) provider h₂ in
      let (has_stream, from_flow) =
        attempt-goes c.flow_aggregator.enabled (flow_step rest k env c.flow_aggregator) flow h₃ in
      subst HasParts (goes-injective rest₄) (record {
        passwords = has_store;
        initial = λ st e. password_step-IsInitialized st (from_store st e);
        provider = has_provider;
        discovery = λ p e. provider_step-IsDiscovered p (from_provider p e);
        stream = has_stream;
        verified = λ t e. flow_step-Verified t (from_flow t e);
        options = refl;
        server = new_server-IsMade net env.bearer_validator dev_mode c admin server h₄;
      })

  with_clients-HasParts :
      (conf : rest.Conf) (transport : ℕ) (s : Started rest k)
      → with_clients rest k net env c conf transport ≡ goes s
      → HasParts s
  unfolding with_clients
  with_clients-HasParts conf transport s h =
      let (_, h₁) = require-goes (has_some (net.parse_url env.host)) _ _ h in
      let (admin_transport, _, h₂) =
        and_then-goes
          (or_stop StartupError.no_admin_client
            (impersonated_client env.client_go conf transport (admin_of rest k env)))
          _ h₁ in
      let (factory, _, h₃) =
        and_then-goes
          (or_stop StartupError.no_client_factory (new_client_factory rest conf transport "k8s")) _
          h₂ in
      let (_, h₄) = require-goes env.clientset _ _ h₃ in
      let (_, h₅) = require-goes env.antrea_client _ _ h₄ in set_up-HasParts _ s h₅

  pub run-HasParts : (s : Started rest k) → run rest k net env c ≡ goes s → HasParts s
  unfolding run
  run-HasParts s h =
      let (clients, _, h₁) =
        and_then-goes (or_stop StartupError.no_clients (client env.client_go env.service_host)) _
          h in
      with_clients-HasParts clients.0 clients.1 s h₁
