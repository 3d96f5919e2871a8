-- ===== src/Startup/Outcome.antt =====
-- What becomes of the start of the process (cmd/server/main.go: run).
use antrea_ui.Base.{
  ◌≡◌, ◌≢◌, refl, inl, inr, Bool, true, false, ◌&&◌, not, Option, none, some, ℕ, String, arith,
  subst, str_eq, Bool-cases, str_ne, str_eq→eq,
}
use antrea_ui.Authn.Types.{Net, Url}
use antrea_ui.Password.Secret.{Cluster}
use antrea_ui.AntreaSvc.Factory.{Rest, new_client_factory, factory_over}
use antrea_ui.Settings.Types as SettingsTypes
use antrea_ui.Settings.Validation.{validate_config}
use antrea_ui.Startup.Steps.{
  StartupError, Step, goes, stops, has_some, or_stop, and_then-stops, require-stops, attempt-stops,
  or_stop-stops, or_stop-goes, attempt,
}
use antrea_ui.Startup.Authenticator.{
  server_origin, origin_of, new_authenticator, new_from_server_config,
}
use antrea_ui.Startup.Clients.{
  client, impersonated_client, client-HasNoClients, impersonated_client-none,
}
use antrea_ui.Startup.Run.{
  Clients, admin_of, Environment, Started, password_step, provider_step, flow_step, new_server,
  set_up, with_clients, run, is_development_env, get_namespace, service_account_user_name,
}
use antrea_ui.Startup.Reasons.{Reason, HasNoHost, password_step-Reason, provider_step-Reason}
use antrea_ui.Startup.Stopping.{flow_step-stops}
use antrea_ui.Startup.Backing.{IsBacked, run-IsBacked}

has_some-none : {A : Type 0} → (o : Option A) → has_some o ≡ false → o ≡ none
has_some-none none h = refl
has_some-none (some a) h = cc

without_validator : (on b : Bool) → not (on && not b) ≡ false → (on ≡ true) × (b ≡ false)
without_validator true false h = (refl, refl)
without_validator true true h = cc
without_validator false b h = cc

factory_over-none :
    (rest : Rest) (conf : rest.Conf) (transport : ℕ) (key : String) (o : Option ℕ)
    → factory_over rest conf transport key o ≡ none
    → o ≡ none
factory_over-none rest conf transport key none h = refl
factory_over-none rest conf transport key (some b) h = cc

module _ (rest : Rest) (k : Cluster) (net : Net) (env : Environment rest k)
    (c : SettingsTypes.Config) where
  abbrev Why : StartupError → Type 0
  Why e = Reason rest k net env c e

  origin_of-stops :
      (o : Option Url) (e : StartupError)
      → c.url ≢ ""
      → net.parse_url c.url ≡ o
      → origin_of o ≡ stops e
      → Why e
  origin_of-stops none e u p h =
      let x : StartupError.invalid_server_url ≡ e = cc in subst Why x (u, HasNoHost.unparsed p)
  origin_of-stops (some url) e u p h = elim (Bool-cases (str_eq url.host "")) [
    | inl empty ↦
        let x : StartupError.invalid_server_url ≡ e = ground (arith, h, empty) in
        subst Why x (u, HasNoHost.hostless url p (str_eq→eq url.host "" empty))
    | inr full ↦ absurd (ground (arith, h, full))
  ]

  server_origin-stops : (e : StartupError) → server_origin net c.url ≡ stops e → Why e
  unfolding server_origin
  server_origin-stops e h = elim (Bool-cases (str_eq c.url "")) [
    | inl empty ↦ absurd (ground (arith, h, empty))
    | inr full ↦
        origin_of-stops (net.parse_url c.url) e (str_ne c.url "" full) refl
          (ground (arith, h, full))
  ]

  new_server-stops :
      (dev_mode : Bool) (admin : String) (e : StartupError)
      → new_server net env.bearer_validator dev_mode c admin ≡ stops e
      → Why e
  unfolding new_server new_from_server_config new_authenticator
  new_server-stops dev_mode admin e h =
      let on = c.auth.bearer_token_enabled in
      elim (and_then-stops (new_from_server_config net env.bearer_validator dev_mode c) _ h) [
        | inr q ↦ cc
        | inl s ↦ elim (require-stops (not (on && not true)) StartupError.no_validator _ s) [
          | inl x ↦ absurd (ground (arith, without_validator on true x.0))
          | inr s₁ ↦
              elim (require-stops (not (on && not env.bearer_validator))
                StartupError.no_bearer_validator _ s₁) [
                  | inl x ↦ subst Why x.1 (without_validator on env.bearer_validator x.0)
                  | inr s₂ ↦ elim (and_then-stops (server_origin net c.url) _ s₂) [
                    | inl o ↦ server_origin-stops e o
                    | inr q ↦ cc
                  ]
                ]
        ]
      ]

  set_up-stops :
      (clients : Clients rest k) (e : StartupError)
      → set_up rest k net env c clients ≡ stops e
      → Why e
  unfolding set_up
  set_up-stops clients e h =
      elim (and_then-stops (attempt c.auth.basic_enabled (password_step rest k env)) _ h) [
        | inl s ↦
            let (on, x) = attempt-stops c.auth.basic_enabled (password_step rest k env) s in
            password_step-Reason rest k net env c e on x
        | inr q₁ ↦
            elim (and_then-stops (attempt c.auth.oidc.enabled (provider_step rest k net env c)) _
              q₁.2) [
                | inl s ↦
                    let (on, x) =
                      attempt-stops c.auth.oidc.enabled (provider_step rest k net env c) s in
                    provider_step-Reason rest k net env c e on x
                | inr q₂ ↦
                    elim (and_then-stops
                      (attempt c.flow_aggregator.enabled (flow_step rest k env c.flow_aggregator)) _
                      q₂.2) [
                        | inl s ↦
                            let (on, x) =
                              attempt-stops c.flow_aggregator.enabled
                                (flow_step rest k env c.flow_aggregator) s in
                            flow_step-stops rest k net env c e on x
                        | inr q₃ ↦
                            let namespace = get_namespace env.pod_namespace in
                            let admin = service_account_user_name namespace "antrea-ui-admin" in
                            let dev_mode = is_development_env env.app_env in
                            elim (and_then-stops
                              (new_server net env.bearer_validator dev_mode c admin) _ q₃.2) [
                                | inl s ↦ new_server-stops dev_mode admin e s
                                | inr q ↦ cc
                              ]
                      ]
              ]
      ]

  with_clients-stops :
      (conf : rest.Conf) (transport : ℕ) (e : StartupError)
      → client env.client_go env.service_host ≡ some (conf, transport)
      → with_clients rest k net env c conf transport ≡ stops e
      → Why e
  unfolding with_clients new_client_factory
  with_clients-stops conf transport e r h =
      elim (require-stops (has_some (net.parse_url env.host)) StartupError.invalid_host _ h) [
        | inl x ↦ subst Why x.1 (has_some-none (net.parse_url env.host) x.0)
        | inr s₁ ↦
            elim (and_then-stops
              (or_stop StartupError.no_admin_client
                (impersonated_client env.client_go conf transport (admin_of rest k env)))
              _ s₁) [
                | inl s ↦
                    let (n, x) = or_stop-stops StartupError.no_admin_client _ s in
                    subst Why x (
                      conf,
                      transport,
                      r,
                      impersonated_client-none env.client_go conf transport (admin_of rest k env) n,
                    )
                | inr (_, _, s₂) ↦
                    elim (and_then-stops
                      (or_stop StartupError.no_client_factory
                        (new_client_factory rest conf transport "k8s"))
                      _ s₂) [
                        | inl s ↦
                            let (n, x) = or_stop-stops StartupError.no_client_factory _ s in
                            subst Why x
                              (conf, transport, r, factory_over-none rest conf transport "k8s" _ n)
                        | inr q ↦
                            elim (require-stops env.clientset StartupError.no_clientset _ q.2) [
                              | inl x ↦ subst Why x.1 x.0
                              | inr s₃ ↦
                                  elim (require-stops env.antrea_client
                                    StartupError.no_antrea_handler _ s₃) [
                                      | inl x ↦ subst Why x.1 x.0
                                      | inr s₄ ↦ set_up-stops _ e s₄
                                    ]
                            ]
                      ]
              ]
      ]

  run-stops : (e : StartupError) → run rest k net env c ≡ stops e → Why e
  unfolding run
  run-stops e h =
      elim (and_then-stops (or_stop StartupError.no_clients (client env.client_go env.service_host))
        _ h) [
          | inl s ↦
              let (n, x) =
                or_stop-stops StartupError.no_clients (client env.client_go env.service_host) s in
              subst Why x (client-HasNoClients env.client_go env.service_host n)
          | inr q ↦
              with_clients-stops q.0.0 q.0.1 e
                (or_stop-goes StartupError.no_clients (client env.client_go env.service_host) q.1)
                q.2
        ]

  pub data StartOutcome : Step (Started rest k) → Type 0 where
    began : (s : Started rest k) → IsBacked net env c s → StartOutcome (goes s)
    stopped : (e : StartupError) → Reason rest k net env c e → StartOutcome (stops e)

  outcome-StartOutcome :
      (r : Step (Started rest k))
      → validate_config c ≡ none
      → run rest k net env c ≡ r
      → StartOutcome r
  outcome-StartOutcome (goes s) valid h = began s (run-IsBacked net env c s valid h)
  outcome-StartOutcome (stops e) valid h = stopped e (run-stops e h)

  -- With a configuration that its validation accepts, the process either starts or stops with an
  -- error whose reason holds: a library's step that failed, a password store that could not be
  -- initialized, a provider that could not be made or discovered, a certificate that is missing or
  -- unreadable, or a URL without a host; an authenticator without a validator is never tried. A server
  -- that has started has, for every route of the login and of the API, the password store, the OIDC
  -- provider or the flow stream that its endpoint uses, and some route begins a session. Each optional
  -- part is there just where the configuration turns it on: the password store has a hash to compare
  -- with, the provider is the configured one and has been discovered, and the FlowAggregator's
  -- certificate is verified as configured. Bearer tokens are accepted just where this is on, and then
  -- with a validator. The session store has the configured options.
  pub run-StartOutcome : validate_config c ≡ none → StartOutcome (run rest k net env c)
  run-StartOutcome valid = outcome-StartOutcome (run rest k net env c) valid refl
