-- ===== src/Startup/Backing.antt =====
-- A server that has started has every part that its routes use (cmd/server/main.go: run).
use antrea_ui.Base.{
  ◌≡◌, refl, ◌∙◌, Bool, true, false, ◌&&◌, Option, none, some, List, [], ◌∷◌, All, All-append,
  arith, ℕ, String, ◌++◌, subst, sym,
}
use antrea_ui.Base.Int.{ℤ}
use antrea_ui.Authn.Types.{Net}
use antrea_ui.Password.Secret.{Cluster}
use antrea_ui.AntreaSvc.Factory.{Rest}
use antrea_ui.Login.Routes.{
  Endpoint, Handler, Route, Limit, auth_routes, oauth2_routes, login_handlers, login_rate_limit,
  if_enabled, password_login, token_login, kubeconfig_login,
}
use antrea_ui.Settings.Types as SettingsTypes
use antrea_ui.Settings.Validation.{validate_config}
use antrea_ui.Settings.Derived.{server_config}
use antrea_ui.Settings.Serving.{IsServed, validate_config-IsServed}
use antrea_ui.Api.Routes.{
  at, k8s_routes, plugins_routes, versioned_routes, api_routes, server_routes, traceflow_routes,
  ApiEndpoint, ApiHandler, ApiRoute, group, throttled_by, account_routes, flow_stream_routes,
}
use antrea_ui.Startup.Steps.{goes, has_some}
use antrea_ui.Startup.Run.{Environment, Started, run, api_server}
use antrea_ui.Startup.Parts.{HasParts, run-HasParts}
use antrea_ui.Traceflow.Endpoints.{traceflow_limit}
use antrea_ui.AntreaSvc.Factory.{Rest}

module _ {rest : Rest} {k : Cluster} where
  -- Whether the part that a login endpoint uses is there.
  abbrev pub login_part : Started rest k → Endpoint → Bool
  login_part s Endpoint.password_login = has_some s.passwords
  login_part s Endpoint.provider_login = has_some s.oidc_provider
  login_part s Endpoint.provider_callback = has_some s.oidc_provider
  login_part s _ = true

  abbrev pub login_backed : Started rest k → List Handler → Bool
  login_backed s [] = true
  login_backed s (Handler.serves e ∷ hs) = login_part s e && login_backed s hs
  login_backed s (_ ∷ hs) = login_backed s hs

  abbrev pub AreBacked : Started rest k → List Route → Type 0
  AreBacked s = All (λ r. login_backed s r.handlers ≡ true)

  if_enabled-AreBacked :
      (s : Started rest k) (b : Bool) (rs : List Route)
      → (b ≡ true → AreBacked s rs)
      → AreBacked s (if_enabled b rs)
  if_enabled-AreBacked s true rs h = h refl
  if_enabled-AreBacked s false rs h = tt

  login_handlers-backed :
      (s : Started rest k) (limit : Option Limit) (e : Endpoint)
      → login_part s e ≡ true
      → login_backed s (login_handlers limit e) ≡ true
  unfolding login_handlers
  login_handlers-backed s none e h = ground (arith, h)
  login_handlers-backed s (some l) e h = ground (arith, h)

  auth_routes-AreBacked :
      (c : SettingsTypes.Config) (s : Started rest k)
      → has_some s.passwords ≡ c.auth.basic_enabled
      → has_some s.oidc_provider ≡ c.auth.oidc.enabled
      → AreBacked s (auth_routes (server_config c s.admin_user_name))
  unfolding auth_routes server_config oauth2_routes
  auth_routes-AreBacked c s store provider =
      let limit = login_rate_limit c.limits.max_logins_per_second in
      All-append _ _ _
        (All-append _ _ _
          (All-append _ _ _
            (if_enabled-AreBacked s c.auth.basic_enabled _
              (λ on. (login_handlers-backed s limit password_login (store ∙ on), tt)))
            (if_enabled-AreBacked s c.auth.service_account_token_enabled _
              (λ on. (login_handlers-backed s limit token_login refl, tt))))
          (if_enabled-AreBacked s c.auth.kubeconfig_enabled _
            (λ on. (login_handlers-backed s limit kubeconfig_login refl, tt))))
        (
          refl,
          (
            refl,
            (
              refl,
              if_enabled-AreBacked s c.auth.oidc.enabled oauth2_routes (λ on.
                  let there = provider ∙ on in
                  (ground (arith, there), (ground (arith, there), tt))),
            ),
          ),
        )

  -- Whether the part that an endpoint of the API uses is there.
  abbrev pub api_part : Started rest k → ApiEndpoint → Bool
  api_part s ApiEndpoint.put_password = has_some s.passwords
  api_part s ApiEndpoint.flow_stream = has_some s.flow_tls_config
  api_part s _ = true

  abbrev pub api_backed : Started rest k → List ApiHandler → Bool
  api_backed s [] = true
  api_backed s (ApiHandler.serves e ∷ hs) = api_part s e && api_backed s hs
  api_backed s (ApiHandler.authenticate ∷ hs) = api_backed s hs
  api_backed s (ApiHandler.throttle limit ∷ hs) = api_backed s hs

  abbrev pub ApiBacked : Started rest k → List ApiRoute → Type 0
  ApiBacked s = All (λ r. api_backed s r.handlers ≡ true)

  group-ApiBacked :
      (s : Started rest k) (prefix : String) (rs : List ApiRoute)
      → ApiBacked s rs
      → ApiBacked s (group prefix [] rs)
  unfolding group
  group-ApiBacked s prefix [] a = tt
  group-ApiBacked s prefix (r ∷ rs) a = (a.0, group-ApiBacked s prefix rs a.1)

  account_routes-ApiBacked :
      (s : Started rest k) (b : Bool) → has_some s.passwords ≡ b → ApiBacked s (account_routes b)
  unfolding account_routes group
  account_routes-ApiBacked s true h = (ground (arith, h), tt)
  account_routes-ApiBacked s false h = tt

  flow_stream_routes-ApiBacked :
      (s : Started rest k) (b : Bool)
      → has_some s.flow_tls_config ≡ b
      → ApiBacked s (flow_stream_routes b)
  unfolding flow_stream_routes group
  flow_stream_routes-ApiBacked s true h = (ground (arith, h), tt)
  flow_stream_routes-ApiBacked s false h = (refl, tt)

  limited-backed :
      (s : Started rest k) (limit : Option (ℕ × ℕ)) (e : ApiEndpoint)
      → api_part s e ≡ true
      → api_backed s (ApiHandler.authenticate ∷ (throttled_by limit ++ (ApiHandler.serves e ∷ [])))
        ≡ true
  limited-backed s none e h = ground (arith, h)
  limited-backed s (some limit) e h = ground (arith, h)

  traceflow_routes-ApiBacked : (s : Started rest k) (n : ℤ) → ApiBacked s (traceflow_routes n)
  unfolding traceflow_routes group
  traceflow_routes-ApiBacked s n = (
    limited-backed s (traceflow_limit n) ApiEndpoint.create_traceflow refl,
    (refl, (refl, (refl, (refl, tt)))),
  )

  -- The routes that `AddRoutes` adds last.
  abbrev last_routes : Started rest k → List ApiRoute
  last_routes s =
      at "GET" "/featuregates" (ApiHandler.authenticate ∷ []) ApiEndpoint.feature_gates
      ∷ (flow_stream_routes (has_some s.flow_tls_config)
          ++ (at "GET" "/access-summary" (ApiHandler.authenticate ∷ []) ApiEndpoint.access_summary
              ∷ []))

  last_routes-ApiBacked : (s : Started rest k) → ApiBacked s (last_routes s)
  last_routes-ApiBacked s =
      let summary : ApiBacked s (
          at "GET" "/access-summary" (ApiHandler.authenticate ∷ []) ApiEndpoint.access_summary
          ∷ []) =
        (refl, tt) in
      (
        refl,
        All-append _ (flow_stream_routes (has_some s.flow_tls_config))
            (at "GET" "/access-summary" (ApiHandler.authenticate ∷ []) ApiEndpoint.access_summary
              ∷ [])
            (flow_stream_routes-ApiBacked s (has_some s.flow_tls_config) refl) summary,
      )

  middle_routes-ApiBacked :
      (s : Started rest k)
      → ApiBacked s (account_routes (has_some s.passwords) ++ (k8s_routes ++ last_routes s))
  unfolding k8s_routes group
  middle_routes-ApiBacked s =
      All-append _ (account_routes (has_some s.passwords)) (k8s_routes ++ last_routes s)
        (account_routes-ApiBacked s (has_some s.passwords) refl) (refl, last_routes-ApiBacked s)

  server_routes-ApiBacked :
      (c : SettingsTypes.Config) (s : Started rest k)
      → ApiBacked s (server_routes (api_server rest k c s))
  unfolding server_routes api_routes versioned_routes plugins_routes group api_server
  server_routes-ApiBacked c s =
      let later =
        All-append _ (traceflow_routes c.limits.max_traceflows_per_hour)
          (account_routes (has_some s.passwords) ++ (k8s_routes ++ last_routes s))
          (traceflow_routes-ApiBacked s c.limits.max_traceflows_per_hour)
          (middle_routes-ApiBacked s) in
      (
        refl,
        group-ApiBacked s "/api/v1" (versioned_routes (api_server rest k c s))
            (refl, (refl, (refl, (refl, later)))),
      )

  -- What a server that runs can do: each route has the part that its endpoint uses.
  pub record IsBacked (net : Net) (env : Environment rest k) (c : SettingsTypes.Config)
      (s : Started rest k) : Type 0 where
    pub login_routes : AreBacked s (auth_routes s.login)
    pub api_routes : ApiBacked s (server_routes (api_server rest k c s))
    pub served : IsServed c s.admin_user_name
    pub parts : HasParts rest k net env c s

  -- A server that has started with an accepted configuration is backed.
  pub run-IsBacked :
      (net : Net) (env : Environment rest k) (c : SettingsTypes.Config) (s : Started rest k)
      → validate_config c ≡ none
      → run rest k net env c ≡ goes s
      → IsBacked net env c s
  run-IsBacked net env c s valid h =
      let p = run-HasParts rest k net env c s h in
      record {
        login_routes =
            subst (λ l. AreBacked s (auth_routes l)) (sym p.server.configured)
              (auth_routes-AreBacked c s p.passwords p.provider);
        api_routes = server_routes-ApiBacked c s;
        served = validate_config-IsServed c s.admin_user_name valid;
        parts = p;
      }
