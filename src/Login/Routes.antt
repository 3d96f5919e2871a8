-- ===== src/Login/Routes.antt =====
-- The chains of handlers of the login routes, and the limit on logins (pkg/server/auth.go:
-- loginRateLimitMiddleware, loginHandlers, AddAuthRoutes; pkg/server/authn/authn.go: csrfMiddleware).
use antrea_ui.Base.{
  ℕ, String, zero, suc, ◌*◌, Bool, true, false, Option, none, some, List, [], ◌∷◌, ◌++◌,
  if◌then◌else◌,
}
use antrea_ui.Base.Int.{ℤ, pos, negsuc}
use antrea_ui.Authn.Types.{status_ok, status_too_many_requests, Request, Config, Net}
use antrea_ui.Authn.Origin.{check_cross_origin}
use antrea_ui.Login.Types.{failed, status, ServerConfig, Visit, Reply}

abbrev pub max_login_body_size : ℕ
max_login_body_size = 256 * 1024

-- The rate in logins per second, and the burst size. There is one limiter, by client IP, for all
-- login routes.
pub record Limit : Type 0 where
  pub rate : ℕ
  pub burst_size : ℕ

unfoldable pub login_rate_limit : ℤ → Option Limit
login_rate_limit (negsuc n) = none
login_rate_limit (pos zero) = some (record { rate = 0; burst_size = 0 })
login_rate_limit (pos (suc n)) = some (record { rate = suc n; burst_size = 1 })

pub data Endpoint : Type 0 where
  password_login token_login kubeconfig_login session_probe sign_out : Endpoint
  provider_login provider_callback : Endpoint

-- A handler of a chain. `cross_origin_gate` says whether it lets top-level navigations pass.
pub data Handler : Type 0 where
  cross_origin_gate : Bool → Handler
  limit_body_size : ℕ → Handler
  rate_limit : Limit → Handler
  serves : Endpoint → Handler

pub record Route : Type 0 where
  pub method : String
  pub path : String
  pub handlers : List Handler

abbrev pub optional_handler : Option Limit → List Handler
optional_handler none = []
optional_handler (some l) = rate_limit l ∷ []

unfoldable pub login_handlers : Option Limit → Endpoint → List Handler
login_handlers limit endpoint =
    cross_origin_gate false
    ∷ limit_body_size max_login_body_size
    ∷ (optional_handler limit ++ (serves endpoint ∷ []))

abbrev pub route : String → String → List Handler → Route
route method path handlers = record { method = method; path = path; handlers = handlers }

abbrev pub if_enabled : Bool → List Route → List Route
if_enabled false rs = []
if_enabled true rs = rs

unfoldable pub oauth2_routes : List Route
oauth2_routes =
    route "GET" "/auth/oauth2/login" (serves provider_login ∷ [])
    ∷ route "GET" "/auth/oauth2/callback" (serves provider_callback ∷ [])
    ∷ []

unfoldable pub auth_routes : ServerConfig → List Route
unfolding login_rate_limit login_handlers oauth2_routes
auth_routes cfg =
    let limit = login_rate_limit cfg.max_logins_per_second in
    if_enabled cfg.basic_auth_enabled
      (route "POST" "/auth/login" (login_handlers limit password_login) ∷ [])
    ++ if_enabled cfg.sa_token_auth_enabled
        (route "POST" "/auth/login/token" (login_handlers limit token_login) ∷ [])
    ++ if_enabled cfg.kubeconfig_auth_enabled
        (route "POST" "/auth/login/kubeconfig" (login_handlers limit kubeconfig_login) ∷ [])
    ++ route "GET" "/auth/session" (serves session_probe ∷ [])
      ∷ route "GET" "/auth/logout" (cross_origin_gate true ∷ serves sign_out ∷ [])
      ∷ route "POST" "/auth/logout" (cross_origin_gate false ∷ serves sign_out ∷ [])
      ∷ if_enabled cfg.oidc_auth_enabled oauth2_routes

-- A chain runs until a handler aborts it. `allowed` is what the limiter answers, and `run` runs an
-- endpoint with the limit on its body that stands before it, if there is one.
module _ (net : Net) (auth : Config) (req : Request) (allowed : Limit → Bool)
    (run : Option ℕ → Endpoint → Visit → Reply × Visit) where
  unfoldable pub run_chain : Option ℕ → List Handler → Visit → Reply × Visit
  unfolding check_cross_origin
  run_chain size [] v = (status status_ok, v)
  run_chain size (cross_origin_gate navigation ∷ later) v =
      let go = run_chain size later v in
      elim (check_cross_origin net auth req navigation) [ some e ↦ (failed e, v) | none ↦ go ]
  run_chain size (limit_body_size n ∷ later) v = run_chain (some n) later v
  run_chain size (rate_limit l ∷ later) v =
      let go = run_chain size later v in
      if allowed l then go else (status status_too_many_requests, v)
  run_chain size (serves endpoint ∷ later) v = run size endpoint v
