-- ===== src/Api/Routes.antt =====
-- The routes of the API and their handlers (AddRoutes and its parts in pkg/server/api; AddRoutes in
-- pkg/server/server.go), and what the authentication in front of a handler does (Middleware in
-- pkg/server/authn/authn.go).
use Prim.Native.String.{◌++◌ as str_append}
use antrea_ui.Base.{
  ℕ, String, Bool, Option, none, some, List, [], ◌∷◌, ◌++◌, map, if◌then◌else◌, before, true, false,
}
use antrea_ui.Base.Int.{ℤ}
use antrea_ui.Authn.Types.{Request, Config, Net, ServerError, RequestAuth, pass, refuse}
use antrea_ui.Authn.Cookies.{SetCookie}
use antrea_ui.Authn.Bearer.{LruCache, Outside}
use antrea_ui.Authn.Resolve.{Moment, AuthState, resolve}
use antrea_ui.Traceflow.Endpoints.{traceflow_limit}

pub data ApiEndpoint : Type 0 where
  healthz version settings plugins_index plugin_file : ApiEndpoint
  create_traceflow traceflow_status traceflow_redirect traceflow_result : ApiEndpoint
  delete_traceflow put_password proxied feature_gates : ApiEndpoint
  flow_stream flow_stream_disabled access_summary : ApiEndpoint

-- A rate in requests for an hour and a burst, or a handler of the framework.
pub data ApiHandler : Type 0 where
  authenticate : ApiHandler
  throttle : ℕ × ℕ → ApiHandler
  serves : ApiEndpoint → ApiHandler

pub record ApiRoute : Type 0 where
  pub method : String
  pub path : String
  pub handlers : List ApiHandler

-- What the routes depend on: the limit, and which parts of the server there are.
pub record ApiServer : Type 0 where
  pub max_traceflows_per_hour : ℤ
  pub has_password_store : Bool
  pub has_flow_stream : Bool

abbrev pub at : String → String → List ApiHandler → ApiEndpoint → ApiRoute
at method path before endpoint = record {
  method = method;
  path = path;
  handlers = before ++ (serves endpoint ∷ []);
}

-- `Group`, and `Use` on the group.
unfoldable pub group : String → List ApiHandler → List ApiRoute → List ApiRoute
group prefix used = map (λ r. record {
  method = r.method;
  path = str_append prefix r.path;
  handlers = used ++ r.handlers;
})

abbrev pub throttled_by : Option (ℕ × ℕ) → List ApiHandler
throttled_by none = []
throttled_by (some limit) = throttle limit ∷ []

unfoldable pub plugins_routes : List ApiRoute
unfolding group
plugins_routes =
    group "/plugins" []
      (at "GET" "/index.json" [] plugins_index ∷ at "GET" "/:name/*filepath" [] plugin_file ∷ [])

unfoldable pub traceflow_routes : ℤ → List ApiRoute
unfolding group traceflow_limit
traceflow_routes max_traceflows_per_hour = group "/traceflow" (authenticate ∷ []) (
    at "POST" "" (throttled_by (traceflow_limit max_traceflows_per_hour)) create_traceflow
    ∷ at "GET" "/:requestId/status" [] traceflow_status
    ∷ at "GET" "/:requestId" [] traceflow_redirect
    ∷ at "GET" "/:requestId/result" [] traceflow_result
    ∷ at "DELETE" "/:requestId" [] delete_traceflow
    ∷ [])

unfoldable pub account_routes : Bool → List ApiRoute
unfolding group
account_routes false = []
account_routes true =
    group "/account" (authenticate ∷ []) (at "PUT" "/password" [] put_password ∷ [])

unfoldable pub k8s_routes : List ApiRoute
unfolding group
k8s_routes = group "/k8s" (authenticate ∷ []) (at "GET" "/*path" [] proxied ∷ [])

unfoldable pub flow_stream_routes : Bool → List ApiRoute
unfolding group
flow_stream_routes has_flow_stream =
    group "/flows" (authenticate ∷ [])
      (at "GET" "/stream" [] (if has_flow_stream then flow_stream else flow_stream_disabled) ∷ [])

-- What `AddRoutes` adds to the group /api/v1.
unfoldable pub versioned_routes : ApiServer → List ApiRoute
unfolding plugins_routes traceflow_routes account_routes k8s_routes flow_stream_routes
versioned_routes s =
    at "GET" "/version" [] version
    ∷ at "GET" "/settings" [] settings
    ∷ (plugins_routes
        ++ (traceflow_routes s.max_traceflows_per_hour
            ++ (account_routes s.has_password_store
                ++ (k8s_routes
                    ++ (at "GET" "/featuregates" (authenticate ∷ []) feature_gates
                        ∷ (flow_stream_routes s.has_flow_stream
                            ++ (at "GET" "/access-summary" (authenticate ∷ []) access_summary
                                ∷ [])))))))

unfoldable pub api_routes : ApiServer → List ApiRoute
unfolding group versioned_routes
api_routes s = group "/api/v1" [] (versioned_routes s)

-- `Server.AddRoutes`, less the routes of the login, which are `auth_routes` of Login.
unfoldable pub server_routes : ApiServer → List ApiRoute
unfolding api_routes
server_routes s = at "GET" "/healthz" [] healthz ∷ api_routes s

-- What becomes of a request: an answer of the authenticator or the limiter, or what the endpoint does.
module _ (net : Net) (lru : LruCache) (out : Outside) where
  pub data Ran (Done : Type 0) : Type 0 where
    rejected : ServerError → AuthState net lru out → List SetCookie → Ran Done
    throttled : AuthState net lru out → Ran Done
    done : Done → Ran Done
    unserved : Ran Done

  -- `run` runs an endpoint with the identity that is attached to the request, if there is one.
  module _ (cfg : Config) (req : Request) (m : Moment) (allowed : ℕ × ℕ → Bool) {Done : Type 0}
      (run : ApiEndpoint → Option RequestAuth → AuthState net lru out → Done) where
    unfoldable pub run_handlers :
        List ApiHandler → Option RequestAuth → AuthState net lru out → Ran Done
    run_handlers [] ra st = unserved
    run_handlers (authenticate ∷ later) ra st =
        let r = resolve net lru out cfg req m st in
        let go = λ (a : RequestAuth). run_handlers later (some a) r.state in
        elim r.answer [ refuse e ↦ rejected e r.state r.set_cookies | pass a ↦ go a ]
    run_handlers (throttle limit ∷ later) ra st =
        let go = run_handlers later ra st in if allowed limit then go else throttled st
    run_handlers (serves endpoint ∷ later) ra st = done (run endpoint ra st)
