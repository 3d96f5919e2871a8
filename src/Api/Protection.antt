-- ===== src/Api/Protection.antt =====
-- Which routes of the API run with an identity only (pkg/server/api, pkg/server/authn/authn.go:
-- Middleware).
use antrea_ui.Base.{
  ℕ, ◌≡◌, refl, Bool, true, false, Option, none, some, List, [], ◌∷◌, ◌++◌, String, if◌then◌else◌,
  All, All-append, arith, zero, suc,
}
use antrea_ui.Base.Int.{ℤ, pos, negsuc}
use antrea_ui.Authn.Types.{Request, Config, Net, ServerError, RequestAuth, Answer, pass, refuse}
use antrea_ui.Authn.Bearer.{LruCache, Outside}
use antrea_ui.Authn.Resolve.{Moment, AuthState, Resolution, resolve}
use antrea_ui.Traceflow.Endpoints.{traceflow_limit}
use antrea_ui.Api.Routes.{
  ApiEndpoint, ApiHandler, ApiRoute, ApiServer, Ran, at, group, throttled_by, plugins_routes,
  traceflow_routes, account_routes, k8s_routes, flow_stream_routes, versioned_routes, api_routes,
  server_routes, run_handlers,
}

-- The endpoints that anyone may use.
abbrev pub is_public : ApiEndpoint → Bool
is_public ApiEndpoint.healthz = true
is_public ApiEndpoint.version = true
is_public ApiEndpoint.settings = true
is_public ApiEndpoint.plugins_index = true
is_public ApiEndpoint.plugin_file = true
is_public _ = false

-- The limit on the creation of traceflows: a number for an hour, in bursts of up to ten, or none at
-- all where the number is 0; a negative number takes the limit off.
abbrev pub creation_limit : ℤ → Option (ℕ × ℕ)
creation_limit (negsuc n) = none
creation_limit (pos zero) = some (0, 0)
creation_limit (pos (suc n)) = some (suc n, 10)

creation_limit_lem : (n : ℤ) → creation_limit n ≡ traceflow_limit n
unfolding traceflow_limit
creation_limit_lem (negsuc n) = refl
creation_limit_lem (pos zero) = refl
creation_limit_lem (pos (suc n)) = ground arith

-- The limit on the endpoint: only the creation of traceflows has one.
abbrev pub limit_of : ℤ → ApiEndpoint → Option (ℕ × ℕ)
limit_of n ApiEndpoint.create_traceflow = creation_limit n
limit_of n _ = none

module _ (net : Net) (lru : LruCache) (out : Outside) (cfg : Config) (req : Request) (m : Moment)
    (allowed : ℕ × ℕ → Bool) {Done : Type 0}
    (run : ApiEndpoint → Option RequestAuth → AuthState net lru out → Done) where
  abbrev State : Type 0
  State = AuthState net lru out

  abbrev resolved : State → Resolution net lru out
  resolved st = resolve net lru out cfg req m st

  -- How a request for an endpoint behind the authenticator fares.
  pub data Fares (limit : Option (ℕ × ℕ)) (ep : ApiEndpoint) (st : State)
      : Ran net lru out Done → Type 0 where
    turned_away :
        (e : ServerError)
        → (resolved st).answer ≡ refuse e
        → Fares limit ep st (Ran.rejected e (resolved st).state (resolved st).set_cookies)
    over_limit :
        (ra : RequestAuth) (l : ℕ × ℕ)
        → (resolved st).answer ≡ pass ra
        → limit ≡ some l
        → allowed l ≡ false
        → Fares limit ep st (Ran.throttled (resolved st).state)
    identified :
        (ra : RequestAuth)
        → (resolved st).answer ≡ pass ra
        → ((l : ℕ × ℕ) → limit ≡ some l → allowed l ≡ true)
        → Fares limit ep st (Ran.done (run ep (some ra) (resolved st).state))

  abbrev runs : List ApiHandler → State → Ran net lru out Done
  runs hs st = run_handlers net lru out cfg req m allowed run hs none st

  pub data IsProtected (n : ℤ) (hs : List ApiHandler) : Type 0 where
    open_to_all :
        (ep : ApiEndpoint)
        → is_public ep ≡ true
        → ((st : State) → runs hs st ≡ Ran.done (run ep none st))
        → IsProtected n hs
    needs_identity :
        (ep : ApiEndpoint)
        → is_public ep ≡ false
        → ((st : State) → Fares (limit_of n ep) ep st (runs hs st))
        → IsProtected n hs

  public-IsProtected :
      (n : ℤ) (ep : ApiEndpoint) → is_public ep ≡ true → IsProtected n (ApiHandler.serves ep ∷ [])
  unfolding run_handlers
  public-IsProtected n ep p = open_to_all ep p (λ st. refl)

  identity-IsProtected :
      (n : ℤ) (ep : ApiEndpoint)
      → is_public ep ≡ false
      → limit_of n ep ≡ none
      → IsProtected n (ApiHandler.authenticate ∷ ApiHandler.serves ep ∷ [])
  unfolding run_handlers
  identity-IsProtected n ep p nl =
      needs_identity ep p (λ st. by_answer st (resolved st).answer refl)
    where
      by_answer :
          (st : State) (a : Answer RequestAuth)
          → (resolved st).answer ≡ a
          → Fares (limit_of n ep) ep st (elim a [
            | refuse e ↦ Ran.rejected e (resolved st).state (resolved st).set_cookies
            | pass ra ↦ Ran.done (run ep (some ra) (resolved st).state)
          ])
      by_answer st (refuse e) h = turned_away e h
      by_answer st (pass ra) h = identified ra h (λ l e. absurd (ground arith))

  limited-IsProtected :
      (n : ℤ) (ep : ApiEndpoint) (limit : Option (ℕ × ℕ))
      → is_public ep ≡ false
      → limit_of n ep ≡ limit
      → IsProtected n
          (ApiHandler.authenticate ∷ (throttled_by limit ++ (ApiHandler.serves ep ∷ [])))
  unfolding run_handlers
  limited-IsProtected n ep none p nl = identity-IsProtected n ep p nl
  limited-IsProtected n ep (some limit) p nl =
      needs_identity ep p (λ st. by_answer st (resolved st).answer refl)
    where
      by_limit :
          (st : State) (ra : RequestAuth) (b : Bool)
          → (resolved st).answer ≡ pass ra
          → allowed limit ≡ b
          → Fares (limit_of n ep) ep st (
              if b
              then Ran.done (run ep (some ra) (resolved st).state)
              else Ran.throttled (resolved st).state)
      by_limit st ra true h e = identified ra h (λ l k. ground arith)
      by_limit st ra false h e = over_limit ra limit h nl e

      by_answer :
          (st : State) (a : Answer RequestAuth)
          → (resolved st).answer ≡ a
          → Fares (limit_of n ep) ep st (elim a [
            | refuse e ↦ Ran.rejected e (resolved st).state (resolved st).set_cookies
            | pass ra ↦
                if allowed limit
                then Ran.done (run ep (some ra) (resolved st).state)
                else Ran.throttled (resolved st).state
          ])
      by_answer st (refuse e) h = turned_away e h
      by_answer st (pass ra) h = by_limit st ra (allowed limit) h refl

  abbrev AreProtected : ℤ → List ApiRoute → Type 0
  AreProtected n = All (λ r. IsProtected n r.handlers)

  group-AreProtected :
      (n : ℤ) (prefix : String) (rs : List ApiRoute)
      → AreProtected n rs
      → AreProtected n (group prefix [] rs)
  unfolding group
  group-AreProtected n prefix [] a = tt
  group-AreProtected n prefix (r ∷ rs) a = (a.0, group-AreProtected n prefix rs a.1)

  traceflow_routes-AreProtected : (n : ℤ) → AreProtected n (traceflow_routes n)
  unfolding traceflow_routes
  traceflow_routes-AreProtected n = (
    limited-IsProtected n ApiEndpoint.create_traceflow (traceflow_limit n) refl
        (creation_limit_lem n),
    (
      identity-IsProtected n ApiEndpoint.traceflow_status refl refl,
      (
        identity-IsProtected n ApiEndpoint.traceflow_redirect refl refl,
        (
          identity-IsProtected n ApiEndpoint.traceflow_result refl refl,
          (identity-IsProtected n ApiEndpoint.delete_traceflow refl refl, tt),
        ),
      ),
    ),
  )

  account_routes-AreProtected : (n : ℤ) (b : Bool) → AreProtected n (account_routes b)
  unfolding account_routes
  account_routes-AreProtected n true =
      (identity-IsProtected n ApiEndpoint.put_password refl refl, tt)
  account_routes-AreProtected n false = tt

  flow_stream_routes-AreProtected : (n : ℤ) (b : Bool) → AreProtected n (flow_stream_routes b)
  unfolding flow_stream_routes
  flow_stream_routes-AreProtected n true =
      (identity-IsProtected n ApiEndpoint.flow_stream refl refl, tt)
  flow_stream_routes-AreProtected n false =
      (identity-IsProtected n ApiEndpoint.flow_stream_disabled refl refl, tt)

  abbrev gates_and_streams : Bool → List ApiRoute
  gates_and_streams has_flow_stream =
      at "GET" "/featuregates" (ApiHandler.authenticate ∷ []) ApiEndpoint.feature_gates
      ∷ (flow_stream_routes has_flow_stream
          ++ (at "GET" "/access-summary" (ApiHandler.authenticate ∷ []) ApiEndpoint.access_summary
              ∷ []))

  gates_and_streams-AreProtected : (n : ℤ) (b : Bool) → AreProtected n (gates_and_streams b)
  gates_and_streams-AreProtected n b =
      let summary : AreProtected n (
          at "GET" "/access-summary" (ApiHandler.authenticate ∷ []) ApiEndpoint.access_summary
          ∷ []) =
        (identity-IsProtected n ApiEndpoint.access_summary refl refl, tt) in
      (
        identity-IsProtected n ApiEndpoint.feature_gates refl refl,
        All-append _ (flow_stream_routes b)
            (at "GET" "/access-summary" (ApiHandler.authenticate ∷ []) ApiEndpoint.access_summary
              ∷ [])
            (flow_stream_routes-AreProtected n b) summary,
      )

  versioned_routes-AreProtected :
      (s : ApiServer) → AreProtected s.max_traceflows_per_hour (versioned_routes s)
  unfolding versioned_routes plugins_routes k8s_routes
  versioned_routes-AreProtected s =
      let n = s.max_traceflows_per_hour in
      (
        public-IsProtected n ApiEndpoint.version refl,
        (
          public-IsProtected n ApiEndpoint.settings refl,
          (
            public-IsProtected n ApiEndpoint.plugins_index refl,
            (
              public-IsProtected n ApiEndpoint.plugin_file refl,
              All-append _ (traceflow_routes s.max_traceflows_per_hour)
                  (account_routes s.has_password_store
                    ++ (k8s_routes ++ gates_and_streams s.has_flow_stream))
                  (traceflow_routes-AreProtected s.max_traceflows_per_hour)
                  (All-append _ (account_routes s.has_password_store)
                    (k8s_routes ++ gates_and_streams s.has_flow_stream)
                    (account_routes-AreProtected n s.has_password_store)
                    (
                      identity-IsProtected n ApiEndpoint.proxied refl refl,
                      gates_and_streams-AreProtected n s.has_flow_stream,
                    )),
            ),
          ),
        ),
      )

  -- Of the routes outside /auth, anyone may use the health check, the version, the frontend's settings
  -- and the plugins. The endpoint of every other route runs only with the identity that the
  -- authenticator has resolved for the request, in the state that it left; where the authenticator
  -- refuses the request, or the creation of a traceflow meets the
  -- limit on these, the endpoint does not run.
  pub server_routes-AreProtected :
      (s : ApiServer) → AreProtected s.max_traceflows_per_hour (server_routes s)
  unfolding server_routes api_routes
  server_routes-AreProtected s =
      let n = s.max_traceflows_per_hour in
      (
        public-IsProtected n ApiEndpoint.healthz refl,
        group-AreProtected n "/api/v1" (versioned_routes s) (versioned_routes-AreProtected s),
      )
