-- ===== src/Login/Laws/Guarding.antt =====
-- What stands before each endpoint: the cross-origin gate, the limit on the body and that on logins.
use antrea_ui.Base.{
  ℕ, String, ◌≡◌, refl, inl, inr, Bool, true, false, Option, none, some, List, [], ◌∷◌, arith,
  Option-cases, All, All-append, subst, sym, ◌++◌, if◌then◌else◌, str_ne, zero, suc, ◌*◌,
}
use antrea_ui.Base.Int.{ℤ, pos, negsuc}
use antrea_ui.Authn.Types.{Request, Config, Net, ServerError}
use antrea_ui.Authn.Origin.{check_cross_origin}
use antrea_ui.Login.Types.{status, failed, ServerConfig, Visit, Reply}
use antrea_ui.Login.Routes.{
  provider_callback, provider_login, session_probe, limit_body_size, optional_handler,
  kubeconfig_login, token_login, max_login_body_size, serves, cross_origin_gate, sign_out,
  password_login, oauth2_routes, route, if_enabled, Limit, Endpoint, Handler, Route, run_chain,
  login_handlers, auth_routes, login_rate_limit,
}

-- The limit on logins: a rate for a second, one at a time, or no login at all where the rate is 0; a
-- negative rate takes the limit off.
abbrev pub logins_limit : ℤ → Option Limit
logins_limit (negsuc n) = none
logins_limit (pos zero) = some (record { rate = 0; burst_size = 0 })
logins_limit (pos (suc n)) = some (record { rate = suc n; burst_size = 1 })

logins_limit_lem : (n : ℤ) → login_rate_limit n ≡ logins_limit n
unfolding login_rate_limit
logins_limit_lem (negsuc n) = refl
logins_limit_lem (pos zero) = refl
logins_limit_lem (pos (suc n)) = refl

module _ (net : Net) (auth : Config) (req : Request) (allowed : Limit → Bool)
    (run : Option ℕ → Endpoint → Visit → Reply × Visit) where
  -- How a request for a login endpoint fares under this limit.
  pub data Passage (limit : Option Limit) (ep : Endpoint) (v : Visit) : Reply × Visit → Type 0 where
    foreign :
        (e : ServerError)
        → check_cross_origin net auth req false ≡ some e
        → Passage limit ep v (failed e, v)
    throttled :
        (l : Limit)
        → check_cross_origin net auth req false ≡ none
        → limit ≡ some l
        → allowed l ≡ false
        → Passage limit ep v (status 429, v)
    served :
        check_cross_origin net auth req false ≡ none
        → ((l : Limit) → limit ≡ some l → allowed l ≡ true)
        → Passage limit ep v (run (some (256 * 1024)) ep v)

  abbrev guards : Option Limit → Endpoint → List Handler
  guards limit ep =
      limit_body_size max_login_body_size ∷ (optional_handler limit ++ (serves ep ∷ []))

  abbrev run_login : Option Limit → Endpoint → Visit → Reply × Visit
  run_login limit ep v = run_chain net auth req allowed run none (login_handlers limit ep) v

  gate_refuses :
      (navigation : Bool) (size : Option ℕ) (later : List Handler) (v : Visit) (e : ServerError)
      → check_cross_origin net auth req navigation ≡ some e
      → run_chain net auth req allowed run size (cross_origin_gate navigation ∷ later) v
        ≡ (failed e, v)
  unfolding run_chain
  gate_refuses navigation size later v e x = ground arith

  gate_passes :
      (navigation : Bool) (size : Option ℕ) (later : List Handler) (v : Visit)
      → check_cross_origin net auth req navigation ≡ none
      → run_chain net auth req allowed run size (cross_origin_gate navigation ∷ later) v
        ≡ run_chain net auth req allowed run size later v
  unfolding run_chain
  gate_passes navigation size later v x = ground arith

  limited-Passage :
      (l : Limit) (ep : Endpoint) (v : Visit) (b : Bool)
      → check_cross_origin net auth req false ≡ none
      → allowed l ≡ b
      → Passage (some l) ep v (if b then run (some max_login_body_size) ep v else (status 429, v))
  limited-Passage l ep v true n e = served n (λ k same. ground arith)
  limited-Passage l ep v false n e = throttled l n refl e

  passed-Passage :
      (limit : Option Limit) (ep : Endpoint) (v : Visit)
      → check_cross_origin net auth req false ≡ none
      → Passage limit ep v (
          run_chain net auth req allowed run
            (some max_login_body_size)
            (optional_handler limit ++ (serves ep ∷ []))
            v)
  unfolding run_chain
  passed-Passage none ep v n = served n (λ l e. absurd (ground arith))
  passed-Passage (some l) ep v n = limited-Passage l ep v (allowed l) n refl

  login_handlers-Passage :
      (limit : Option Limit) (ep : Endpoint) (v : Visit) → Passage limit ep v (run_login limit ep v)
  unfolding run_chain login_handlers
  login_handlers-Passage limit ep v = elim (Option-cases (check_cross_origin net auth req false)) [
    | inr (e, x) ↦
        subst (Passage limit ep v) (sym (gate_refuses false none (guards limit ep) v e x))
          (foreign e x)
    | inl n ↦
        subst (Passage limit ep v) (sym (gate_passes false none (guards limit ep) v n))
          (passed-Passage limit ep v n)
  ]

  abbrev run_route : Route → Visit → Reply × Visit
  run_route r v = run_chain net auth req allowed run none r.handlers v

  pub data IsLogin : Endpoint → Type 0 where
    by_password : IsLogin password_login
    by_token : IsLogin token_login
    by_kubeconfig : IsLogin kubeconfig_login

  -- The endpoints that a link may lead to.
  pub data IsLinked : Endpoint → Type 0 where
    probe : IsLinked session_probe
    to_provider : IsLinked provider_login
    from_provider : IsLinked provider_callback

  pub data IsGuarded (limit : Option Limit) (r : Route) : Type 0 where
    login_route :
        (ep : Endpoint)
        → IsLogin ep
        → r.method ≡ "POST"
        → ((v : Visit) → Passage limit ep v (run_route r v))
        → IsGuarded limit r
    logout_route :
        (navigation : Bool)
        → r.path ≡ "/auth/logout"
        → ((v : Visit) (e : ServerError)
            → check_cross_origin net auth req navigation ≡ some e
            → run_route r v ≡ (failed e, v))
        → ((v : Visit)
            → check_cross_origin net auth req navigation ≡ none
            → run_route r v ≡ run none sign_out v)
        → (r.method ≡ "POST" → navigation ≡ false)
        → IsGuarded limit r
    read_route :
        (ep : Endpoint)
        → IsLinked ep
        → r.method ≡ "GET"
        → ((v : Visit) → run_route r v ≡ run none ep v)
        → IsGuarded limit r

  linked-IsGuarded :
      (limit : Option Limit) (path : String) (ep : Endpoint)
      → IsLinked ep
      → IsGuarded limit (route "GET" path (serves ep ∷ []))
  unfolding run_chain
  linked-IsGuarded limit path ep l = read_route ep l refl (λ v. refl)

  logout-IsGuarded :
      (limit : Option Limit) (method : String) (navigation : Bool)
      → (method ≡ "POST" → navigation ≡ false)
      → IsGuarded limit
          (route method "/auth/logout" (cross_origin_gate navigation ∷ serves sign_out ∷ []))
  unfolding run_chain
  logout-IsGuarded limit method navigation post =
      logout_route navigation refl
        (λ v e x. gate_refuses navigation none (serves sign_out ∷ []) v e x)
        (λ v n. gate_passes navigation none (serves sign_out ∷ []) v n) post

  if_enabled-All :
      (limit : Option Limit) (b : Bool) (rs : List Route)
      → All (IsGuarded limit) rs
      → All (IsGuarded limit) (if_enabled b rs)
  if_enabled-All limit true rs a = a
  if_enabled-All limit false rs a = tt

  -- Whatever the settings, every route of a login by password, token or kubeconfig is a POST behind
  -- the strict cross-origin gate, a limit of 256 KiB on the body, and the limiter of logins
  -- unless that is off: a request that one of them refuses reaches no endpoint and changes nothing.
  -- Logout stands behind the gate too, and only its GET form lets top-level navigations pass. The
  -- endpoints with no gate before them are the session probe and the two ends of a login through the
  -- OIDC provider, all by GET.
  pub auth_routes-AreGuarded :
      (cfg : ServerConfig)
      → All (IsGuarded (logins_limit cfg.max_logins_per_second)) (auth_routes cfg)
  unfolding auth_routes oauth2_routes
  auth_routes-AreGuarded cfg =
      rw (logins_limit_lem cfg.max_logins_per_second)
        let limit = logins_limit cfg.max_logins_per_second in
          let entry = λ (ep : Endpoint). (login_handlers-Passage limit ep) in
          All-append _ _ _
            (All-append _ _ _
              (All-append _ _ _
                (if_enabled-All limit cfg.basic_auth_enabled _
                  (login_route password_login by_password refl (entry password_login), tt))
                (if_enabled-All limit cfg.sa_token_auth_enabled _
                  (login_route token_login by_token refl (entry token_login), tt)))
              (if_enabled-All limit cfg.kubeconfig_auth_enabled _
                (login_route kubeconfig_login by_kubeconfig refl (entry kubeconfig_login), tt)))
            (
              linked-IsGuarded limit "/auth/session" session_probe probe,
              (
                logout-IsGuarded limit "GET" true (λ e. absurd (str_ne "GET" "POST" refl e)),
                (
                  logout-IsGuarded limit "POST" false (λ e. refl),
                  if_enabled-All limit cfg.oidc_auth_enabled oauth2_routes (
                    linked-IsGuarded limit "/auth/oauth2/login" provider_login to_provider,
                    (
                      linked-IsGuarded limit "/auth/oauth2/callback" provider_callback
                          from_provider,
                      tt,
                    ),
                  ),
                ),
              ),
            )
