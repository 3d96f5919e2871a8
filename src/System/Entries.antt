-- ===== src/System/Entries.antt =====
-- What the endpoints under /auth and the authenticator do to the session store (pkg/server/auth.go,
-- pkg/server/oauth2.go, pkg/server/authn/authn.go).
use antrea_ui.Base.{
  ℕ, String, ◌≡◌, refl, false, Option, none, some, str_eq, Bool-cases, inl, inr, Bytes, codes,
}
use antrea_ui.Session.Types.{Mode, Credential, Spec, Store, Result, ok, err}
use antrea_ui.Session.Memory.Keeping.{new_buffer-Keeps}
use antrea_ui.Session.Get.{get}
use antrea_ui.Session.Invariant.{Evolves, Evolves-refl}
use antrea_ui.Session.Invariant.Operations.{delete_session-Evolves}
use antrea_ui.Session.Invariant.Lookups.{get-Evolves, heap-Evolves}
use antrea_ui.Authn.Types.{Request, Config, Net, ServerError, Answer, pass, refuse}
use antrea_ui.Authn.Origin.{check_cross_origin, bearer_token}
use antrea_ui.Authn.Cookies.{get_session_cookie}
use antrea_ui.Authn.Bearer.{LruCache, Outside}
use antrea_ui.Authn.Resolve.{
  Moment, AuthState, from_lookup, resolve_cookie, from_verdict, resolve_bearer, without_cookie,
  resolve, refused, no_authentication, Resolution,
}
use antrea_ui.Password.Store.{ReadWriter, Hasher, PasswordStore, PasswordError, compare_password}
use antrea_ui.Credentials.Kubeconfig.{
  Decoders, Login, credential_from_kubeconfig, bearer_credential,
}
use antrea_ui.Login.Types.{ServerConfig, Visit, Instant, finish, add_cookies}
use antrea_ui.Login.Wording.{Formats}
use antrea_ui.Login.Creation.{ApiServer, create_session, created, drop_old}
use antrea_ui.Login.Flows.{
  login, login_with, open_validated, login_with_token, login_with_kubeconfig, admin_spec, user_spec,
  invalid_admin_password,
}
use antrea_ui.Login.Ending.{end_session, logout}
use antrea_ui.Login.Signing.{Post, by_password, by_token, by_kubeconfig, try_login}
use antrea_ui.Login.Laws.Creating.{drop_old-Evolves}
use antrea_ui.Login.Laws.Entering.{store_credential-Evolves}
use antrea_ui.System.Lawful.{
  IsLawful, Evolves-IsLawful, IsLawful-trans, create-IsLawful, spec_zero-Evolves,
  credential_zero-Evolves,
}

-- A step that leaves the store alone.
pub unchanged-IsLawful : {drawn : Option String} (st : Store) → IsLawful drawn st st
unchanged-IsLawful st = Evolves-IsLawful (Evolves-refl st)

module _ (cfg : ServerConfig) (auth : Config) (req : Request) where
  created-IsLawful :
      (spec : Spec) (v : Visit) (drawn : Option String) (st : Store) (r : Result ℕ × Store)
      → IsLawful drawn st r.1
      → IsLawful drawn st (created cfg auth req spec v r).1.store
  unfolding created add_cookies
  created-IsLawful spec v drawn st (ok p, su) l = l
  created-IsLawful spec v drawn st (err e, su) l =
      IsLawful-trans l (Evolves-IsLawful (spec_zero-Evolves spec su))

  pub create_session-IsLawful :
      (random : Option String) (now : ℕ) (spec : Spec) (v : Visit)
      → IsLawful random v.store (create_session cfg auth req random now spec v).1.store
  unfolding create_session
  create_session-IsLawful random now spec v =
      let old = get_session_cookie req in
      created-IsLawful spec v random v.store _ (
        IsLawful-trans (Evolves-IsLawful (drop_old-Evolves old v.store))
          (create-IsLawful random now spec (drop_old old v.store)))

  module _ (i : Instant) where
    login-IsLawful :
        (rw : ReadWriter) (hasher : Hasher) (passwords : PasswordStore rw)
        (basic : Option (String × String)) (v : Visit)
        → IsLawful i.random v.store (login cfg auth req i rw hasher passwords basic v).1.store
    unfolding login
    login-IsLawful back hasher passwords none v = unchanged-IsLawful v.store
    login-IsLawful back hasher passwords (some (user, password)) v =
        elim (Bool-cases (str_eq user "admin")) [
          | inr other ↦ rw other (unchanged-IsLawful v.store)
          | inl admin ↦
              rw admin (compared (compare_password back hasher (codes password) passwords))
        ]
      where
        compared :
            (o : Option PasswordError)
            → IsLawful i.random v.store
                (elim o as (λ _. Option ServerError × Visit) [
                  | some e ↦ (some invalid_admin_password, v)
                  | none ↦
                      create_session cfg auth req i.random i.now
                        (admin_spec user cfg.admin_user_name)
                        v
                ]).1.store
        compared (some e) = unchanged-IsLawful v.store
        compared none =
            create_session-IsLawful i.random i.now (admin_spec user cfg.admin_user_name) v

    open_validated-IsLawful :
        (mode : Mode) (c : Credential) (v : Visit) (a : Answer String)
        → IsLawful i.random v.store (open_validated cfg auth req i mode c v a).1.store
    unfolding open_validated
    open_validated-IsLawful mode c v (refuse e) =
        Evolves-IsLawful (credential_zero-Evolves c v.store)
    open_validated-IsLawful mode c v (pass username) =
        create_session-IsLawful i.random i.now (user_spec mode username c) v

    login_with-IsLawful :
        (api : ApiServer) (f : Formats) (mode : Mode) (l : Login) (v : Visit)
        → IsLawful i.random v.store (login_with cfg auth req i api f mode l v).1.store
    unfolding login_with
    login_with-IsLawful api f mode (Login.rejected e) v = unchanged-IsLawful v.store
    login_with-IsLawful api f mode (Login.accepted n) v =
        IsLawful-trans (Evolves-IsLawful (store_credential-Evolves n v.store))
          (open_validated-IsLawful mode _ _ _)

    pub try_login-IsLawful :
        (back : ReadWriter) (hasher : Hasher) (passwords : PasswordStore back) (d : Decoders)
        (api : ApiServer) (f : Formats) (post : Post) (v : Visit)
        → IsLawful i.random v.store
            (try_login cfg auth req i back hasher passwords d api f post v).1.store
    unfolding try_login login_with_token login_with_kubeconfig
    try_login-IsLawful back hasher passwords d api f (by_password b) v =
        login-IsLawful back hasher passwords b v
    try_login-IsLawful back hasher passwords d api f (by_token none) v = unchanged-IsLawful v.store
    try_login-IsLawful back hasher passwords d api f (by_token (some token)) v =
        login_with-IsLawful api f Mode.sa_token (bearer_credential d (codes token)) v
    try_login-IsLawful back hasher passwords d api f (by_kubeconfig none) v =
        unchanged-IsLawful v.store
    try_login-IsLawful back hasher passwords d api f (by_kubeconfig (some text)) v =
        login_with-IsLawful api f Mode.kubeconfig
          (credential_from_kubeconfig d i.checked (codes text)) v

-- What a handler answers does not matter to the store.
pub finish-IsLawful :
    (drawn : Option String) (st : Store) (r : Option ServerError × Visit)
    → IsLawful drawn st r.1.store
    → IsLawful drawn st (finish r).1.store
finish-IsLawful drawn st (none, v) l = l
finish-IsLawful drawn st (some e, v) l = l

end_session-Evolves : (cookie : Option String) (st : Store) → Evolves st (end_session cookie st).1
unfolding end_session
end_session-Evolves none st = Evolves-refl st
end_session-Evolves (some id) st = delete_session-Evolves id st

pub logout-Evolves :
    (cfg : ServerConfig) (build : Bytes → Option String) (net : Net) (auth : Config) (req : Request)
    (redirect_query : String) (v : Visit)
    → Evolves v.store (logout cfg build net auth req redirect_query v).1.store
unfolding logout add_cookies
logout-Evolves cfg build net auth req redirect_query v =
    end_session-Evolves (get_session_cookie req) v.store

module _ (net : Net) (lru : LruCache) (out : Outside) where
  from_lookup-store :
      (req : Request) (st : AuthState net lru out) (r : Result ℕ) (su : Store)
      → (from_lookup net lru out req st r su).state.store ≡ su
  unfolding from_lookup
  from_lookup-store req st (ok p) su = refl
  from_lookup-store req st (err e) su = refl

  resolve_cookie-Evolves :
      (cfg : Config) (req : Request) (m : Moment) (id : String) (st : AuthState net lru out)
      → Evolves st.store (resolve_cookie net lru out cfg req m id st).state.store
  unfolding resolve_cookie
  resolve_cookie-Evolves cfg req m id st = gated (check_cross_origin net cfg req false)
    where
      gated :
          (o : Option ServerError)
          → Evolves st.store
              (elim o as (λ _. Resolution net lru out) [
                | some e ↦ refused net lru out e st
                | none ↦
                    let (r, su) = get m.refreshers id m.readings st.store in
                    from_lookup net lru out req st r su
              ]).state.store
      gated (some e) = Evolves-refl st.store
      gated none =
          let (r, su) = get m.refreshers id m.readings st.store in
          rw (from_lookup-store req st r su) (get-Evolves m.refreshers id m.readings st.store)

  from_verdict-Evolves :
      (token : String) (st : AuthState net lru out) (a : Answer String) (c : lru.Cache)
      → Evolves st.store (from_verdict net lru out token st a c).state.store
  unfolding from_verdict
  from_verdict-Evolves token st (refuse e) c = Evolves-refl st.store
  from_verdict-Evolves token st (pass username) c =
      heap-Evolves st.store _ (new_buffer-Keeps (some (codes token)) st.store.heap)

  resolve_bearer-Evolves :
      (cfg : Config) (m : Moment) (token : String) (st : AuthState net lru out)
      → Evolves st.store (resolve_bearer net lru out cfg m token st).state.store
  unfolding resolve_bearer
  resolve_bearer-Evolves cfg m token st = elim (Bool-cases cfg.bearer_fallback_enabled) [
    | inr off ↦ rw off (Evolves-refl st.store)
    | inl on ↦ rw on (from_verdict-Evolves token st _ _)
  ]

  pub resolve-Evolves :
      (cfg : Config) (req : Request) (m : Moment) (st : AuthState net lru out)
      → Evolves st.store (resolve net lru out cfg req m st).state.store
  unfolding resolve without_cookie
  resolve-Evolves cfg req m st = by_cookie (get_session_cookie req)
    where
      by_token :
          (o : Option String)
          → Evolves st.store
              (elim o as (λ _. Resolution net lru out) [
                | some token ↦ resolve_bearer net lru out cfg m token st
                | none ↦ refused net lru out no_authentication st
              ]).state.store
      by_token (some token) = resolve_bearer-Evolves cfg m token st
      by_token none = Evolves-refl st.store

      by_cookie :
          (o : Option String)
          → Evolves st.store
              (elim o as (λ _. Resolution net lru out) [
                | some id ↦ resolve_cookie net lru out cfg req m id st
                | none ↦ without_cookie net lru out cfg req m st
              ]).state.store
      by_cookie (some id) = resolve_cookie-Evolves cfg req m id st
      by_cookie none = by_token (bearer_token net req)
