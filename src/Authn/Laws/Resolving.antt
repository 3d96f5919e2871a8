-- ===== src/Authn/Laws/Resolving.antt =====
-- `Resolve` (authn.go): every way in which a request is given an identity, or refused one.
use antrea_ui.Base.{
  ℕ, ◌<◌, String, ◌≡◌, refl, inl, inr, true, false, none, some, [], ◌∷◌, arith, if◌then◌else◌,
  Option-cases, codes, Bool, not,
}
use antrea_ui.Session.Types.{Mode, Kind, Store, Heap, SessionError, Result, err}
use antrea_ui.Session.Memory.{new_buffer}
use antrea_ui.Session.Laws.Liveness.{IsServed, Outcome, get-Outcome}
use antrea_ui.Authn.Types.{Request, Config, Net, RequestAuth, ServerError, Answer, pass, refuse}
use antrea_ui.Authn.Origin.{check_cross_origin, bearer_token}
use antrea_ui.Authn.Cookies.{get_session_cookie, unset_session_cookie, unset_legacy_cookies}
use antrea_ui.Authn.Bearer.{token_expiry, LruCache, Outside, validate}
use antrea_ui.Authn.Resolve.{
  Moment, AuthState, Resolution, refused, resolve, resolve_cookie, resolve_bearer, without_cookie,
  from_lookup, from_verdict, session_gone, bearer_disabled, no_authentication, new_session_auth,
  new_ephemeral_auth,
}
use antrea_ui.Authn.Laws.Gate.{
  IsTrusted, check_cross_origin_passes, check_cross_origin-IsTrusted, check_cross_origin_forbids,
}

-- The identity of a request with its own credential, and the heap that holds the credential.
pub record IsEphemeral (out : Outside) (token username : String) (a : RequestAuth) (h h' : Heap)
    : Type 0 where
  pub no_session : a.session ≡ none
  pub named : a.username ≡ username
  pub token_mode : a.mode ≡ Mode.sa_token
  pub buffer : ℕ
  pub new_credential :
      a.ephemeral_credential
      ≡ some (record {
        kind = Kind.bearer;
        token = some buffer;
        cert_pem = none;
        key_pem = none;
        user_name = "";
        expires_at = token_expiry out token;
      })
  pub holds_token : h'.bytes buffer ≡ codes token
  pub same_objects : h'.objects ≡ h.objects
  pub same_bytes : (b : ℕ) → b < h.next_buffer → h'.bytes b ≡ h.bytes b

module _ (net : Net) (lru : LruCache) (out : Outside) where
  pub data Resolved (cfg : Config) (req : Request) (m : Moment) (st : AuthState net lru out)
      : Resolution net lru out → Type 0 where
    cookie_foreign :
        (id : String) (e : ServerError)
        → get_session_cookie req ≡ some id
        → ¬ IsTrusted net cfg req false
        → e.code ≡ 403
        → Resolved cfg req m st (refused net lru out e st)
    cookie_served :
        (id : String) (p : ℕ) (su : Store)
        → get_session_cookie req ≡ some id
        → IsTrusted net cfg req false
        → IsServed id p m.readings st.store su
        → Resolved cfg req m st (record {
          answer = pass (new_session_auth p (su.heap.objects p));
          state = record st { store = su };
          set_cookies = [];
        })
    cookie_stale :
        (id : String) (e : SessionError) (su : Store)
        → get_session_cookie req ≡ some id
        → IsTrusted net cfg req false
        → Outcome id m.readings st.store (err e, su)
        → Resolved cfg req m st (record {
          answer = refuse (session_gone e);
          state = record st { store = su };
          set_cookies = unset_session_cookie ∷ unset_legacy_cookies req;
        })
    token_disabled :
        (token : String)
        → get_session_cookie req ≡ none
        → bearer_token net req ≡ some token
        → cfg.bearer_fallback_enabled ≡ false
        → Resolved cfg req m st (refused net lru out bearer_disabled st)
    token_refused :
        (token : String) (e : ServerError)
        → get_session_cookie req ≡ none
        → bearer_token net req ≡ some token
        → cfg.bearer_fallback_enabled ≡ true
        → (validate lru out m.allowed m.now m.done token st.cache).0 ≡ refuse e
        → Resolved cfg req m st (
            refused net lru out e
              (record st { cache = (validate lru out m.allowed m.now m.done token st.cache).1 }))
    token_accepted :
        (token username : String) (a : RequestAuth) (h : Heap)
        → get_session_cookie req ≡ none
        → bearer_token net req ≡ some token
        → cfg.bearer_fallback_enabled ≡ true
        → (validate lru out m.allowed m.now m.done token st.cache).0 ≡ pass username
        → IsEphemeral out token username a st.store.heap h
        → Resolved cfg req m st (record {
          answer = pass a;
          state = record {
            store = record (st.store) { heap = h };
            cache = (validate lru out m.allowed m.now m.done token st.cache).1;
          };
          set_cookies = [];
        })
    anonymous :
        get_session_cookie req ≡ none
        → bearer_token net req ≡ none
        → Resolved cfg req m st (refused net lru out no_authentication st)

  lookup-Resolved :
      (cfg : Config) (req : Request) (m : Moment) (st : AuthState net lru out) (id : String)
      → get_session_cookie req ≡ some id
      → IsTrusted net cfg req false
      → (r : Result ℕ × Store) → Outcome id m.readings st.store r
      → Resolved cfg req m st (from_lookup net lru out req st r.0 r.1)
  unfolding from_lookup
  lookup-Resolved cfg req m st id c t r (Outcome.unknown u) =
      cookie_stale id SessionError.not_found _ c t (Outcome.unknown u)
  lookup-Resolved cfg req m st id c t r (Outcome.served p su s) = cookie_served id p su c t s
  lookup-Resolved cfg req m st id c t r (Outcome.ended p su s) =
      cookie_stale id SessionError.expired su c t (Outcome.ended p su s)

  verdict-Resolved :
      (cfg : Config) (req : Request) (m : Moment) (st : AuthState net lru out) (token : String)
      → get_session_cookie req ≡ none
      → bearer_token net req ≡ some token
      → cfg.bearer_fallback_enabled ≡ true
      → (a : Answer String) → (validate lru out m.allowed m.now m.done token st.cache).0 ≡ a
      → Resolved cfg req m st (
          from_verdict net lru out token st a
            (validate lru out m.allowed m.now m.done token st.cache).1)
  unfolding from_verdict new_ephemeral_auth new_buffer
  verdict-Resolved cfg req m st token c b e (refuse x) v = token_refused token x c b e v
  verdict-Resolved cfg req m st token c b e (pass user) v =
      token_accepted token user _ _ c b e v (record {
        no_session = refl;
        named = refl;
        token_mode = refl;
        buffer = st.store.heap.next_buffer;
        new_credential = refl;
        holds_token = ground arith;
        same_objects = refl;
        same_bytes = λ n lt. ground arith;
      })

  -- Every way in which a request is resolved. The session cookie goes first, and the Authorization
  -- header then plays no part. With a cookie, a request from a foreign origin is answered with 403
  -- and changes nothing; a trusted one gets the identity of its session if the store serves it, and
  -- otherwise an error, whose response deletes the session cookie and those of older versions.
  -- Without a cookie a bearer token is accepted only where that is enabled and the validator accepts
  -- it: the identity then has no session, and its credential is a new buffer that holds the token;
  -- all sessions and all older buffers are as they were. Any other request is refused.
  pub resolve-Resolved :
      (cfg : Config) (req : Request) (m : Moment) (st : AuthState net lru out)
      → Resolved cfg req m st (resolve net lru out cfg req m st)
  unfolding resolve resolve_cookie resolve_bearer without_cookie
  resolve-Resolved cfg req m st = elim (Option-cases (get_session_cookie req)) [
    | inr (id, c) ↦ rw (c, resolve) (cookie_case id c)
    | inl c ↦
        rw (c, resolve)
          (elim (Option-cases (bearer_token net req)) [
            | inl b ↦ rw (b, without_cookie) (anonymous c b)
            | inr (token, b) ↦
                rw (b, without_cookie) (token_case token c b cfg.bearer_fallback_enabled refl)
          ])
  ]
    where
      token_case :
          (token : String)
          → get_session_cookie req ≡ none
          → bearer_token net req ≡ some token
          → (b : Bool) → cfg.bearer_fallback_enabled ≡ b
          → Resolved cfg req m st (
              if not b
              then refused net lru out bearer_disabled st
              else from_verdict net lru out token st
                  (validate lru out m.allowed m.now m.done token st.cache).0
                  (validate lru out m.allowed m.now m.done token st.cache).1)
      token_case token c b true e = verdict-Resolved cfg req m st token c b e _ refl
      token_case token c b false e = token_disabled token c b e

      cookie_case :
          (id : String)
          → get_session_cookie req ≡ some id
          → Resolved cfg req m st (resolve_cookie net lru out cfg req m id st)
      cookie_case id c = elim (Option-cases (check_cross_origin net cfg req false)) [
        | inl g ↦
            rw (g, resolve_cookie)
              (lookup-Resolved cfg req m st id c (check_cross_origin-IsTrusted net cfg req false g)
                _ (get-Outcome m.refreshers id m.readings st.store))
        | inr (x, g) ↦
            rw (g, resolve_cookie)
              (cookie_foreign id x c
                (λ t. ground (arith, check_cross_origin_passes net cfg req false t))
                (check_cross_origin_forbids net cfg req false x g))
      ]
