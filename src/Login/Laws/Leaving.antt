-- ===== src/Login/Laws/Leaving.antt =====
-- Logout: what is left of the session, and where the browser is sent.
use antrea_ui.Base.{
  ℕ, String, ◌≡◌, refl, inl, inr, true, Option, none, some, [], arith, Option-cases, Bytes, subst,
  ◌≢◌, Bool, false, ◌&&◌, not, ◌∷◌, ◌++◌, if◌then◌else◌, str_eq→eq, str_ne, ap, ◌∙◌,
}
use antrea_ui.Session.Types.{Mode, Store, Heap}
use antrea_ui.Session.Store.{peek}
use antrea_ui.Session.Laws.Removal.{delete_session_unknown, IsGone, delete_session-IsGone}
use antrea_ui.Authn.Types.{Request, Config, Net}
use antrea_ui.Authn.Origin.{is_empty, safe_redirect_url}
use antrea_ui.Authn.Laws.Redirects.{Redirect, safe_redirect_url-Redirect}
use antrea_ui.Login.Types.{status, failed, redirect, ServerConfig, Visit, Reply, add_cookies}
use antrea_ui.Login.Ending.{
  logout_url_error, to_provider, logout, end_session, oidc_token, logout_reply,
}
use antrea_ui.Session.Memory.{contents}
use antrea_ui.Credentials.Tokens.{has_bytes}
use antrea_ui.Authn.Cookies.{unset_legacy_cookies, unset_session_cookie, get_session_cookie}

-- The bytes are the ID token of the session at `p`.
pub record IsIdToken (p : ℕ) (h : Heap) (id_token : Bytes) : Type 0 where
  pub is_oidc : (h.objects p).mode ≡ Mode.oidc
  pub buffer : ℕ
  pub held : (h.objects p).credential.token ≡ some buffer
  pub contents : h.bytes buffer ≡ id_token

token_of : Mode → Option ℕ → Heap → Bytes
token_of mode token h = elim mode [
  | Mode.oidc ↦ elim (contents token h) [ none ↦ [] | some b ↦ b ]
  | _ ↦ []
]

token_of_lem :
    (mode : Mode) (token : Option ℕ) (h : Heap)
    → has_bytes (token_of mode token h) ≡ true
    → (mode ≡ Mode.oidc) × ((b : ℕ) × (token ≡ some b) × (h.bytes b ≡ token_of mode token h))
unfolding token_of contents
token_of_lem Mode.oidc none h e = absurd (ground arith)
token_of_lem Mode.oidc (some b) h e = (refl, (b, refl, refl))
token_of_lem Mode.kubeconfig token h e = absurd (ground arith)
token_of_lem Mode.admin token h e = absurd (ground arith)
token_of_lem Mode.sa_token token h e = absurd (ground arith)

-- The session that the cookie named is gone; without one the store is as it was.
pub data Ended (st : Store) : Option String → Store → Type 0 where
  nobody : Ended st none st
  unknown : (id : String) → peek id st ≡ none → Ended st (some id) st
  gone :
      (id : String) (p : ℕ) (su : Store)
      → peek id st ≡ some p
      → IsGone id p st su
      → Ended st (some id) su

end_session-Ended :
    (cookie : Option String) (st : Store) → Ended st cookie (end_session cookie st).1
unfolding end_session
end_session-Ended none st = nobody
end_session-Ended (some id) st = elim (Option-cases (peek id st)) [
  | inl e ↦ rw (delete_session_unknown id st e) (unknown id e)
  | inr (p, e) ↦ gone id p _ e (delete_session-IsGone id p st e)
]

token_IsIdToken :
    (p : ℕ) (h : Heap)
    → has_bytes (oidc_token (some p) h) ≡ true
    → IsIdToken p h (oidc_token (some p) h)
unfolding oidc_token token_of
token_IsIdToken p h e =
    let l = token_of_lem (h.objects p).mode (h.objects p).credential.token h e in
    record { is_oidc = l.0; buffer = l.1.0; held = l.1.1; contents = l.1.2 }

-- The bytes are the ID token of the session that the cookie names.
pub record NamesToken (cookie : Option String) (st : Store) (id_token : Bytes) : Type 0 where
  pub id : String
  pub at : ℕ
  pub named : cookie ≡ some id
  pub known : peek id st ≡ some at
  pub is_token : IsIdToken at st.heap id_token

found_token :
    (id : String) (st : Store) (o : Option ℕ)
    → peek id st ≡ o
    → has_bytes (oidc_token o st.heap) ≡ true
    → NamesToken (some id) st (oidc_token o st.heap)
unfolding oidc_token
found_token id st none k e = absurd (ground arith)
found_token id st (some p) k e = record {
  id = id;
  at = p;
  named = refl;
  known = k;
  is_token = token_IsIdToken p st.heap e;
}

end_session-NamesToken :
    (cookie : Option String) (st : Store)
    → has_bytes (end_session cookie st).0 ≡ true
    → NamesToken cookie st (end_session cookie st).0
unfolding end_session oidc_token
end_session-NamesToken none st e = absurd (ground arith)
end_session-NamesToken (some id) st e = found_token id st (peek id st) refl e

has_bytes_of : (b : Bytes) → b ≢ [] → has_bytes b ≡ true
has_bytes_of [] ne = absurd (ne refl)
has_bytes_of (x ∷ xs) ne = refl

named_as :
    (m : Mode) (token : Option ℕ) (b : ℕ) (h : Heap)
    → m ≡ Mode.oidc
    → token ≡ some b
    → token_of m token h ≡ h.bytes b
unfolding token_of contents
named_as m token b h e f = rw (e, f, token_of, contents) refl

named_token : (p : ℕ) (h : Heap) (t : Bytes) → IsIdToken p h t → oidc_token (some p) h ≡ t
unfolding oidc_token token_of
named_token p h t i =
    named_as (h.objects p).mode (h.objects p).credential.token i.buffer h i.is_oidc i.held
    ∙ i.contents

named_is :
    (cookie : Option String) (st : Store) (t : Bytes)
    → NamesToken cookie st t
    → t ≡ (end_session cookie st).0
unfolding end_session
named_is cookie st t n = rw (n.named, n.known, named_token n.at st.heap t n.is_token) refl

module _ (cfg : ServerConfig) (build : Bytes → Option String) (net : Net) (auth : Config)
    (req : Request) (query : String) (st : Store) where
  -- Logout at the provider is set up, and the session has an ID token to name there.
  pub record ProviderAsked (id_token : Bytes) : Type 0 where
    pub oidc_enabled : cfg.oidc_auth_enabled ≡ true
    pub needs_logout : cfg.oidc_needs_logout ≡ true
    pub has_token : id_token ≢ []
    pub names_token : NamesToken (get_session_cookie req) st id_token

  -- Where the browser is sent.
  pub data Farewell : Reply → Type 0 where
    provider :
        (id_token : Bytes) (url : String)
        → ProviderAsked id_token
        → build id_token ≡ some url
        → Farewell (redirect 303 url)
    no_provider_url :
        (id_token : Bytes)
        → ProviderAsked id_token
        → build id_token ≡ none
        → Farewell (failed logout_url_error)
    back :
        (url : String)
        → ((id_token : Bytes) → ¬ ProviderAsked id_token)
        → url ≢ ""
        → Redirect net auth req query url
        → Farewell (redirect 302 url)
    stays :
        ((id_token : Bytes) → ¬ ProviderAsked id_token)
        → Redirect net auth req query ""
        → Farewell (status 200)

  to_provider-Farewell :
      (id_token : Bytes) (o : Option String)
      → build id_token ≡ o
      → ProviderAsked id_token
      → Farewell (to_provider cfg build o)
  to_provider-Farewell t none e a = no_provider_url t a e
  to_provider-Farewell t (some url) e a = provider t url a e

  home-Farewell :
      (url : String) (b : Bool)
      → is_empty url ≡ b
      → ((id_token : Bytes) → ¬ ProviderAsked id_token)
      → Redirect net auth req query url
      → Farewell (if not b then redirect 302 url else status 200)
  home-Farewell url true e n r =
      stays n (subst (Redirect net auth req query) (str_eq→eq url "" e) r)
  home-Farewell url false e n r = back url n (str_ne url "" e) r

  reply-Farewell :
      (id_token : Bytes) (b : Bool) (url : String)
      → cfg.oidc_auth_enabled && cfg.oidc_needs_logout && has_bytes id_token ≡ b
      → (has_bytes id_token ≡ true → NamesToken (get_session_cookie req) st id_token)
      → ((t : Bytes) → NamesToken (get_session_cookie req) st t → t ≡ id_token)
      → Redirect net auth req query url
      → Farewell (
          if b
          then to_provider cfg build (build id_token)
          else if not (is_empty url)
          then redirect 302 url
          else status 200)
  reply-Farewell t true url e n only r = to_provider-Farewell t (build t) refl (record {
    oidc_enabled = ground arith;
    needs_logout = ground arith;
    has_token = λ none. ground (arith, ap has_bytes none);
    names_token = n (ground arith);
  })
  reply-Farewell t false url e n only r =
      home-Farewell url (is_empty url) refl
        (λ k asked.
          let same : k ≡ t = only k asked.names_token in
          ground (
            arith,
            asked.oidc_enabled,
            asked.needs_logout,
            has_bytes_of t (λ none. asked.has_token (rw same none)),
          ))
        r

-- What a logout leaves behind.
pub record LoggedOut (cfg : ServerConfig) (build : Bytes → Option String) (net : Net)
    (auth : Config) (req : Request) (query : String) (v : Visit) (r : Reply × Visit) : Type 0 where
  pub ended : Ended v.store (get_session_cookie req) r.1.store
  pub cookies : r.1.set_cookies ≡ v.set_cookies ++ unset_session_cookie ∷ unset_legacy_cookies req
  pub farewell : Farewell cfg build net auth req query v.store r.0

-- A logout removes the session that the cookie names, erases its material and clears the cookies,
-- whatever the reply. The browser is then sent to the provider's logout URL for the session's own
-- ID token just when OIDC logout is set up and there is such a token, with a 500 where that URL
-- cannot be made; else to the query's target if that is on the site; else
-- nowhere.
pub logout-LoggedOut :
    (cfg : ServerConfig) (build : Bytes → Option String) (net : Net) (auth : Config) (req : Request)
    (query : String) (v : Visit)
    → LoggedOut cfg build net auth req query v (logout cfg build net auth req query v)
unfolding logout logout_reply add_cookies
logout-LoggedOut cfg build net auth req query v =
    let cookie = get_session_cookie req in
    let id_token = (end_session cookie v.store).0 in
    record {
      ended = end_session-Ended cookie v.store;
      cookies = refl;
      farewell =
          reply-Farewell cfg build net auth req query v.store id_token _
            (safe_redirect_url net auth req query) refl (end_session-NamesToken cookie v.store)
            (named_is cookie v.store) (safe_redirect_url-Redirect net auth req query);
    }
