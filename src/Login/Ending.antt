-- ===== src/Login/Ending.antt =====
-- The Session and Logout endpoints (pkg/server/auth.go).
use antrea_ui.Base.{ℕ, String, true, ◌&&◌, not, Option, none, some, [], ◌∷◌, if◌then◌else◌, Bytes}
use antrea_ui.Session.Types.{Mode, Store, Heap}
use antrea_ui.Session.Memory.{contents}
use antrea_ui.Session.Store.{peek, delete_session}
use antrea_ui.Authn.Types.{
  status_ok, status_see_other, status_found, status_internal_server_error, Request, Config, Net,
  Cause, ServerError, RequestAuth, Answer, pass, refuse,
}
use antrea_ui.Authn.Origin.{safe_redirect_url, is_empty}
use antrea_ui.Authn.Cookies.{unset_session_cookie, unset_legacy_cookies, get_session_cookie}
use antrea_ui.Authn.Bearer.{LruCache, Outside}
use antrea_ui.Authn.Resolve.{Moment, AuthState, Resolution, resolve}
use antrea_ui.Login.Types.{
  status, info, redirect, failed, ServerConfig, Visit, Reply, mode_name, add_cookies,
}
use antrea_ui.Credentials.Tokens.{has_bytes}

abbrev pub session_expiry : Option ℕ → Heap → Option ℕ
session_expiry none h = none
session_expiry (some p) h = some (h.objects p).expires_at

unfoldable pub session_info : Answer RequestAuth → Store → Reply
session_info (refuse e) st = failed e
session_info (pass ra) st = info (record {
  authenticated = true;
  mode = mode_name ra.mode;
  username = ra.username;
  expires_at = session_expiry ra.session st.heap;
})

module _ (net : Net) (lru : LruCache) (out : Outside) where
  -- GET /auth/session goes through `Resolve`, which sets the response's cookies.
  unfoldable pub session :
      Config → Request → Moment → AuthState net lru out → Reply × Resolution net lru out
  unfolding resolve session_info
  session cfg req m st =
      let r = resolve net lru out cfg req m st in (session_info r.answer r.state.store, r)

-- The token of an OIDC session, which the provider's logout URL names; it is empty for others.
unfoldable pub oidc_token : Option ℕ → Heap → Bytes
unfolding contents
oidc_token none h = []
oidc_token (some p) h = elim (h.objects p).mode [
  | Mode.oidc ↦ elim (contents (h.objects p).credential.token h) [ none ↦ [] | some b ↦ b ]
  | _ ↦ []
]

abbrev pub logout_url_error : ServerError
logout_url_error = record {
  code = status_internal_server_error;
  message = "";
  cause = some Cause.logout_url_failed;
}

-- The session's ID token, read before the session is deleted, and the store without the session.
unfoldable pub end_session : Option String → Store → Bytes × Store
unfolding oidc_token peek delete_session
end_session none st = ([], st)
end_session (some id) st = (oidc_token (peek id st) st.heap, delete_session id st)

module _ (cfg : ServerConfig) (build_logout_url : Bytes → Option String) where
  abbrev pub to_provider : Option String → Reply
  to_provider none = failed logout_url_error
  to_provider (some logout_url) = redirect status_see_other logout_url

  unfoldable pub logout_reply : String → Bytes → Reply
  logout_reply redirect_url id_token =
      if cfg.oidc_auth_enabled && cfg.oidc_needs_logout && has_bytes id_token
      then to_provider (build_logout_url id_token)
      else if not (is_empty redirect_url)
      then redirect status_found redirect_url
      else status status_ok

  -- `redirect_query` is the query's redirect_url, empty where there is none.
  unfoldable pub logout : Net → Config → Request → String → Visit → Reply × Visit
  unfolding end_session logout_reply safe_redirect_url add_cookies
  logout net auth req redirect_query v =
      let redirect_url = safe_redirect_url net auth req redirect_query in
      let (id_token, st) = end_session (get_session_cookie req) v.store in
      (
        logout_reply redirect_url id_token,
        add_cookies (unset_session_cookie ∷ unset_legacy_cookies req) (record v { store = st }),
      )
