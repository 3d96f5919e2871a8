-- ===== src/Authn/Cookies.antt =====
-- pkg/server/utils/cookie/cookie.go: the session cookie, and the cookies of the scheme before it.
use antrea_ui.Base.{
  String, Bool, true, false, Option, none, some, List, [], ◌∷◌, str_eq, if◌then◌else◌, has_prefix,
}
use antrea_ui.Base.Int.{ℤ, pos, negsuc}
use antrea_ui.Authn.Types.{Request}
use antrea_ui.Authn.Origin.{is_empty}

abbrev pub session_cookie_name : String
session_cookie_name = "antrea-ui-session"

abbrev pub session_cookie_path : String
session_cookie_path = "/"

abbrev pub refresh_token_cookie_name : String
refresh_token_cookie_name = "antrea-ui-refresh-token"

abbrev pub refresh_token_cookie_path : String
refresh_token_cookie_path = "/auth"

abbrev pub legacy_oidc_id_token_cookie_name : String
legacy_oidc_id_token_cookie_name = "antrea-ui-oidc-id-token"

pub data SameSite : Type 0 where
  default_mode lax_mode strict_mode : SameSite

-- A Set-Cookie header. A negative `max_age` tells the browser to delete the cookie.
pub record SetCookie : Type 0 where
  pub name : String
  pub value : String
  pub path : String
  pub max_age : ℤ
  pub secure : Bool
  pub http_only : Bool
  pub same_site : SameSite

unfoldable pub set_session_cookie : String → Bool → SameSite → SetCookie
set_session_cookie session_id cookie_secure same_site = record {
  name = session_cookie_name;
  value = session_id;
  path = session_cookie_path;
  max_age = pos 0;
  secure = cookie_secure;
  http_only = true;
  same_site = same_site;
}

-- `req.Cookie(name)`: the value of the first cookie of that name.
unfoldable pub find_cookie : String → List (String × String) → Option String
find_cookie name [] = none
find_cookie name ((n, v) ∷ cs) = if str_eq n name then some v else find_cookie name cs

-- A cookie with an empty value counts as none.
unfoldable pub get_session_cookie : Request → Option String
unfolding find_cookie
get_session_cookie req = elim (find_cookie session_cookie_name req.cookies) [
  | none ↦ none
  | some id ↦ if is_empty id then none else some id
]

abbrev pub deletion : String → String → SetCookie
deletion name path = record {
  name = name;
  value = "";
  path = path;
  max_age = negsuc 0;
  secure = false;
  http_only = false;
  same_site = SameSite.default_mode;
}

unfoldable pub unset_session_cookie : SetCookie
unset_session_cookie = deletion session_cookie_name session_cookie_path

-- The loop over the request's cookies: every chunk of the old ID token.
unfoldable pub unset_id_token_chunks : List (String × String) → List SetCookie
unfolding has_prefix
unset_id_token_chunks [] = []
unset_id_token_chunks ((n, v) ∷ cs) =
    let rest = unset_id_token_chunks cs in
    if has_prefix n legacy_oidc_id_token_cookie_name
    then deletion n refresh_token_cookie_path ∷ rest
    else rest

unfoldable pub unset_legacy_cookies : Request → List SetCookie
unfolding find_cookie unset_id_token_chunks
unset_legacy_cookies req =
    let chunks = unset_id_token_chunks req.cookies in
    elim (find_cookie refresh_token_cookie_name req.cookies) [
      | none ↦ chunks
      | some v ↦ deletion refresh_token_cookie_name refresh_token_cookie_path ∷ chunks
    ]
