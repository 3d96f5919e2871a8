-- ===== src/Login/Creation.antt =====
-- createSession and validateCredential (pkg/server/auth.go).
use antrea_ui.Base.{ℕ, String, Option, none, some, Bytes, if◌then◌else◌, ◌∷◌}
use antrea_ui.Session.Types.{Heap, Kind, Credential, Spec, Store, SessionError, Result, ok, err}
use antrea_ui.Session.Memory.{spec_zero, contents}
use antrea_ui.Session.Store.{create, delete_session}
use antrea_ui.Authn.Types.{
  status_unauthorized, status_internal_server_error, status_service_unavailable, Request, Config,
  Cause, ServerError, Answer, pass, refuse,
}
use antrea_ui.Authn.Cookies.{get_session_cookie, set_session_cookie, unset_legacy_cookies, SameSite}
use antrea_ui.Login.Types.{ServerConfig, Visit, add_cookies}

unfoldable pub same_site : Config → SameSite
same_site auth = if auth.dev_mode then SameSite.lax_mode else SameSite.strict_mode

abbrev pub too_many_sessions_error : ServerError
too_many_sessions_error = record {
  code = status_service_unavailable;
  message = "Too many active sessions, please try again later";
  cause = none;
}

abbrev pub create_error : SessionError → ServerError
create_error SessionError.too_many_sessions = too_many_sessions_error
create_error e = record {
  code = status_internal_server_error;
  message = "";
  cause = some (Cause.creation_failed e);
}

-- The old session of a caller that logs in again.
unfoldable pub drop_old : Option String → Store → Store
drop_old none st = st
drop_old (some id) st = delete_session id st

unfoldable pub created :
    ServerConfig → Config → Request → Spec → Visit → Result ℕ × Store → Option ServerError × Visit
unfolding add_cookies same_site
created cfg auth req spec v (ok p, su) = (
  none,
  add_cookies
      (set_session_cookie (su.heap.objects p).id cfg.cookie_secure (same_site auth)
        ∷ unset_legacy_cookies req)
      (record v { store = su }),
)
created cfg auth req spec v (err e, su) =
    (some (create_error e), record v { store = record su { heap = (spec_zero spec su.heap).1 } })

-- `random` and `now` are those of `Create`.
unfoldable pub create_session :
    ServerConfig → Config → Request → Option String → ℕ → Spec → Visit → Option ServerError × Visit
unfolding drop_old created
create_session cfg auth req random now spec v =
    created cfg auth req spec v (create random now spec (drop_old (get_session_cookie req) v.store))

-- The API server's answer to a SelfSubjectReview made with this kind, token, certificate, key and
-- user name: the user's name, or `none` for an error of any sort.
abbrev pub ApiServer : Type 0
ApiServer = Kind → Option Bytes → Option Bytes → Option Bytes → String → Option String

abbrev pub asked : ApiServer → Credential → Heap → Option String
asked api c h =
    api c.kind (contents c.token h) (contents c.cert_pem h) (contents c.key_pem h) c.user_name

abbrev pub credential_refused : ServerError
credential_refused = record {
  code = status_unauthorized;
  message = "Kubernetes rejected this credential";
  cause = some Cause.credential_invalid;
}

abbrev pub answered : Option String → Answer String
answered none = refuse credential_refused
answered (some username) = pass username

unfoldable pub validate_credential : ApiServer → Credential → Heap → Answer String
validate_credential api c h = answered (asked api c h)
