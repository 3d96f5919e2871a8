-- ===== src/Upstream/Errors.antt =====
-- pkg/server/api/k8s_errors.go: errors of Kubernetes as answers to the user.
use antrea_ui.Base.{ℕ, String, Option, none, some, List, [], ◌∷◌, ◌==◌, if◌then◌else◌}
use antrea_ui.Session.Types.{Store}
use antrea_ui.Authn.Types.{RequestAuth}
use antrea_ui.Authn.Cookies.{SetCookie, unset_session_cookie}
use antrea_ui.Authn.Identity.{invalidate}

-- The error of a call, by the tests of the API library; its text where the answer shows it.
pub data ApiFailure : Type 0 where
  unauthorized : ApiFailure
  forbidden not_found other : String → ApiFailure

-- The answer's code and message; an error that is only logged has no message.
pub record ApiError : Type 0 where
  pub code : ℕ
  pub message : Option String

-- The answer, the store, and the cookies of the response.
pub record Reply : Type 0 where
  pub error : ApiError
  pub store : Store
  pub set_cookies : List SetCookie

abbrev pub log_in_again : ApiError
log_in_again = record {
  code = 401;
  message = some "Session is no longer valid, please log in again";
}

abbrev pub plain : ApiError → Store → Reply
plain e st = record { error = e; store = st; set_cookies = [] }

unfoldable pub k8s_error : Option RequestAuth → ApiFailure → Store → Reply
unfolding invalidate unset_session_cookie
k8s_error none unauthorized st = plain log_in_again st
k8s_error (some ra) unauthorized st = record {
  error = log_in_again;
  store = invalidate ra st;
  set_cookies = unset_session_cookie ∷ [];
}
k8s_error ra (forbidden text) st = plain (record { code = 403; message = some text }) st
k8s_error ra (not_found text) st = plain (record { code = 404; message = some text }) st
k8s_error ra (other text) st = plain (record { code = 500; message = none }) st

-- The status of an answer of the Antrea Service, whose handler has already invalidated the session.
unfoldable pub upstream_status_error : ℕ → String → Store → Reply
unfolding unset_session_cookie
upstream_status_error status body st =
    if status == 401
    then record { error = log_in_again; store = st; set_cookies = unset_session_cookie ∷ [] }
    else if status == 403
    then plain (record { code = 403; message = some body }) st
    else plain (record { code = 500; message = none }) st
