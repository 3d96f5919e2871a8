-- ===== src/Upstream/Tests.antt =====
-- Requests of a user with a session, and one that tries to impersonate.
use Prim.Native.String.{◌++◌ as str_append}
use antrea_ui.Base.{◌≡◌, refl, some, [], ◌∷◌, ◌==◌, lookup, delete, insert, has_prefix}
use antrea_ui.Session.Scenarios.{two_users}
use antrea_ui.AntreaSvc.Tests.{client_go, bobs_request}
use antrea_ui.AntreaSvc.Factory.{ClientFactory}
use antrea_ui.Upstream.Serving.{ReverseProxy, get_k8s}
use antrea_ui.Upstream.Proxying.{Proxied, get_k8s-Proxied}
use antrea_ui.Upstream.Errors.{ApiFailure, k8s_error}
use antrea_ui.Upstream.Proxy.{Headers, Inbound, rewrite, modify_response}
use antrea_ui.Upstream.Headers.{IsClean, rewrite-IsClean}
use antrea_ui.Upstream.Rejections.{After, modify_response-After, IsAnswered, k8s_error-IsAnswered}

abbrev sent : Headers
sent =
    ("Accept", "application/json" ∷ [])
    ∷ ("Cookie", "antrea-ui-session=s2" ∷ [])
    ∷ ("Impersonate-Extra-Scopes", "all" ∷ [])
    ∷ []

abbrev inbound : Inbound
inbound = record {
  headers = ("X-Forwarded-For", "8.8.8.8" ∷ []) ∷ sent;
  remote_ip = "10.0.0.7";
  host = "ui.example.com";
  proto = "https";
}

proxied :
    rewrite inbound sent
    ≡ ("X-Forwarded-Proto", "https" ∷ [])
      ∷ ("X-Forwarded-Host", "ui.example.com" ∷ [])
      ∷ ("X-Forwarded-For", "8.8.8.8, 10.0.0.7" ∷ [])
      ∷ ("Accept", "application/json" ∷ [])
      ∷ []
unfolding rewrite lookup insert delete has_prefix
proxied = refl

spoofed_request-IsClean : IsClean inbound sent
spoofed_request-IsClean = rewrite-IsClean inbound sent

bob_rejected :
    After
      (some bobs_request)
      (401 == 401)
      two_users
      (modify_response 401 (some bobs_request) two_users)
bob_rejected = modify_response-After 401 (some bobs_request) two_users

expired_token-IsAnswered :
    IsAnswered
      (some bobs_request)
      ApiFailure.unauthorized
      two_users
      (k8s_error (some bobs_request) ApiFailure.unauthorized two_users)
expired_token-IsAnswered =
    k8s_error-IsAnswered (some bobs_request) ApiFailure.unauthorized two_users

abbrev factory : ClientFactory client_go
factory = record { config = []; base_transport = 100; sa_transport = 100; transport_key = "k8s" }

-- A reverse proxy that takes no header away, and an API server that rejects every token.
abbrev to_api_server : ReverseProxy
to_api_server = record {
  prepare = λ headers. headers;
  set_url = λ path. str_append "https://10.96.0.1" path;
  send = λ rt url out. some 401;
}

get_k8s-Proxied_example :
    Proxied client_go factory to_api_server
      (λ st. st)
      (some bobs_request)
      "/api/v1/pods"
      inbound
      two_users
      (get_k8s client_go factory to_api_server
        (λ st. st)
        (some bobs_request)
        "/api/v1/pods"
        inbound
        two_users)
get_k8s-Proxied_example =
    get_k8s-Proxied client_go factory to_api_server (λ st. st) (some bobs_request) "/api/v1/pods"
      inbound two_users
