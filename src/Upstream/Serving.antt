-- ===== src/Upstream/Serving.antt =====
-- A request through the proxy: GetK8s (pkg/server/api/k8s.go), and the round trip of the reverse proxy
-- (pkg/handlers/k8sproxy/handler.go: NewK8sProxyHandler, perRequestTransport). What other requests do
-- to the session store while the answer is awaited is an argument.
use antrea_ui.Base.{ℕ, String, Option, none, some, delete}
use antrea_ui.Session.Types.{Store}
use antrea_ui.Authn.Types.{RequestAuth}
use antrea_ui.AntreaSvc.Factory.{Rest, ClientFactory}
use antrea_ui.Traceflow.Clients.{transport_for_request}
use antrea_ui.Upstream.Proxy.{Headers, Inbound, rewrite, modify_response}

-- The standard library's reverse proxy and the API server: the headers of the outgoing request before
-- Rewrite, the URL below that of the API server, and the status of the answer over a round tripper.
pub record ReverseProxy : Type 0 where
  pub prepare : Headers → Headers
  pub set_url : String → String
  pub send : ℕ → String → Headers → Option ℕ

-- The status that the user gets. Without an answer the reverse proxy replies with 502.
abbrev pub answered_with : Option RequestAuth → (Store → Store) → Option ℕ → Store → ℕ × Store
answered_with identity meanwhile none st = (502, meanwhile st)
answered_with identity meanwhile (some status) st =
    (status, modify_response status identity (meanwhile st))

abbrev pub round_trip :
    ReverseProxy
    → Option RequestAuth
    → (Store → Store)
    → String
    → Headers
    → Option ℕ × Store
    → ℕ × Store
round_trip proxy identity meanwhile url out (none, st) = (502, st)
round_trip proxy identity meanwhile url out (some rt, st) =
    answered_with identity meanwhile (proxy.send rt url out) st

unfoldable pub serve_http :
    (rest : Rest)
    → ClientFactory rest
    → ReverseProxy
    → (Store → Store)
    → Option RequestAuth
    → String
    → Inbound
    → Store
    → ℕ × Store
unfolding transport_for_request rewrite modify_response
serve_http rest f proxy meanwhile identity path inbound st =
    round_trip proxy identity meanwhile (proxy.set_url path)
      (rewrite inbound (proxy.prepare inbound.headers)) (transport_for_request rest f identity st)

-- `path` is the part of the path after /api/v1/k8s.
unfoldable pub get_k8s :
    (rest : Rest)
    → ClientFactory rest
    → ReverseProxy
    → (Store → Store)
    → Option RequestAuth
    → String
    → Inbound
    → Store
    → ℕ × Store
unfolding serve_http delete
get_k8s rest f proxy meanwhile identity path inbound st =
    serve_http rest f proxy meanwhile identity path
      (record inbound { headers = delete "Cookie" (delete "Authorization" inbound.headers) }) st
