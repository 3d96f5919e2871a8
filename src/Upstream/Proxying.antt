-- ===== src/Upstream/Proxying.antt =====
-- A proxied request from end to end (pkg/server/api/k8s.go, pkg/handlers/k8sproxy/handler.go).
use antrea_ui.Base.{ℕ, String, ◌≡◌, refl, true, Option, none, some, ◌==◌, delete, lookup}
use antrea_ui.Session.Types.{Store}
use antrea_ui.Authn.Types.{RequestAuth}
use antrea_ui.AntreaSvc.Factory.{Rest, ClientFactory}
use antrea_ui.Traceflow.Clients.{transport_for_request}
use antrea_ui.Upstream.Proxy.{Headers, Inbound, rewrite}
use antrea_ui.Upstream.Headers.{rewrite-IsClean, speaks_for}
use antrea_ui.Upstream.Rejections.{After, modify_response-After}
use antrea_ui.Upstream.Serving.{ReverseProxy, answered_with, round_trip, get_k8s}

module _ (rest : Rest) (f : ClientFactory rest) (proxy : ReverseProxy) (meanwhile : Store → Store)
    (identity : Option RequestAuth) (path : String) (inbound : Inbound) (st : Store) where
  -- The store after the transport has been looked up or built.
  abbrev handed : Option ℕ × Store
  handed = transport_for_request rest f identity st

  -- What becomes of a request: not sent, not answered, or sent with the headers `out` and answered.
  pub data Proxied : ℕ × Store → Type 0 where
    unsent : handed.0 ≡ none → Proxied (502, handed.1)
    unanswered :
        (rt : ℕ) (out : Headers)
        → handed.0 ≡ some rt
        → ((k : String) → speaks_for k ≡ true → lookup k out ≡ none)
        → proxy.send rt (proxy.set_url path) out ≡ none
        → Proxied (502, meanwhile handed.1)
    answered :
        (rt : ℕ) (out : Headers) (status : ℕ) (su : Store)
        → handed.0 ≡ some rt
        → ((k : String) → speaks_for k ≡ true → lookup k out ≡ none)
        → proxy.send rt (proxy.set_url path) out ≡ some status
        → After identity (status == 401) (meanwhile handed.1) su
        → Proxied (status, su)

  abbrev stripped : Inbound
  stripped = record inbound { headers = delete "Cookie" (delete "Authorization" inbound.headers) }

  abbrev outgoing : Headers
  outgoing = rewrite stripped (proxy.prepare stripped.headers)

  sent-Proxied :
      (rt : ℕ) (answer : Option ℕ)
      → handed.0 ≡ some rt
      → proxy.send rt (proxy.set_url path) outgoing ≡ answer
      → Proxied (answered_with identity meanwhile answer handed.1)
  sent-Proxied rt none h e =
      unanswered rt outgoing h (rewrite-IsClean stripped (proxy.prepare stripped.headers)).stripped
        e
  sent-Proxied rt (some status) h e =
      answered rt outgoing status _ h
        (rewrite-IsClean stripped (proxy.prepare stripped.headers)).stripped e
        (modify_response-After status identity (meanwhile handed.1))

  trip-Proxied :
      (t : Option ℕ)
      → handed.0 ≡ t
      → Proxied (round_trip proxy identity meanwhile (proxy.set_url path) outgoing (t, handed.1))
  trip-Proxied none h = unsent h
  trip-Proxied (some rt) h = sent-Proxied rt (proxy.send rt (proxy.set_url path) outgoing) h refl

  -- A proxied request is answered with 502 where its identity has no transport or the API server does
  -- not answer. Otherwise it reached the API server over the transport of its identity alone, with no
  -- header of the client that could speak for another, and the user gets the status of the answer: the
  -- session of the identity is ended if this is a 401, and the store is left alone if it is any other.
  pub get_k8s-Proxied : Proxied (get_k8s rest f proxy meanwhile identity path inbound st)
  unfolding get_k8s
  get_k8s-Proxied = trip-Proxied handed.0 refl
