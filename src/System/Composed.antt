-- ===== src/System/Composed.antt =====
-- Endpoints that call Kubernetes or the Antrea Service, as sequences of steps between which others may
-- come (pkg/server/api/k8s.go, pkg/handlers/k8sproxy/handler.go, pkg/handlers/antreasvc/handler.go).
use antrea_ui.Base.{ℕ, String, Option, none, some, List, [], ◌∷◌, ◌++◌, Bool-cases, inl, inr}
use antrea_ui.Session.Types.{Store}
use antrea_ui.Authn.Types.{RequestAuth}
use antrea_ui.Authn.Identity.{request_transport}
use antrea_ui.AntreaSvc.Factory.{ClientFactory, factory_transport_for}
use antrea_ui.AntreaSvc.Provider.{get_client_factory, transport_key}
use antrea_ui.AntreaSvc.Requests.{
  ServiceHandler, HttpClient, send_with, request_as, request, get_host,
}
use antrea_ui.Traceflow.Clients.{transport_for_request}
use antrea_ui.Upstream.Proxy.{Headers, Inbound, modify_response}
use antrea_ui.Upstream.Serving.{ReverseProxy, answered_with, round_trip, serve_http, get_k8s}
use antrea_ui.System.Histories.{Deployment, ServerStep, Reaches, here, after_step}

module _ (d : Deployment) where
  -- One store is reached from another, whatever IDs are drawn on the way.
  abbrev pub Leads : Store → Store → Type 0
  Leads st su = (ids : List (Option String)) × Reaches d st ids su

  Reaches-trans :
      (st mid last : Store) (before after : List (Option String))
      → Reaches d st before mid
      → Reaches d mid after last
      → Reaches d st (after ++ before) last
  Reaches-trans st mid _ before _ r here = r
  Reaches-trans st mid _ before _ r (after_step {ids} {drawn} {su} {sv} q step) =
      after_step (Reaches-trans st mid su before ids r q) step

  pub Leads-trans : (st su sv : Store) → Leads st su → Leads su sv → Leads st sv
  Leads-trans st su sv (ids, r) (jds, q) = (jds ++ ids, Reaches-trans st su sv ids jds r q)

  pub Leads-refl : (st : Store) → Leads st st
  Leads-refl st = ([], here)

  pub one_step : (st su : Store) → ServerStep d none st su → Leads st su
  one_step st su step = (none ∷ [], after_step here step)

  module _ (meanwhile : Store → Store) (others : (st : Store) → Leads st (meanwhile st)) where
    answered_with-Leads :
        (identity : Option RequestAuth) (answer : Option ℕ) (st : Store)
        → Leads st (answered_with identity meanwhile answer st).1
    answered_with-Leads identity none st = others st
    answered_with-Leads identity (some status) st =
        Leads-trans st (meanwhile st) (modify_response status identity (meanwhile st)) (others st)
          (one_step _ _ (ServerStep.proxy_answers status identity (meanwhile st)))

    round_trip-Leads :
        (proxy : ReverseProxy) (identity : Option RequestAuth) (url : String) (out : Headers)
        (rt : Option ℕ) (st : Store)
        → Leads st (round_trip proxy identity meanwhile url out (rt, st)).1
    round_trip-Leads proxy identity url out none st = Leads-refl st
    round_trip-Leads proxy identity url out (some rt) st =
        answered_with-Leads identity (proxy.send rt url out) st

    -- A proxied request is a sequence of steps of the server, where the others' steps come between its
    -- own.
    pub get_k8s-Leads :
        (f : ClientFactory d.rest) (proxy : ReverseProxy) (identity : Option RequestAuth)
        (path : String) (inbound : Inbound) (st : Store)
        → Leads st (get_k8s d.rest f proxy meanwhile identity path inbound st).1
    unfolding get_k8s serve_http
    get_k8s-Leads f proxy identity path inbound st =
        let t = transport_for_request d.rest f identity st in
        Leads-trans st t.1 _ (one_step st t.1 (ServerStep.asks_kubernetes f identity st))
          (round_trip-Leads proxy identity (proxy.set_url path) _ t.0 t.1)

    send_with-Leads :
        (http : HttpClient) (ra : RequestAuth) (method url : String) (rt : Option ℕ) (st : Store)
        → Leads st (send_with http meanwhile ra method url rt st).1
    unfolding send_with
    send_with-Leads http ra method url none st = Leads-refl st
    send_with-Leads http ra method url (some rt) st =
        elim (Bool-cases (http.is_request method url)) [
          | inr bad ↦ rw bad (Leads-refl st)
          | inl good ↦ rw good (
              Leads-trans st (meanwhile st) _ (others st) (
                one_step _ _
                  (ServerStep.antrea_answers ra (http.send rt method url) (meanwhile st))))
        ]

    -- So is a request to the Antrea Service.
    pub request-Leads :
        (http : HttpClient) (handler : ServiceHandler d.rest) (identity : Option RequestAuth)
        (method path : String) (st : Store)
        → Leads st (request d.rest http meanwhile handler identity method path st).1
    unfolding request
    request-Leads http handler identity method path st =
        by_parts (get_host handler) (get_client_factory handler.client_provider) identity
      where
        by_parts :
            (host : Option String) (client : Option (ClientFactory d.rest × ℕ))
            (who : Option RequestAuth)
            → Leads st (request_as d.rest http meanwhile host client who method path st).1
        by_parts none client who = Leads-refl st
        by_parts (some host) none who = Leads-refl st
        by_parts (some host) (some (f, generation)) none = Leads-refl st
        by_parts (some host) (some (f, generation)) (some ra) =
            let key = transport_key generation in
            let build = factory_transport_for d.rest f in
            let t = request_transport ra key build st.heap in
            Leads-trans st (record st { heap = t.1 }) _
              (one_step _ _ (ServerStep.asks_antrea ra key build st))
              (send_with-Leads http ra method (http.url_string host path) t.0
                (record st { heap = t.1 }))
