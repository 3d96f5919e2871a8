-- ===== src/System/Calls.antt =====
-- The endpoints of the traceflows and of the feature gates, as sequences of steps
-- (pkg/server/api/traceflow.go, pkg/server/api/featuregates.go).
use antrea_ui.Base.{
  String, ◌≡◌, refl, Option, none, some, Bool, true, false, not, ◌==◌, Bool-cases, inl, inr,
  if◌then◌else◌,
}
use antrea_ui.Session.Types.{Store}
use antrea_ui.Authn.Types.{RequestAuth}
use antrea_ui.AntreaSvc.Factory.{ClientFactory}
use antrea_ui.AntreaSvc.Requests.{ServiceHandler, HttpClient, Sent, RequestError, request}
use antrea_ui.AntreaSvc.FeatureGates.{
  GatesReply, reply_store, gates_reply, get_feature_gates, broken,
}
use antrea_ui.Upstream.Errors.{ApiFailure, k8s_error, upstream_status_error}
use antrea_ui.Traceflow.Handler.{
  Cluster, Progress, Deletion, create_traceflow, get_traceflow, delete_request,
}
use antrea_ui.Traceflow.Clients.{transport_for_request, dynamic_client_for_request}
use antrea_ui.Traceflow.Endpoints.{
  TraceflowReply, TraceflowBody, with_client, created_reply, create_traceflow_request, status_reply,
  get_traceflow_request_status, marshalled, result_reply, get_traceflow_request_result,
  deletion_reply, delete_traceflow_request,
}
use antrea_ui.System.Histories.{Deployment, ServerStep}
use antrea_ui.System.Composed.{Leads, Leads-refl, Leads-trans, one_step, request-Leads}

-- An answer of the Antrea Service leaves the store as the request left it.
gates_reply-store :
    (are_gates : String → Bool) (sent : Sent) (st : Store)
    → reply_store (gates_reply are_gates (sent, st)) ≡ st
unfolding gates_reply upstream_status_error
gates_reply-store are_gates sent st = by_failure sent.failure
  where
    by_status :
        (b c : Bool)
        → reply_store (
            if not b
            then GatesReply.refused (upstream_status_error sent.status sent.body st)
            else if c
            then GatesReply.gates sent.body st
            else broken st)
          ≡ st
    by_status true true = refl
    by_status true false = refl
    by_status false c = elim (Bool-cases (sent.status == 401)) [
      | inl x ↦ rw x refl
      | inr x ↦ elim (Bool-cases (sent.status == 403)) [
        | inl y ↦ rw (x, y) refl
        | inr y ↦ rw (x, y) refl
      ]
    ]

    by_failure :
        (o : Option RequestError)
        → reply_store (elim o as (λ _. GatesReply) [
          | some e ↦ broken st
          | none ↦
              if not (sent.status == 200)
              then GatesReply.refused (upstream_status_error sent.status sent.body st)
              else if are_gates sent.body
              then GatesReply.gates sent.body st
              else broken st
        ])
          ≡ st
    by_failure (some e) = refl
    by_failure none = by_status (sent.status == 200) (are_gates sent.body)

module _ (d : Deployment) where
  -- A request for the feature gates is a sequence of steps, with others' steps while it waits.
  pub get_feature_gates-Leads :
      (meanwhile : Store → Store) (others : (st : Store) → Leads d st (meanwhile st))
      (http : HttpClient) (are_gates : String → Bool) (handler : ServiceHandler d.rest)
      (identity : Option RequestAuth) (st : Store)
      → Leads d st
          (reply_store (get_feature_gates d.rest http are_gates meanwhile handler identity st))
  unfolding get_feature_gates
  get_feature_gates-Leads meanwhile others http are_gates handler identity st =
      let (sent, su) = request d.rest http meanwhile handler identity "GET" "/featuregates" st in
      rw (gates_reply-store are_gates sent su)
        (request-Leads d meanwhile others http handler identity "GET" "/featuregates" st)

  module _ (cluster : Cluster) (f : ClientFactory d.rest) (identity : Option RequestAuth) where
    abbrev Replies : Type 0
    Replies = TraceflowReply cluster.World

    failed-Leads : (e : ApiFailure) (st : Store) → Leads d st (k8s_error identity e st).store
    failed-Leads e st = one_step d _ _ (ServerStep.kubernetes_fails identity e st)

    acting-Leads :
        (st su : Store) (client : Option cluster.Client) (w : cluster.World)
        (act : cluster.Client → Store → Replies)
        → Leads d st su
        → ((c : cluster.Client) → Leads d su (act c su).store)
        → Leads d st (with_client d.rest cluster f identity (client, su) w act).store
    acting-Leads st su none w act l step = l
    acting-Leads st su (some c) w act l step = Leads-trans d st su (act c su).store l (step c)

    with_client-Leads :
        (st : Store) (w : cluster.World) (act : cluster.Client → Store → Replies)
        → ((c : cluster.Client) (su : Store) → Leads d su (act c su).store)
        → Leads d st
            (with_client d.rest cluster f identity
              (dynamic_client_for_request d.rest cluster f identity st)
              w
              act).store
    unfolding dynamic_client_for_request
    with_client-Leads st w act step =
        let su = (transport_for_request d.rest f identity st).1 in
        acting-Leads st su _ w act (one_step d st su (ServerStep.asks_kubernetes f identity st))
          (λ c. step c su)

    created_reply-Leads :
        (request_id : String) (st : Store) (r : Option ApiFailure × cluster.World)
        → Leads d st (created_reply d.rest cluster f identity request_id st r).store
    created_reply-Leads request_id st (none, w) = Leads-refl d st
    created_reply-Leads request_id st (some e, w) = failed-Leads e st

    -- Each endpoint of the traceflows takes a transport and, where Kubernetes fails, ends the session.
    pub create_traceflow_request-Leads :
        (body : TraceflowBody cluster.Object) (request_id : String) (st : Store) (w : cluster.World)
        → Leads d st (create_traceflow_request d.rest cluster f identity body request_id st w).store
    unfolding create_traceflow_request
    create_traceflow_request-Leads (TraceflowBody.not_bound text) request_id st w = Leads-refl d st
    create_traceflow_request-Leads (TraceflowBody.bound object) request_id st w =
        with_client-Leads st w _ (λ c su.
          created_reply-Leads request_id su (create_traceflow cluster c request_id object w))

    status_reply-Leads :
        (request_id : String) (st : Store) (w : cluster.World) (p : Progress cluster.Object)
        → Leads d st (status_reply d.rest cluster f identity request_id st w p).store
    status_reply-Leads request_id st w (Progress.no_progress e) = failed-Leads e st
    status_reply-Leads request_id st w (Progress.progress o false) = Leads-refl d st
    status_reply-Leads request_id st w (Progress.progress o true) = Leads-refl d st

    pub get_traceflow_request_status-Leads :
        (request_id : String) (st : Store) (w : cluster.World)
        → Leads d st (get_traceflow_request_status d.rest cluster f identity request_id st w).store
    unfolding get_traceflow_request_status
    get_traceflow_request_status-Leads request_id st w =
        with_client-Leads st w _
          (λ c su. status_reply-Leads request_id su w (get_traceflow cluster c request_id w))

    marshalled-Leads :
        (st : Store) (w : cluster.World) (text : Option String)
        → Leads d st (marshalled d.rest cluster f identity st w text).store
    marshalled-Leads st w none = Leads-refl d st
    marshalled-Leads st w (some text) = Leads-refl d st

    result_reply-Leads :
        (st : Store) (w : cluster.World) (p : Progress cluster.Object)
        → Leads d st (result_reply d.rest cluster f identity st w p).store
    result_reply-Leads st w (Progress.no_progress e) = failed-Leads e st
    result_reply-Leads st w (Progress.progress o false) = Leads-refl d st
    result_reply-Leads st w (Progress.progress o true) = marshalled-Leads st w (cluster.marshal o)

    pub get_traceflow_request_result-Leads :
        (request_id : String) (st : Store) (w : cluster.World)
        → Leads d st (get_traceflow_request_result d.rest cluster f identity request_id st w).store
    unfolding get_traceflow_request_result
    get_traceflow_request_result-Leads request_id st w =
        with_client-Leads st w _
          (λ c su. result_reply-Leads su w (get_traceflow cluster c request_id w))

    deletion_reply-Leads :
        (st : Store) (r : Deletion × cluster.World)
        → Leads d st (deletion_reply d.rest cluster f identity st r).store
    deletion_reply-Leads st (Deletion.deleted, w) = Leads-refl d st
    deletion_reply-Leads st (Deletion.not_there, w) = Leads-refl d st
    deletion_reply-Leads st (Deletion.not_deleted e, w) = failed-Leads e st

    pub delete_traceflow_request-Leads :
        (request_id : String) (st : Store) (w : cluster.World)
        → Leads d st (delete_traceflow_request d.rest cluster f identity request_id st w).store
    unfolding delete_traceflow_request
    delete_traceflow_request-Leads request_id st w =
        with_client-Leads st w _
          (λ c su. deletion_reply-Leads su (delete_request cluster c request_id w))
