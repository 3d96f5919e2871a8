-- ===== src/Traceflow/Laws/Polling.antt =====
-- The status and the result of a traceflow agree (pkg/server/api/traceflow.go).
use antrea_ui.Base.{
  String, ◌≡◌, ◌≢◌, refl, ◌↔◌, true, false, Option, none, some, [], ◌∷◌, arith, ◌<◌,
}
use antrea_ui.Session.Types.{Store}
use antrea_ui.Authn.Types.{RequestAuth}
use antrea_ui.Upstream.Errors.{ApiFailure, k8s_error, unauthorized, forbidden, not_found, other}
use antrea_ui.AntreaSvc.Factory.{Rest, ClientFactory}
use antrea_ui.Traceflow.Handler.{Cluster, Progress, get_traceflow}
use antrea_ui.Traceflow.Clients.{dynamic_client_for_request}
use antrea_ui.Traceflow.Endpoints.{
  TraceflowReply, with_client, status_reply, result_reply, exposed, location,
  get_traceflow_request_status, get_traceflow_request_result,
}

-- The replies to a request for the status and to one for the result, in the same state.
pub record IsPolled {World : Type 0} (request_id : String) (status result : TraceflowReply World)
    : Type 0 where
  pub finished : (status.code ≡ 302) ↔ (result.code ≡ 200)
  pub pending : status.code ≡ 200 → result.code ≡ 404
  pub failing : status.code ≢ 200 → status.code ≢ 302 → result.code ≡ status.code
  pub leads :
      status.code ≡ 302
      → status.headers ≡ exposed "Location" (("Location", location request_id "/result") ∷ [])
  pub same_store : result.store ≡ status.store
  pub same_cookies : result.set_cookies ≡ status.set_cookies

is_error :
    (identity : Option RequestAuth) (e : ApiFailure) (st : Store)
    → 400 < (k8s_error identity e st).error.code
unfolding k8s_error
is_error none unauthorized st = omega arith
is_error (some ra) unauthorized st = omega arith
is_error identity (forbidden text) st = omega arith
is_error identity (not_found text) st = omega arith
is_error identity (other text) st = omega arith

module _ (rest : Rest) (cluster : Cluster) (f : ClientFactory rest) (identity : Option RequestAuth)
    (marshals : (o : cluster.Object) → (text : String) × (cluster.marshal o ≡ some text)) where
  replies-IsPolled :
      (request_id : String) (st : Store) (w : cluster.World) (p : Progress cluster.Object)
      → IsPolled request_id
          (status_reply rest cluster f identity request_id st w p)
          (result_reply rest cluster f identity st w p)
  replies-IsPolled request_id st w (Progress.no_progress e) =
      let bad = is_error identity e st in
      record {
        finished = (λ h. absurd (omega arith), λ h. absurd (omega arith));
        pending = λ h. absurd (omega arith);
        failing = λ h h'. refl;
        leads = λ h. absurd (omega arith);
        same_store = refl;
        same_cookies = refl;
      }
  replies-IsPolled request_id st w (Progress.progress o false) = record {
    finished = (λ h. absurd (omega arith), λ h. absurd (omega arith));
    pending = λ h. refl;
    failing = λ h h'. absurd (h refl);
    leads = λ h. absurd (omega arith);
    same_store = refl;
    same_cookies = refl;
  }
  replies-IsPolled request_id st w (Progress.progress o true) = rw ((marshals o).1) (record {
    finished = (λ h. refl, λ h. refl);
    pending = λ h. absurd (omega arith);
    failing = λ h h'. absurd (h' refl);
    leads = λ h. refl;
    same_store = refl;
    same_cookies = refl;
  })

  clients-IsPolled :
      (request_id : String) (w : cluster.World) (c : Option cluster.Client × Store)
      → IsPolled request_id
          (with_client rest cluster f identity c w (λ client su.
            status_reply rest cluster f identity request_id su w
              (get_traceflow cluster client request_id w)))
          (with_client rest cluster f identity c w (λ client su.
            result_reply rest cluster f identity su w (get_traceflow cluster client request_id w)))
  clients-IsPolled request_id w (none, st) = record {
    finished = (λ h. absurd (omega arith), λ h. absurd (omega arith));
    pending = λ h. absurd (omega arith);
    failing = λ h h'. refl;
    leads = λ h. absurd (omega arith);
    same_store = refl;
    same_cookies = refl;
  }
  clients-IsPolled request_id w (some client, st) =
      replies-IsPolled request_id st w (get_traceflow cluster client request_id w)

  -- Where every traceflow can be written as JSON: the status of a traceflow sends the user on to its
  -- result just when a request for the result in the same state is answered with it. While the status
  -- says to ask again the result is not found, and every error is the same for both; so is what they do
  -- to the session and to the cookies.
  pub get_traceflow_request_status-IsPolled :
      (request_id : String) (st : Store) (w : cluster.World)
      → IsPolled request_id
          (get_traceflow_request_status rest cluster f identity request_id st w)
          (get_traceflow_request_result rest cluster f identity request_id st w)
  unfolding get_traceflow_request_status get_traceflow_request_result
  get_traceflow_request_status-IsPolled request_id st w =
      clients-IsPolled request_id w (dynamic_client_for_request rest cluster f identity st)
