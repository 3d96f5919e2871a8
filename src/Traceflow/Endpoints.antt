-- ===== src/Traceflow/Endpoints.antt =====
-- pkg/server/api/traceflow.go: the endpoints, each a function of the session store and of the world
-- of the API server.
use Prim.Native.String.{◌++◌ as str_append}
use antrea_ui.Base.{ℕ, String, true, false, Option, none, some, List, [], ◌∷◌, if◌then◌else◌, ltb}
use antrea_ui.Base.Int.{ℤ, pos, negsuc}
use antrea_ui.Session.Types.{Store}
use antrea_ui.Authn.Types.{RequestAuth}
use antrea_ui.Authn.Cookies.{SetCookie}
use antrea_ui.Upstream.Errors.{ApiFailure, Reply, plain, k8s_error}
use antrea_ui.AntreaSvc.Factory.{Rest, ClientFactory}
use antrea_ui.Traceflow.Handler.{
  Cluster, Progress, Deletion, create_traceflow, get_traceflow, delete_request,
}
use antrea_ui.Traceflow.Clients.{dynamic_client_for_request}

pub record TraceflowReply (World : Type 0) : Type 0 where
  pub code : ℕ
  pub message : Option String
  pub headers : List (String × String)
  pub content : Option String
  pub set_cookies : List SetCookie
  pub store : Store
  pub world : World

abbrev pub accepted :
    {World : Type 0}
    → ℕ
    → List (String × String)
    → Option String
    → Store
    → World
    → TraceflowReply World
accepted code headers content st w = record {
  code = code;
  message = none;
  headers = headers;
  content = content;
  set_cookies = [];
  store = st;
  world = w;
}

abbrev pub refused_with : {World : Type 0} → Reply → World → TraceflowReply World
refused_with r w = record {
  code = r.error.code;
  message = r.error.message;
  headers = [];
  content = none;
  set_cookies = r.set_cookies;
  store = r.store;
  world = w;
}

abbrev pub error_with : {World : Type 0} → ℕ → Option String → Store → World → TraceflowReply World
error_with code message st w = refused_with (plain (record { code = code; message = message }) st) w

abbrev pub exposed : String → List (String × String) → List (String × String)
exposed names headers = ("Access-Control-Expose-Headers", names) ∷ headers

abbrev pub location : String → String → String
location request_id suffix = str_append "/api/v1/traceflow/" (str_append request_id suffix)

-- The body, where it is JSON, or the error's text.
pub data TraceflowBody (Object : Type 0) : Type 0 where
  bound : Object → TraceflowBody Object
  not_bound : String → TraceflowBody Object

module _ (rest : Rest) (cluster : Cluster) (f : ClientFactory rest)
    (identity : Option RequestAuth) where
  abbrev Replies : Type 0
  Replies = TraceflowReply cluster.World

  -- `dynamicClientFor`, whose error is a 500.
  abbrev pub with_client :
      Option cluster.Client × Store → cluster.World → (cluster.Client → Store → Replies) → Replies
  with_client (none, st) w act = error_with 500 none st w
  with_client (some client, st) w act = act client st

  abbrev pub created_reply : String → Store → Option ApiFailure × cluster.World → Replies
  created_reply request_id st (none, w) =
      accepted 202
        (exposed "Location, Retry-After"
          (("Location", location request_id "") ∷ ("Retry-After", "2") ∷ []))
        none st w
  created_reply request_id st (some e, w) = refused_with (k8s_error identity e st) w

  unfoldable pub create_traceflow_request :
      TraceflowBody cluster.Object → String → Store → cluster.World → Replies
  unfolding dynamic_client_for_request create_traceflow k8s_error
  create_traceflow_request (TraceflowBody.not_bound text) request_id st w =
      error_with 400 (some text) st w
  create_traceflow_request (TraceflowBody.bound object) request_id st w =
      with_client (dynamic_client_for_request rest cluster f identity st) w (λ client su.
        created_reply request_id su (create_traceflow cluster client request_id object w))

  abbrev pub status_reply : String → Store → cluster.World → Progress cluster.Object → Replies
  status_reply request_id st w (Progress.no_progress e) = refused_with (k8s_error identity e st) w
  status_reply request_id st w (Progress.progress o false) =
      accepted 200
        (exposed "Location, Retry-After"
          (("Location", location request_id "/status") ∷ ("Retry-After", "1") ∷ []))
        none st w
  status_reply request_id st w (Progress.progress o true) =
      accepted 302 (exposed "Location" (("Location", location request_id "/result") ∷ [])) none st w

  unfoldable pub get_traceflow_request_status : String → Store → cluster.World → Replies
  unfolding dynamic_client_for_request get_traceflow k8s_error
  get_traceflow_request_status request_id st w =
      with_client (dynamic_client_for_request rest cluster f identity st) w
        (λ client su. status_reply request_id su w (get_traceflow cluster client request_id w))

  abbrev pub marshalled : Store → cluster.World → Option String → Replies
  marshalled st w none = error_with 500 none st w
  marshalled st w (some text) = accepted 200 (exposed "Content-Disposition" []) (some text) st w

  abbrev pub result_reply : Store → cluster.World → Progress cluster.Object → Replies
  result_reply st w (Progress.no_progress e) = refused_with (k8s_error identity e st) w
  result_reply st w (Progress.progress o false) =
      error_with 404
        (some "Traceflow result not available, call the /status endpoint to check progress") st w
  result_reply st w (Progress.progress o true) = marshalled st w (cluster.marshal o)

  unfoldable pub get_traceflow_request_result : String → Store → cluster.World → Replies
  unfolding dynamic_client_for_request get_traceflow k8s_error
  get_traceflow_request_result request_id st w =
      with_client (dynamic_client_for_request rest cluster f identity st) w
        (λ client su. result_reply su w (get_traceflow cluster client request_id w))

  abbrev pub deletion_reply : Store → Deletion × cluster.World → Replies
  deletion_reply st (Deletion.deleted, w) = accepted 200 [] none st w
  deletion_reply st (Deletion.not_there, w) =
      error_with 404 (some "Traceflow request not found") st w
  deletion_reply st (Deletion.not_deleted e, w) = refused_with (k8s_error identity e st) w

  unfoldable pub delete_traceflow_request : String → Store → cluster.World → Replies
  unfolding dynamic_client_for_request delete_request k8s_error
  delete_traceflow_request request_id st w =
      with_client (dynamic_client_for_request rest cluster f identity st) w
        (λ client su. deletion_reply su (delete_request cluster client request_id w))

-- The rate of POST, in requests for an hour, and its burst.
unfoldable pub traceflow_limit : ℤ → Option (ℕ × ℕ)
traceflow_limit (negsuc n) = none
traceflow_limit (pos n) = some (n, if ltb 0 n then 10 else 0)

-- GET without a suffix: where it is sent on to.
unfoldable pub redirect_to_status : String → ℕ × String
redirect_to_status path = (303, str_append path "/status")
