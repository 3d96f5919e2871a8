-- ===== src/Traceflow/Clients.antt =====
-- The client that acts as the user of a request (pkg/k8s/factory.go: TransportForRequest,
-- DynamicClientForRequest; pkg/server/api/k8s_errors.go: dynamicClientFor).
use antrea_ui.Base.{ℕ, Option, none, some, ◌>>=◌}
use antrea_ui.Session.Types.{Store}
use antrea_ui.Authn.Types.{RequestAuth}
use antrea_ui.Authn.Identity.{request_transport}
use antrea_ui.AntreaSvc.Factory.{Rest, ClientFactory, factory_transport_for}
use antrea_ui.Traceflow.Handler.{Cluster}

unfoldable pub transport_for_request :
    (rest : Rest) → ClientFactory rest → Option RequestAuth → Store → Option ℕ × Store
unfolding request_transport factory_transport_for
transport_for_request rest f none st = (none, st)
transport_for_request rest f (some ra) st =
    let (rt, heap) = request_transport ra f.transport_key (factory_transport_for rest f) st.heap in
    (rt, record st { heap = heap })

unfoldable pub dynamic_client_for_request :
    (rest : Rest) (cluster : Cluster)
    → ClientFactory rest
    → Option RequestAuth
    → Store
    → Option cluster.Client × Store
unfolding transport_for_request
dynamic_client_for_request rest cluster f identity st =
    let (rt, su) = transport_for_request rest f identity st in (rt >>= cluster.connect, su)
