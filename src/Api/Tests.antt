-- ===== src/Api/Tests.antt =====
-- The routes of the API on the request of a browser that has no session, and of one that has.
use antrea_ui.Base.{ℕ, ◌≡◌, refl, Bool, true, false, Option, none, [], ◌∷◌, All}
use antrea_ui.Base.Int.{pos}
use antrea_ui.Authn.Types.{RequestAuth, Request}
use antrea_ui.Authn.Resolve.{AuthState}
use antrea_ui.Authn.Tests.{browser, deployed, go_net, table_cache, cluster, moment, serving}
use antrea_ui.Api.Routes.{ApiEndpoint, ApiHandler, ApiServer, Ran, server_routes, run_handlers}
use antrea_ui.Api.Protection.{IsProtected, server_routes-AreProtected}

abbrev everything : ApiServer
everything = record {
  max_traceflows_per_hour = pos 100;
  has_password_store = true;
  has_flow_stream = false;
}

abbrev never : ℕ × ℕ → Bool
never limit = false

-- An endpoint that answers with its name and with the identity that it was given.
abbrev echo :
    ApiEndpoint
    → Option RequestAuth
    → AuthState go_net table_cache cluster
    → ApiEndpoint × Option RequestAuth
echo ep ra st = (ep, ra)

abbrev stranger : Request
stranger = record browser { cookies = [] }

healthy :
    run_handlers go_net table_cache cluster deployed stranger moment never echo
      (ApiHandler.serves ApiEndpoint.healthz ∷ [])
      none
      serving
    ≡ Ran.done (ApiEndpoint.healthz, none)
unfolding run_handlers
healthy = refl

server_routes-AreProtected_example :
    All
      (λ r.
        IsProtected go_net table_cache cluster deployed browser moment never echo
          everything.max_traceflows_per_hour r.handlers)
      (server_routes everything)
server_routes-AreProtected_example =
    server_routes-AreProtected go_net table_cache cluster deployed browser moment never echo
      everything
