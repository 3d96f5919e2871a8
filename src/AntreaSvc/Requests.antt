-- ===== src/AntreaSvc/Requests.antt =====
-- pkg/handlers/antreasvc/handler.go: a request to the Antrea Service as the user behind it. What
-- other requests do to the session store while the answer is awaited is an argument.
use Prim.Native.String.{◌++◌ as str_append}
use antrea_ui.Base.{ℕ, String, Bool, Option, none, some, str_eq, ◌==◌, if◌then◌else◌}
use antrea_ui.Session.Types.{Store}
use antrea_ui.Authn.Types.{RequestAuth}
use antrea_ui.Authn.Identity.{request_transport, invalidate}
use antrea_ui.AntreaSvc.Factory.{ClientFactory, Rest, factory_transport_for}
use antrea_ui.AntreaSvc.Provider.{FactoryProvider, get_client_factory, transport_key}

-- The host is empty while no port is forwarded to the service.
pub record ServiceHandler (rest : Rest) : Type 0 where
  pub host : String
  pub client_provider : FactoryProvider rest

-- Outside of a pod the host comes from the port forwarder and the configuration is the given one;
-- in a pod the configuration is made of the pod's token.
unfoldable pub new_requests_handler :
    (rest : Rest) → Bool → rest.Conf → String → ServiceHandler rest
new_requests_handler rest in_pod config antrea_namespace =
    let address = str_append "antrea." (str_append antrea_namespace ".svc") in
    record {
      host = if in_pod then address else "";
      client_provider = record {
        config = if in_pod then none else some config;
        server_name = address;
        factory = none;
        generation = 0;
      };
    }

unfoldable pub set_host : {rest : Rest} → String → ServiceHandler rest → ServiceHandler rest
set_host host h = record h { host = host }

unfoldable pub get_host : {rest : Rest} → ServiceHandler rest → Option String
get_host h = if str_eq h.host "" then none else some h.host

pub record Response : Type 0 where
  pub status : ℕ
  pub body : String
  pub read_fails : Bool

-- The URL of a host and a path, whether a request of a method and a URL is well formed, and the
-- answer to it over a round tripper.
pub record HttpClient : Type 0 where
  pub url_string : String → String → String
  pub is_request : String → String → Bool
  pub send : ℕ → String → String → Option Response

pub data RequestError : Type 0 where
  host_not_ready client_not_ready not_authenticated : RequestError
  no_transport no_request no_response unreadable : RequestError

-- What Request returns: the body, the status and the error.
pub record Sent : Type 0 where
  pub body : String
  pub status : ℕ
  pub failure : Option RequestError

abbrev pub failed : RequestError → Store → Sent × Store
failed e st = (record { body = ""; status = 0; failure = some e }, st)

unfoldable pub received : RequestAuth → Option Response → Store → Sent × Store
unfolding invalidate
received ra none st = failed RequestError.no_response st
received ra (some r) st = (
  record {
    body = r.body;
    status = r.status;
    failure = if r.read_fails then some RequestError.unreadable else none;
  },
  if r.status == 401 then invalidate ra st else st,
)

unfoldable pub send_with :
    HttpClient → (Store → Store) → RequestAuth → String → String → Option ℕ → Store → Sent × Store
unfolding received
send_with http meanwhile ra method url none st = failed RequestError.no_transport st
send_with http meanwhile ra method url (some rt) st =
    if http.is_request method url
    then received ra (http.send rt method url) (meanwhile st)
    else failed RequestError.no_request st

-- The three conditions, in the order in which they are tested.
abbrev pub request_as :
    (rest : Rest)
    → HttpClient
    → (Store → Store)
    → Option String
    → Option (ClientFactory rest × ℕ)
    → Option RequestAuth
    → String
    → String
    → Store
    → Sent × Store
request_as rest http meanwhile none client identity method path st =
    failed RequestError.host_not_ready st
request_as rest http meanwhile (some host) none identity method path st =
    failed RequestError.client_not_ready st
request_as rest http meanwhile (some host) (some client) none method path st =
    failed RequestError.not_authenticated st
request_as rest http meanwhile (some host) (some (f, generation)) (some ra) method path st =
    let (rt, heap) =
      request_transport ra (transport_key generation) (factory_transport_for rest f) st.heap in
    send_with http meanwhile ra method (http.url_string host path) rt (record st { heap = heap })

unfoldable pub request :
    (rest : Rest)
    → HttpClient
    → (Store → Store)
    → ServiceHandler rest
    → Option RequestAuth
    → String
    → String
    → Store
    → Sent × Store
unfolding get_host get_client_factory transport_key factory_transport_for request_transport
    send_with
request rest http meanwhile handler identity method path st =
    request_as rest http meanwhile (get_host handler) (get_client_factory handler.client_provider)
      identity method path st
