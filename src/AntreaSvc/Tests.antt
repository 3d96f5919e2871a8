-- ===== src/AntreaSvc/Tests.antt =====
-- A CA bundle that changes, and requests of a user to the Antrea Service.
use antrea_ui.Base.{ℕ, ◌+◌, ◌≡◌, refl, none, some, true, false, List, [], ◌∷◌, lookup, insert}
use antrea_ui.Session.Types.{Mode, Heap, Store}
use antrea_ui.Session.Store.{create, per_user_cap_key}
use antrea_ui.Session.Expiry.{set_defaults}
use antrea_ui.Session.Transports.{transport_for, cut_slash}
use antrea_ui.Session.Scenarios.{two_users}
use antrea_ui.Authn.Types.{RequestAuth}
use antrea_ui.AntreaSvc.Factory.{Rest, factory_transport_for}
use antrea_ui.AntreaSvc.Provider.{FactoryProvider, transport_key, update_client_factory}
use antrea_ui.AntreaSvc.Requests.{ServiceHandler, HttpClient, new_requests_handler}
use antrea_ui.AntreaSvc.FeatureGates.{GatesReply, reply_code, get_feature_gates}
use antrea_ui.AntreaSvc.Rotation.{IsFollowed, update-IsFollowed}
use antrea_ui.AntreaSvc.Answering.{GatesOutcome, get_feature_gates-GatesOutcome}

abbrev pub client_go : Rest
client_go = record {
  Conf = List ℕ;
  anonymous_client_config = λ c. c;
  with_client_cert = λ cert key c. c;
  with_server = λ ca name c. ca;
  round_tripper = λ c. some 100;
  bearer_auth = λ bytes base. base + 1;
  impersonating = λ name base. base + 2;
  close_idle_connections = λ rt. rt;
}

abbrev in_pod : ServiceHandler client_go
in_pod = new_requests_handler client_go true [] "kube-system"

abbrev first_bundle : FactoryProvider client_go
first_bundle = (update_client_factory client_go (some []) (some (1 ∷ [])) in_pod.client_provider).1

abbrev ready : ServiceHandler client_go
ready = record in_pod { client_provider = first_bundle }

abbrev pub bobs_request : RequestAuth
bobs_request = record {
  mode = Mode.sa_token;
  username = "bob";
  session = some 1;
  ephemeral_credential = none;
}

abbrev rejecting : HttpClient
rejecting = record {
  url_string = λ host path. path;
  is_request = λ method url. true;
  send = λ rt method url. some (record { status = 401; body = ""; read_fails = false });
}

abbrev unchanged : Store → Store
unchanged st = st

abbrev refused_bob : GatesReply
refused_bob =
    get_feature_gates client_go rejecting (λ b. true) unchanged ready (some bobs_request) two_users

bob_is_out : reply_code refused_bob ≡ 401
unfolding get_feature_gates new_requests_handler update_client_factory create lookup insert
    per_user_cap_key set_defaults
bob_is_out = refl

get_feature_gates-GatesOutcome_example :
    GatesOutcome client_go rejecting
      (λ b. true)
      unchanged
      ready
      (some bobs_request)
      two_users
      refused_bob
get_feature_gates-GatesOutcome_example =
    get_feature_gates-GatesOutcome client_go rejecting (λ b. true) unchanged ready
      (some bobs_request) two_users

-- Bob's session holds a transport over the first bundle.
abbrev before_rotation : Heap
before_rotation =
    (transport_for (transport_key 1)
      (factory_transport_for client_go (record {
        config = 1 ∷ [];
        base_transport = 100;
        sa_transport = 100;
        transport_key = transport_key 1;
      }))
      1 two_users.heap).1

update-IsFollowed_example :
    IsFollowed client_go
      (some [])
      (2 ∷ [])
      first_bundle
      (update_client_factory client_go (some []) (some (2 ∷ [])) first_bundle).1
      1
      before_rotation
unfolding new_requests_handler update_client_factory create lookup insert transport_for cut_slash
    per_user_cap_key set_defaults factory_transport_for
update-IsFollowed_example =
    update-IsFollowed client_go (some []) (2 ∷ []) first_bundle 1 before_rotation refl refl
