-- ===== src/Flows/Tests.antt =====
-- A stream of two flows, an aggregator that drops some, and a logout while it is open.
use antrea_ui.Base.{
  String, ◌≡◌, refl, sym, true, false, none, some, List, [], ◌∷◌, ◌++◌, map, lookup, delete, insert,
  codes,
}
use antrea_ui.Base.Int.{pos}
use antrea_ui.Session.Types.{Mode}
use antrea_ui.Session.Scenarios.{two_users, provider, late}
use antrea_ui.Session.Store.{per_user_cap_key, create, delete_session, peek}
use antrea_ui.Authn.Types.{RequestAuth}
use antrea_ui.Flows.Types.{Flow, FlowStreamEvent}
use antrea_ui.Flows.Protocol.{PbFlow}
use antrea_ui.Flows.Conversion.{FlowFormats, proto_flow_to_api}
use antrea_ui.Flows.Filter.{split_trimmed, parse_flow_type}
use antrea_ui.Flows.Subscriber.{broken, response, Recv, subscribe}
use antrea_ui.Flows.Laws.Receiving.{IsFaithful, subscribe-IsFaithful, pb_flows, reached}
use antrea_ui.Flows.Laws.Streaming.{shown}
use antrea_ui.Flows.Laws.Ending.{run_stream_prefix, run_stream-Ends}
use antrea_ui.Flows.Stream.{Choice, Piece, StreamState, run_stream, opened_stream}
use antrea_ui.Session.Expiry.{set_defaults}
use antrea_ui.Session.Memory.{session_zero}
use antrea_ui.Credentials.Tokens.{trim_right, trim_left}

split_list : split_trimmed (codes " a ,, b") ≡ codes "a" ∷ codes "b" ∷ []
unfolding split_trimmed trim_left trim_right
split_list = refl

parse_mixed_case : parse_flow_type (codes "Intra-Node") ≡ some (pos 1)
unfolding parse_flow_type
parse_mixed_case = refl

abbrev flow_formats : FlowFormats
flow_formats = record {
  rfc3339_nano = λ t. "2023-01-01T00:00:00Z";
  addr_from_slice = λ b. some "10.0.0.1";
  hex = λ b. "00";
}

abbrev pb_flow : String → PbFlow
pb_flow id = record {
  id = id;
  end_reason = pos 1;
  start_ts = some (pos 0, pos 0);
  end_ts = none;
  ip = none;
  transport = none;
  k8s = none;
  stats = none;
  reverse_stats = none;
  aggregation = none;
}

abbrev rounds : List Recv
rounds =
    response (record { flows = pb_flow "f1" ∷ []; dropped_count = 0 })
    ∷ response (record { flows = []; dropped_count = 0 })
    ∷ response (record { flows = pb_flow "f2" ∷ []; dropped_count = 5 })
    ∷ broken "unavailable"
    ∷ []

abbrev first_event : FlowStreamEvent
first_event = record {
  flows = proto_flow_to_api flow_formats (pb_flow "f1") ∷ [];
  dropped_count = 0;
}

abbrev second_event : FlowStreamEvent
second_event = record {
  flows = proto_flow_to_api flow_formats (pb_flow "f2") ∷ [];
  dropped_count = 5;
}

subscribe-IsFaithful_example : IsFaithful flow_formats 0 rounds (subscribe flow_formats none rounds)
subscribe-IsFaithful_example = subscribe-IsFaithful flow_formats rounds

two_events : (subscribe flow_formats none rounds).events ≡ first_event ∷ second_event ∷ []
unfolding subscribe
two_events = refl

abbrev alice_auth : RequestAuth
alice_auth = record {
  mode = Mode.oidc;
  username = "alice";
  session = some 0;
  ephemeral_credential = none;
}

abbrev opening : List Choice
opening = Choice.event first_event ∷ Choice.tick 20 late true ∷ []

run_stream_prefix_example :
    (rest : List Flow) × (shown
          (run_stream provider (some alice_auth) opening (opened_stream two_users)).body
        ++ rest
      ≡ map (proto_flow_to_api flow_formats) (pb_flows (reached flow_formats 0 rounds)))
run_stream_prefix_example =
    run_stream_prefix provider (some alice_auth) flow_formats rounds opening (second_event ∷ [])
      two_users (sym two_events)

-- Alice logs out in another tab.
abbrev logout_elsewhere : List Choice
logout_elsewhere = Choice.meanwhile (delete_session "s1" two_users) ∷ Choice.event first_event ∷ []

abbrev open_alice : StreamState
open_alice = opened_stream two_users

run_stream-Ends_example :
    ((run_stream provider
        (some alice_auth)
        (logout_elsewhere ++ Choice.tick 30 late true ∷ Choice.event second_event ∷ [])
        open_alice).is_open
      ≡ false)
    × ((run_stream provider
          (some alice_auth)
          (logout_elsewhere ++ Choice.tick 30 late true ∷ Choice.event second_event ∷ [])
          open_alice).body
        ≡ (run_stream provider (some alice_auth) logout_elsewhere open_alice).body)
unfolding run_stream peek create set_defaults lookup insert delete per_user_cap_key delete_session
    session_zero
run_stream-Ends_example =
    run_stream-Ends provider alice_auth 0 refl logout_elsewhere (Choice.event second_event ∷ []) 30
      late true open_alice refl

-- The goroutine of the subscriber puts its error in one channel and closes the other: the select may
-- then take either.
abbrev told : StreamState
told = run_stream provider (some alice_auth) (Choice.stream_error "unavailable" ∷ []) open_alice

abbrev untold : StreamState
untold = run_stream provider (some alice_auth) (Choice.events_closed ∷ []) open_alice

error_shown : told.body ≡ Piece.comment "stream-open" ∷ Piece.error "unavailable" ∷ []
unfolding run_stream
error_shown = refl

error_lost : (untold.is_open ≡ false) × (untold.body ≡ Piece.comment "stream-open" ∷ [])
unfolding run_stream
error_lost = (refl, refl)
