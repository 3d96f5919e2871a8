-- ===== src/Flows/Subscriber.antt =====
-- The subscriber over the FlowAggregator's stream (pkg/handlers/flowstream/grpc.go: Subscribe,
-- filterToGetFlowsRequest). The bound of the channel of events plays no part: a full one makes the
-- subscriber wait.
use antrea_ui.Base.{
  ℕ, String, Bool, true, false, ◌||◌, Option, none, some, List, [], ◌∷◌, map, ltb, if◌then◌else◌,
  Bytes,
}
use antrea_ui.Base.Int.{ℤ, pos}
use antrea_ui.Flows.Types.{Flow, FlowStreamEvent}
use antrea_ui.Flows.Protocol.{PbFlow}
use antrea_ui.Flows.Conversion.{FlowFormats, proto_flow_to_api}
use antrea_ui.Flows.Filter.{FlowFilterDirection, FlowStreamFilter}

pub record PbFilter : Type 0 where
  pub namespaces : List Bytes
  pub pod_names : List Bytes
  pub pod_label_selector : Bytes
  pub service_names : List Bytes
  pub flow_types : List ℤ
  pub ips : List Bytes
  pub direction : ℤ

pub record GetFlowsRequest : Type 0 where
  pub filters : List PbFilter
  pub follow : Bool

abbrev pub filter_direction_to_proto : FlowFilterDirection → ℤ
filter_direction_to_proto FlowFilterDirection.both = pos 0
filter_direction_to_proto FlowFilterDirection.from = pos 1
filter_direction_to_proto FlowFilterDirection.to = pos 2

unfoldable pub filter_to_get_flows_request : FlowStreamFilter → GetFlowsRequest
filter_to_get_flows_request filter = record {
  filters =
      record {
        namespaces = filter.namespaces;
        pod_names = filter.pod_names;
        pod_label_selector = filter.pod_label_selector;
        service_names = filter.service_names;
        flow_types = filter.flow_types;
        ips = filter.ips;
        direction = filter_direction_to_proto filter.direction;
      }
      ∷ [];
  follow = true;
}

pub record GetFlowsResponse : Type 0 where
  pub flows : List PbFlow
  pub dropped_count : ℕ

-- One round of the loop: a response, whose event is taken from the channel if it has one; a response
-- whose event is not taken before the context ends; the end of the stream; and an error of `Recv`,
-- after the context has ended or not.
pub data Recv : Type 0 where
  response undelivered : GetFlowsResponse → Recv
  end_of_stream cancelled : Recv
  broken : String → Recv

-- How the goroutine ends: without an error, or with one in the channel of errors.
pub data Ending : Type 0 where
  quiet : Ending
  with_error : String → Ending

-- What is known of a subscription: the events sent, in order, and its end, if it has come.
pub record Delivery : Type 0 where
  pub events : List FlowStreamEvent
  pub ending : Option Ending

abbrev pub send : FlowStreamEvent → Delivery → Delivery
send e d = record d { events = e ∷ d.events }

abbrev pub stops : Ending → Delivery
stops e = record { events = []; ending = some e }

abbrev pub next_last : ℕ → GetFlowsResponse → ℕ
next_last last resp = if ltb last resp.dropped_count then resp.dropped_count else last

abbrev pub has_flows : List Flow → Bool
has_flows [] = false
has_flows (x ∷ xs) = true

abbrev pub worth_sending : FlowStreamEvent → Bool
worth_sending e = ltb 0 e.dropped_count || has_flows e.flows

module _ (f : FlowFormats) where
  -- `last` is the dropped count forwarded so far.
  unfoldable pub event_of : ℕ → GetFlowsResponse → FlowStreamEvent
  unfolding proto_flow_to_api
  event_of last resp = record {
    flows = map (proto_flow_to_api f) resp.flows;
    dropped_count = if ltb last resp.dropped_count then resp.dropped_count else 0;
  }

  -- The loop on what has happened so far.
  unfoldable pub receive : ℕ → List Recv → Delivery
  unfolding event_of
  receive last [] = record { events = []; ending = none }
  receive last (end_of_stream ∷ later) = stops quiet
  receive last (cancelled ∷ later) = stops quiet
  receive last (broken e ∷ later) = stops (with_error e)
  receive last (response resp ∷ later) =
      let rest = receive (next_last last resp) later in
      let e = event_of last resp in if worth_sending e then send e rest else rest
  receive last (undelivered resp ∷ later) =
      let rest = receive (next_last last resp) later in
      if worth_sending (event_of last resp) then stops quiet else rest

  -- `refused` is the error of the call of GetFlows.
  unfoldable pub subscribe : Option String → List Recv → Delivery
  unfolding receive
  subscribe (some refused) rounds = stops (with_error refused)
  subscribe none rounds = receive 0 rounds
