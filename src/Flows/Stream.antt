-- ===== src/Flows/Stream.antt =====
-- StreamFlows (pkg/handlers/flowstream/handler.go): the handler of one stream, as the steps of its
-- select. What other requests do to the session store meanwhile is a step of its own.
use antrea_ui.Base.{
  ℕ, String, Bool, true, false, Option, none, some, List, [], ◌∷◌, ◌++◌, ltb, if◌then◌else◌,
}
use antrea_ui.Session.Types.{Store}
use antrea_ui.Session.Get.{Refreshers, Readings}
use antrea_ui.Authn.Types.{RequestAuth}
use antrea_ui.Authn.Identity.{keep_alive}
use antrea_ui.Flows.Types.{Flow, FlowStreamEvent}
use antrea_ui.Flows.Subscriber.{has_flows}
use antrea_ui.Flows.Filter.{FlowStreamFilter}

-- A piece of the response's body.
pub data Piece : Type 0 where
  comment : String → Piece
  dropped : ℕ → Piece
  flow : List Flow → Piece
  error : String → Piece

-- The case that the select takes: the end of the context; a tick, with the clock, the readings of the
-- lookup and whether the comment can be written; an event, or the end of the events; an error, or the
-- end of the errors. `meanwhile` is what happens to the store between two of them.
pub data Choice : Type 0 where
  context_done : Choice
  tick : ℕ → Readings → Bool → Choice
  event : FlowStreamEvent → Choice
  events_closed : Choice
  stream_error : String → Choice
  errors_closed : Choice
  meanwhile : Store → Choice

pub record StreamState : Type 0 where
  pub store : Store
  pub is_open : Bool
  pub errors_open : Bool
  pub body : List Piece

abbrev pub write : List Piece → StreamState → StreamState
write ps s = record s { body = s.body ++ ps }

abbrev pub close : StreamState → StreamState
close s = record s { is_open = false }

unfoldable pub pieces_of : FlowStreamEvent → List Piece
pieces_of e =
    (if ltb 0 e.dropped_count then dropped e.dropped_count ∷ [] else [])
    ++ (if has_flows e.flows then flow e.flows ∷ [] else [])

-- `identity` is what the authentication middleware has left in the context.
unfoldable pub session_alive : Refreshers → Option RequestAuth → ℕ → Readings → Store → Bool × Store
unfolding keep_alive
session_alive rs none now at st = (false, st)
session_alive rs (some ra) now at st = keep_alive rs ra now at st

abbrev pub ticked : Bool → StreamState → Bool × Store → StreamState
ticked written s (false, st) = close (record s { store = st })
ticked true s (true, st) = write (comment "keepalive" ∷ []) (record s { store = st })
ticked false s (true, st) = close (record s { store = st })

module _ (rs : Refreshers) (identity : Option RequestAuth) where
  unfoldable pub take_choice : Choice → StreamState → StreamState
  unfolding session_alive pieces_of
  take_choice context_done s = close s
  take_choice (tick now at written) s = ticked written s (session_alive rs identity now at s.store)
  take_choice (event e) s = write (pieces_of e) s
  take_choice events_closed s = close s
  take_choice (stream_error message) s =
      if s.errors_open then close (write (error message ∷ []) s) else s
  take_choice errors_closed s = record s { errors_open = false }
  take_choice (meanwhile st) s = record s { store = st }

  -- A stream that has ended takes no step.
  unfoldable pub stream_step : Choice → StreamState → StreamState
  unfolding take_choice
  stream_step c s = if s.is_open then take_choice c s else s

  unfoldable pub run_stream : List Choice → StreamState → StreamState
  unfolding stream_step
  run_stream [] s = s
  run_stream (c ∷ cs) s = run_stream cs (stream_step c s)

abbrev pub opened_stream : Store → StreamState
opened_stream st = record {
  store = st;
  is_open = true;
  errors_open = true;
  body = comment "stream-open" ∷ [];
}

-- The whole request: 400 for a filter that does not parse (`none`), or the stream.
pub data StreamReply : Type 0 where
  bad_filter : StreamReply
  streamed : StreamState → StreamReply

unfoldable pub stream_flows :
    Refreshers → Option RequestAuth → Option FlowStreamFilter → List Choice → Store → StreamReply
unfolding run_stream
stream_flows rs identity none cs st = bad_filter
stream_flows rs identity (some filter) cs st =
    streamed (run_stream rs identity cs (opened_stream st))
