-- ===== src/Flows/Laws/Receiving.antt =====
-- What the subscriber sends of what it receives.
use mathlib.Core.List.{map-append}
use antrea_ui.Base.{
  ℕ, ◌<◌, ◌≡◌, true, List, [], ◌∷◌, ◌++◌, map, ltb, if◌then◌else◌, All, refl, inl, inr, Bool-cases,
  sym, ap, ◌∙◌, Bool, false, arith, subst, none,
}
use antrea_ui.Flows.Types.{Flow, FlowStreamEvent}
use antrea_ui.Flows.Protocol.{PbFlow}
use antrea_ui.Flows.Conversion.{FlowFormats, proto_flow_to_api}
use antrea_ui.Flows.Subscriber.{
  quiet, stops, has_flows, send, undelivered, response, GetFlowsResponse, Recv, Delivery, event_of,
  next_last, worth_sending, receive, subscribe,
}

abbrev pub all_flows : List FlowStreamEvent → List Flow
all_flows [] = []
all_flows (e ∷ es) = e.flows ++ all_flows es

abbrev pub pb_flows : List GetFlowsResponse → List PbFlow
pb_flows [] = []
pb_flows (r ∷ rs) = r.flows ++ pb_flows rs

-- The dropped counts that are sent.
abbrev pub counts : List FlowStreamEvent → List ℕ
counts [] = []
counts (e ∷ es) = if ltb 0 e.dropped_count then e.dropped_count ∷ counts es else counts es

-- Each number is greater than the one before it.
abbrev pub Rising : ℕ → List ℕ → Type 0
Rising n [] = Unit
Rising n (m ∷ ms) = n < m × Rising m ms

abbrev pub last_of : ℕ → List ℕ → ℕ
last_of n [] = n
last_of n (m ∷ ms) = last_of m ms

abbrev pub highest : ℕ → List GetFlowsResponse → ℕ
highest n [] = n
highest n (r ∷ rs) = highest (next_last n r) rs

module _ (f : FlowFormats) where
  -- The responses before the end.
  abbrev pub reached : ℕ → List Recv → List GetFlowsResponse
  reached last [] = []
  reached last (response r ∷ later) = r ∷ reached (next_last last r) later
  reached last (undelivered r ∷ later) =
      let rest = reached (next_last last r) later in
      if worth_sending (event_of f last r) then [] else rest
  reached last (_ ∷ later) = []

  pub record IsFaithful (last : ℕ) (rounds : List Recv) (d : Delivery) : Type 0 where
    pub flows : all_flows d.events ≡ map (proto_flow_to_api f) (pb_flows (reached last rounds))
    pub rising : Rising last (counts d.events)
    pub latest : last_of last (counts d.events) ≡ highest last (reached last rounds)
    pub worthwhile : All (λ e. worth_sending e ≡ true) d.events

  no_flows : (xs : List PbFlow) → has_flows (map (proto_flow_to_api f) xs) ≡ false → xs ≡ []
  no_flows [] e = refl
  no_flows (x ∷ xs) e = absurd (ground arith)

  event_of-Rising :
      (last : ℕ) (r : GetFlowsResponse) (es : List FlowStreamEvent)
      → Rising (next_last last r) (counts es)
      → Rising last (counts (event_of f last r ∷ es))
  unfolding event_of
  event_of-Rising last r es i = elim (Bool-cases (ltb last r.dropped_count)) [
    | inl more ↦
        let positive : ltb 0 r.dropped_count ≡ true = ground arith in
        rw (more, positive) (ground arith, rw more at i)
    | inr same ↦ rw same (rw same at i)
  ]

  last_of-event_of :
      (last : ℕ) (r : GetFlowsResponse) (es : List FlowStreamEvent)
      → last_of last (counts (event_of f last r ∷ es)) ≡ last_of (next_last last r) (counts es)
  unfolding event_of
  last_of-event_of last r es = elim (Bool-cases (ltb last r.dropped_count)) [
    | inl more ↦
        let positive : ltb 0 r.dropped_count ≡ true = ground arith in rw (more, positive) refl
    | inr same ↦ rw same refl
  ]

  -- A response that is not worth an event changes nothing.
  idle :
      (last : ℕ) (r : GetFlowsResponse)
      → worth_sending (event_of f last r) ≡ false
      → (r.flows ≡ []) × (next_last last r ≡ last)
  unfolding event_of
  idle last r e = (no_flows r.flows (ground arith), ground arith)

  sent-IsFaithful :
      (last : ℕ) (r : GetFlowsResponse) (later : List Recv) (d : Delivery) (b : Bool)
      → worth_sending (event_of f last r) ≡ b
      → IsFaithful (next_last last r) later d
      → IsFaithful last (response r ∷ later) (if b then send (event_of f last r) d else d)
  unfolding event_of
  sent-IsFaithful last r later d true worth i = record {
    flows =
        ap (λ fs. map (proto_flow_to_api f) r.flows ++ fs) i.flows
        ∙ sym (
            map-append (proto_flow_to_api f) r.flows (pb_flows (reached (next_last last r) later)));
    rising = event_of-Rising last r d.events i.rising;
    latest = last_of-event_of last r d.events ∙ i.latest;
    worthwhile = (worth, i.worthwhile);
  }
  sent-IsFaithful last r later d false worth i =
      let (none_of, same) = idle last r worth in
      record {
        flows =
            i.flows
            ∙ ap
                (λ xs.
                  map (proto_flow_to_api f) (xs ++ pb_flows (reached (next_last last r) later)))
                (sym none_of);
        rising = rw same at i.rising;
        latest = ap (λ m. last_of m (counts d.events)) (sym same) ∙ i.latest;
        worthwhile = i.worthwhile;
      }

  unsent-IsFaithful :
      (last : ℕ) (r : GetFlowsResponse) (later : List Recv) (d : Delivery) (b : Bool)
      → worth_sending (event_of f last r) ≡ b
      → IsFaithful (next_last last r) later d
      → IsFaithful last (undelivered r ∷ later) (if b then stops quiet else d)
  unsent-IsFaithful last r later d true worth i = record {
    flows = rw worth refl;
    rising = tt;
    latest = rw worth refl;
    worthwhile = tt;
  }
  unsent-IsFaithful last r later d false worth i =
      let (none_of, same) = idle last r worth in
      record {
        flows = rw worth i.flows;
        rising = rw same at i.rising;
        latest = rw worth (
            subst (λ m. last_of m (counts d.events) ≡ highest m (reached (next_last last r) later))
              same i.latest);
        worthwhile = i.worthwhile;
      }

  receive-IsFaithful :
      (last : ℕ) (rounds : List Recv) → IsFaithful last rounds (receive f last rounds)
  unfolding receive
  receive-IsFaithful last [] = record { flows = refl; rising = tt; latest = refl; worthwhile = tt }
  receive-IsFaithful last (Recv.end_of_stream ∷ later) = record {
    flows = refl;
    rising = tt;
    latest = refl;
    worthwhile = tt;
  }
  receive-IsFaithful last (Recv.cancelled ∷ later) = record {
    flows = refl;
    rising = tt;
    latest = refl;
    worthwhile = tt;
  }
  receive-IsFaithful last (Recv.broken e ∷ later) = record {
    flows = refl;
    rising = tt;
    latest = refl;
    worthwhile = tt;
  }
  receive-IsFaithful last (response r ∷ later) =
      sent-IsFaithful last r later _ _ refl (receive-IsFaithful (next_last last r) later)
  receive-IsFaithful last (undelivered r ∷ later) =
      unsent-IsFaithful last r later _ _ refl (receive-IsFaithful (next_last last r) later)

  -- Whatever the FlowAggregator answers, the events carry the flows of all its responses up to the
  -- end of the subscription, each once and in order, converted; their dropped counts rise, from
  -- nothing to the highest total that was received; and no event is empty.
  pub subscribe-IsFaithful : (rounds : List Recv) → IsFaithful 0 rounds (subscribe f none rounds)
  unfolding subscribe
  subscribe-IsFaithful rounds = receive-IsFaithful 0 rounds
