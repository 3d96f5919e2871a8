-- ===== src/Flows/Laws/Streaming.antt =====
-- A stream shows each flow once and in order, and does not outlive its session.
use mathlib.Core.List.{append_assoc, append-nil}
use antrea_ui.Base.{
  ◌≡◌, refl, sym, ap, ◌∙◌, inl, inr, Bool, true, false, Option, List, [], ◌∷◌, ◌++◌, ltb,
  if◌then◌else◌, Bool-cases, ℕ, String,
}
use antrea_ui.Session.Types.{Store}
use antrea_ui.Session.Get.{Refreshers, Readings}
use antrea_ui.Authn.Types.{RequestAuth}
use antrea_ui.Flows.Types.{Flow, FlowStreamEvent}
use antrea_ui.Flows.Subscriber.{has_flows}
use antrea_ui.Flows.Laws.Receiving.{all_flows}
use antrea_ui.Flows.Stream.{
  Piece, Choice, StreamState, pieces_of, session_alive, ticked, take_choice, stream_step,
  run_stream,
}

-- The flows in a body.
abbrev pub shown : List Piece → List Flow
shown [] = []
shown (Piece.flow fs ∷ ps) = fs ++ shown ps
shown (_ ∷ ps) = shown ps

-- The events that the select has taken from the channel.
abbrev pub events_of : List Choice → List FlowStreamEvent
events_of [] = []
events_of (Choice.event e ∷ cs) = e ∷ events_of cs
events_of (_ ∷ cs) = events_of cs

shown-append : (ps qs : List Piece) → shown (ps ++ qs) ≡ shown ps ++ shown qs
shown-append [] qs = refl
shown-append (Piece.comment t ∷ ps) qs = shown-append ps qs
shown-append (Piece.dropped n ∷ ps) qs = shown-append ps qs
shown-append (Piece.error t ∷ ps) qs = shown-append ps qs
shown-append (Piece.flow fs ∷ ps) qs =
    ap (λ r. fs ++ r) (shown-append ps qs) ∙ sym (append_assoc fs (shown ps) (shown qs))

no_flows_shown : (fs : List Flow) → shown (if has_flows fs then Piece.flow fs ∷ [] else []) ≡ fs
no_flows_shown [] = refl
no_flows_shown (x ∷ xs) = append-nil (x ∷ xs)

shown-pieces_of : (e : FlowStreamEvent) → shown (pieces_of e) ≡ e.flows
unfolding pieces_of
shown-pieces_of e = elim (Bool-cases (ltb 0 e.dropped_count)) [
  | inl more ↦ rw more (no_flows_shown e.flows)
  | inr none_of ↦ rw none_of (no_flows_shown e.flows)
]

module _ (rs : Refreshers) (identity : Option RequestAuth) where
  pub closed_step :
      (c : Choice) (s : StreamState) → s.is_open ≡ false → stream_step rs identity c s ≡ s
  unfolding stream_step
  closed_step c s e = ap (λ b. if b then take_choice rs identity c s else s) e

  pub open_step :
      (c : Choice) (s : StreamState)
      → s.is_open ≡ true
      → stream_step rs identity c s ≡ take_choice rs identity c s
  unfolding stream_step
  open_step c s e = ap (λ b. if b then take_choice rs identity c s else s) e

  pub closed_stays :
      (cs : List Choice) (s : StreamState) → s.is_open ≡ false → run_stream rs identity cs s ≡ s
  unfolding run_stream
  closed_stays [] s e = refl
  closed_stays (c ∷ cs) s e =
      ap (run_stream rs identity cs) (closed_step c s e) ∙ closed_stays cs s e

  pub run_stream-append :
      (cs ds : List Choice) (s : StreamState)
      → run_stream rs identity (cs ++ ds) s
        ≡ run_stream rs identity ds (run_stream rs identity cs s)
  unfolding run_stream
  run_stream-append [] ds s = refl
  run_stream-append (c ∷ cs) ds s = run_stream-append cs ds (stream_step rs identity c s)

  shown-ticked :
      (written : Bool) (s : StreamState) (r : Bool × Store)
      → shown (ticked written s r).body ≡ shown s.body
  shown-ticked written s (false, st) = refl
  shown-ticked true s (true, st) = shown-append s.body _ ∙ append-nil (shown s.body)
  shown-ticked false s (true, st) = refl

  -- What the stream has shown is what it had shown before, and the flows of the first events.
  pub record Shows (s t : StreamState) (es : List FlowStreamEvent) : Type 0 where
    pub taken : List FlowStreamEvent
    pub left : List FlowStreamEvent
    pub first : es ≡ taken ++ left
    pub shows : shown t.body ≡ shown s.body ++ all_flows taken

  after_silence :
      (s u t : StreamState) (es : List FlowStreamEvent)
      → shown u.body ≡ shown s.body
      → Shows u t es
      → Shows s t es
  after_silence s u t es e w = record {
    taken = w.taken;
    left = w.left;
    first = w.first;
    shows = w.shows ∙ ap (λ fs. fs ++ all_flows w.taken) e;
  }

  after_event :
      (s u t : StreamState) (e : FlowStreamEvent) (es : List FlowStreamEvent)
      → shown u.body ≡ shown s.body ++ e.flows
      → Shows u t es
      → Shows s t (e ∷ es)
  after_event s u t e es eq w = record {
    taken = e ∷ w.taken;
    left = w.left;
    first = ap (λ xs. e ∷ xs) w.first;
    shows =
        w.shows
        ∙ ap (λ fs. fs ++ all_flows w.taken) eq
        ∙ append_assoc (shown s.body) e.flows (all_flows w.taken);
  }

  -- A choice that is no event shows no flow.
  abbrev IsSilent : Choice → Type 0
  IsSilent c = (s : StreamState) → shown (take_choice rs identity c s).body ≡ shown s.body

  stream_error-IsSilent : (message : String) → IsSilent (Choice.stream_error message)
  unfolding take_choice
  stream_error-IsSilent message s = elim (Bool-cases s.errors_open) [
    | inl e ↦ rw e (shown-append s.body _ ∙ append-nil (shown s.body))
    | inr e ↦ rw e refl
  ]

  tick-IsSilent : (now : ℕ) (at : Readings) (written : Bool) → IsSilent (Choice.tick now at written)
  unfolding take_choice
  tick-IsSilent now at written s = shown-ticked written s (session_alive rs identity now at s.store)

  step_silent :
      (c : Choice) (s : StreamState)
      → IsSilent c
      → shown (stream_step rs identity c s).body ≡ shown s.body
  step_silent c s silent = elim (Bool-cases s.is_open) [
    | inl e ↦ ap (λ (u : StreamState). shown u.body) (open_step c s e) ∙ silent s
    | inr e ↦ ap (λ (u : StreamState). shown u.body) (closed_step c s e)
  ]

  silent_first :
      (c : Choice) (s t : StreamState) (es : List FlowStreamEvent)
      → IsSilent c
      → Shows (stream_step rs identity c s) t es
      → Shows s t es
  silent_first c s t es silent = after_silence s _ t es (step_silent c s silent)

  shown-event :
      (e : FlowStreamEvent) (s : StreamState)
      → shown (take_choice rs identity (Choice.event e) s).body ≡ shown s.body ++ e.flows
  unfolding take_choice
  shown-event e s =
      shown-append s.body (pieces_of e) ∙ ap (λ fs. shown s.body ++ fs) (shown-pieces_of e)

  pub run_stream-Shows :
      (cs : List Choice) (s : StreamState) → Shows s (run_stream rs identity cs s) (events_of cs)
  unfolding run_stream take_choice
  run_stream-Shows [] s = record {
    taken = [];
    left = [];
    first = refl;
    shows = sym (append-nil (shown s.body));
  }
  run_stream-Shows (Choice.event e ∷ cs) s = elim (Bool-cases s.is_open) [
    | inl o ↦
        after_event s _ _ e (events_of cs)
          (ap (λ (u : StreamState). shown u.body) (open_step (Choice.event e) s o)
            ∙ shown-event e s)
          (run_stream-Shows cs (stream_step rs identity (Choice.event e) s))
    | inr o ↦ record {
      taken = [];
      left = e ∷ events_of cs;
      first = refl;
      shows =
          ap (λ (u : StreamState). shown u.body) (closed_stays (Choice.event e ∷ cs) s o)
          ∙ sym (append-nil (shown s.body));
    }
  ]
  run_stream-Shows (Choice.context_done ∷ cs) s =
      silent_first Choice.context_done s _ _ (λ u. refl) (run_stream-Shows cs _)
  run_stream-Shows (Choice.tick now at w ∷ cs) s =
      silent_first (Choice.tick now at w) s _ _ (tick-IsSilent now at w) (run_stream-Shows cs _)
  run_stream-Shows (Choice.events_closed ∷ cs) s =
      silent_first Choice.events_closed s _ _ (λ u. refl) (run_stream-Shows cs _)
  run_stream-Shows (Choice.stream_error m ∷ cs) s =
      silent_first (Choice.stream_error m) s _ _ (stream_error-IsSilent m) (run_stream-Shows cs _)
  run_stream-Shows (Choice.errors_closed ∷ cs) s =
      silent_first Choice.errors_closed s _ _ (λ u. refl) (run_stream-Shows cs _)
  run_stream-Shows (Choice.meanwhile st ∷ cs) s =
      silent_first (Choice.meanwhile st) s _ _ (λ u. refl) (run_stream-Shows cs _)
