-- ===== src/Flows/Laws/Ending.antt =====
-- From the FlowAggregator to the client, and the end of a stream with its session.
use mathlib.Core.List.{append_assoc}
use antrea_ui.Base.{
  ℕ, String, ◌≡◌, refl, sym, ap, ◌∙◌, inl, inr, Bool, false, Option, none, some, List, [], ◌∷◌,
  ◌++◌, map, Bool-cases,
}
use antrea_ui.Session.Types.{Store, err, SessionError}
use antrea_ui.Session.Store.{peek}
use antrea_ui.Session.Get.{Refreshers, Readings, get}
use antrea_ui.Authn.Types.{RequestAuth}
use antrea_ui.Authn.Identity.{keep_alive}
use antrea_ui.Flows.Types.{Flow, FlowStreamEvent}
use antrea_ui.Flows.Conversion.{FlowFormats, proto_flow_to_api}
use antrea_ui.Flows.Subscriber.{Recv, subscribe}
use antrea_ui.Flows.Laws.Receiving.{all_flows, pb_flows, reached, subscribe-IsFaithful}
use antrea_ui.Flows.Laws.Streaming.{
  shown, events_of, run_stream-Shows, closed_stays, closed_step, open_step, run_stream-append,
}
use antrea_ui.Flows.Stream.{
  Choice, StreamState, session_alive, ticked, take_choice, stream_step, run_stream, opened_stream,
}

all_flows-append :
    (xs ys : List FlowStreamEvent) → all_flows (xs ++ ys) ≡ all_flows xs ++ all_flows ys
all_flows-append [] ys = refl
all_flows-append (x ∷ xs) ys =
    ap (λ fs. x.flows ++ fs) (all_flows-append xs ys)
    ∙ sym (append_assoc x.flows (all_flows xs) (all_flows ys))

module _ (rs : Refreshers) (identity : Option RequestAuth) where
  -- However the select takes its turns, and whatever happens to the session meanwhile: if the events
  -- that it takes are the first ones of the subscription, the flows in the response's body are the
  -- first ones that the FlowAggregator sent, each once and in order, converted.
  pub run_stream_prefix :
      (f : FlowFormats) (rounds : List Recv) (cs : List Choice) (unread : List FlowStreamEvent)
      (st : Store)
      → events_of cs ++ unread ≡ (subscribe f none rounds).events
      → (rest : List Flow) × (shown (run_stream rs identity cs (opened_stream st)).body ++ rest
          ≡ map (proto_flow_to_api f) (pb_flows (reached f 0 rounds)))
  run_stream_prefix f rounds cs unread st e =
      let w = run_stream-Shows rs identity cs (opened_stream st) in
      let rest = all_flows (w.left ++ unread) in
      (
        rest,
        ap (λ fs. fs ++ rest) w.shows
            ∙ sym (all_flows-append w.taken (w.left ++ unread))
            ∙ ap all_flows (
                sym (append_assoc w.taken w.left unread)
                ∙ ap (λ es. es ++ unread) (sym w.first)
                ∙ e)
            ∙ (subscribe-IsFaithful f rounds).flows,
      )

  get_gone :
      (id : String) (at : Readings) (st : Store)
      → peek id st ≡ none
      → get rs id at st ≡ (err SessionError.not_found, st)
  unfolding get peek
  get_gone id at st e = rw (e, get) refl

module _ (rs : Refreshers) (ra : RequestAuth) (p : ℕ) (is_session : ra.session ≡ some p) where
  not_alive :
      (now : ℕ) (at : Readings) (st : Store)
      → peek (st.heap.objects p).id st ≡ none
      → session_alive rs (some ra) now at st ≡ (false, st)
  unfolding session_alive keep_alive
  not_alive now at st e =
      rw (is_session, keep_alive, get_gone rs (some ra) (st.heap.objects p).id at st e) refl

  tick_closes :
      (now : ℕ) (at : Readings) (written : Bool) (s : StreamState)
      → peek (s.store.heap.objects p).id s.store ≡ none
      → ((stream_step rs (some ra) (Choice.tick now at written) s).is_open ≡ false)
        × ((stream_step rs (some ra) (Choice.tick now at written) s).body ≡ s.body)
  unfolding take_choice
  tick_closes now at written s e = elim (Bool-cases s.is_open) [
    | inr o ↦ rw (closed_step rs (some ra) (Choice.tick now at written) s o) (o, refl)
    | inl o ↦
        rw
          (
            open_step rs (some ra) (Choice.tick now at written) s o,
            ap (ticked written s) (not_alive now at s.store e),
          )
          (refl, refl)
  ]

  -- Once its session is gone from the store, by a logout or otherwise, a stream writes nothing from
  -- the next tick on, and has ended: whatever was to come, the body stays what it was before the tick.
  pub run_stream-Ends :
      (cs later : List Choice) (now : ℕ) (at : Readings) (written : Bool) (s : StreamState)
      → peek
          ((run_stream rs (some ra) cs s).store.heap.objects p).id
          (run_stream rs (some ra) cs s).store
        ≡ none
      → ((run_stream rs (some ra) (cs ++ Choice.tick now at written ∷ later) s).is_open ≡ false)
        × ((run_stream rs (some ra) (cs ++ Choice.tick now at written ∷ later) s).body
            ≡ (run_stream rs (some ra) cs s).body)
  unfolding run_stream
  run_stream-Ends cs later now at written s e =
      let t = run_stream rs (some ra) cs s in
      let c = tick_closes now at written t e in
      let u = stream_step rs (some ra) (Choice.tick now at written) t in
      let same = run_stream-append rs (some ra) cs (Choice.tick now at written ∷ later) s in
      let stays = closed_stays rs (some ra) later u c.0 in
      (
        ap (λ (v : StreamState). v.is_open) (same ∙ stays) ∙ c.0,
        ap (λ (v : StreamState). v.body) (same ∙ stays) ∙ c.1,
      )
