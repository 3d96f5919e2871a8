-- ===== src/Session/Run.antt =====
-- Histories of a store: any calls, by any requests, one after another. `NewStore` is the start.
use antrea_ui.Base.{
  ℕ, String, refl, inl, inr, Option, none, some, List, [], ◌∷◌, arith, Option-cases, lookup,
}
use antrea_ui.Session.Types.{CachedTransport, Spec, Heap, Store}
use antrea_ui.Session.Expiry.{GivenOptions, set_defaults, set_defaults-IsSane}
use antrea_ui.Session.Transports.{
  build_transport, TransportBuilder, transport_for, store_transport,
  drop_superseded_transports_locked,
}
use antrea_ui.Session.Store.{create, delete_session, owned}
use antrea_ui.Session.Get.{Refreshers, Readings, get, do_gc}
use antrea_ui.Session.Memory.Keeping.{Keeps, Keeps-refl, Keeps-trans, Keeps-update}
use antrea_ui.Session.Invariant.{IsWellFormed, Evolves-IsWellFormed, same}
use antrea_ui.Session.Invariant.Operations.{delete_session-Evolves}
use antrea_ui.Session.Invariant.Lookups.{get-Evolves, do_gc-Evolves}
use antrea_ui.Session.Invariant.Creation.{create-IsWellFormed}

unfoldable pub new_store : GivenOptions → Heap → Store
new_store o h = record { opts = set_defaults o; sessions = []; heap = h }

pub data Call : Type 0 where
  creates : Option String → ℕ → Spec → Call
  gets : Refreshers → String → Readings → Call
  deletes : String → Call
  sweeps : ℕ → Call
  transports : String → TransportBuilder → ℕ → Call

unfoldable pub step : Store → Call → Store
step st (creates random now spec) = (create random now spec st).1
step st (gets rs id at) = (get rs id at st).1
step st (deletes id) = delete_session id st
step st (sweeps now) = do_gc now st
step st (transports key build p) = record st { heap = (transport_for key build p st.heap).1 }

unfoldable pub run : Store → List Call → Store
unfolding step
run st [] = st
run st (c ∷ cs) = run (step st c) cs

module _ {m : ℕ} where
  store_transport-Keeps :
      (key : String) (p : ℕ) (h : Heap) (t : Option CachedTransport)
      → Keeps m h (store_transport key p h t).1
  store_transport-Keeps key p h none = Keeps-refl h
  store_transport-Keeps key p h (some t) =
      Keeps-update p _ h _ refl (λ q. refl)
        (record { id = refl; cap_key = refl; created_at = refl; capped = λ e. e })

  drop_superseded-Keeps :
      (key : String) (p : ℕ) (h : Heap) → Keeps m h (drop_superseded_transports_locked key p h)
  unfolding drop_superseded_transports_locked
  drop_superseded-Keeps key p h =
      Keeps-update p _ h _ refl (λ q. refl)
        (record { id = refl; cap_key = refl; created_at = refl; capped = λ e. e })

  pub transport_for-Keeps :
      (key : String) (build : TransportBuilder) (p : ℕ) (h : Heap)
      → Keeps m h (transport_for key build p h).1
  unfolding transport_for build_transport
  transport_for-Keeps key build p h = elim (Option-cases (lookup key (h.objects p).transports)) [
    | inr (t, e) ↦ rw (e, transport_for) (Keeps-refl h)
    | inl e ↦
        rw (e, transport_for)
          (Keeps-trans (drop_superseded-Keeps key p h) (store_transport-Keeps key p _ _))
  ]

step-IsWellFormed : (st : Store) (c : Call) → IsWellFormed st → IsWellFormed (step st c)
unfolding step
step-IsWellFormed st (creates random now spec) w = create-IsWellFormed random now spec st w
step-IsWellFormed st (gets rs id at) w = Evolves-IsWellFormed (get-Evolves rs id at st) w
step-IsWellFormed st (deletes id) w = Evolves-IsWellFormed (delete_session-Evolves id st) w
step-IsWellFormed st (sweeps now) w = Evolves-IsWellFormed (do_gc-Evolves now st) w
step-IsWellFormed st (transports key build p) w =
    Evolves-IsWellFormed
      (record { same_opts = refl; keeps = transport_for-Keeps key build p st.heap; pruned = same })
      w

run-keeps : (st : Store) (cs : List Call) → IsWellFormed st → IsWellFormed (run st cs)
unfolding run
run-keeps st [] w = w
run-keeps st (c ∷ cs) w = run-keeps (step st c) cs (step-IsWellFormed st c w)

pub new_store-IsWellFormed : (o : GivenOptions) (h : Heap) → IsWellFormed (new_store o h)
unfolding new_store owned
new_store-IsWellFormed o h = record {
  sane = set_defaults-IsSane o;
  distinct = tt;
  entries = tt;
  within = omega arith;
  shares = λ c named. omega arith;
}

-- After any history of a new store, whatever options it was given: the store holds no more sessions
-- than its limit and no more of one identity's than the per-user limit (a session with an empty cap
-- key counts for no identity), IDs are distinct, every entry is keyed by its session's own ID, and
-- no session's expiry is later than its creation plus the maximal lifetime.
pub run-IsWellFormed :
    (o : GivenOptions) (h : Heap) (cs : List Call) → IsWellFormed (run (new_store o h) cs)
run-IsWellFormed o h cs = run-keeps (new_store o h) cs (new_store-IsWellFormed o h)
