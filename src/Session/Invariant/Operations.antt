-- ===== src/Session/Invariant/Operations.antt =====
-- Each operation that creates no session evolves the store.
use antrea_ui.Base.{
  ℕ, refl, inl, inr, String, List, [], ◌∷◌, lookup, delete, length, arith, Bool-cases, Option-cases,
  ltb,
}
use antrea_ui.Session.Types.{Store}
use antrea_ui.Session.Memory.{session_zero}
use antrea_ui.Session.Memory.Keeping.{Keeps-refl, session_zero-Keeps}
use antrea_ui.Session.Store.{
  evict, evict_each, enforce_per_user_limit_locked, to_evict, evict_one_expired_locked,
  find_expired, make_room, delete_session,
}
use antrea_ui.Session.Invariant.{same, without, Evolves, Evolves-refl, Evolves-trans}

evict-Evolves : (p : ℕ) (st : Store) → Evolves st (evict p st)
unfolding evict
evict-Evolves p st = record {
  same_opts = refl;
  keeps = session_zero-Keeps p st.heap;
  pruned = without (st.heap.objects p).id same;
}

pub evict_each-Evolves : (ps : List ℕ) (st : Store) → Evolves st (evict_each ps st)
unfolding evict_each
evict_each-Evolves [] st = Evolves-refl st
evict_each-Evolves (p ∷ ps) st =
    Evolves-trans (evict-Evolves p st) (evict_each-Evolves ps (evict p st))

pub enforce-Evolves : (c : String) (st : Store) → Evolves st (enforce_per_user_limit_locked c st)
unfolding enforce_per_user_limit_locked
enforce-Evolves c st = ground (arith, evict_each-Evolves (to_evict c st) st, Evolves-refl st)

-- Deleting the entry and erasing its session.
removal-Evolves :
    (id : String) (p : ℕ) (st : Store)
    → Evolves st (record st { sessions = delete id st.sessions; heap = session_zero p st.heap })
removal-Evolves id p st = record {
  same_opts = refl;
  keeps = session_zero-Keeps p st.heap;
  pruned = without id same;
}

pub make_room-Evolves : (now : ℕ) (st : Store) → Evolves st (make_room now st).1
unfolding make_room evict_one_expired_locked
make_room-Evolves now st = elim (Bool-cases (ltb (length st.sessions) st.opts.max_sessions)) [
  | inl e ↦ rw e (Evolves-refl st)
  | inr e ↦ rw e (elim (Option-cases (find_expired st.opts st.heap now st.sessions)) [
    | inl f ↦ rw (f, evict_one_expired_locked) (Evolves-refl st)
    | inr ((id, p), f) ↦ rw (f, evict_one_expired_locked) (removal-Evolves id p st)
  ])
]

pub delete_session-Evolves : (id : String) (st : Store) → Evolves st (delete_session id st)
unfolding delete_session
delete_session-Evolves id st = elim (Option-cases (lookup id st.sessions)) [
  | inl e ↦
      rw (e, delete_session)
        (record { same_opts = refl; keeps = Keeps-refl st.heap; pruned = without id same })
  | inr (p, e) ↦ rw (e, delete_session) (removal-Evolves id p st)
]
