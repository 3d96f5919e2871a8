-- ===== src/Session/Laws/Admission.antt =====
-- `Create`: when a login is refused, and what a session starts with.
use antrea_ui.Base.{
  ℕ, ◌≤◌, ◌<◌, String, ◌≡◌, refl, ◌∙◌, inl, inr, true, false, none, some, List, [], ◌∷◌, arith, ltb,
  Bool-cases, Option-cases, length, All, Table, lookup, Bool, eq_refl, All-take, All-sort_by,
  lookup-insert,
}
use antrea_ui.Session.Types.{Spec, Heap, Options, Store, SessionError, Result, ok, err}
use antrea_ui.Session.Memory.Erasure.{session_zero-objects}
use antrea_ui.Session.Expiry.{alive}
use antrea_ui.Session.Store.{
  staler, peek, create, register, make_room, evict_one_expired_locked, find_expired, allocate,
  new_session, per_user_cap_key, enforce_per_user_limit_locked, evict_each, to_evict, evict, owned,
}
use antrea_ui.Session.Invariant.{Pruned-Entries, IsWellFormed, Entries, Evolves}
use antrea_ui.Session.Invariant.Operations.{enforce-Evolves}

find_expired-none :
    (o : Options) (h : Heap) (now : ℕ) (t : Table ℕ) (id : String) (p : ℕ)
    → find_expired o h now t ≡ none
    → lookup id t ≡ some p
    → alive o (h.objects p) now ≡ true
unfolding find_expired lookup
find_expired-none o h now [] id p e f = absurd (ground arith)
find_expired-none o h now ((j, q) ∷ t) id p e f = ground (arith, find_expired-none o h now t id p)

-- Where `make_room` answers false, the store is full of live sessions.
make_room_refused :
    (now : ℕ) (o : Options) (st : Store)
    → st.opts ≡ o
    → (make_room now st).0 ≡ false
    → (o.max_sessions ≤ length (make_room now st).1.sessions)
      × ((id : String) (p : ℕ)
          → peek id (make_room now st).1 ≡ some p
          → alive o ((make_room now st).1.heap.objects p) now ≡ true)
unfolding make_room evict_one_expired_locked peek
make_room_refused now o st same h =
    rw (← same) (elim (Bool-cases (ltb (length st.sessions) st.opts.max_sessions)) [
      | inl e ↦ absurd (ground arith)
      | inr e ↦ elim (Option-cases (find_expired st.opts st.heap now st.sessions)) [
        | inr (x, f) ↦ absurd (ground arith)
        | inl f ↦
            rw (e, f, evict_one_expired_locked)
              (
                ground arith,
                λ id p known. find_expired-none st.opts st.heap now st.sessions id p f known,
              )
      ]
    ])

-- An operation that erases only sessions of the map leaves a new object as it is.
evict_each-fresh :
    (ps : List ℕ) (st : Store) (p : ℕ)
    → All (λ q. q < p) ps
    → (evict_each ps st).heap.objects p ≡ st.heap.objects p
unfolding evict_each evict
evict_each-fresh [] st p a = refl
evict_each-fresh (q ∷ qs) st p a =
    evict_each-fresh qs (evict q st) p a.1 ∙ ground (arith, session_zero-objects q st.heap p, a.0)

owned-allocated :
    (m : ℕ) (h k : Heap) (c : String) (t : Table ℕ)
    → Entries m h t
    → All (λ q. q < h.next_object) (owned k c t)
unfolding owned
owned-allocated m h k c [] e = tt
owned-allocated m h k c ((j, p) ∷ t) e =
    ground (arith, e.0.allocated, owned-allocated m h k c t e.1)

to_evict-allocated :
    (m : ℕ) (h : Heap) (c : String) (st : Store)
    → Entries m h st.sessions
    → All (λ q. q < h.next_object) (to_evict c st)
unfolding to_evict
to_evict-allocated m h c st e =
    let mine = owned st.heap c st.sessions in
    elim (Bool-cases (ltb (length mine) st.opts.max_sessions_per_user)) [
      | inl few ↦ rw few tt
      | inr many ↦ rw many (
          All-take _ _ _ (
            All-sort_by (staler st.heap) (λ q. q < h.next_object) mine
              (owned-allocated m h st.heap c st.sessions e)))
    ]

find_expired-allocated :
    (m : ℕ) (h k : Heap) (o : Options) (now : ℕ) (t : Table ℕ) (id : String) (p : ℕ)
    → Entries m h t
    → find_expired o k now t ≡ some (id, p)
    → p < h.next_object
unfolding find_expired
find_expired-allocated m h k o now [] id p e f = absurd (ground arith)
find_expired-allocated m h k o now ((j, q) ∷ t) id p e f =
    ground (arith, e.0.allocated, find_expired-allocated m h k o now t id p e.1)

enforce-fresh :
    (m : ℕ) (h : Heap) (c : String) (st : Store)
    → Entries m h st.sessions
    → (enforce_per_user_limit_locked c st).heap.objects h.next_object
      ≡ st.heap.objects h.next_object
unfolding enforce_per_user_limit_locked
enforce-fresh m h c st e =
    ground
      (arith, evict_each-fresh (to_evict c st) st h.next_object (to_evict-allocated m h c st e))

make_room-fresh :
    (m : ℕ) (h : Heap) (now : ℕ) (st : Store)
    → Entries m h st.sessions
    → (make_room now st).1.heap.objects h.next_object ≡ st.heap.objects h.next_object
unfolding make_room evict_one_expired_locked
make_room-fresh m h now st e = elim (Bool-cases (ltb (length st.sessions) st.opts.max_sessions)) [
  | inl r ↦ rw r
  | inr r ↦ rw r (elim (Option-cases (find_expired st.opts st.heap now st.sessions)) [
    | inl f ↦ rw (f, evict_one_expired_locked)
    | inr ((id, p), f) ↦
        rw (f, evict_one_expired_locked)
          (ground (
            arith,
            session_zero-objects p st.heap h.next_object,
            find_expired-allocated m h st.heap st.opts now st.sessions id p e f,
          ))
  ])
]

-- The store `su` has admitted the session, or refused it.
pub data Admission (id : String) (now : ℕ) (spec : Spec) (st : Store)
    : Result ℕ × Store → Type 0 where
  admitted :
      (p : ℕ) (su : Store)
      → peek id su ≡ some p
      → su.heap.objects p ≡ new_session id now st.opts spec
      → Admission id now spec st (ok p, su)
  refused :
      (su : Store)
      → st.opts.max_sessions ≤ length su.sessions
      → ((jd : String) (q : ℕ) → peek jd su ≡ some q → alive st.opts (su.heap.objects q) now ≡ true)
      → Admission id now spec st (err SessionError.too_many_sessions, su)

register-Admission :
    (id : String) (now : ℕ) (spec : Spec) (st su : Store) (b : Bool)
    → su.heap.objects st.heap.next_object ≡ new_session id now st.opts spec
    → (b ≡ false
        → (st.opts.max_sessions ≤ length su.sessions)
          × ((jd : String) (q : ℕ)
              → peek jd su ≡ some q
              → alive st.opts (su.heap.objects q) now ≡ true))
    → Admission id now spec st (register id st.heap.next_object (b, su))
unfolding peek
register-Admission id now spec st su true obj full =
    admitted st.heap.next_object _
      (ground (arith, lookup-insert id id st.heap.next_object su.sessions, eq_refl id)) obj
register-Admission id now spec st su false obj full = refused su (full refl).0 (full refl).1

-- The outcome of every `Create` that has an ID: the store finds the new session under it, with the
-- identity and credential of the login, its cap key and an expiry within the absolute cap, both
-- times at the clock's reading, and no transport; or the login is refused, and then the store is
-- full of sessions that are all alive.
pub create-Admission :
    (id : String) (now : ℕ) (spec : Spec) (st : Store)
    → IsWellFormed st
    → Admission id now spec st (create (some id) now spec st)
unfolding create allocate
create-Admission id now spec st w =
    let st₁ = allocate (new_session id now st.opts spec) st in
    let c = per_user_cap_key spec in
    let st₂ = enforce_per_user_limit_locked c st₁ in
    let m = st.opts.max_lifetime in
    let e₂ : Evolves st₁ st₂ = enforce-Evolves c st₁ in
    let kept = Pruned-Entries m st.heap e₂.pruned w.entries in
    register-Admission id now spec st (make_room now st₂).1 (make_room now st₂).0
      (make_room-fresh m st.heap now st₂ kept
        ∙ enforce-fresh m st.heap c st₁ w.entries
        ∙ ground arith)
      (make_room_refused now st.opts st₂ e₂.same_opts)
