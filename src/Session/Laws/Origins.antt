-- ===== src/Session/Laws/Origins.antt =====
-- Where the sessions of the map come from after a `Create`.
use antrea_ui.Base.{
  ℕ, String, ◌≡◌, ap, ◌⊎◌, inl, inr, Bool, true, false, Option, none, some, arith, str_eq,
  Bool-cases, str_eq→eq, lookup, lookup-insert,
}
use antrea_ui.Session.Types.{Spec, Store, SessionError, err}
use antrea_ui.Session.Store.{
  create, register, make_room, allocate, new_session, per_user_cap_key,
  enforce_per_user_limit_locked, peek,
}
use antrea_ui.Session.Invariant.{Evolves, Evolves-trans, Evolves-refl, Pruned-lookup}
use antrea_ui.Session.Invariant.Creation.{allocate-Evolves}
use antrea_ui.Session.Invariant.Operations.{enforce-Evolves, make_room-Evolves}

-- The store in which the new session is registered.
abbrev roomy : String → ℕ → Spec → Store → Bool × Store
roomy id now spec st = make_room now (
    enforce_per_user_limit_locked (per_user_cap_key spec)
      (allocate (new_session id now st.opts spec) st))

roomy-Evolves :
    (id : String) (now : ℕ) (spec : Spec) (st : Store) → Evolves st (roomy id now spec st).1
roomy-Evolves id now spec st =
    let st₁ = allocate (new_session id now st.opts spec) st in
    let c = per_user_cap_key spec in
    Evolves-trans (allocate-Evolves (new_session id now st.opts spec) st) (
      Evolves-trans (enforce-Evolves c st₁)
        (make_room-Evolves now (enforce_per_user_limit_locked c st₁)))

register_origin :
    (id jd : String) (p q : ℕ) (b : Bool) (st : Store)
    → lookup jd (register id p (b, st)).1.sessions ≡ some q
    → (id ≡ jd) ⊎ (lookup jd st.sessions ≡ some q)
register_origin id jd p q true st e = elim (Bool-cases (str_eq id jd)) [
  | inl same ↦ inl (str_eq→eq id jd same)
  | inr other ↦ inr (ground (arith, lookup-insert id jd p st.sessions))
]
register_origin id jd p q false st e = inr e

-- What `Create` leaves in the map is the new session or one that was there before.
pub create_origin :
    (random : Option String) (now : ℕ) (spec : Spec) (st : Store) (jd : String) (q : ℕ)
    → peek jd (create random now spec st).1 ≡ some q
    → (random ≡ some jd) ⊎ (peek jd st ≡ some q)
unfolding create peek
create_origin none now spec st jd q e = inr e
create_origin (some id) now spec st jd q e =
    let room = roomy id now spec st in
    elim (register_origin id jd st.heap.next_object q room.0 room.1 e) [
      | inl same ↦ inl (ap some same)
      | inr old ↦ inr (Pruned-lookup (roomy-Evolves id now spec st).pruned jd q old)
    ]

register_refused-Evolves :
    (id : String) (p : ℕ) (b : Bool) (st su : Store) (e : SessionError)
    → Evolves st su
    → (register id p (b, su)).0 ≡ err e
    → Evolves st (register id p (b, su)).1
register_refused-Evolves id p true st su e v r = absurd (ground arith)
register_refused-Evolves id p false st su e v r = v

-- A `Create` that fails adds no session.
pub create_refused-Evolves :
    (random : Option String) (now : ℕ) (spec : Spec) (st : Store) (e : SessionError)
    → (create random now spec st).0 ≡ err e
    → Evolves st (create random now spec st).1
unfolding create
create_refused-Evolves none now spec st e r = Evolves-refl st
create_refused-Evolves (some id) now spec st e r =
    let room = roomy id now spec st in
    register_refused-Evolves id st.heap.next_object room.0 st room.1 e
      (roomy-Evolves id now spec st) r
