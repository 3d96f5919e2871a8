-- ===== src/Session/Invariant/Creation.antt =====
-- `Create` keeps the invariant, whatever it answers.
use antrea_ui.Base.{
  ℕ, ◌<◌, String, ◌≡◌, refl, inl, inr, true, false, some, [], ◌∷◌, arith, str_eq, eq_iff, eq_refl,
  ltb, ltb→lt, Bool-cases, Option-cases, length, elem, Table, delete, insert, keys, insert-Distinct,
  length-delete-le, Bool, Option, none,
}
use antrea_ui.Session.Types.{Spec, Session, Heap, Options, Store}
use antrea_ui.Session.Memory.Keeping.{IsLater-refl}
use antrea_ui.Session.Store.{
  create, register, enforce_per_user_limit_locked, new_session, per_user_cap_key, create_with_id,
  owned, find_expired, evict_one_expired_locked, make_room, allocate,
}
use antrea_ui.Session.Invariant.{
  owned-Keeps, Evolves-trans, Evolves-IsWellFormed, IsEntry, IsWellFormed, same, without,
  Pruned-owned, Pruned-Entries, Evolves,
}
use antrea_ui.Session.Expiry.{effective_expiry-le}
use antrea_ui.Session.Invariant.Operations.{make_room-Evolves, enforce-Evolves}
use antrea_ui.Session.Invariant.Room.{enforce_leaves_room}

pub allocate-Evolves : (s : Session) (st : Store) → Evolves st (allocate s st)
unfolding allocate
allocate-Evolves s st = record {
  same_opts = refl;
  keeps = record {
    grows = omega arith;
    later = λ q lt. ground (arith, IsLater-refl {m = st.opts.max_lifetime} (st.heap.objects q));
  };
  pruned = same;
}

find_expired-elem :
    (o : Options) (h : Heap) (now : ℕ) (t : Table ℕ) (id : String) (p : ℕ)
    → find_expired o h now t ≡ some (id, p)
    → elem id (keys t) ≡ true
unfolding find_expired
find_expired-elem o h now [] id p e = absurd (ground arith)
find_expired-elem o h now ((j, q) ∷ t) id p e =
    ground (arith, find_expired-elem o h now t id p, eq_refl id)

length-delete-elem :
    (k : String) (t : Table ℕ) → elem k (keys t) ≡ true → length (delete k t) < length t
unfolding delete
length-delete-elem k [] h = absurd (ground arith)
length-delete-elem k ((j, v) ∷ t) h = ground (arith, length-delete-elem k t, length-delete-le k t)

-- Where `make_room` answers true there is room for one more session.
make_room_room :
    (now : ℕ) (st : Store)
    → IsWellFormed st
    → (make_room now st).0 ≡ true
    → length (make_room now st).1.sessions < st.opts.max_sessions
unfolding make_room evict_one_expired_locked
make_room_room now st w h = elim (Bool-cases (ltb (length st.sessions) st.opts.max_sessions)) [
  | inl e ↦ rw e (ltb→lt _ _ e)
  | inr e ↦ rw e (elim (Option-cases (find_expired st.opts st.heap now st.sessions)) [
    | inl f ↦ absurd (ground arith)
    | inr ((id, p), f) ↦
        rw (f, evict_one_expired_locked)
          (omega (
            arith,
            w.within,
            length-delete-elem id st.sessions
                (find_expired-elem st.opts st.heap now st.sessions id p f),
          ))
  ])
]

register-IsWellFormed :
    (id : String) (p : ℕ) (st : Store)
    → IsWellFormed st
    → IsEntry st.opts.max_lifetime st.heap id p
    → length st.sessions < st.opts.max_sessions
    → (str_eq (st.heap.objects p).cap_key "" ≡ false
        → length (owned st.heap (st.heap.objects p).cap_key st.sessions)
          < st.opts.max_sessions_per_user)
    → IsWellFormed (record st { sessions = insert id p st.sessions })
unfolding insert owned
register-IsWellFormed id p st w e room share = record {
  sane = w.sane;
  distinct = insert-Distinct id p st.sessions w.distinct;
  entries = (e, Pruned-Entries _ _ (without id same) w.entries);
  within = omega (arith, length-delete-le id st.sessions);
  shares = λ c named. ground (
    arith,
    Pruned-owned (without {t = st.sessions} id same) st.heap c,
    w.shares c named,
    eq_iff (st.heap.objects p).cap_key c,
  );
}

-- The new session as the store finds it after making room: still the session that was asked for.
new-IsEntry :
    (id : String) (now : ℕ) (spec : Spec) (st su : Store)
    → Evolves (allocate (new_session id now st.opts spec) st) su
    → IsEntry su.opts.max_lifetime su.heap id st.heap.next_object
      × ((su.heap.objects st.heap.next_object).cap_key ≡ per_user_cap_key spec)
unfolding allocate
new-IsEntry id now spec st su e =
    let l = e.keeps.later st.heap.next_object (omega arith) in
    rw e.same_opts (
      record {
        keyed = ground (arith, l.id);
        capped = ground (
          arith,
          l.capped,
          effective_expiry-le now st.opts.max_lifetime spec.credential.expires_at,
        );
        allocated = omega (arith, e.keeps.grows);
      },
      ground (arith, l.cap_key),
    )

register_any-IsWellFormed :
    (id : String) (p : ℕ) (b : Bool) (st : Store)
    → IsWellFormed st
    → IsEntry st.opts.max_lifetime st.heap id p
    → (b ≡ true → length st.sessions < st.opts.max_sessions)
    → (str_eq (st.heap.objects p).cap_key "" ≡ false
        → length (owned st.heap (st.heap.objects p).cap_key st.sessions)
          < st.opts.max_sessions_per_user)
    → IsWellFormed (register id p (b, st)).1
register_any-IsWellFormed id p true st w e room share =
    register-IsWellFormed id p st w e (room refl) share
register_any-IsWellFormed id p false st w e room share = w

-- After the limit has been enforced, any later store has room for one more of the user's sessions.
share_left :
    (c : String) (st su : Store)
    → IsWellFormed st
    → Evolves (enforce_per_user_limit_locked c st) su
    → str_eq c "" ≡ false
    → length (owned su.heap c su.sessions) < su.opts.max_sessions_per_user
share_left c st su w e named =
    let whole = Evolves-trans (enforce-Evolves c st) e in
    let entries = Pruned-Entries _ st.heap whole.pruned w.entries in
    rw (whole.same_opts, owned-Keeps c su.sessions whole.keeps entries)
      (omega (arith, Pruned-owned e.pruned st.heap c, enforce_leaves_room c st w named))

create_with_id-IsWellFormed :
    (id : String) (now : ℕ) (spec : Spec) (st : Store)
    → IsWellFormed st
    → IsWellFormed (create_with_id id now spec st).1
unfolding create_with_id
create_with_id-IsWellFormed id now spec st w =
    let st₁ = allocate (new_session id now st.opts spec) st in
    let w₁ : IsWellFormed st₁ =
      Evolves-IsWellFormed (allocate-Evolves (new_session id now st.opts spec) st) w in
    let st₂ = enforce_per_user_limit_locked (per_user_cap_key spec) st₁ in
    let e₂ : Evolves st₁ st₂ = enforce-Evolves (per_user_cap_key spec) st₁ in
    let e₃ : Evolves st₂ (make_room now st₂).1 = make_room-Evolves now st₂ in
    let w₂ : IsWellFormed st₂ = Evolves-IsWellFormed e₂ w₁ in
    let n = new-IsEntry id now spec st (make_room now st₂).1 (Evolves-trans e₂ e₃) in
    register_any-IsWellFormed id st.heap.next_object (make_room now st₂).0 (make_room now st₂).1
      (Evolves-IsWellFormed e₃ w₂) n.0 (λ b. rw e₃.same_opts (make_room_room now st₂ w₂ b))
      (rw n.1 (share_left (per_user_cap_key spec) st₁ (make_room now st₂).1 w₁ e₃))

-- The store never holds more sessions than its limit, nor more of one user's than the per-user
-- limit; keys stay distinct and every entry stays keyed by its ID and within its absolute cap.
pub create-IsWellFormed :
    (random : Option String) (now : ℕ) (spec : Spec) (st : Store)
    → IsWellFormed st
    → IsWellFormed (create random now spec st).1
unfolding create
create-IsWellFormed none now spec st w = w
create-IsWellFormed (some id) now spec st w = create_with_id-IsWellFormed id now spec st w
