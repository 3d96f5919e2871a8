-- ===== src/Session/Store.antt =====
-- The operations of the store (store.go). The store's map is a table whose order is the order in
-- which Go visits it. Each clock reading and each source of randomness is an argument.
use antrea_ui.Base.{
  ℕ, suc, ◌+◌, ◌-◌, String, Bool, true, false, Option, none, some, List, [], ◌∷◌, Table, lookup,
  delete, insert, length, take, sort_by, str_eq, ltb, ◌==◌, if◌then◌else◌, before,
}
use antrea_ui.Session.Types.{
  Mode, Session, Spec, Heap, Options, Store, SessionError, Result, ok, err,
}
use antrea_ui.Session.Memory.{update, session_zero}
use antrea_ui.Session.Expiry.{effective_expiry, alive}

abbrev pub is_admin : Mode → Bool
is_admin Mode.admin = true
is_admin _ = false

unfoldable pub per_user_cap_key : Spec → String
per_user_cap_key spec = if is_admin spec.mode then "" else spec.username

-- The sessions grouped under a cap key, in the order of the map.
unfoldable pub owned : Heap → String → Table ℕ → List ℕ
owned h cap_key [] = []
owned h cap_key ((id, p) ∷ t) =
    let rest = owned h cap_key t in if str_eq (h.objects p).cap_key cap_key then p ∷ rest else rest

-- The order of `sort.Slice`: oldest last-seen first, and creation time breaks ties.
unfoldable pub staler : Heap → ℕ → ℕ → Bool
staler h p q =
    if (h.objects p).last_seen == (h.objects q).last_seen
    then before (h.objects p).created_at (h.objects q).created_at
    else before (h.objects p).last_seen (h.objects q).last_seen

unfoldable pub evict : ℕ → Store → Store
evict p st = record st {
  sessions = delete (st.heap.objects p).id st.sessions;
  heap = session_zero p st.heap;
}

unfoldable pub evict_each : List ℕ → Store → Store
evict_each [] st = st
evict_each (p ∷ ps) st = evict_each ps (evict p st)

-- The sessions that a new login under the cap key drops.
unfoldable pub to_evict : String → Store → List ℕ
unfolding owned staler
to_evict cap_key st =
    let mine = owned st.heap cap_key st.sessions in
    if ltb (length mine) st.opts.max_sessions_per_user
    then []
    else take (length mine - st.opts.max_sessions_per_user + 1) (sort_by (staler st.heap) mine)

unfoldable pub enforce_per_user_limit_locked : String → Store → Store
unfolding to_evict evict_each
enforce_per_user_limit_locked cap_key st =
    if str_eq cap_key "" then st else evict_each (to_evict cap_key st) st

-- The first entry of the map whose session is no longer alive.
unfoldable pub find_expired : Options → Heap → ℕ → Table ℕ → Option (String × ℕ)
find_expired o h now [] = none
find_expired o h now ((id, p) ∷ t) =
    let rest = find_expired o h now t in if alive o (h.objects p) now then rest else some (id, p)

unfoldable pub evict_one_expired_locked : ℕ → Store → Bool × Store
unfolding find_expired
evict_one_expired_locked now st = elim (find_expired st.opts st.heap now st.sessions) [
  | none ↦ (false, st)
  | some (id, p) ↦
      (true, record st { sessions = delete id st.sessions; heap = session_zero p st.heap })
]

abbrev pub new_session : String → ℕ → Options → Spec → Session
new_session id now o spec = record {
  id = id;
  mode = spec.mode;
  created_at = now;
  username = spec.username;
  cap_key = per_user_cap_key spec;
  refresher = spec.refresher;
  credential = spec.credential;
  refresh_token = spec.refresh_token;
  last_seen = now;
  expires_at = effective_expiry now o.max_lifetime spec.credential.expires_at;
  transports = [];
}

-- `&Session{…}`: the object stands at the next address.
unfoldable pub allocate : Session → Store → Store
allocate s st = record st {
  heap = record (st.heap) {
    objects = update st.heap.objects st.heap.next_object s;
    next_object = suc st.heap.next_object;
  };
}

-- The room that the login finds: the evicted entry if the store is full and one is expired.
unfoldable pub make_room : ℕ → Store → Bool × Store
unfolding evict_one_expired_locked
make_room now st =
    if ltb (length st.sessions) st.opts.max_sessions
    then (true, st)
    else evict_one_expired_locked now st

abbrev pub register : String → ℕ → Bool × Store → Result ℕ × Store
register id p (true, st) = (ok p, record st { sessions = insert id p st.sessions })
register id p (false, st) = (err SessionError.too_many_sessions, st)

unfoldable pub create_with_id : String → ℕ → Spec → Store → Result ℕ × Store
unfolding allocate enforce_per_user_limit_locked make_room
create_with_id id now spec st =
    let p = st.heap.next_object in
    let st₁ = allocate (new_session id now st.opts spec) st in
    let st₂ = enforce_per_user_limit_locked (per_user_cap_key spec) st₁ in
    register id p (make_room now st₂)

-- `random` is what `random.HexString(sessionIDBytes)` answers.
unfoldable pub create : Option String → ℕ → Spec → Store → Result ℕ × Store
unfolding create_with_id
create none now spec st = (err SessionError.no_randomness, st)
create (some id) now spec st = create_with_id id now spec st

unfoldable pub peek : String → Store → Option ℕ
peek id st = lookup id st.sessions

unfoldable pub delete_found : String → Option ℕ → Store → Store
delete_found id none st = record st { sessions = delete id st.sessions }
delete_found id (some p) st = record st {
  sessions = delete id st.sessions;
  heap = session_zero p st.heap;
}

unfoldable pub delete_session : String → Store → Store
unfolding delete_found
delete_session id st = delete_found id (lookup id st.sessions) st
