-- ===== src/Session/Invariant/Lookups.antt =====
-- `Get` and the sweep evolve the store.
use antrea_ui.Base.{
  ℕ, zero, suc, ◌≡◌, refl, inl, inr, String, Option, none, some, List, [], ◌∷◌, Table, lookup,
  delete, length, take, arith, Bool-cases, Option-cases,
}
use antrea_ui.Session.Types.{
  Session, Credential, Heap, Options, Store, refresh_window, gc_batch_size,
}
use antrea_ui.Session.Memory.{
  update, credential_zero, drop_transports_locked, session_zero, contents,
}
use antrea_ui.Session.Memory.Erasure.{
  zero_bytes-objects, zero_bytes-next_object, credential_zero-objects,
}
use antrea_ui.Session.Memory.Keeping.{
  IsLater, Keeps, Keeps-refl, Keeps-trans, Keeps-update, zero_bytes-Keeps, new_buffer-Keeps,
  session_zero-Keeps,
}
use antrea_ui.Session.Expiry.{
  effective_expiry, effective_expiry-le, alive, credential_expired, needs_refresh,
}
use antrea_ui.Session.Get.{
  Refreshers, Refreshed, Readings, store_refreshed, replace_refresh_token, apply_refresh,
  call_refresher, refresh_now, maybe_refresh, touch, get_refreshed, get_found, get, delete_batch,
  zero_each, sweep, do_gc, expired_ids,
}
use antrea_ui.Session.Invariant.{Pruned, same, without, Evolves, Evolves-refl, Evolves-trans}
use antrea_ui.Session.Invariant.Operations.{delete_session-Evolves}

-- The object after a refresh.
abbrev pub renewed : Options → Credential → Option ℕ → Session → Session
renewed o cred token s = record s {
  credential = cred;
  refresh_token = token;
  expires_at = effective_expiry s.created_at o.max_lifetime cred.expires_at;
  transports = [];
}

abbrev pub chosen : Option ℕ → Option ℕ → Option ℕ
chosen old none = old
chosen old (some b) = some b

replace-objects :
    (old new : Option ℕ) (h : Heap)
    → ((replace_refresh_token old new h).0 ≡ chosen old new)
      × ((replace_refresh_token old new h).1.objects ≡ h.objects)
      × ((replace_refresh_token old new h).1.next_object ≡ h.next_object)
unfolding replace_refresh_token
replace-objects old none h = (refl, refl, refl)
replace-objects old (some b) h = (refl, zero_bytes-objects old h, zero_bytes-next_object old h)

pub apply_refresh-objects :
    (o : Options) (p : ℕ) (cred : Credential) (new : Option ℕ) (h : Heap) (q : ℕ)
    → (apply_refresh o p cred new h).objects q
      ≡ update h.objects p (renewed o cred (chosen (h.objects p).refresh_token new) (h.objects p)) q
unfolding apply_refresh drop_transports_locked
apply_refresh-objects o p cred new h q =
    let s = h.objects p in
    let h₁ = (credential_zero s.credential h).1 in
    ground
      (arith, replace-objects s.refresh_token new h₁, (credential_zero-objects s.credential h).0)

pub apply_refresh-next_object :
    (o : Options) (p : ℕ) (cred : Credential) (new : Option ℕ) (h : Heap)
    → (apply_refresh o p cred new h).next_object ≡ h.next_object
unfolding apply_refresh drop_transports_locked
apply_refresh-next_object o p cred new h =
    let s = h.objects p in
    let h₁ = (credential_zero s.credential h).1 in
    ground
      (arith, replace-objects s.refresh_token new h₁, (credential_zero-objects s.credential h).2)

renewed-IsLater :
    (o : Options) (cred : Credential) (token : Option ℕ) (s : Session)
    → IsLater o.max_lifetime s (renewed o cred token s)
renewed-IsLater o cred token s = record {
  id = refl;
  cap_key = refl;
  created_at = refl;
  capped = λ h. effective_expiry-le s.created_at o.max_lifetime cred.expires_at;
}

pub apply_refresh-Keeps :
    (o : Options) (p : ℕ) (cred : Credential) (new : Option ℕ) (h : Heap)
    → Keeps o.max_lifetime h (apply_refresh o p cred new h)
apply_refresh-Keeps o p cred new h =
    Keeps-update p _ h _ (apply_refresh-next_object o p cred new h)
      (apply_refresh-objects o p cred new h)
      (renewed-IsLater o cred (chosen (h.objects p).refresh_token new) (h.objects p))

module _ {m : ℕ} where
  store_refreshed-Keeps : (r : Refreshed) (h : Heap) → Keeps m h (store_refreshed r h).2
  unfolding store_refreshed
  store_refreshed-Keeps r h = Keeps-trans (new_buffer-Keeps r.token h) (
      Keeps-trans (new_buffer-Keeps r.cert_pem _)
        (Keeps-trans (new_buffer-Keeps r.key_pem _) (new_buffer-Keeps r.refresh_token _)))

  pub zero_each-Keeps : (ps : List ℕ) (h : Heap) → Keeps m h (zero_each ps h)
  unfolding zero_each
  zero_each-Keeps [] h = Keeps-refl h
  zero_each-Keeps (p ∷ ps) h =
      Keeps-trans (session_zero-Keeps p h) (zero_each-Keeps ps (session_zero p h))

call_refresher-Keeps :
    (o : Options) (p : ℕ) (r : Option Refreshed) (h : Heap)
    → Keeps o.max_lifetime h (call_refresher o p r h).1
unfolding call_refresher
call_refresher-Keeps o p none h = Keeps-refl h
call_refresher-Keeps o p (some r) h =
    let (cred, token, h') = store_refreshed r h in
    Keeps-trans (store_refreshed-Keeps r h) (apply_refresh-Keeps o p cred token h')

refresh_now-Keeps :
    (rs : Refreshers) (o : Options) (p : ℕ) (h : Heap)
    → Keeps o.max_lifetime h (refresh_now rs o p h).1
unfolding refresh_now
refresh_now-Keeps rs o p h =
    Keeps-trans (new_buffer-Keeps (contents (h.objects p).refresh_token h) h)
      (Keeps-trans (call_refresher-Keeps o p _ _) (zero_bytes-Keeps _ _))

pub maybe_refresh-Keeps :
    (rs : Refreshers) (o : Options) (p now locked : ℕ) (h : Heap)
    → Keeps o.max_lifetime h (maybe_refresh rs o p now locked h).1
unfolding maybe_refresh
maybe_refresh-Keeps rs o p now locked h =
    elim (Bool-cases (needs_refresh (h.objects p) now refresh_window)) [
      | inr e ↦ rw e (Keeps-refl h)
      | inl e ↦ rw e (elim (Bool-cases (needs_refresh (h.objects p) locked refresh_window)) [
        | inr f ↦ rw f (Keeps-refl h)
        | inl f ↦ rw f (refresh_now-Keeps rs o p h)
      ])
    ]

touch-Evolves : (p now : ℕ) (st : Store) → Evolves st (touch p now st)
unfolding touch
touch-Evolves p now st = record {
  same_opts = refl;
  keeps =
      Keeps-update p (record (st.heap.objects p) { last_seen = now }) st.heap _ refl (λ q. refl)
        (record { id = refl; cap_key = refl; created_at = refl; capped = λ h. h });
  pruned = same;
}

pub heap-Evolves :
    (st : Store) (h : Heap)
    → Keeps st.opts.max_lifetime st.heap h
    → Evolves st (record st { heap = h })
heap-Evolves st h k = record { same_opts = refl; keeps = k; pruned = same }

get_refreshed-Evolves :
    (id : String) (p : ℕ) (at : Readings) (st : Store) → Evolves st (get_refreshed id p at st).1
unfolding get_refreshed
get_refreshed-Evolves id p at st =
    elim (Bool-cases (credential_expired (st.heap.objects p) at.refreshed)) [
      | inl e ↦ rw e (delete_session-Evolves id st)
      | inr e ↦ rw e (touch-Evolves p at.returned st)
    ]

get_found-Evolves :
    (rs : Refreshers) (id : String) (p : ℕ) (at : Readings) (st : Store)
    → Evolves st (get_found rs id p at st).1
unfolding get_found
get_found-Evolves rs id p at st = elim (Bool-cases (alive st.opts (st.heap.objects p) at.found)) [
  | inr e ↦ rw e (delete_session-Evolves id st)
  | inl e ↦ rw e (
      Evolves-trans
        (heap-Evolves st _ (maybe_refresh-Keeps rs st.opts p at.found at.locked st.heap))
        (get_refreshed-Evolves id p at _))
]

pub get-Evolves :
    (rs : Refreshers) (id : String) (at : Readings) (st : Store) → Evolves st (get rs id at st).1
unfolding get
get-Evolves rs id at st = elim (Option-cases (lookup id st.sessions)) [
  | inl e ↦ rw (e, get) (Evolves-refl st)
  | inr (p, e) ↦ rw (e, get) (get_found-Evolves rs id p at st)
]

delete_batch-Pruned : (ids : List String) (t : Table ℕ) → Pruned t (delete_batch ids t).1
unfolding delete_batch
delete_batch-Pruned [] t = same
delete_batch-Pruned (id ∷ ids) t = without id (delete_batch-Pruned ids (delete id t))

pub sweep-Evolves : (fuel : ℕ) (ids : List String) (st : Store) → Evolves st (sweep fuel ids st)
unfolding sweep
sweep-Evolves zero ids st = Evolves-refl st
sweep-Evolves (suc fuel) [] st = Evolves-refl st
sweep-Evolves (suc fuel) (id ∷ ids) st =
    Evolves-trans
      (record {
        same_opts = refl;
        keeps =
            zero_each-Keeps (delete_batch (take gc_batch_size (id ∷ ids)) st.sessions).0 st.heap;
        pruned = delete_batch-Pruned (take gc_batch_size (id ∷ ids)) st.sessions;
      })
      (sweep-Evolves fuel _ _)

pub do_gc-Evolves : (now : ℕ) (st : Store) → Evolves st (do_gc now st)
unfolding do_gc
do_gc-Evolves now st =
    let ids = expired_ids st.opts st.heap now st.sessions in sweep-Evolves (length ids) ids st
