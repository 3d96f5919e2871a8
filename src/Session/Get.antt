-- ===== src/Session/Get.antt =====
-- Looking a session up: refresh of its credential, and the sweep of expired sessions (store.go:
-- maybeRefresh, applyRefresh, Get, doGC; session.go: refreshTokenCopy).
use antrea_ui.Base.{
  ℕ, zero, suc, String, Bool, true, false, Option, none, some, List, [], ◌∷◌, Table, lookup, delete,
  length, take, drop, if◌then◌else◌,
}
use antrea_ui.Session.Types.{
  Kind, Credential, Session, Heap, Options, Store, SessionError, Result, ok, err, refresh_window,
  gc_batch_size,
}
use antrea_ui.Session.Memory.{
  update, zero_bytes, credential_zero, drop_transports_locked, session_zero, new_buffer, contents,
}
use antrea_ui.Session.Expiry.{effective_expiry, alive, credential_expired, needs_refresh}
use antrea_ui.Session.Store.{delete_session}

-- What a `Refresher` answers: a credential and the next refresh token, in buffers of their own.
pub record Refreshed : Type 0 where
  pub kind : Kind
  pub token : Option (List ℕ)
  pub cert_pem : Option (List ℕ)
  pub key_pem : Option (List ℕ)
  pub user_name : String
  pub expires_at : ℕ
  pub refresh_token : Option (List ℕ)

-- The refreshers by their handles; `none` is an error.
abbrev pub Refreshers : Type 0
Refreshers = ℕ → Option (List ℕ) → Option Refreshed

-- The clock readings of one `Get`, in order.
pub record Readings : Type 0 where
  pub found : ℕ
  pub locked : ℕ
  pub refreshed : ℕ
  pub returned : ℕ

unfoldable pub store_refreshed : Refreshed → Heap → Credential × Option ℕ × Heap
unfolding new_buffer
store_refreshed r h =
    let (token, h₁) = new_buffer r.token h in
    let (cert_pem, h₂) = new_buffer r.cert_pem h₁ in
    let (key_pem, h₃) = new_buffer r.key_pem h₂ in
    let (refresh_token, h₄) = new_buffer r.refresh_token h₃ in
    (
      record {
        kind = r.kind;
        token = token;
        cert_pem = cert_pem;
        key_pem = key_pem;
        user_name = r.user_name;
        expires_at = r.expires_at;
      },
      refresh_token,
      h₄,
    )

-- `if newRefreshToken != nil`: the old token is erased and replaced.
unfoldable pub replace_refresh_token : Option ℕ → Option ℕ → Heap → Option ℕ × Heap
unfolding zero_bytes
replace_refresh_token old none h = (old, h)
replace_refresh_token old (some b) h = (some b, zero_bytes old h)

unfoldable pub apply_refresh : Options → ℕ → Credential → Option ℕ → Heap → Heap
unfolding credential_zero replace_refresh_token drop_transports_locked effective_expiry
apply_refresh o p cred new_refresh_token h =
    let s = h.objects p in
    let (_, h₁) = credential_zero s.credential h in
    let (token, h₂) = replace_refresh_token s.refresh_token new_refresh_token h₁ in
    let expiry = effective_expiry s.created_at o.max_lifetime cred.expires_at in
    let t : Session = record s { credential = cred; refresh_token = token; expires_at = expiry } in
    drop_transports_locked p (record h₂ { objects = update h₂.objects p t })

-- The refresh proper, with the copy of the refresh token that it erases when it returns.
unfoldable pub call_refresher : Options → ℕ → Option Refreshed → Heap → Bool × Heap
unfolding store_refreshed apply_refresh
call_refresher o p none h = (false, h)
call_refresher o p (some r) h =
    let (cred, token, h') = store_refreshed r h in (true, apply_refresh o p cred token h')

-- The handle is read only where `needs_refresh` has found one.
abbrev pub ask : Refreshers → Option ℕ → Option (List ℕ) → Option Refreshed
ask rs none token = none
ask rs (some r) token = rs r token

unfoldable pub refresh_now : Refreshers → Options → ℕ → Heap → Bool × Heap
unfolding new_buffer contents call_refresher zero_bytes
refresh_now rs o p h =
    let s = h.objects p in
    let (copy, h₁) = new_buffer (contents s.refresh_token h) h in
    let (done, h₂) = call_refresher o p (ask rs s.refresher (contents copy h₁)) h₁ in
    (done, zero_bytes copy h₂)

-- Whether no error came back, and the heap.
unfoldable pub maybe_refresh : Refreshers → Options → ℕ → ℕ → ℕ → Heap → Bool × Heap
unfolding needs_refresh refresh_now
maybe_refresh rs o p now locked h =
    if needs_refresh (h.objects p) now refresh_window
    then (if needs_refresh (h.objects p) locked refresh_window
        then refresh_now rs o p h
        else (true, h))
    else (true, h)

unfoldable pub touch : ℕ → ℕ → Store → Store
touch p now st = record st {
  heap = record (st.heap) {
    objects = update st.heap.objects p (record (st.heap.objects p) { last_seen = now });
  };
}

unfoldable pub get_refreshed : String → ℕ → Readings → Store → Result ℕ × Store
unfolding credential_expired touch delete_session
get_refreshed id p at st =
    if credential_expired (st.heap.objects p) at.refreshed
    then (err SessionError.expired, delete_session id st)
    else (ok p, touch p at.returned st)

unfoldable pub get_found : Refreshers → String → ℕ → Readings → Store → Result ℕ × Store
unfolding alive maybe_refresh get_refreshed delete_session
get_found rs id p at st =
    if alive st.opts (st.heap.objects p) at.found
    then get_refreshed id p at
        (record st { heap = (maybe_refresh rs st.opts p at.found at.locked st.heap).1 })
    else (err SessionError.expired, delete_session id st)

-- A failed refresh is logged only.
unfoldable pub get : Refreshers → String → Readings → Store → Result ℕ × Store
unfolding get_found
get rs id at st = elim (lookup id st.sessions) [
  | none ↦ (err SessionError.not_found, st)
  | some p ↦ get_found rs id p at st
]

-- The IDs that a sweep collects under the read lock.
unfoldable pub expired_ids : Options → Heap → ℕ → Table ℕ → List String
unfolding alive
expired_ids o h now [] = []
expired_ids o h now ((id, p) ∷ t) =
    let rest = expired_ids o h now t in if alive o (h.objects p) now then rest else id ∷ rest

-- One batch under the write lock: the IDs that are still in the map leave it, with their sessions.
unfoldable pub delete_batch : List String → Table ℕ → List ℕ × Table ℕ
delete_batch [] t = ([], t)
delete_batch (id ∷ ids) t =
    let (evicted, t') = delete_batch ids (delete id t) in
    (elim (lookup id t) [ none ↦ evicted | some p ↦ p ∷ evicted ], t')

unfoldable pub zero_each : List ℕ → Heap → Heap
zero_each [] h = h
zero_each (p ∷ ps) h = zero_each ps (session_zero p h)

-- The loop over the batches, on fuel.
unfoldable pub sweep : ℕ → List String → Store → Store
unfolding delete_batch zero_each
sweep zero ids st = st
sweep (suc fuel) [] st = st
sweep (suc fuel) (id ∷ ids) st =
    let (evicted, t) = delete_batch (take gc_batch_size (id ∷ ids)) st.sessions in
    sweep fuel (drop gc_batch_size (id ∷ ids))
      (record st { sessions = t; heap = zero_each evicted st.heap })

unfoldable pub do_gc : ℕ → Store → Store
unfolding expired_ids sweep
do_gc now st = let ids = expired_ids st.opts st.heap now st.sessions in sweep (length ids) ids st
