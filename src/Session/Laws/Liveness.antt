-- ===== src/Session/Laws/Liveness.antt =====
-- `Get`: which sessions it serves, and what is left of those that it ends.
use antrea_ui.Base.{
  ℕ, ◌+◌, ◌≤◌, ◌<◌, String, ◌≡◌, false, some, arith, refl, ap, ◌⊎◌, none, [], ◌∷◌, All, inl, inr,
  true, Bool-cases, Option-cases, lookup,
}
use antrea_ui.Session.Types.{
  Credential, Options, Session, Heap, Store, SessionError, Result, ok, err,
}
use antrea_ui.Session.Memory.{session_zero, IsErased, material}
use antrea_ui.Session.Memory.Erasure.{session_zero-material, emptied, session_zero-keeps_IsErased}
use antrea_ui.Session.Expiry.{alive, credential_expired, alive_bounds}
use antrea_ui.Session.Store.{delete_session, peek}
use antrea_ui.Session.Get.{
  Refreshers, Readings, maybe_refresh, get, get_found, get_refreshed, touch,
}
use antrea_ui.Session.Laws.Removal.{heap-delete_session, delete_session-IsGone}
use antrea_ui.Session.Laws.Renewal.{IsAccounted, maybe_refresh-IsAccounted}

-- The store `su` has served the session at `p`.
pub record IsServed (id : String) (p : ℕ) (at : Readings) (st su : Store) : Type 0 where
  pub known : peek id st ≡ some p
  pub within_lifetime : at.found ≤ (st.heap.objects p).created_at + st.opts.max_lifetime
  pub within_idle : at.found ≤ (st.heap.objects p).last_seen + st.opts.idle_timeout
  pub credential_valid :
      0 < (su.heap.objects p).credential.expires_at
      → at.refreshed ≤ (su.heap.objects p).credential.expires_at
  pub seen : (su.heap.objects p).last_seen ≡ at.returned
  pub same_map : su.sessions ≡ st.sessions

credential_valid_of :
    (s : Session) (now : ℕ)
    → credential_expired s now ≡ false
    → 0 < s.credential.expires_at
    → now ≤ s.credential.expires_at
unfolding credential_expired
credential_valid_of s now h pos = ground arith

-- The store `su` has ended the session at `p`.
pub record IsEnded (id : String) (p : ℕ) (at : Readings) (st su : Store) : Type 0 where
  pub known : peek id st ≡ some p
  pub forgotten : peek id su ≡ none
  pub erased_material : All (IsErased su.heap) (material (st.heap.objects p))
  pub emptied_object : material (su.heap.objects p) ≡ none ∷ none ∷ none ∷ none ∷ []
  pub reason :
      ((st.heap.objects p).created_at + st.opts.max_lifetime < at.found)
      ⊎ ((st.heap.objects p).last_seen + st.opts.idle_timeout < at.found)
      ⊎ (((st.heap.objects p).refresher ≡ none)
          × (0 < (st.heap.objects p).credential.expires_at)
          × ((st.heap.objects p).credential.expires_at < at.found))
      ⊎ ((0 < (su.heap.objects p).credential.expires_at)
          × ((su.heap.objects p).credential.expires_at < at.refreshed))

pub data Outcome (id : String) (at : Readings) (st : Store) : Result ℕ × Store → Type 0 where
  unknown : peek id st ≡ none → Outcome id at st (err SessionError.not_found, st)
  served : (p : ℕ) (su : Store) → IsServed id p at st su → Outcome id at st (ok p, su)
  ended :
      (p : ℕ) (su : Store) → IsEnded id p at st su → Outcome id at st (err SessionError.expired, su)

emptied-material : (s : Session) → material (emptied s) ≡ none ∷ none ∷ none ∷ none ∷ []
emptied-material s = refl

not_alive_reason :
    (o : Options) (s : Session) (now : ℕ)
    → alive o s now ≡ false
    → (s.created_at + o.max_lifetime < now)
      ⊎ (s.last_seen + o.idle_timeout < now)
      ⊎ ((s.refresher ≡ none) × (0 < s.credential.expires_at) × (s.credential.expires_at < now))
unfolding alive
not_alive_reason o s now h = elim (Option-cases s.refresher) [
  | inl e ↦ ground (arith, e)
  | inr (r, e) ↦ ground (arith, e)
]

not_alive-Outcome :
    (id : String) (p : ℕ) (at : Readings) (st : Store)
    → peek id st ≡ some p
    → alive st.opts (st.heap.objects p) at.found ≡ false
    → Outcome id at st (err SessionError.expired, delete_session id st)
not_alive-Outcome id p at st known dead =
    let g = delete_session-IsGone id p st known in
    let r = not_alive_reason st.opts (st.heap.objects p) at.found dead in
    ended p (delete_session id st) (record {
      known = known;
      forgotten = g.forgotten;
      erased_material = g.erased_material;
      emptied_object = ap material g.emptied_object;
      reason = ground arith;
    })

-- What was the session's, or erased, before its object was emptied is erased afterwards.
accounted-IsErased :
    (s : Session) (p : ℕ) (h : Heap)
    → IsAccounted s h p
    → All (IsErased (session_zero p h)) (material s)
accounted-IsErased s p h (inl same) =
    let e = session_zero-material p h in
    (
      rw (ap (λ (c : Credential). c.token) same.0) at e.0,
      (
        rw (ap (λ (c : Credential). c.cert_pem) same.0) at e.1.0,
        (rw (ap (λ (c : Credential). c.key_pem) same.0) at e.1.1.0, (rw same.1 at e.1.1.1.0, tt)),
      ),
    )
accounted-IsErased s p h (inr (c, t)) = (
  session_zero-keeps_IsErased p s.credential.token h c.0,
  (
    session_zero-keeps_IsErased p s.credential.cert_pem h c.1,
    (session_zero-keeps_IsErased p s.credential.key_pem h c.2, (token_erased t, tt)),
  ),
)
  where
    token_erased :
        IsErased h s.refresh_token ⊎ ((h.objects p).refresh_token ≡ s.refresh_token)
        → IsErased (session_zero p h) s.refresh_token
    token_erased (inl e) = session_zero-keeps_IsErased p s.refresh_token h e
    token_erased (inr same) = rw same at (session_zero-material p h).1.1.1.0

credential_expired_reason :
    (s : Session) (now : ℕ)
    → credential_expired s now ≡ true
    → (0 < s.credential.expires_at) × (s.credential.expires_at < now)
unfolding credential_expired
credential_expired_reason s now h = (ground arith, ground arith)

get_refreshed-Outcome :
    (id : String) (p : ℕ) (at : Readings) (st : Store) (h : Heap)
    → peek id st ≡ some p
    → alive st.opts (st.heap.objects p) at.found ≡ true
    → IsAccounted (st.heap.objects p) h p
    → Outcome id at st (get_refreshed id p at (record st { heap = h }))
unfolding get_refreshed touch peek
get_refreshed-Outcome id p at st h known live acc =
    let sh : Store = record st { heap = h } in
    elim (Bool-cases (credential_expired (h.objects p) at.refreshed)) [
      | inr valid ↦ rw valid (
          served p _ (record {
            known = known;
            within_lifetime = (alive_bounds st.opts (st.heap.objects p) at.found live).0;
            within_idle = (alive_bounds st.opts (st.heap.objects p) at.found live).1;
            credential_valid = ground (arith, credential_valid_of (h.objects p) at.refreshed valid);
            seen = ground arith;
            same_map = refl;
          }))
      | inl gone ↦ rw gone (
          ended p _ (record {
            known = known;
            forgotten = (delete_session-IsGone id p sh known).forgotten;
            erased_material =
                rw (heap-delete_session id p sh known)
                  (accounted-IsErased (st.heap.objects p) p h acc);
            emptied_object = ap material (delete_session-IsGone id p sh known).emptied_object;
            reason = inr (
                inr (
                  inr (
                    rw (delete_session-IsGone id p sh known).emptied_object
                      (credential_expired_reason (h.objects p) at.refreshed gone))));
          }))
    ]

-- The outcome of every `Get`. An unknown ID is refused and nothing changes. A session is served
-- only within its lifetime cap and its idle timeout, with a credential that has not expired by the
-- reading after the refresh, and its last-seen time is then the last reading. Otherwise it is ended,
-- and only for one of these reasons: the lifetime cap or the idle timeout was past; or a credential
-- that has an expiry had expired, at the first reading where the session cannot refresh it, or by
-- the reading after the refresh; one without an expiry never ends a session. Then the ID is forgotten, the buffers of all its material
-- hold zeros, those of a credential that the refresh has replaced included, and the object that
-- other requests hold names no material.
pub get-Outcome :
    (rs : Refreshers) (id : String) (at : Readings) (st : Store)
    → Outcome id at st (get rs id at st)
unfolding get get_found peek
get-Outcome rs id at st = elim (Option-cases (lookup id st.sessions)) [
  | inl e ↦ rw (e, get) (unknown e)
  | inr (p, e) ↦
      rw (e, get)
        (elim (Bool-cases (alive st.opts (st.heap.objects p) at.found)) [
          | inr dead ↦ rw dead (not_alive-Outcome id p at st e dead)
          | inl live ↦ rw live (
              get_refreshed-Outcome id p at st
                (maybe_refresh rs st.opts p at.found at.locked st.heap).1 e live
                (maybe_refresh-IsAccounted rs st.opts p at.found at.locked st.heap))
        ])
]
