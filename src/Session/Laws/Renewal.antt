-- ===== src/Session/Laws/Renewal.antt =====
-- A credential refresh: what it stores, what it erases, and what it leaves alone.
use antrea_ui.Base.{
  ℕ, ◌≡◌, refl, ◌⊎◌, inl, inr, Option, none, some, ap, ◌∙◌, ◌≢◌, List, arith, Bool-cases,
}
use antrea_ui.Session.Types.{Session, Credential, Heap, Options, refresh_window}
use antrea_ui.Session.Memory.{
  zero_bytes, credential_zero, drop_transports_locked, new_buffer, contents, IsErased,
}
use antrea_ui.Session.Memory.Erasure.{
  zero_bytes-IsErased, zero_bytes-keeps_IsErased, zero_bytes-objects, credential_zero-IsErased,
}
use antrea_ui.Session.Expiry.{needs_refresh}
use antrea_ui.Session.Get.{
  Refreshers, Refreshed, store_refreshed, replace_refresh_token, apply_refresh, call_refresher,
  refresh_now, maybe_refresh, ask,
}
use antrea_ui.Session.Invariant.Lookups.{renewed, chosen, apply_refresh-objects}

-- The material of the session `s` at `p` in a later heap: still the session's, or erased.
abbrev pub IsAccounted : Session → Heap → ℕ → Type 0
IsAccounted s h p =
    ((h.objects p).credential ≡ s.credential × ((h.objects p).refresh_token ≡ s.refresh_token))
    ⊎ ((IsErased h s.credential.token
          × IsErased h s.credential.cert_pem
          × IsErased h s.credential.key_pem)
        × (IsErased h s.refresh_token ⊎ ((h.objects p).refresh_token ≡ s.refresh_token)))

replace-keeps_IsErased :
    (old new b : Option ℕ) (h : Heap)
    → IsErased h b
    → IsErased (replace_refresh_token old new h).1 b
unfolding replace_refresh_token
replace-keeps_IsErased old none b h e = e
replace-keeps_IsErased old (some n) b h e = zero_bytes-keeps_IsErased old b h e

replace-old :
    (old new : Option ℕ) (h : Heap)
    → IsErased (replace_refresh_token old new h).1 old ⊎ (chosen old new ≡ old)
unfolding replace_refresh_token
replace-old old none h = inr refl
replace-old old (some n) h = inl (zero_bytes-IsErased old h)

-- The session after a refresh: the new credential, the new refresh token if there is one, no
-- cached transport, and an expiry within the absolute cap. Its identity stays, and so does every
-- other session.
pub apply_refresh-renews :
    (o : Options) (p : ℕ) (cred : Credential) (new : Option ℕ) (h : Heap)
    → ((apply_refresh o p cred new h).objects p
        ≡ renewed o cred (chosen (h.objects p).refresh_token new) (h.objects p))
      × ((q : ℕ) → q ≢ p → (apply_refresh o p cred new h).objects q ≡ h.objects q)
apply_refresh-renews o p cred new h = (
  ground (arith, apply_refresh-objects o p cred new h p),
  λ q ne. ground (arith, apply_refresh-objects o p cred new h q),
)

pub apply_refresh-token :
    (o : Options) (p : ℕ) (cred : Credential) (new : Option ℕ) (h : Heap)
    → ((apply_refresh o p cred new h).objects p).refresh_token
      ≡ chosen (h.objects p).refresh_token new
apply_refresh-token o p cred new h =
    ap (λ (s : Session). s.refresh_token) (apply_refresh-renews o p cred new h).0

-- The old credential's buffers hold zeros after a refresh; the old refresh token's do too, unless
-- the provider sent no new one and it stays the session's.
pub apply_refresh-erases :
    (o : Options) (p : ℕ) (cred : Credential) (new : Option ℕ) (h : Heap)
    → (IsErased (apply_refresh o p cred new h) (h.objects p).credential.token
        × IsErased (apply_refresh o p cred new h) (h.objects p).credential.cert_pem
        × IsErased (apply_refresh o p cred new h) (h.objects p).credential.key_pem)
      × (IsErased (apply_refresh o p cred new h) (h.objects p).refresh_token
          ⊎ (((apply_refresh o p cred new h).objects p).refresh_token
              ≡ (h.objects p).refresh_token))
unfolding apply_refresh drop_transports_locked
apply_refresh-erases o p cred new h =
    let s = h.objects p in
    let h₁ = (credential_zero s.credential h).1 in
    let e = credential_zero-IsErased s.credential h in
    (
      (
        replace-keeps_IsErased s.refresh_token new s.credential.token h₁ e.0,
        replace-keeps_IsErased s.refresh_token new s.credential.cert_pem h₁ e.1,
        replace-keeps_IsErased s.refresh_token new s.credential.key_pem h₁ e.2,
      ),
      elim (replace-old s.refresh_token new h₁) [
        | inl erased ↦ inl erased
        | inr kept ↦ inr (apply_refresh-token o p cred new h ∙ kept)
      ],
    )

pub new_buffer-objects : (v : Option (List ℕ)) (h : Heap) → (new_buffer v h).1.objects ≡ h.objects
unfolding new_buffer
new_buffer-objects none h = refl
new_buffer-objects (some v) h = refl

pub store_refreshed-objects :
    (r : Refreshed) (h : Heap) → (store_refreshed r h).2.objects ≡ h.objects
unfolding store_refreshed
store_refreshed-objects r h = simp new_buffer-objects

IsAccounted-refl : (s : Session) (h : Heap) (p : ℕ) → h.objects p ≡ s → IsAccounted s h p
IsAccounted-refl s h p e =
    inl (ap (λ (t : Session). t.credential) e, ap (λ (t : Session). t.refresh_token) e)

apply_refresh-IsAccounted :
    (o : Options) (p : ℕ) (cred : Credential) (new : Option ℕ) (h : Heap) (s : Session)
    → h.objects p ≡ s
    → IsAccounted s (apply_refresh o p cred new h) p
apply_refresh-IsAccounted o p cred new h s e = rw (← e) (inr (apply_refresh-erases o p cred new h))

call_refresher-IsAccounted :
    (o : Options) (p : ℕ) (r : Option Refreshed) (h : Heap)
    → IsAccounted (h.objects p) (call_refresher o p r h).1 p
unfolding call_refresher
call_refresher-IsAccounted o p none h = IsAccounted-refl _ h p refl
call_refresher-IsAccounted o p (some r) h =
    let (cred, token, h') = store_refreshed r h in
    apply_refresh-IsAccounted o p cred token h' (h.objects p)
      (ap (λ (f : ℕ → Session). f p) (store_refreshed-objects r h))

zero_bytes-IsAccounted :
    (b : Option ℕ) (s : Session) (h : Heap) (p : ℕ)
    → IsAccounted s h p
    → IsAccounted s (zero_bytes b h) p
zero_bytes-IsAccounted b s h p (inl same) = rw (zero_bytes-objects b h) (inl same)
zero_bytes-IsAccounted b s h p (inr (c, inl t)) = inr (
  (
    zero_bytes-keeps_IsErased b s.credential.token h c.0,
    zero_bytes-keeps_IsErased b s.credential.cert_pem h c.1,
    zero_bytes-keeps_IsErased b s.credential.key_pem h c.2,
  ),
  inl (zero_bytes-keeps_IsErased b s.refresh_token h t),
)
zero_bytes-IsAccounted b s h p (inr (c, inr t)) = inr (
  (
    zero_bytes-keeps_IsErased b s.credential.token h c.0,
    zero_bytes-keeps_IsErased b s.credential.cert_pem h c.1,
    zero_bytes-keeps_IsErased b s.credential.key_pem h c.2,
  ),
  inr (rw (zero_bytes-objects b h) t),
)

refresh_now-IsAccounted :
    (rs : Refreshers) (o : Options) (p : ℕ) (h : Heap)
    → IsAccounted (h.objects p) (refresh_now rs o p h).1 p
unfolding refresh_now
refresh_now-IsAccounted rs o p h =
    let (copy, h₁) = new_buffer (contents (h.objects p).refresh_token h) h in
    let r = ask rs (h.objects p).refresher (contents copy h₁) in
    zero_bytes-IsAccounted copy (h.objects p) _ p (
      rw (new_buffer-objects (contents (h.objects p).refresh_token h) h) at
        (call_refresher-IsAccounted o p r h₁))

-- Whether or not `maybeRefresh` calls the provider, and whatever that answers, each piece of the
-- session's old credential material is still the session's, or has been erased.
pub maybe_refresh-IsAccounted :
    (rs : Refreshers) (o : Options) (p now locked : ℕ) (h : Heap)
    → IsAccounted (h.objects p) (maybe_refresh rs o p now locked h).1 p
unfolding maybe_refresh
maybe_refresh-IsAccounted rs o p now locked h =
    elim (Bool-cases (needs_refresh (h.objects p) now refresh_window)) [
      | inr e ↦ rw e (IsAccounted-refl (h.objects p) h p refl)
      | inl e ↦ rw e (elim (Bool-cases (needs_refresh (h.objects p) locked refresh_window)) [
        | inr f ↦ rw f (IsAccounted-refl (h.objects p) h p refl)
        | inl f ↦ rw f (refresh_now-IsAccounted rs o p h)
      ])
    ]
