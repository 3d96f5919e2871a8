-- ===== src/Session/Memory/Erasure.antt =====
-- What erasing a session leaves behind: nothing of its credential material.
use antrea_ui.Base.{ℕ, ◌≡◌, refl, Option, none, some, List, [], ◌∷◌, ◌++◌, All, arith}
use antrea_ui.Session.Types.{Spec, Session, Credential, Heap}
use antrea_ui.Session.Memory.{
  Spec, spec_zero, update, erased, zero_bytes, credential_zero, cleanups, drop_transports_locked,
  session_zero, IsErased, material,
}

erased-All : (v : List ℕ) → All (λ x. x ≡ 0) (erased v)
erased-All [] = tt
erased-All (x ∷ v) = (refl, erased-All v)

pub zero_bytes-IsErased : (b : Option ℕ) (h : Heap) → IsErased (zero_bytes b h) b
unfolding zero_bytes
zero_bytes-IsErased none h = tt
zero_bytes-IsErased (some b) h = ground (arith, erased-All (h.bytes b))

pub zero_bytes-keeps_IsErased :
    (b c : Option ℕ) (h : Heap) → IsErased h c → IsErased (zero_bytes b h) c
unfolding zero_bytes
zero_bytes-keeps_IsErased none c h e = e
zero_bytes-keeps_IsErased (some b) none h e = tt
zero_bytes-keeps_IsErased (some b) (some c) h e = ground (arith, erased-All (h.bytes b))

-- Erasing writes to buffers alone.
pub zero_bytes-objects : (b : Option ℕ) (h : Heap) → (zero_bytes b h).objects ≡ h.objects
unfolding zero_bytes
zero_bytes-objects none h = refl
zero_bytes-objects (some b) h = refl

pub zero_bytes-released : (b : Option ℕ) (h : Heap) → (zero_bytes b h).released ≡ h.released
unfolding zero_bytes
zero_bytes-released none h = refl
zero_bytes-released (some b) h = refl

pub zero_bytes-next_object :
    (b : Option ℕ) (h : Heap) → (zero_bytes b h).next_object ≡ h.next_object
unfolding zero_bytes
zero_bytes-next_object none h = refl
zero_bytes-next_object (some b) h = refl

pub credential_zero-objects :
    (c : Credential) (h : Heap)
    → ((credential_zero c h).1.objects ≡ h.objects)
      × ((credential_zero c h).1.released ≡ h.released)
      × ((credential_zero c h).1.next_object ≡ h.next_object)
unfolding credential_zero
credential_zero-objects c h =
    (simp zero_bytes-objects, simp zero_bytes-released, simp zero_bytes-next_object)

pub credential_zero-IsErased :
    (c : Credential) (h : Heap)
    → IsErased (credential_zero c h).1 c.token
      × IsErased (credential_zero c h).1 c.cert_pem
      × IsErased (credential_zero c h).1 c.key_pem
unfolding credential_zero
credential_zero-IsErased c h =
    let h₁ = zero_bytes c.token h in
    let h₂ = zero_bytes c.cert_pem h₁ in
    (
      zero_bytes-keeps_IsErased c.key_pem c.token h₂
          (zero_bytes-keeps_IsErased c.cert_pem c.token h₁ (zero_bytes-IsErased c.token h)),
      zero_bytes-keeps_IsErased c.key_pem c.cert_pem h₂ (zero_bytes-IsErased c.cert_pem h₁),
      zero_bytes-IsErased c.key_pem h₂,
    )

pub credential_zero-keeps_IsErased :
    (c : Credential) (b : Option ℕ) (h : Heap) → IsErased h b → IsErased (credential_zero c h).1 b
unfolding credential_zero
credential_zero-keeps_IsErased c b h e =
    zero_bytes-keeps_IsErased c.key_pem b _
      (zero_bytes-keeps_IsErased c.cert_pem b _ (zero_bytes-keeps_IsErased c.token b h e))

-- Each buffer of the session's credential and its refresh token is filled with zeros.
pub session_zero-material :
    (p : ℕ) (h : Heap) → All (IsErased (session_zero p h)) (material (h.objects p))
unfolding session_zero drop_transports_locked
session_zero-material p h =
    let s = h.objects p in
    let (c, h₁) = credential_zero s.credential h in
    let e = credential_zero-IsErased s.credential h in
    (
      zero_bytes-keeps_IsErased s.refresh_token s.credential.token h₁ e.0,
      (
        zero_bytes-keeps_IsErased s.refresh_token s.credential.cert_pem h₁ e.1,
        (
          zero_bytes-keeps_IsErased s.refresh_token s.credential.key_pem h₁ e.2,
          (zero_bytes-IsErased s.refresh_token h₁, tt),
        ),
      ),
    )

-- What was erased before stays so.
pub session_zero-keeps_IsErased :
    (p : ℕ) (b : Option ℕ) (h : Heap) → IsErased h b → IsErased (session_zero p h) b
unfolding session_zero drop_transports_locked
session_zero-keeps_IsErased p b h e =
    zero_bytes-keeps_IsErased (h.objects p).refresh_token b _
      (credential_zero-keeps_IsErased (h.objects p).credential b h e)

-- The erased object: no material, no transport, all else as it was.
abbrev pub emptied : Session → Session
emptied s = record s {
  credential = record (s.credential) { token = none; cert_pem = none; key_pem = none };
  refresh_token = none;
  transports = [];
}

pub session_zero-objects :
    (p : ℕ) (h : Heap) (q : ℕ)
    → (session_zero p h).objects q ≡ update h.objects p (emptied (h.objects p)) q
unfolding session_zero drop_transports_locked credential_zero
session_zero-objects p h q = ground (
  arith,
  zero_bytes-objects (h.objects p).refresh_token (credential_zero (h.objects p).credential h).1,
  (credential_zero-objects (h.objects p).credential h).0,
)

pub session_zero-released :
    (p : ℕ) (h : Heap)
    → (session_zero p h).released ≡ h.released ++ cleanups (h.objects p).transports
unfolding session_zero drop_transports_locked
session_zero-released p h = ground (
  arith,
  zero_bytes-released (h.objects p).refresh_token (credential_zero (h.objects p).credential h).1,
  (credential_zero-objects (h.objects p).credential h).1,
)

pub session_zero-next_object : (p : ℕ) (h : Heap) → (session_zero p h).next_object ≡ h.next_object
unfolding session_zero drop_transports_locked
session_zero-next_object p h = cc (
  zero_bytes-next_object (h.objects p).refresh_token (credential_zero (h.objects p).credential h).1,
  (credential_zero-objects (h.objects p).credential h).2,
)

-- The buffers of a login that has no session yet.
abbrev pub spec_material : Spec → List (Option ℕ)
spec_material s =
    s.credential.token ∷ s.credential.cert_pem ∷ s.credential.key_pem ∷ s.refresh_token ∷ []

pub spec_zero-material : (s : Spec) (h : Heap) → All (IsErased (spec_zero s h).1) (spec_material s)
unfolding spec_zero
spec_zero-material s h =
    let (c, h₁) = credential_zero s.credential h in
    let e = credential_zero-IsErased s.credential h in
    let keep = λ (b : Option ℕ). zero_bytes-keeps_IsErased s.refresh_token b h₁ in
    (
      keep s.credential.token e.0,
      (
        keep s.credential.cert_pem e.1,
        (keep s.credential.key_pem e.2, (zero_bytes-IsErased s.refresh_token h₁, tt)),
      ),
    )

pub spec_zero-objects :
    (s : Spec) (h : Heap)
    → ((spec_zero s h).1.objects ≡ h.objects) × ((spec_zero s h).1.next_object ≡ h.next_object)
unfolding spec_zero
spec_zero-objects s h =
    let k = (credential_zero s.credential h).1 in
    let c = credential_zero-objects s.credential h in
    (
      cc (zero_bytes-objects s.refresh_token k, c.0),
      cc (zero_bytes-next_object s.refresh_token k, c.2),
    )
