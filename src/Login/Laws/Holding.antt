-- ===== src/Login/Laws/Holding.antt =====
-- The buffers of a login's credential, and what they hold afterwards (pkg/server/auth.go).
use antrea_ui.Base.{
  ◌≡◌, ℕ, refl, Option, none, some, arith, Bytes, String, ◌≤◌, ◌<◌, ap, ◌∙◌, ◌≢◌, All, All-mono,
}
use antrea_ui.Session.Types.{Kind, Credential, Heap, Store}
use antrea_ui.Session.Memory.{material, contents, new_buffer}
use antrea_ui.Credentials.Kubeconfig.{NewCredential}
use antrea_ui.Login.Flows.{store_credential}
use antrea_ui.Session.Laws.Sparing.{IsFree}

abbrev buffers : Kind → Option Bytes → Option Bytes → Option Bytes → ℕ → NewCredential
buffers kind token cert_pem key_pem expires_at = record {
  kind = kind;
  token = token;
  cert_pem = cert_pem;
  key_pem = key_pem;
  expires_at = expires_at;
}

-- The buffers hold what the credential was read from.
abbrev pub IsHeld : NewCredential → Credential × Heap → Type 0
IsHeld n (c, h) =
    (contents c.token h ≡ n.token)
    × (contents c.cert_pem h ≡ n.cert_pem)
    × (contents c.key_pem h ≡ n.key_pem)

buffers-IsHeld :
    (kd : Kind) (t c k : Option Bytes) (x : ℕ) (h : Heap)
    → IsHeld (buffers kd t c k x) (store_credential (buffers kd t c k x) h)
unfolding store_credential new_buffer contents
buffers-IsHeld kd none none none x h = (refl, refl, refl)
buffers-IsHeld kd none none (some k) x h = (refl, refl, ground arith)
buffers-IsHeld kd none (some c) none x h = (refl, ground arith, refl)
buffers-IsHeld kd none (some c) (some k) x h = (refl, ground arith, ground arith)
buffers-IsHeld kd (some t) none none x h = (ground arith, refl, refl)
buffers-IsHeld kd (some t) none (some k) x h = (ground arith, refl, ground arith)
buffers-IsHeld kd (some t) (some c) none x h = (ground arith, ground arith, refl)
buffers-IsHeld kd (some t) (some c) (some k) x h = (ground arith, ground arith, ground arith)

pub store_credential-IsHeld : (n : NewCredential) (h : Heap) → IsHeld n (store_credential n h)
store_credential-IsHeld n h = buffers-IsHeld n.kind n.token n.cert_pem n.key_pem n.expires_at h

-- Each buffer that a session of the map names has been allocated.
abbrev pub IsAllocated : Heap → Option ℕ → Type 0
IsAllocated h none = Unit
IsAllocated h (some b) = b < h.next_buffer

abbrev pub AreAllocated : Store → Type 0
AreAllocated st =
    All (λ (e : String × ℕ). All (IsAllocated st.heap) (material (st.heap.objects e.1))) st.sessions

-- The buffer was allocated after this heap.
abbrev IsFresh : Heap → Option ℕ → Type 0
IsFresh h none = Unit
IsFresh h (some b) = h.next_buffer ≤ b

allocated_other :
    (h : Heap) (b : ℕ) (m : Option ℕ) → h.next_buffer ≤ b → IsAllocated h m → m ≢ some b
allocated_other h b none fresh a e = ground (arith, e)
allocated_other h b (some c) fresh a e = ground (arith, e, a, fresh)

pub fresh-IsFree :
    (b : ℕ) (st : Store) → st.heap.next_buffer ≤ b → AreAllocated st → IsFree b st.heap st.sessions
fresh-IsFree b st fresh a =
    All-mono _ _
      (λ (e : String × ℕ) x.
        All-mono _ _ (λ m y. allocated_other st.heap b m fresh y) (material (st.heap.objects e.1))
          x)
      st.sessions a

new_buffer-IsFresh :
    (v : Option Bytes) (h : Heap) (k : Heap)
    → k.next_buffer ≤ h.next_buffer
    → IsFresh k (new_buffer v h).0
unfolding new_buffer
new_buffer-IsFresh none h k le = tt
new_buffer-IsFresh (some v) h k le = le

new_buffer-grows : (v : Option Bytes) (h : Heap) → h.next_buffer ≤ (new_buffer v h).1.next_buffer
unfolding new_buffer
new_buffer-grows none h = omega arith
new_buffer-grows (some v) h = omega arith

pub new_buffer-objects : (v : Option Bytes) (h : Heap) → (new_buffer v h).1.objects ≡ h.objects
unfolding new_buffer
new_buffer-objects none h = refl
new_buffer-objects (some v) h = refl

pub store_credential-objects :
    (n : NewCredential) (h : Heap) → (store_credential n h).1.objects ≡ h.objects
unfolding store_credential
store_credential-objects n h = simp new_buffer-objects

store_credential-IsFresh :
    (n : NewCredential) (h : Heap)
    → IsFresh h (store_credential n h).0.token
      × IsFresh h (store_credential n h).0.cert_pem
      × IsFresh h (store_credential n h).0.key_pem
unfolding store_credential
store_credential-IsFresh n h =
    let h₁ = (new_buffer n.token h).1 in
    let h₂ = (new_buffer n.cert_pem h₁).1 in
    let g₁ = new_buffer-grows n.token h in
    let g₂ = new_buffer-grows n.cert_pem h₁ in
    (
      new_buffer-IsFresh n.token h h (omega arith),
      new_buffer-IsFresh n.cert_pem h₁ h g₁,
      new_buffer-IsFresh n.key_pem h₂ h (omega arith),
    )

same_contents :
    (m : Option ℕ) (st : Store) (h k : Heap)
    → IsFresh st.heap m
    → ((b : ℕ) → st.heap.next_buffer ≤ b → k.bytes b ≡ h.bytes b)
    → contents m k ≡ contents m h
unfolding contents
same_contents none st h k fresh kept = refl
same_contents (some b) st h k fresh kept = ap some (kept b fresh)

-- What is held stays held while the bytes of new buffers are as they were.
pub IsHeld-later :
    (n : NewCredential) (st : Store) (k : Heap)
    → ((b : ℕ) → st.heap.next_buffer ≤ b → k.bytes b ≡ (store_credential n st.heap).1.bytes b)
    → IsHeld n ((store_credential n st.heap).0, k)
IsHeld-later n st k kept =
    let e = store_credential-IsHeld n st.heap in
    let f = store_credential-IsFresh n st.heap in
    let h = (store_credential n st.heap).1 in
    (
      same_contents _ st h k f.0 kept ∙ e.0,
      same_contents _ st h k f.1 kept ∙ e.1,
      same_contents _ st h k f.2 kept ∙ e.2,
    )
