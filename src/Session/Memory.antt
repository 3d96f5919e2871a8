-- ===== src/Session/Memory.antt =====
-- Erasure of credential material (session.go: zeroBytes, Credential.Zero, Spec.Zero,
-- Session.zero, dropTransportsLocked) on the heap of buffers and session objects.
pub mod Erasure
pub mod Keeping
use antrea_ui.Base.{
  ℕ, suc, ◌≡◌, Option, none, some, List, [], ◌∷◌, ◌++◌, map, All, Table, ◌==◌, if◌then◌else◌, zero,
}
use antrea_ui.Session.Types.{Credential, CachedTransport, Session, Spec, Heap}

abbrev pub update {ℓ} : {A : Type ℓ} → (ℕ → A) → ℕ → A → ℕ → A
update f p v q = if q == p then v else f q

abbrev pub erased : List ℕ → List ℕ
erased = map (λ _. 0)

unfoldable pub zero_bytes : Option ℕ → Heap → Heap
zero_bytes none h = h
zero_bytes (some b) h = record h { bytes = update h.bytes b (erased (h.bytes b)) }

unfoldable pub credential_zero : Credential → Heap → Credential × Heap
unfolding zero_bytes
credential_zero c h = (
  record c { token = none; cert_pem = none; key_pem = none },
  zero_bytes c.key_pem (zero_bytes c.cert_pem (zero_bytes c.token h)),
)

unfoldable pub spec_zero : Spec → Heap → Spec × Heap
unfolding credential_zero
spec_zero s h =
    let (c, h') = credential_zero s.credential h in
    (record s { credential = c; refresh_token = none }, zero_bytes s.refresh_token h')

-- The cleanup functions that discarding these transports calls.
unfoldable pub cleanups : Table CachedTransport → List ℕ
cleanups [] = []
cleanups ((k, t) ∷ ts) = elim t.cleanup [ none ↦ cleanups ts | some c ↦ c ∷ cleanups ts ]

unfoldable pub drop_transports_locked : ℕ → Heap → Heap
unfolding cleanups
drop_transports_locked p h = record h {
  objects = update h.objects p (record (h.objects p) { transports = [] });
  released = h.released ++ cleanups (h.objects p).transports;
}

unfoldable pub session_zero : ℕ → Heap → Heap
unfolding credential_zero drop_transports_locked
session_zero p h =
    let s = h.objects p in
    let (c, h₁) = credential_zero s.credential h in
    let h₂ = zero_bytes s.refresh_token h₁ in
    drop_transports_locked p (record h₂ {
      objects = update h₂.objects p (record s { credential = c; refresh_token = none });
    })

-- A buffer of an old slice is copied, or new material stored: `make` and `copy`.
unfoldable pub new_buffer : Option (List ℕ) → Heap → Option ℕ × Heap
new_buffer none h = (none, h)
new_buffer (some v) h = (
  some h.next_buffer,
  record h { bytes = update h.bytes h.next_buffer v; next_buffer = suc h.next_buffer },
)

unfoldable pub contents : Option ℕ → Heap → Option (List ℕ)
contents none h = none
contents (some b) h = some (h.bytes b)

-- Every byte of the buffer is 0.
abbrev pub IsErased : Heap → Option ℕ → Type 0
IsErased h none = Unit
IsErased h (some b) = All (λ x. x ≡ 0) (h.bytes b)

-- The buffers that hold a session's credential material.
abbrev pub material : Session → List (Option ℕ)
material s =
    s.credential.token ∷ s.credential.cert_pem ∷ s.credential.key_pem ∷ s.refresh_token ∷ []
