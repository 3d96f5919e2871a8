-- ===== src/Session/Laws/Sparing.antt =====
-- Erasing the sessions of the map leaves every buffer alone that none of them names.
use antrea_ui.Base.{
  ℕ, String, ◌≡◌, ◌≢◌, refl, sym, subst, ap, ◌∙◌, inl, inr, Option, none, some, List, [], ◌∷◌,
  arith, ◌==◌, str_eq, ltb, length, Bool-cases, Option-cases, All, All-take, All-mono, All-sort_by,
  Table, lookup, delete, Bool, true, false,
}
use antrea_ui.Session.Types.{Session, Spec, Heap, Options, Store, Credential}
use antrea_ui.Session.Memory.{
  drop_transports_locked, material, zero_bytes, credential_zero, session_zero,
}
use antrea_ui.Session.Memory.Erasure.{session_zero-objects, emptied}
use antrea_ui.Session.Expiry.{alive}
use antrea_ui.Session.Store.{
  staler, create, register, make_room, evict_one_expired_locked, find_expired, allocate,
  new_session, per_user_cap_key, enforce_per_user_limit_locked, evict_each, to_evict, evict, owned,
  delete_session, delete_found,
}
use antrea_ui.Session.Invariant.{IsWellFormed, Entries}

-- The session names another buffer for each piece of its material, or none.
abbrev pub Unnamed : ℕ → Session → Type 0
Unnamed b s = All (λ m. m ≢ some b) (material s)

-- No session of the map names the buffer.
abbrev pub IsFree : ℕ → Heap → Table ℕ → Type 0
IsFree b h = All (λ (e : String × ℕ). Unnamed b (h.objects e.1))

-- The buffer has kept its bytes, and is still one that no session of the map names.
pub record IsSpared (b : ℕ) (st su : Store) : Type 0 where
  pub bytes : su.heap.bytes b ≡ st.heap.bytes b
  pub free : IsFree b su.heap su.sessions

module _ (b : ℕ) where
  zero_bytes-bytes : (m : Option ℕ) (h : Heap) → m ≢ some b → (zero_bytes m h).bytes b ≡ h.bytes b
  unfolding zero_bytes
  zero_bytes-bytes none h ne = refl
  zero_bytes-bytes (some c) h ne = elim (Bool-cases (b == c)) [
    | inl e ↦ let same : c ≡ b = ground arith in absurd (ne (ap some same))
    | inr e ↦ rw e refl
  ]

  pub credential_zero-bytes :
      (c : Credential) (h : Heap)
      → c.token ≢ some b
      → c.cert_pem ≢ some b
      → c.key_pem ≢ some b
      → (credential_zero c h).1.bytes b ≡ h.bytes b
  unfolding credential_zero
  credential_zero-bytes c h t p k =
      zero_bytes-bytes c.key_pem _ k
      ∙ zero_bytes-bytes c.cert_pem _ p
      ∙ zero_bytes-bytes c.token h t

  session_zero-bytes :
      (p : ℕ) (h : Heap) → Unnamed b (h.objects p) → (session_zero p h).bytes b ≡ h.bytes b
  unfolding session_zero drop_transports_locked
  session_zero-bytes p h u =
      zero_bytes-bytes (h.objects p).refresh_token (credential_zero (h.objects p).credential h).1
        u.1.1.1.0
      ∙ credential_zero-bytes (h.objects p).credential h u.0 u.1.0 u.1.1.0

  emptied-Unnamed : (s : Session) → Unnamed b (emptied s)
  emptied-Unnamed s = (
    λ e. ground (arith, e),
    (λ e. ground (arith, e), (λ e. ground (arith, e), (λ e. ground (arith, e), tt))),
  )

  session_zero-Unnamed :
      (p : ℕ) (h : Heap) (q : ℕ)
      → Unnamed b (h.objects q)
      → Unnamed b ((session_zero p h).objects q)
  session_zero-Unnamed p h q u =
      subst (Unnamed b) (sym (session_zero-objects p h q)) (elim (Bool-cases (q == p)) [
        | inl e ↦ rw e (emptied-Unnamed (h.objects p))
        | inr e ↦ rw e u
      ])

  session_zero-IsFree :
      (p : ℕ) (h : Heap) (t : Table ℕ) → IsFree b h t → IsFree b (session_zero p h) t
  session_zero-IsFree p h t = All-mono _ _ (λ (e : String × ℕ) u. session_zero-Unnamed p h e.1 u) t

  IsFree-delete : (id : String) (h : Heap) (t : Table ℕ) → IsFree b h t → IsFree b h (delete id t)
  unfolding delete
  IsFree-delete id h [] f = tt
  IsFree-delete id h ((j, p) ∷ t) f = elim (Bool-cases (str_eq id j)) [
    | inl hit ↦ rw hit (IsFree-delete id h t f.1)
    | inr miss ↦ rw miss (f.0, IsFree-delete id h t f.1)
  ]

  IsFree-lookup :
      (id : String) (p : ℕ) (h : Heap) (t : Table ℕ)
      → IsFree b h t
      → lookup id t ≡ some p
      → Unnamed b (h.objects p)
  unfolding lookup
  IsFree-lookup id p h [] f e = absurd (ground arith)
  IsFree-lookup id p h ((j, q) ∷ t) f e = elim (Bool-cases (str_eq id j)) [
    | inl hit ↦ let same : q ≡ p = ground arith in rw (← same) f.0
    | inr miss ↦ IsFree-lookup id p h t f.1 (ground arith)
  ]

  -- One session of the map is erased and taken out.
  removed-IsSpared :
      (id : String) (p : ℕ) (st : Store)
      → Unnamed b (st.heap.objects p)
      → IsFree b st.heap st.sessions
      → IsSpared b st
          (record st { sessions = delete id st.sessions; heap = session_zero p st.heap })
  removed-IsSpared id p st u f = record {
    bytes = session_zero-bytes p st.heap u;
    free =
        IsFree-delete id (session_zero p st.heap) st.sessions
          (session_zero-IsFree p st.heap st.sessions f);
  }

  pub delete_session-IsSpared :
      (id : String) (st : Store)
      → IsFree b st.heap st.sessions
      → IsSpared b st (delete_session id st)
  unfolding delete_session
  delete_session-IsSpared id st f = found (lookup id st.sessions) refl
    where
      found : (o : Option ℕ) → lookup id st.sessions ≡ o → IsSpared b st (delete_found id o st)
      found none e = record { bytes = refl; free = IsFree-delete id st.heap st.sessions f }
      found (some p) e = removed-IsSpared id p st (IsFree-lookup id p st.heap st.sessions f e) f

  evict_each-IsSpared :
      (ps : List ℕ) (st : Store)
      → All (λ p. Unnamed b (st.heap.objects p)) ps
      → IsFree b st.heap st.sessions
      → IsSpared b st (evict_each ps st)
  unfolding evict_each evict
  evict_each-IsSpared [] st us f = record { bytes = refl; free = f }
  evict_each-IsSpared (p ∷ ps) st us f =
      let one = removed-IsSpared (st.heap.objects p).id p st us.0 f in
      let rest =
        evict_each-IsSpared ps (evict p st)
          (All-mono _ _ (λ q u. session_zero-Unnamed p st.heap q u) ps us.1) one.free in
      record { bytes = rest.bytes ∙ one.bytes; free = rest.free }

  owned-Unnamed :
      (h k : Heap) (c : String) (t : Table ℕ)
      → IsFree b h t
      → All (λ p. Unnamed b (h.objects p)) (owned k c t)
  unfolding owned
  owned-Unnamed h k c [] f = tt
  owned-Unnamed h k c ((j, p) ∷ t) f = elim (Bool-cases (str_eq (k.objects p).cap_key c)) [
    | inl e ↦ rw e (f.0, owned-Unnamed h k c t f.1)
    | inr e ↦ rw e (owned-Unnamed h k c t f.1)
  ]

  to_evict-Unnamed :
      (c : String) (st : Store)
      → IsFree b st.heap st.sessions
      → All (λ p. Unnamed b (st.heap.objects p)) (to_evict c st)
  unfolding to_evict
  to_evict-Unnamed c st f =
      let mine = owned st.heap c st.sessions in
      elim (Bool-cases (ltb (length mine) st.opts.max_sessions_per_user)) [
        | inl few ↦ rw few tt
        | inr many ↦ rw many (
            All-take _ _ _ (
              All-sort_by (staler st.heap) (λ p. Unnamed b (st.heap.objects p)) mine
                (owned-Unnamed st.heap st.heap c st.sessions f)))
      ]

  enforce-IsSpared :
      (c : String) (st : Store)
      → IsFree b st.heap st.sessions
      → IsSpared b st (enforce_per_user_limit_locked c st)
  unfolding enforce_per_user_limit_locked
  enforce-IsSpared c st f = elim (Bool-cases (str_eq c "")) [
    | inl e ↦ rw e (record { bytes = refl; free = f })
    | inr e ↦ rw e (evict_each-IsSpared (to_evict c st) st (to_evict-Unnamed c st f) f)
  ]

  find_expired-Unnamed :
      (o : Options) (h : Heap) (now : ℕ) (t : Table ℕ) (id : String) (p : ℕ)
      → IsFree b h t
      → find_expired o h now t ≡ some (id, p)
      → Unnamed b (h.objects p)
  unfolding find_expired
  find_expired-Unnamed o h now [] id p f e = absurd (ground arith)
  find_expired-Unnamed o h now ((j, q) ∷ t) id p f e =
      elim (Bool-cases (alive o (h.objects q) now)) [
        | inl a ↦ find_expired-Unnamed o h now t id p f.1 (ground arith)
        | inr a ↦ let same : q ≡ p = ground arith in rw (← same) f.0
      ]

  make_room-IsSpared :
      (now : ℕ) (st : Store) → IsFree b st.heap st.sessions → IsSpared b st (make_room now st).1
  unfolding make_room evict_one_expired_locked
  make_room-IsSpared now st f = elim (Bool-cases (ltb (length st.sessions) st.opts.max_sessions)) [
    | inl r ↦ rw r (record { bytes = refl; free = f })
    | inr r ↦ rw r (elim (Option-cases (find_expired st.opts st.heap now st.sessions)) [
      | inl n ↦ rw (n, evict_one_expired_locked) (record { bytes = refl; free = f })
      | inr ((id, p), n) ↦
          rw (n, evict_one_expired_locked)
            (removed-IsSpared id p st
              (find_expired-Unnamed st.opts st.heap now st.sessions id p f n) f)
    ])
  ]

  -- A new object is not one of the map yet.
  allocate-IsFree :
      (m : ℕ) (s : Session) (st : Store) (t : Table ℕ)
      → Entries m st.heap t
      → IsFree b st.heap t
      → IsFree b (allocate s st).heap t
  unfolding allocate
  allocate-IsFree m s st [] e f = tt
  allocate-IsFree m s st ((j, p) ∷ t) e f =
      let old : (p == st.heap.next_object) ≡ false = ground (arith, e.0.allocated) in
      (rw old f.0, allocate-IsFree m s st t e.1 f.1)

  register-bytes :
      (id : String) (p : ℕ) (r : Bool × Store) → (register id p r).1.heap.bytes b ≡ r.1.heap.bytes b
  register-bytes id p (true, st) = refl
  register-bytes id p (false, st) = refl

  -- `Create` leaves the bytes of a buffer alone that no session of the map names, even if the new
  -- session names it.
  pub create-spares :
      (random : Option String) (now : ℕ) (spec : Spec) (st : Store)
      → IsWellFormed st
      → IsFree b st.heap st.sessions
      → (create random now spec st).1.heap.bytes b ≡ st.heap.bytes b
  unfolding create
  create-spares none now spec st w f = refl
  create-spares (some id) now spec st w f =
      let s = new_session id now st.opts spec in
      let c = per_user_cap_key spec in
      let st₁ = allocate s st in
      let st₂ = enforce_per_user_limit_locked c st₁ in
      let f₁ = allocate-IsFree st.opts.max_lifetime s st st.sessions w.entries f in
      let e₂ = enforce-IsSpared c st₁ f₁ in
      register-bytes id st.heap.next_object (make_room now st₂)
      ∙ (make_room-IsSpared now st₂ e₂.free).bytes
      ∙ e₂.bytes
