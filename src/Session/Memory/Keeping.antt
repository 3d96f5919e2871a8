-- ===== src/Session/Memory/Keeping.antt =====
-- What every operation leaves alone: a session's identity, and the absolute cap on its expiry.
use antrea_ui.Base.{ℕ, ◌+◌, ◌≤◌, ◌<◌, ◌≡◌, refl, Option, none, some, List, arith}
use antrea_ui.Session.Types.{Session, Heap}
use antrea_ui.Session.Memory.{update, zero_bytes, new_buffer, session_zero}
use antrea_ui.Session.Memory.Erasure.{
  emptied, zero_bytes-objects, zero_bytes-next_object, session_zero-objects,
  session_zero-next_object,
}

-- `t` is the session `s` at a later time, in a store with this maximal lifetime.
pub record IsLater (max_lifetime : ℕ) (s t : Session) : Type 0 where
  pub id : t.id ≡ s.id
  pub cap_key : t.cap_key ≡ s.cap_key
  pub created_at : t.created_at ≡ s.created_at
  pub capped :
      s.expires_at ≤ s.created_at + max_lifetime → t.expires_at ≤ t.created_at + max_lifetime

module _ {m : ℕ} where
  pub IsLater-refl : (s : Session) → IsLater m s s
  IsLater-refl s = record { id = refl; cap_key = refl; created_at = refl; capped = λ h. h }

  pub IsLater-trans : {s t u : Session} → IsLater m s t → IsLater m t u → IsLater m s u
  IsLater-trans a b = record {
    id = cc (a.id, b.id);
    cap_key = cc (a.cap_key, b.cap_key);
    created_at = cc (a.created_at, b.created_at);
    capped = λ h. b.capped (a.capped h);
  }

-- From the heap `h` to `k` no session object is lost, and each is the same session.
pub record Keeps (max_lifetime : ℕ) (h k : Heap) : Type 0 where
  pub grows : h.next_object ≤ k.next_object
  pub later : (p : ℕ) → p < h.next_object → IsLater max_lifetime (h.objects p) (k.objects p)

module _ {m : ℕ} where
  pub Keeps-refl : (h : Heap) → Keeps m h h
  Keeps-refl h = record { grows = omega arith; later = λ p lt. IsLater-refl (h.objects p) }

  pub Keeps-trans : {h k l : Heap} → Keeps m h k → Keeps m k l → Keeps m h l
  Keeps-trans {h} {k} {l} a b = record {
    grows = omega (arith, a.grows, b.grows);
    later = λ p lt. IsLater-trans (a.later p lt) (b.later p (omega (arith, a.grows)));
  }

  -- One object is replaced by a later one.
  pub Keeps-update :
      (p : ℕ) (s : Session) (h k : Heap)
      → k.next_object ≡ h.next_object
      → ((q : ℕ) → k.objects q ≡ update h.objects p s q)
      → IsLater m (h.objects p) s
      → Keeps m h k
  Keeps-update p s h k n e l = record { grows = omega arith; later = λ q lt. rw (e q) (at q) }
    where
      at : (q : ℕ) → IsLater m (h.objects q) (update h.objects p s q)
      at q = ground (arith, l, IsLater-refl {m = m} (h.objects q))

  pub emptied-IsLater : (s : Session) → IsLater m s (emptied s)
  emptied-IsLater s = record { id = refl; cap_key = refl; created_at = refl; capped = λ h. h }

  pub session_zero-Keeps : (p : ℕ) (h : Heap) → Keeps m h (session_zero p h)
  session_zero-Keeps p h =
      Keeps-update p (emptied (h.objects p)) h (session_zero p h) (session_zero-next_object p h)
        (session_zero-objects p h) (emptied-IsLater (h.objects p))

  -- A change of buffers alone.
  pub Keeps-objects :
      {h k : Heap} → k.objects ≡ h.objects → k.next_object ≡ h.next_object → Keeps m h k
  Keeps-objects {h} {k} e n = record {
    grows = omega arith;
    later = λ p lt. rw e (IsLater-refl (h.objects p));
  }

  pub zero_bytes-Keeps : (b : Option ℕ) (h : Heap) → Keeps m h (zero_bytes b h)
  zero_bytes-Keeps b h = Keeps-objects (zero_bytes-objects b h) (zero_bytes-next_object b h)

  pub new_buffer-Keeps : (v : Option (List ℕ)) (h : Heap) → Keeps m h (new_buffer v h).1
  unfolding new_buffer
  new_buffer-Keeps none h = Keeps-refl h
  new_buffer-Keeps (some v) h = Keeps-objects refl refl
