-- ===== src/Session/Laws/Delivery.antt =====
-- A refresh erases four old buffers and a copy, and none of what the provider has just sent.
use antrea_ui.Base.{ℕ, ◌≤◌, ◌<◌, ◌≡◌, refl, Option, none, some, List, arith}
use antrea_ui.Session.Types.{Credential, Heap}
use antrea_ui.Session.Memory.{zero_bytes, new_buffer, contents}
use antrea_ui.Session.Get.{Refreshed, store_refreshed}

-- A slice's buffer lies below an address, or at or above it.
abbrev pub IsBelow : ℕ → Option ℕ → Type 0
IsBelow n none = Unit
IsBelow n (some b) = b < n

abbrev pub IsFrom : ℕ → Option ℕ → Type 0
IsFrom n none = Unit
IsFrom n (some b) = n ≤ b

-- The slice holds this value, in a buffer from the address `n` on that has been allocated.
pub record IsStored (n : ℕ) (v : Option (List ℕ)) (c : Option ℕ) (h : Heap) : Type 0 where
  pub from : IsFrom n c
  pub below : IsBelow h.next_buffer c
  pub holds : contents c h ≡ v

pub new_buffer-next :
    (v : Option (List ℕ)) (h : Heap) → h.next_buffer ≤ (new_buffer v h).1.next_buffer
unfolding new_buffer
new_buffer-next none h = omega arith
new_buffer-next (some v) h = omega arith

pub new_buffer-IsStored :
    (n : ℕ) (v : Option (List ℕ)) (h : Heap)
    → n ≤ h.next_buffer
    → IsStored n v (new_buffer v h).0 (new_buffer v h).1
unfolding new_buffer contents
new_buffer-IsStored n none h le = record { from = tt; below = tt; holds = refl }
new_buffer-IsStored n (some v) h le = record {
  from = le;
  below = omega arith;
  holds = ground arith;
}

IsStored-new_buffer :
    (n : ℕ) (v w : Option (List ℕ)) (c : Option ℕ) (h : Heap)
    → IsStored n v c h
    → IsStored n v c (new_buffer w h).1
unfolding new_buffer contents
IsStored-new_buffer n v none c h s = s
IsStored-new_buffer n v (some w) none h s = record { from = tt; below = tt; holds = s.holds }
IsStored-new_buffer n v (some w) (some c) h s = record {
  from = s.from;
  below = omega (arith, s.below);
  holds = ground (arith, s.below, s.holds);
}

IsStored-zero_bytes :
    (n : ℕ) (v : Option (List ℕ)) (b c : Option ℕ) (h : Heap)
    → IsBelow n b
    → IsStored n v c h
    → IsStored n v c (zero_bytes b h)
unfolding zero_bytes contents
IsStored-zero_bytes n v none c h lt s = s
IsStored-zero_bytes n v (some b) none h lt s = record { from = tt; below = tt; holds = s.holds }
IsStored-zero_bytes n v (some b) (some c) h lt s = record {
  from = s.from;
  below = s.below;
  holds = ground (arith, s.from, s.holds);
}

-- The whole answer of the provider stands in the heap.
pub record IsKept (n : ℕ) (r : Refreshed) (cred : Credential) (token : Option ℕ) (h : Heap)
    : Type 0 where
  pub token_kept : IsStored n r.token cred.token h
  pub cert_kept : IsStored n r.cert_pem cred.cert_pem h
  pub key_kept : IsStored n r.key_pem cred.key_pem h
  pub refresh_kept : IsStored n r.refresh_token token h

pub IsKept-zero_bytes :
    (n : ℕ) (r : Refreshed) (cred : Credential) (token b : Option ℕ) (h : Heap)
    → IsBelow n b
    → IsKept n r cred token h
    → IsKept n r cred token (zero_bytes b h)
IsKept-zero_bytes n r cred token b h lt k = record {
  token_kept = IsStored-zero_bytes n r.token b cred.token h lt k.token_kept;
  cert_kept = IsStored-zero_bytes n r.cert_pem b cred.cert_pem h lt k.cert_kept;
  key_kept = IsStored-zero_bytes n r.key_pem b cred.key_pem h lt k.key_kept;
  refresh_kept = IsStored-zero_bytes n r.refresh_token b token h lt k.refresh_kept;
}

pub store_refreshed-IsKept :
    (n : ℕ) (r : Refreshed) (h : Heap)
    → n ≤ h.next_buffer
    → IsKept n r (store_refreshed r h).0 (store_refreshed r h).1 (store_refreshed r h).2
unfolding store_refreshed
store_refreshed-IsKept n r h le =
    let h₁ = (new_buffer r.token h).1 in
    let h₂ = (new_buffer r.cert_pem h₁).1 in
    let h₃ = (new_buffer r.key_pem h₂).1 in
    let le₁ : n ≤ h₁.next_buffer = omega (arith, new_buffer-next r.token h) in
    let le₂ : n ≤ h₂.next_buffer = omega (arith, new_buffer-next r.cert_pem h₁) in
    let le₃ : n ≤ h₃.next_buffer = omega (arith, new_buffer-next r.key_pem h₂) in
    record {
      token_kept = IsStored-new_buffer n r.token r.refresh_token _ h₃ (
          IsStored-new_buffer n r.token r.key_pem _ h₂
            (IsStored-new_buffer n r.token r.cert_pem _ h₁ (new_buffer-IsStored n r.token h le)));
      cert_kept = IsStored-new_buffer n r.cert_pem r.refresh_token _ h₃ (
          IsStored-new_buffer n r.cert_pem r.key_pem _ h₂
            (new_buffer-IsStored n r.cert_pem h₁ le₁));
      key_kept =
          IsStored-new_buffer n r.key_pem r.refresh_token _ h₃
            (new_buffer-IsStored n r.key_pem h₂ le₂);
      refresh_kept = new_buffer-IsStored n r.refresh_token h₃ le₃;
    }
