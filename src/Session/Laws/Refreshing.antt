-- ===== src/Session/Laws/Refreshing.antt =====
-- What a session holds after a refresh that the provider has answered.
use antrea_ui.Base.{
  ℕ, ◌≤◌, ◌≡◌, refl, sym, ap, ◌∙◌, Option, none, some, List, [], arith, All, All-mono, subst,
}
use antrea_ui.Session.Types.{Session, Credential, Heap, Options}
use antrea_ui.Session.Memory.{
  zero_bytes, credential_zero, drop_transports_locked, new_buffer, contents, material,
}
use antrea_ui.Session.Memory.Erasure.{zero_bytes-objects}
use antrea_ui.Session.Expiry.{effective_expiry}
use antrea_ui.Session.Get.{
  Refreshers, Refreshed, store_refreshed, replace_refresh_token, apply_refresh, call_refresher,
  refresh_now, ask,
}
use antrea_ui.Session.Invariant.Lookups.{chosen, renewed}
use antrea_ui.Session.Laws.Renewal.{
  apply_refresh-renews, store_refreshed-objects, new_buffer-objects,
}
use antrea_ui.Session.Laws.Delivery.{
  IsBelow, IsStored, IsKept, IsKept-zero_bytes, store_refreshed-IsKept, new_buffer-IsStored,
  new_buffer-next,
}

IsStored-same :
    (n : ℕ) (v : Option (List ℕ)) (c : Option ℕ) (h k : Heap)
    → k.bytes ≡ h.bytes
    → k.next_buffer ≡ h.next_buffer
    → IsStored n v c h
    → IsStored n v c k
unfolding contents
IsStored-same n v none h k e f s = record { from = tt; below = tt; holds = s.holds }
IsStored-same n v (some b) h k e f s = record {
  from = s.from;
  below = omega (arith, s.below);
  holds = cc (s.holds, ap (λ (g : ℕ → List ℕ). g b) e);
}

IsKept-same :
    (n : ℕ) (r : Refreshed) (cred : Credential) (token : Option ℕ) (h k : Heap)
    → k.bytes ≡ h.bytes
    → k.next_buffer ≡ h.next_buffer
    → IsKept n r cred token h
    → IsKept n r cred token k
IsKept-same n r cred token h k e f s = record {
  token_kept = IsStored-same n r.token cred.token h k e f s.token_kept;
  cert_kept = IsStored-same n r.cert_pem cred.cert_pem h k e f s.cert_kept;
  key_kept = IsStored-same n r.key_pem cred.key_pem h k e f s.key_kept;
  refresh_kept = IsStored-same n r.refresh_token token h k e f s.refresh_kept;
}

-- All buffers of a session's material lie below an address.
abbrev pub AllBelow : ℕ → Session → Type 0
AllBelow n s = All (IsBelow n) (material s)

IsKept-replace :
    (n : ℕ) (r : Refreshed) (cred : Credential) (token old new : Option ℕ) (h : Heap)
    → IsBelow n old
    → IsKept n r cred token h
    → IsKept n r cred token (replace_refresh_token old new h).1
unfolding replace_refresh_token
IsKept-replace n r cred token old none h lt k = k
IsKept-replace n r cred token old (some b) h lt k = IsKept-zero_bytes n r cred token old h lt k

apply_refresh-IsKept :
    (n : ℕ) (r : Refreshed) (o : Options) (p : ℕ) (cred : Credential) (token : Option ℕ) (h : Heap)
    → AllBelow n (h.objects p)
    → IsKept n r cred token h
    → IsKept n r cred token (apply_refresh o p cred token h)
unfolding apply_refresh drop_transports_locked credential_zero
apply_refresh-IsKept n r o p cred token h lt k =
    let c = (h.objects p).credential in
    let h₁ = zero_bytes c.key_pem (zero_bytes c.cert_pem (zero_bytes c.token h)) in
    IsKept-same n r cred token (replace_refresh_token (h.objects p).refresh_token token h₁).1 _ refl
      refl
      (IsKept-replace n r cred token (h.objects p).refresh_token token h₁ lt.1.1.1.0 (
        IsKept-zero_bytes n r cred token c.key_pem _ lt.1.1.0 (
          IsKept-zero_bytes n r cred token c.cert_pem _ lt.1.0
            (IsKept-zero_bytes n r cred token c.token h lt.0 k))))

IsBelow-mono : (m n : ℕ) (c : Option ℕ) → m ≤ n → IsBelow m c → IsBelow n c
IsBelow-mono m n none le lt = tt
IsBelow-mono m n (some b) le lt = omega arith

AllBelow-mono : (m n : ℕ) (s : Session) → m ≤ n → AllBelow m s → AllBelow n s
AllBelow-mono m n s le lt =
    All-mono (IsBelow m) (IsBelow n) (λ c. IsBelow-mono m n c le) (material s) lt

-- The refresh token after a refresh: the provider's new one, or else the one from before.
abbrev NextToken : Option (List ℕ) → Session → Session → Heap → Type 0
NextToken none s t h = t.refresh_token ≡ s.refresh_token
NextToken (some v) s t h = contents t.refresh_token h ≡ some v

pub record IsRenewed (r : Refreshed) (o : Options) (s t : Session) (h : Heap) : Type 0 where
  pub token : contents t.credential.token h ≡ r.token
  pub cert_pem : contents t.credential.cert_pem h ≡ r.cert_pem
  pub key_pem : contents t.credential.key_pem h ≡ r.key_pem
  pub credential_expiry : t.credential.expires_at ≡ r.expires_at
  pub session_expiry : t.expires_at ≡ effective_expiry s.created_at o.max_lifetime r.expires_at
  pub refresh_token : NextToken r.refresh_token s t h
  pub identity : (t.id ≡ s.id) × (t.username ≡ s.username) × (t.last_seen ≡ s.last_seen)
  pub no_transports : t.transports ≡ []

next_token :
    (n : ℕ) (v : Option (List ℕ)) (token : Option ℕ) (s t : Session) (h : Heap)
    → t.refresh_token ≡ chosen s.refresh_token token
    → IsStored n v token h
    → NextToken v s t h
unfolding contents
next_token n none none s t h e k = e
next_token n none (some b) s t h e k = absurd (ground (arith, k.holds))
next_token n (some v) none s t h e k = absurd (ground (arith, k.holds))
next_token n (some v) (some b) s t h e k = rw e k.holds

renewed-IsRenewed :
    (n : ℕ) (r : Refreshed) (o : Options) (s : Session) (cred : Credential) (token : Option ℕ)
    (h : Heap)
    → cred.expires_at ≡ r.expires_at
    → IsKept n r cred token h
    → IsRenewed r o s (renewed o cred (chosen s.refresh_token token) s) h
renewed-IsRenewed n r o s cred token h e kept = record {
  token = kept.token_kept.holds;
  cert_pem = kept.cert_kept.holds;
  key_pem = kept.key_kept.holds;
  credential_expiry = e;
  session_expiry = ap (effective_expiry s.created_at o.max_lifetime) e;
  refresh_token = next_token n r.refresh_token token s _ h refl kept.refresh_kept;
  identity = (refl, refl, refl);
  no_transports = refl;
}

store_refreshed-expires_at :
    (r : Refreshed) (h : Heap) → (store_refreshed r h).0.expires_at ≡ r.expires_at
unfolding store_refreshed
store_refreshed-expires_at r h = refl

call_refresher-IsRenewed :
    (r : Refreshed) (o : Options) (p : ℕ) (b : Option ℕ) (h : Heap)
    → AllBelow h.next_buffer (h.objects p)
    → IsBelow h.next_buffer b
    → let k = zero_bytes b (call_refresher o p (some r) h).1 in
      IsRenewed r o (h.objects p) (k.objects p) k
unfolding call_refresher
call_refresher-IsRenewed r o p b h lt below =
    let (cred, token, h') = store_refreshed r h in
    let n = h.next_buffer in
    let same : h'.objects p ≡ h.objects p =
      ap (λ (f : ℕ → Session). f p) (store_refreshed-objects r h) in
    let kept = store_refreshed-IsKept n r h (omega arith) in
    let applied = apply_refresh-IsKept n r o p cred token h' (rw same lt) kept in
    let object : (zero_bytes b (apply_refresh o p cred token h')).objects p
        ≡ renewed o cred (chosen (h.objects p).refresh_token token) (h.objects p) =
      ap (λ (f : ℕ → Session). f p) (zero_bytes-objects b (apply_refresh o p cred token h'))
      ∙ (apply_refresh-renews o p cred token h').0
      ∙ ap (λ (s : Session). renewed o cred (chosen s.refresh_token token) s) same in
    subst (λ t. IsRenewed r o (h.objects p) t (zero_bytes b (apply_refresh o p cred token h')))
      (sym object)
      (renewed-IsRenewed n r o (h.objects p) cred token _ (store_refreshed-expires_at r h)
        (IsKept-zero_bytes n r cred token b _ below applied))

-- When the provider answers a refresh, the session holds exactly the credential that was sent, byte
-- for byte: erasing the old material and the copy of the refresh token that the provider was given
-- touches none of it. The refresh token is the new one if there is one and the old one's slice
-- otherwise; the session's expiry follows the new credential; its identity and last-seen time stay
-- and no transport that embeds the old credential is left. The session's buffers are allocated.
pub refresh_now-IsRenewed :
    (rs : Refreshers) (o : Options) (p : ℕ) (h : Heap) (r : Refreshed)
    → AllBelow h.next_buffer (h.objects p)
    → ask rs (h.objects p).refresher (contents (h.objects p).refresh_token h) ≡ some r
    → let k = (refresh_now rs o p h).1 in IsRenewed r o (h.objects p) (k.objects p) k
unfolding refresh_now
refresh_now-IsRenewed rs o p h r lt answer =
    let v = contents (h.objects p).refresh_token h in
    let (copy, h₁) = new_buffer v h in
    let stored = new_buffer-IsStored h.next_buffer v h (omega arith) in
    let same : h₁.objects p ≡ h.objects p =
      ap (λ (f : ℕ → Session). f p) (new_buffer-objects v h) in
    let asked : ask rs (h.objects p).refresher (contents copy h₁) ≡ some r =
      ap (ask rs (h.objects p).refresher) stored.holds ∙ answer in
    let lower : AllBelow h₁.next_buffer (h₁.objects p) =
      rw same (AllBelow-mono h.next_buffer h₁.next_buffer (h.objects p) (new_buffer-next v h) lt) in
    subst
      (λ a.
        let k = zero_bytes copy (call_refresher o p a h₁).1 in
        IsRenewed r o (h.objects p) (k.objects p) k)
      (sym asked)
      (subst
        (λ s.
          let k = zero_bytes copy (call_refresher o p (some r) h₁).1 in
          IsRenewed r o s (k.objects p) k)
        same (call_refresher-IsRenewed r o p copy h₁ lower stored.below))
