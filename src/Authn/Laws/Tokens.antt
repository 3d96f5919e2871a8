-- ===== src/Authn/Laws/Tokens.antt =====
-- The cache of bearer tokens (bearer.go): it only repeats, for a bounded time, what the API server
-- has said of the very token.
use antrea_ui.Base.{
  ℕ, ◌+◌, ◌≤◌, ◌<◌, String, ◌≡◌, ◌⊎◌, Bool, true, some, List, [], ◌∷◌, arith, refl, sym, ap, inl,
  inr, false, Option, none, Bool-cases, str_eq→eq, before,
}
use antrea_ui.Authn.Types.{pass}
use antrea_ui.Authn.Bearer.{
  token_expiry, CacheEntry, Verdict, accepted, unauthorized, forbidden, unavailable, LruCache,
  Outside, bearer_cache_ttl, valid_until, answer_verdict, validate_miss, hit_or_miss, validate,
}

-- One call of `Validate`.
pub record Call : Type 0 where
  pub allowed : Bool
  pub now : ℕ
  pub done : ℕ
  pub token : String

pub valid_until_bounds :
    (lru : LruCache) (out : Outside) (token : String) (now : ℕ)
    → (valid_until lru out token now ≤ now + bearer_cache_ttl)
      × (0 < token_expiry out token → valid_until lru out token now ≤ token_expiry out token)
unfolding valid_until
valid_until_bounds lru out token now = (ground arith, λ pos. ground arith)

module _ (lru : LruCache) (out : Outside) where
  open lru use {Cache, find, touched, add, find-touched, find-add}

  -- The calls so far, the last one first, from the cache `c`.
  unfoldable pub history : List Call → Cache → Cache
  unfolding validate
  history [] c = c
  history (k ∷ ks) c = (validate lru out k.allowed k.now k.done k.token (history ks c)).1

  -- One of the calls asked the API server about the token with this hash, was told the user name,
  -- and bounds the entry's life.
  abbrev pub Vouched : List Call → String → CacheEntry → Type 0
  Vouched [] key e = ⊥
  Vouched (k ∷ ks) key e =
      ((out.hash k.token ≡ key)
        × (k.allowed ≡ true)
        × (out.verdict k.now k.token ≡ accepted e.username)
        × (e.valid_until ≡ valid_until lru out k.token k.done))
      ⊎ Vouched ks key e

  answer_verdict_entry :
      (token : String) (done : ℕ) (v : Verdict) (c : Cache) (j : String) (e : CacheEntry)
      → find j (answer_verdict lru out token done v c).1 ≡ some e
      → ((out.hash token ≡ j)
          × (v ≡ accepted e.username)
          × (e.valid_until ≡ valid_until lru out token done))
        ⊎ (find j c ≡ some e)
  unfolding answer_verdict
  answer_verdict_entry token done (accepted user) c j e h =
      elim (find-add (out.hash token) j _ c e h) [
        | inr old ↦ inr old
        | inl (k, same) ↦ inl (
          str_eq→eq (out.hash token) j k,
          ap (λ (x : CacheEntry). accepted x.username) same,
          sym (ap (λ (x : CacheEntry). x.valid_until) same),
        )
      ]
  answer_verdict_entry token done unauthorized c j e h = inr h
  answer_verdict_entry token done forbidden c j e h = inr h
  answer_verdict_entry token done unavailable c j e h = inr h

  validate_miss_entry :
      (allowed : Bool) (now done : ℕ) (token : String) (c : Cache) (j : String) (e : CacheEntry)
      → find j (validate_miss lru out allowed now done token c).1 ≡ some e
      → ((out.hash token ≡ j)
          × (allowed ≡ true)
          × (out.verdict now token ≡ accepted e.username)
          × (e.valid_until ≡ valid_until lru out token done))
        ⊎ (find j c ≡ some e)
  unfolding validate_miss
  validate_miss_entry true now done token c j e h =
      elim (answer_verdict_entry token done (out.verdict now token) c j e h) [
        | inl (k, v, u) ↦ inl (k, refl, v, u)
        | inr old ↦ inr old
      ]
  validate_miss_entry false now done token c j e h = inr h

  hit_or_miss_entry :
      (o : Option CacheEntry) (allowed : Bool) (now done : ℕ) (token : String) (c : Cache)
      (j : String) (e : CacheEntry)
      → find j (hit_or_miss lru out o allowed now done token c).1 ≡ some e
      → ((out.hash token ≡ j)
          × (allowed ≡ true)
          × (out.verdict now token ≡ accepted e.username)
          × (e.valid_until ≡ valid_until lru out token done))
        ⊎ (find j c ≡ some e)
  unfolding hit_or_miss
  hit_or_miss_entry none allowed now done token c j e h =
      validate_miss_entry allowed now done token c j e h
  hit_or_miss_entry (some x) allowed now done token c j e h =
      elim (Bool-cases (before now x.valid_until)) [
        | inl fresh ↦ inr (rw fresh at h)
        | inr stale ↦ validate_miss_entry allowed now done token c j e (rw stale at h)
      ]

  pub history-Vouched :
      (ks : List Call) (c : Cache)
      → ((key : String) → find key c ≡ none)
      → (key : String) (e : CacheEntry) → find key (history ks c) ≡ some e
      → Vouched ks key e
  unfolding history validate
  history-Vouched [] c empty key e h = ground (arith, empty key)
  history-Vouched (k ∷ ks) c empty key e h =
      elim (hit_or_miss_entry (find (out.hash k.token) (history ks c)) k.allowed k.now k.done
        k.token (touched (out.hash k.token) (history ks c)) key e h) [
          | inl new ↦ inl new
          | inr old ↦ inr (
              history-Vouched ks c empty key e
                (find-touched (out.hash k.token) key (history ks c) e old))
        ]

  -- One of the calls was told that this user holds the token, at most the cache's lifetime ago.
  abbrev pub HeardOf : List Call → String → String → ℕ → Type 0
  HeardOf [] token username now = ⊥
  HeardOf (k ∷ ks) token username now =
      ((k.token ≡ token)
        × (k.allowed ≡ true)
        × (out.verdict k.now token ≡ accepted username)
        × (now < k.done + bearer_cache_ttl))
      ⊎ HeardOf ks token username now

  -- What an accepted answer rests on: the API server's verdict of this very call, which the limiter
  -- has let through, or one of an earlier call, on a token that has not expired since.
  pub data Grounds (ks : List Call) (k : Call) (username : String) : Type 0 where
    asked : k.allowed ≡ true → out.verdict k.now k.token ≡ accepted username → Grounds ks k username
    remembered :
        HeardOf ks k.token username k.now
        → (0 < token_expiry out k.token → k.now < token_expiry out k.token)
        → Grounds ks k username

  heard_of :
      ((a b : String) → out.hash a ≡ out.hash b → a ≡ b)
      → (ks : List Call) (token : String) (now : ℕ) (e : CacheEntry) → now < e.valid_until
      → Vouched ks (out.hash token) e
      → HeardOf ks token e.username now
        × (0 < token_expiry out token → now < token_expiry out token)
  heard_of inj [] token now e fresh v = absurd v
  heard_of inj (k ∷ ks) token now e fresh (inl (h, a, v, u)) =
      let same = inj k.token token h in
      let b = valid_until_bounds lru out k.token k.done in
      (inl (same, a, rw⁻¹ same v, ground (arith, b.0)), rw⁻¹ same (λ pos. ground (arith, b.1 pos)))
  heard_of inj (k ∷ ks) token now e fresh (inr v) =
      let r = heard_of inj ks token now e fresh v in (inr r.0, r.1)

  answer_verdict_pass :
      (token : String) (done : ℕ) (v : Verdict) (c : Cache) (username : String)
      → (answer_verdict lru out token done v c).0 ≡ pass username
      → v ≡ accepted username
  unfolding answer_verdict
  answer_verdict_pass token done (accepted user) c username h = ground arith
  answer_verdict_pass token done unauthorized c username h = absurd (ground arith)
  answer_verdict_pass token done forbidden c username h = absurd (ground arith)
  answer_verdict_pass token done unavailable c username h = absurd (ground arith)

  miss-Grounds :
      (ks : List Call) (k : Call) (username : String) (c : Cache)
      → (validate_miss lru out k.allowed k.now k.done k.token c).0 ≡ pass username
      → Grounds ks k username
  unfolding validate_miss
  miss-Grounds ks k username c h = elim (Bool-cases k.allowed) [
    | inl a ↦
        asked a
          (answer_verdict_pass k.token k.done (out.verdict k.now k.token) c username (ground arith))
    | inr n ↦ absurd (ground arith)
  ]

  hit-Grounds :
      ((a b : String) → out.hash a ≡ out.hash b → a ≡ b)
      → (ks : List Call) (k : Call) (username : String) (c : Cache) (o : Option CacheEntry)
      → ((e : CacheEntry) → o ≡ some e → Vouched ks (out.hash k.token) e)
      → (hit_or_miss lru out o k.allowed k.now k.done k.token c).0 ≡ pass username
      → Grounds ks k username
  unfolding hit_or_miss
  hit-Grounds inj ks k username c none v h = miss-Grounds ks k username c h
  hit-Grounds inj ks k username c (some e) v h = elim (Bool-cases (before k.now e.valid_until)) [
    | inl fresh ↦
        let r = heard_of inj ks k.token k.now e (ground arith) (v e refl) in
        let same : e.username ≡ username = ground arith in rw⁻¹ same (remembered r.0 r.1)
    | inr stale ↦ miss-Grounds ks k username c (ground arith)
  ]

  -- Whatever calls have been served from an empty cache, a token is accepted for a user only because
  -- the API server has said so: in this call, past the limiter, or in one of those calls, about the
  -- same token, less than the lifetime of a cache entry before; and then a token whose claims name an
  -- expiry has not reached it. No two tokens have the same hash.
  pub validate-Grounds :
      ((a b : String) → out.hash a ≡ out.hash b → a ≡ b)
      → (c : Cache) → ((key : String) → find key c ≡ none)
      → (ks : List Call) (k : Call) (username : String)
      → (validate lru out k.allowed k.now k.done k.token (history ks c)).0 ≡ pass username
      → Grounds ks k username
  unfolding validate
  validate-Grounds inj c empty ks k username h =
      hit-Grounds inj ks k username _ (find (out.hash k.token) (history ks c))
        (λ e f. history-Vouched ks c empty (out.hash k.token) e f) h
