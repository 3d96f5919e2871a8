-- ===== src/RateLimit/Isolation.antt =====
-- One client's requests do not use up another's budget (pkg/server/ratelimit/client.go: Allow).
use antrea_ui.Base.{
  Bool-cases, ap, ℕ, String, ◌<◌, ◌≡◌, ◌≢◌, refl, sym, ◌∙◌, ◌⊎◌, Option, none, some, inl, inr,
  arith, ◌==◌,
}
use antrea_ui.Session.Memory.{update}
use antrea_ui.RateLimit.Limiters.{
  Buckets, Limiters, LruCache, ClientRateLimiter, add_limiter, limiter_for, client_allow,
}

-- What the LRU cache promises, where `find` looks a key up: Get touches the order alone, and PeekOrAdd
-- adds at most the given value under the given key, when the key is not there.
pub record IsLru (lru : LruCache) (find : String → lru.Cache → Option ℕ) : Type 0 where
  pub get_found : (k : String) (c : lru.Cache) → (lru.get k c).0 ≡ find k c
  pub get_same : (k j : String) (c : lru.Cache) → find j (lru.get k c).1 ≡ find j c
  pub add_found : (k : String) (p : ℕ) (c : lru.Cache) → (lru.peek_or_add k p c).0 ≡ find k c
  pub add_from :
      (k j : String) (p q : ℕ) (c : lru.Cache)
      → find j (lru.peek_or_add k p c).1 ≡ some q
      → (find j c ≡ some q) ⊎ ((j ≡ k) × (q ≡ p))

other_address : {A : Type 0} (f : ℕ → A) (p q : ℕ) (v : A) → q ≢ p → update f p v q ≡ f q
other_address f p q v ne = elim (Bool-cases (q == p)) [
  | inl e ↦ absurd (ne (ground arith))
  | inr e ↦ rw e refl
]

module _ (buckets : Buckets) (lru : LruCache) (find : String → lru.Cache → Option ℕ)
    (laws : IsLru lru find) where
  -- Every cached limiter exists, and no two keys share one.
  pub record IsSeparate (l : ClientRateLimiter buckets lru) (ls : Limiters buckets) : Type 0 where
    pub exists : (j : String) (q : ℕ) → find j l.cache ≡ some q → q < ls.next
    pub apart : (i j : String) (q : ℕ) → find i l.cache ≡ some q → find j l.cache ≡ some q → i ≡ j

  record IsChosen (key : String) (l : ClientRateLimiter buckets lru) (ls : Limiters buckets)
      (r : ℕ × ClientRateLimiter buckets lru × Limiters buckets) : Type 0 where
    separate : IsSeparate r.1 r.2
    own : (j : String) → find j r.1.cache ≡ some r.0 → j ≡ key
    others :
        (j : String) (q : ℕ)
        → j ≢ key
        → find j r.1.cache ≡ some q
        → (find j l.cache ≡ some q) × (r.2.at q ≡ ls.at q)

  -- What a cache says after a limiter `ls.next` may have been added under `key`.
  old_or_new :
      (key : String) (l : ClientRateLimiter buckets lru) (ls : Limiters buckets) (c : lru.Cache)
      → IsSeparate l ls
      → ((j : String) → find j c ≡ find j l.cache)
      → (j : String) (q : ℕ) → find j (lru.peek_or_add key ls.next c).1 ≡ some q
      → ((find j l.cache ≡ some q) × (q < ls.next)) ⊎ ((j ≡ key) × (q ≡ ls.next))
  old_or_new key l ls c s same j q f = elim (laws.add_from key j ls.next q c f) [
    | inl g ↦ inl (sym (same j) ∙ g, s.exists j q (sym (same j) ∙ g))
    | inr new ↦ inr new
  ]

  chosen :
      (key : String) (l : ClientRateLimiter buckets lru) (ls : Limiters buckets) (o : Option ℕ)
      (c : lru.Cache)
      → IsSeparate l ls
      → o ≡ find key l.cache
      → ((j : String) → find j c ≡ find j l.cache)
      → IsChosen key l ls (limiter_for buckets lru l key ls (o, c))
  unfolding add_limiter
  chosen key l ls (some p) c s e same = record {
    separate = record {
      exists = λ j q f. s.exists j q (sym (same j) ∙ f);
      apart = λ i j q f g. s.apart i j q (sym (same i) ∙ f) (sym (same j) ∙ g);
    };
    own = λ j f. s.apart j key p (sym (same j) ∙ f) (sym e);
    others = λ j q ne f. (sym (same j) ∙ f, refl);
  }
  chosen key l ls none c s e same =
      let not_there : (lru.peek_or_add key ls.next c).0 ≡ none =
        laws.add_found key ls.next c ∙ same key ∙ sym e in
      let from = old_or_new key l ls c s same in
      rw not_there (record {
        separate = record {
          exists =
              λ j q f. elim (from j q f) [ inl (g, lt) ↦ omega arith | inr (k, new) ↦ omega arith ];
          apart = λ i j q f g. elim (from i q f) [
            | inl (f', lt) ↦ elim (from j q g) [
              | inl (g', lt') ↦ s.apart i j q f' g'
              | inr (k, new) ↦ absurd (omega arith)
            ]
            | inr (k, new) ↦ elim (from j q g) [
              | inl (g', lt) ↦ absurd (omega arith)
              | inr (k', new') ↦ k ∙ sym k'
            ]
          ];
        };
        own = λ j f. elim (from j ls.next f) [
          | inl (g, lt) ↦ absurd (omega arith)
          | inr (k, new) ↦ k
        ];
        others = λ j q ne f. elim (from j q f) [
          | inl (g, lt) ↦ (g, ground arith)
          | inr (k, new) ↦ absurd (ne k)
        ];
      })

  -- What a request of the client `key` leaves for the others.
  pub record IsIsolated (key : String) (l l' : ClientRateLimiter buckets lru)
      (ls ls' : Limiters buckets) : Type 0 where
    pub separate : IsSeparate l' ls'
    pub untouched :
        (j : String) (q : ℕ)
        → j ≢ key
        → find j l'.cache ≡ some q
        → (find j l.cache ≡ some q) × (ls'.at q ≡ ls.at q)

  -- Where the LRU cache keeps its promises, every cached limiter exists and no two clients share one:
  -- this stays so when a client makes a request. Every other client that is still cached then has the
  -- limiter that it had, in the same state: nobody uses up the budget of another.
  pub client_allow-IsIsolated :
      (t : ℕ) (key : String) (l : ClientRateLimiter buckets lru) (ls : Limiters buckets)
      → IsSeparate l ls
      → IsIsolated key l
          (client_allow buckets lru t key l ls).1
          ls
          (client_allow buckets lru t key l ls).2
  unfolding client_allow
  client_allow-IsIsolated t key l ls s =
      let c =
        chosen key l ls (lru.get key l.cache).0 (lru.get key l.cache).1 s
          (laws.get_found key l.cache) (λ j. laws.get_same key j l.cache) in
      record {
        separate = record { exists = c.separate.exists; apart = c.separate.apart };
        untouched = λ j q ne f. (
          (c.others j q ne f).0,
          other_address (limiter_for buckets lru l key ls (lru.get key l.cache)).2.at _ q _
                (λ same. ne (c.own j (f ∙ ap some same)))
              ∙ (c.others j q ne f).1,
        );
      }
