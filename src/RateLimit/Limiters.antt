-- ===== src/RateLimit/Limiters.antt =====
-- pkg/server/ratelimit/global.go, client.go, middleware.go: the limiters and their middleware. The
-- token bucket and the LRU cache are third-party libraries; a limiter is an address, as the cache
-- shares it with the requests in flight.
use antrea_ui.Base.{ℕ, String, Bool, suc, Option, none, some, if◌then◌else◌}
use antrea_ui.Base.Int.{ℤ}
use antrea_ui.Session.Memory.{update}
use antrea_ui.RateLimit.Format.{Rate, LimitConfig, Checked, new_config}

-- `rate.NewLimiter` and `AllowN(t, 1)`.
pub record Buckets : Type 1 where
  pub Limiter : Type 0
  pub new_limiter : Rate → ℕ → Limiter
  pub allow : ℕ → Limiter → Bool × Limiter

-- The limiters that exist, and the next address.
pub record Limiters (buckets : Buckets) : Type 0 where
  pub at : ℕ → buckets.Limiter
  pub next : ℕ

pub record LruCache : Type 1 where
  pub Cache : Type 0
  pub new : ℤ → Option Cache
  pub get : String → Cache → Option ℕ × Cache
  pub peek_or_add : String → ℕ → Cache → Option ℕ × Cache

unfoldable pub add_limiter :
    {buckets : Buckets} → LimitConfig → Limiters buckets → ℕ × Limiters buckets
add_limiter {buckets} config ls = (
  ls.next,
  record {
    at = update ls.at ls.next (buckets.new_limiter config.rate_per_second config.burst_size);
    next = suc ls.next;
  },
)

abbrev pub take_one : {buckets : Buckets} → ℕ → ℕ → Limiters buckets → Bool × Limiters buckets
take_one {buckets} t p ls =
    let (allowed, l) = buckets.allow t (ls.at p) in (allowed, record ls { at = update ls.at p l })

-- `GlobalRateLimiter.Allow`, with the limiter's address.
unfoldable pub global_allow :
    {buckets : Buckets} → ℕ → ℕ → Limiters buckets → Bool × Limiters buckets
global_allow t p ls = take_one t p ls

abbrev global_over :
    {buckets : Buckets} → Limiters buckets → Checked LimitConfig → Checked (ℕ × Limiters buckets)
global_over ls (Checked.wrong e) = Checked.wrong e
global_over ls (Checked.fine config) = Checked.fine (add_limiter config ls)

unfoldable pub new_global_rate_limiter :
    {buckets : Buckets} → String → ℤ → Limiters buckets → Checked (ℕ × Limiters buckets)
unfolding add_limiter new_config
new_global_rate_limiter rate_str burst_size ls = global_over ls (new_config rate_str burst_size)

module _ (buckets : Buckets) (lru : LruCache) where
  pub record ClientRateLimiter : Type 0 where
    pub config : LimitConfig
    pub cache : lru.Cache

  abbrev cached : LimitConfig → Option lru.Cache → Option ClientRateLimiter
  cached config none = none
  cached config (some cache) = some (record { config = config; cache = cache })

  abbrev client_over : ℤ → Checked LimitConfig → Option ClientRateLimiter
  client_over max_size (Checked.wrong e) = none
  client_over max_size (Checked.fine config) = cached config (lru.new max_size)

  unfoldable pub new_client_rate_limiter : String → ℤ → ℤ → Option ClientRateLimiter
  unfolding new_config
  new_client_rate_limiter rate_str burst_size max_size =
      client_over max_size (new_config rate_str burst_size)

  -- A limiter of the key: the cached one, or a new one unless another request has added one.
  abbrev pub limiter_for :
      ClientRateLimiter
      → String
      → Limiters buckets
      → Option ℕ × lru.Cache
      → ℕ × ClientRateLimiter × Limiters buckets
  limiter_for l key ls (some p, cache) = (p, record l { cache = cache }, ls)
  limiter_for l key ls (none, cache) =
      let (p, ls') = add_limiter l.config ls in
      let (previous, cache') = lru.peek_or_add key p cache in
      (elim previous [ none ↦ p | some q ↦ q ], record l { cache = cache' }, ls')

  unfoldable pub client_allow :
      ℕ
      → String
      → ClientRateLimiter
      → Limiters buckets
      → Bool × ClientRateLimiter × Limiters buckets
  unfolding add_limiter
  client_allow t key l ls =
      let (p, l', ls') = limiter_for l key ls (lru.get key l.cache) in
      let (allowed, ls_after) = take_one t p ls' in (allowed, l', ls_after)

-- `MiddlewareWithClock`: the request goes on, or is answered with this status.
unfoldable pub middleware : Bool → Option ℕ
middleware allowed = if allowed then none else some 429
