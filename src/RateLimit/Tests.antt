-- ===== src/RateLimit/Tests.antt =====
-- A client behind a proxy that claims another address.
use Prim.Native.String.{◌++◌ as str_append}
use antrea_ui.Base.{
  Table, lookup, insert, ltb, ◌-◌, ℕ, ◌≡◌, refl, Option, none, some, List, [], ◌∷◌, ◌==◌, Bytes,
  String, sym, ◌⊎◌, inl, inr, arith, str_eq, Bool-cases, str_eq→eq, lookup-insert,
}
use antrea_ui.Base.Numerals.{decimal}
use antrea_ui.RateLimit.Format.{RateError, Checked, rate_from_str}
use antrea_ui.RateLimit.Limiters.{Buckets, LruCache, Limiters, ClientRateLimiter, client_allow}
use antrea_ui.RateLimit.Isolation.{IsLru, IsSeparate, IsIsolated, client_allow-IsIsolated}
use antrea_ui.RateLimit.Numerals.{rate_of, rate_from_str-decimal}
use antrea_ui.RateLimit.ClientKey.{Addresses, client_key_ip, ip_from_xff_header}
use antrea_ui.RateLimit.Spoofing.{IsDecided, client_key_ip-IsDecided}

-- Addresses of one byte, of which 1 is private.
abbrev one_byte : Bytes → Option ℕ
one_byte [] = none
one_byte (b ∷ []) = some b
one_byte (b ∷ c ∷ more) = none

abbrev addresses : Addresses
addresses = record {
  Ip = ℕ;
  parse_ip = one_byte;
  is_private = λ ip. ip == 1;
  show = λ ip. ip ∷ [];
  split_host = λ a. none;
}

-- The proxies have added the public address 8 and, behind a space, their own.
abbrev seen : List Bytes
seen = (8 ∷ b',' ∷ b' ' ∷ 1 ∷ []) ∷ []

abbrev fake : List Bytes
fake = (7 ∷ []) ∷ []

seen_address : ip_from_xff_header addresses seen ≡ some 8
unfolding ip_from_xff_header
seen_address = refl

private_only :
    client_key_ip addresses
      (record { forwarded_for = (1 ∷ []) ∷ []; real_ip = []; remote_addr = 5 ∷ [] })
    ≡ 5 ∷ []
unfolding client_key_ip
private_only = refl

client_key_ip-IsDecided_example : IsDecided addresses fake seen [] (5 ∷ []) 8
client_key_ip-IsDecided_example =
    client_key_ip-IsDecided addresses fake seen [] (5 ∷ []) 8 seen_address

hourly : rate_from_str "100/h" ≡ Checked.fine (record { requests = 100; seconds = 3600 })
unfolding rate_from_str
hourly = refl

leading_zero : rate_from_str "010/h" ≡ Checked.wrong RateError.not_a_rate
unfolding rate_from_str
leading_zero = refl

hundred_per_hour-decimal : rate_from_str (str_append (decimal 100) "/h") ≡ rate_of 100 3600
hundred_per_hour-decimal = rate_from_str-decimal 100 "/h" 3600 refl

abbrev counters : Buckets
counters = record { Limiter = ℕ; new_limiter = λ r burst. burst; allow = λ t n. (ltb 0 n, n - 1) }

abbrev added : String → ℕ → Table ℕ → Option ℕ → Option ℕ × Table ℕ
added k p c none = (none, insert k p c)
added k p c (some q) = (some q, c)

-- A cache that never evicts.
abbrev unbounded : LruCache
unbounded = record {
  Cache = Table ℕ;
  new = λ size. some [];
  get = λ k c. (lookup k c, c);
  peek_or_add = λ k p c. added k p c (lookup k c);
}

found-added : (k : String) (p : ℕ) (c : Table ℕ) (o : Option ℕ) → (added k p c o).0 ≡ o
found-added k p c none = refl
found-added k p c (some q) = refl

from-added :
    (k j : String) (p q : ℕ) (c : Table ℕ) (o : Option ℕ)
    → lookup j (added k p c o).1 ≡ some q
    → (lookup j c ≡ some q) ⊎ ((j ≡ k) × (q ≡ p))
from-added k j p q c (some r) e = inl e
from-added k j p q c none e = elim (Bool-cases (str_eq k j)) [
  | inl same ↦ inr (sym (str_eq→eq k j same), ground (arith, lookup-insert k j p c))
  | inr other ↦ inl (ground (arith, lookup-insert k j p c))
]

unbounded-IsLru : IsLru unbounded lookup
unbounded-IsLru = record {
  get_found = λ k c. refl;
  get_same = λ k j c. refl;
  add_found = λ k p c. found-added k p c (lookup k c);
  add_from = λ k j p q c. from-added k j p q c (lookup k c);
}

abbrev no_limiters : Limiters counters
no_limiters = record { at = λ p. 0; next = 0 }

abbrev per_client : ClientRateLimiter counters unbounded
per_client = record {
  config = record { rate_per_second = record { requests = 1; seconds = 1 }; burst_size = 1 };
  cache = [];
}

no_limiters-IsSeparate : IsSeparate counters unbounded lookup unbounded-IsLru per_client no_limiters
unfolding lookup
no_limiters-IsSeparate = record {
  exists = λ j q e. absurd (ground arith);
  apart = λ i j q e f. absurd (ground arith);
}

client_allow-IsIsolated_example :
    IsIsolated counters unbounded lookup unbounded-IsLru "alice" per_client
      (client_allow counters unbounded 0 "alice" per_client no_limiters).1
      no_limiters
      (client_allow counters unbounded 0 "alice" per_client no_limiters).2
client_allow-IsIsolated_example =
    client_allow-IsIsolated counters unbounded lookup unbounded-IsLru 0 "alice" per_client
      no_limiters no_limiters-IsSeparate
