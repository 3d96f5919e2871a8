-- ===== src/Authn/Bearer.antt =====
-- bearer.go: bearer tokens are validated with the Kubernetes API server, and answers are cached.
use antrea_ui.Base.{
  ℕ, ◌+◌, ◌*◌, String, ◌≡◌, ◌⊎◌, Bool, true, ◌&&◌, not, Option, none, some, str_eq, if◌then◌else◌,
  is_zero, before, codes,
}
use antrea_ui.Session.Types.{second}
use antrea_ui.Credentials.Tokens.{TokenDecoders, jwt_expiry}
use antrea_ui.Authn.Types.{
  ServerError, Cause, Answer, pass, refuse, status_unauthorized, status_too_many_requests,
  status_service_unavailable,
}

abbrev pub bearer_cache_ttl : ℕ
bearer_cache_ttl = 60 * second

pub record CacheEntry : Type 0 where
  pub username : String
  pub valid_until : ℕ

-- What the API server says of a credential: the identity that it resolves to, or a refusal, or no
-- answer.
pub data Verdict : Type 0 where
  accepted : String → Verdict
  unauthorized forbidden unavailable : Verdict

-- The LRU cache of a third-party library, by what its `Get` and `Add` answer. Only what has been
-- added is found, and it is found under its own key; an entry may be evicted at any time.
pub record LruCache : Type 1 where
  pub Cache : Type 0
  pub find : String → Cache → Option CacheEntry
  pub touched : String → Cache → Cache
  pub add : String → CacheEntry → Cache → Cache
  pub find-touched :
      (k j : String) (c : Cache) (e : CacheEntry)
      → find j (touched k c) ≡ some e
      → find j c ≡ some e
  pub find-add :
      (k j : String) (v : CacheEntry) (c : Cache) (e : CacheEntry)
      → find j (add k v c) ≡ some e
      → ((str_eq k j ≡ true) × (v ≡ e)) ⊎ (find j c ≡ some e)

-- What else the validator calls: the hash of a token, the decoders of its claims, and the API
-- server's verdict at a time. `hash` is SHA-256, which no two tokens in use share.
pub record Outside : Type 0 where
  pub hash : String → String
  pub tokens : TokenDecoders
  pub verdict : ℕ → String → Verdict

abbrev pub token_expiry : Outside → String → ℕ
token_expiry out token = jwt_expiry out.tokens (codes token)

abbrev pub validation_unavailable : ServerError
validation_unavailable = record {
  code = status_service_unavailable;
  message = "Could not verify the token with Kubernetes, please try again later";
  cause = some Cause.validation_failed;
}

abbrev pub token_rejected : ServerError
token_rejected = record {
  code = status_unauthorized;
  message = "Kubernetes rejected this token";
  cause = none;
}

abbrev pub too_many_validations : ServerError
too_many_validations = record {
  code = status_too_many_requests;
  message = "Too many token validations, please try again later";
  cause = none;
}

module _ (lru : LruCache) (out : Outside) where
  open lru use {Cache, find, touched, add}

  -- An entry does not outlive the token that it vouches for.
  unfoldable pub valid_until : String → ℕ → ℕ
  valid_until token now =
      let expiry = token_expiry out token in
      let until = now + bearer_cache_ttl in
      if not (is_zero expiry) && before expiry until then expiry else until

  unfoldable pub answer_verdict : String → ℕ → Verdict → Cache → Answer String × Cache
  unfolding valid_until
  answer_verdict token done (accepted username) c = (
    pass username,
    add (out.hash token) (record { username = username; valid_until = valid_until token done }) c,
  )
  answer_verdict token done unavailable c = (refuse validation_unavailable, c)
  answer_verdict token done _ c = (refuse token_rejected, c)

  -- A miss: the limiter is asked, then the API server.
  unfoldable pub validate_miss : Bool → ℕ → ℕ → String → Cache → Answer String × Cache
  unfolding answer_verdict
  validate_miss allowed now done token c =
      if allowed
      then answer_verdict token done (out.verdict now token) c
      else (refuse too_many_validations, c)

  unfoldable pub hit_or_miss :
      Option CacheEntry → Bool → ℕ → ℕ → String → Cache → Answer String × Cache
  unfolding validate_miss
  hit_or_miss none allowed now done token c = validate_miss allowed now done token c
  hit_or_miss (some entry) allowed now done token c =
      if before now entry.valid_until
      then (pass entry.username, c)
      else validate_miss allowed now done token c

  -- `now` is the clock at the call and `done` the clock after the API server has answered;
  -- `allowed` is what the limiter of cache misses answers, if it is asked.
  unfoldable pub validate : Bool → ℕ → ℕ → String → Cache → Answer String × Cache
  unfolding hit_or_miss
  validate allowed now done token c =
      let key = out.hash token in hit_or_miss (find key c) allowed now done token (touched key c)
