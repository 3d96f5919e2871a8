-- ===== src/Session/Expiry.antt =====
-- When a session and its credential end (store.go: setDefaults, effectiveExpiry, alive,
-- credentialExpired; session.go: needsRefresh).
use antrea_ui.Base.{
  ℕ, zero, suc, ◌+◌, ◌-◌, ◌*◌, ◌≤◌, ◌<◌, ◌≡◌, Bool, true, false, ◌&&◌, ◌||◌, not, arith, ltb, leb,
  if◌then◌else◌, is_zero, is_none, before, after,
}
use antrea_ui.Base.Int.{ℤ, pos, negsuc}
use antrea_ui.Session.Types.{Session, Options, second}

-- The options as they are given: Go's signed durations and sizes.
pub record GivenOptions : Type 0 where
  pub idle_timeout : ℤ
  pub max_lifetime : ℤ
  pub max_sessions : ℤ
  pub max_sessions_per_user : ℤ

abbrev pub default_idle_timeout : ℕ
default_idle_timeout = 30 * 60 * second

abbrev pub default_max_lifetime : ℕ
default_max_lifetime = 12 * 3600 * second

abbrev pub default_max_sessions : ℕ
default_max_sessions = 1000

abbrev pub default_max_sessions_per_user : ℕ
default_max_sessions_per_user = 10

-- `if x <= 0 { x = def }`
abbrev positive_or : ℕ → ℤ → ℕ
positive_or def (pos zero) = def
positive_or def (pos (suc n)) = suc n
positive_or def (negsuc n) = def

unfoldable pub set_defaults : GivenOptions → Options
set_defaults o =
    let sessions = positive_or default_max_sessions o.max_sessions in
    let per_user = positive_or default_max_sessions_per_user o.max_sessions_per_user in
    record {
      idle_timeout = positive_or default_idle_timeout o.idle_timeout;
      max_lifetime = positive_or default_max_lifetime o.max_lifetime;
      max_sessions = sessions;
      max_sessions_per_user = if ltb sessions per_user then sessions else per_user;
    }

unfoldable pub effective_expiry : ℕ → ℕ → ℕ → ℕ
effective_expiry created_at max_lifetime cred_expiry =
    let absolute = created_at + max_lifetime in
    if is_zero cred_expiry || after cred_expiry absolute then absolute else cred_expiry

-- `now.Sub(lastSeen)` is negative where `now` is earlier, and then within any idle timeout.
unfoldable pub alive : Options → Session → ℕ → Bool
alive o s now =
    if after now (s.created_at + o.max_lifetime)
    then false
    else if is_none s.refresher
        && (not (is_zero s.credential.expires_at) && after now s.credential.expires_at)
    then false
    else leb (now - s.last_seen) o.idle_timeout

unfoldable pub credential_expired : Session → ℕ → Bool
credential_expired s now =
    not (is_zero s.credential.expires_at) && after now s.credential.expires_at

unfoldable pub needs_refresh : Session → ℕ → ℕ → Bool
needs_refresh s now window =
    if is_none s.refresher
    then false
    else if is_zero s.credential.expires_at
    then false
    else not (before (now + window) s.credential.expires_at)

-- What the rest of the store relies on: each limit is positive, and one user's share is no more
-- than the whole.
pub record IsSane (o : Options) : Type 0 where
  pub idle_positive : 0 < o.idle_timeout
  pub lifetime_positive : 0 < o.max_lifetime
  pub share_positive : 0 < o.max_sessions_per_user
  pub share_fits : o.max_sessions_per_user ≤ o.max_sessions

-- Whatever the given options, the resolved ones are sane, and a positive setting is kept unless it
-- is a per-user limit above the store's.
pub set_defaults-IsSane : (o : GivenOptions) → IsSane (set_defaults o)
unfolding set_defaults
set_defaults-IsSane o = ground arith

pub effective_expiry-le : (c m e : ℕ) → effective_expiry c m e ≤ c + m
unfolding effective_expiry
effective_expiry-le c m e = ground arith

-- A credential that has an expiry bounds the session too.
pub effective_expiry-le_credential : (c m e : ℕ) → 0 < e → effective_expiry c m e ≤ e
unfolding effective_expiry
effective_expiry-le_credential c m e h = ground arith

-- A live session is within its absolute cap and its idle timeout, and if nothing can renew its
-- credential, that is still valid.
pub alive_bounds :
    (o : Options) (s : Session) (now : ℕ)
    → alive o s now ≡ true
    → (now ≤ s.created_at + o.max_lifetime) × (now ≤ s.last_seen + o.idle_timeout)
unfolding alive
alive_bounds o s now h = ground arith
