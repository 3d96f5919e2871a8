-- ===== src/Settings/Soundness.antt =====
-- Which configurations are accepted, and that the server then runs with what they say.
use antrea_ui.Base.{
  ℕ, zero, suc, ◌≤◌, ◌<◌, ◌≡◌, refl, ◌≢◌, ◌⊎◌, Bool, true, false, Option, none, arith, ◌↔◌, inl,
  inr, ◌&&◌, ◌||◌, not, str_eq, Bool-cases, str_eq→eq, str_ne,
}
use antrea_ui.Base.Int.{ℤ, pos, negsuc}
use antrea_ui.Settings.Types.{Config, AuthConfig, SessionConfig}
use antrea_ui.Settings.Validation.{
  ConfigError, check, less, is_not_positive, any_mode_enabled, validate_session, validate_config,
}

-- The session settings in natural numbers: positive, the idle timeout within the lifetime and one
-- user's share within the whole.
pub record IsSessionConfig (s : SessionConfig) : Type 0 where
  pub idle : ℕ
  pub lifetime : ℕ
  pub whole : ℕ
  pub share : ℕ
  pub idle_is : s.idle_timeout ≡ pos idle
  pub lifetime_is : s.max_lifetime ≡ pos lifetime
  pub whole_is : s.max_sessions ≡ pos whole
  pub share_is : s.max_sessions_per_user ≡ pos share
  pub idle_positive : 0 < idle
  pub idle_fits : idle ≤ lifetime
  pub share_positive : 0 < share
  pub share_fits : share ≤ whole

pub record IsUsable (c : Config) : Type 0 where
  pub verbosity : ℕ
  pub verbosity_is : c.log_verbosity ≡ pos verbosity
  pub verbosity_fits : verbosity < 128
  pub has_url : (c.auth.oidc.enabled ≡ false) ⊎ (c.url ≢ "")
  pub has_mode :
      (c.auth.basic_enabled ≡ true)
      ⊎ (c.auth.oidc.enabled ≡ true)
      ⊎ (c.auth.kubeconfig_enabled ≡ true)
      ⊎ (c.auth.service_account_token_enabled ≡ true)
  pub session : IsSessionConfig c.session

check-none :
    (b : Bool) (e : ConfigError) (later : Option ConfigError)
    → check b e later ≡ none
    → (b ≡ false) × (later ≡ none)
check-none b e later h = (ground arith, ground arith)

positive : (x : ℤ) → is_not_positive x ≡ false → (n : ℕ) × (x ≡ pos (suc n))
positive (pos zero) e = absurd (ground arith)
positive (pos (suc n)) e = (n, refl)
positive (negsuc n) e = absurd (ground arith)

not_positive : (x : ℤ) (n : ℕ) → x ≡ pos n → 0 < n → is_not_positive x ≡ false
not_positive x zero e lt = absurd (omega arith)
not_positive x (suc n) e lt = rw e refl

session-IsSessionConfig : (s : SessionConfig) → validate_session s ≡ none → IsSessionConfig s
unfolding validate_session
session-IsSessionConfig s h =
    let h₁ = check-none _ _ _ h in
    let h₂ = check-none _ _ _ h₁.1 in
    let h₃ = check-none _ _ _ h₂.1 in
    let h₄ = check-none _ _ _ h₃.1 in
    let h₅ = check-none _ _ _ h₄.1 in
    let h₆ = check-none _ _ _ h₅.1 in
    let (i, i_is) = positive s.idle_timeout h₁.0 in
    let (l, l_is) = positive s.max_lifetime h₂.0 in
    let (w, w_is) = positive s.max_sessions h₄.0 in
    let (u, u_is) = positive s.max_sessions_per_user h₅.0 in
    let fits : less s.max_lifetime s.idle_timeout ≡ false = h₃.0 in
    let share : less s.max_sessions s.max_sessions_per_user ≡ false = h₆.0 in
    let fits : less (pos (suc l)) (pos (suc i)) ≡ false = rw (l_is, i_is) at fits in
    let share : less (pos (suc w)) (pos (suc u)) ≡ false = rw (w_is, u_is) at share in
    record {
      idle = suc i;
      lifetime = suc l;
      whole = suc w;
      share = suc u;
      idle_is = i_is;
      lifetime_is = l_is;
      whole_is = w_is;
      share_is = u_is;
      idle_positive = omega arith;
      idle_fits = ground arith;
      share_positive = omega arith;
      share_fits = ground arith;
    }

session_accepted : (s : SessionConfig) → IsSessionConfig s → validate_session s ≡ none
unfolding validate_session
session_accepted s g =
    let i = not_positive s.idle_timeout g.idle g.idle_is g.idle_positive in
    let l =
      not_positive s.max_lifetime g.lifetime g.lifetime_is
        (omega (arith, g.idle_positive, g.idle_fits)) in
    let w =
      not_positive s.max_sessions g.whole g.whole_is
        (omega (arith, g.share_positive, g.share_fits)) in
    let u = not_positive s.max_sessions_per_user g.share g.share_is g.share_positive in
    let fits : less s.max_lifetime s.idle_timeout ≡ false =
      rw (g.lifetime_is, g.idle_is) (ground (arith, g.idle_fits)) in
    let share : less s.max_sessions s.max_sessions_per_user ≡ false =
      rw (g.whole_is, g.share_is) (ground (arith, g.share_fits)) in
    rw (i, l, fits, w, u, share) refl

verbosity_of :
    (x : ℤ) → less x (pos 0) || not (less x (pos 128)) ≡ false → (n : ℕ) × (x ≡ pos n) × (n < 128)
verbosity_of (pos n) e = (n, refl, ground arith)
verbosity_of (negsuc n) e = absurd (ground arith)

one_mode :
    (a : AuthConfig)
    → any_mode_enabled a ≡ true
    → (a.basic_enabled ≡ true)
      ⊎ (a.oidc.enabled ≡ true)
      ⊎ (a.kubeconfig_enabled ≡ true)
      ⊎ (a.service_account_token_enabled ≡ true)
unfolding any_mode_enabled
one_mode a e = ground arith

mode_on :
    (a : AuthConfig)
    → (a.basic_enabled ≡ true)
      ⊎ (a.oidc.enabled ≡ true)
      ⊎ (a.kubeconfig_enabled ≡ true)
      ⊎ (a.service_account_token_enabled ≡ true)
    → any_mode_enabled a ≡ true
unfolding any_mode_enabled
mode_on a e = ground arith

url_given :
    (c : Config)
    → c.auth.oidc.enabled && str_eq c.url "" ≡ false
    → (c.auth.oidc.enabled ≡ false) ⊎ (c.url ≢ "")
url_given c e = elim (Bool-cases c.auth.oidc.enabled) [
  | inr off ↦ inl off
  | inl on ↦ inr (str_ne c.url "" (ground arith))
]

no_url :
    (c : Config)
    → (c.auth.oidc.enabled ≡ false) ⊎ (c.url ≢ "")
    → c.auth.oidc.enabled && str_eq c.url "" ≡ false
no_url c (inl off) = ground arith
no_url c (inr ne) = elim (Bool-cases (str_eq c.url "")) [
  | inl e ↦ absurd (ne (str_eq→eq c.url "" e))
  | inr e ↦ ground arith
]

config-IsUsable : (c : Config) → validate_config c ≡ none → IsUsable c
unfolding validate_config
config-IsUsable c h =
    let h₁ = check-none _ _ _ h in
    let h₂ = check-none _ _ _ h₁.1 in
    let h₃ = check-none _ _ _ h₂.1 in
    let mode : not (any_mode_enabled c.auth) ≡ false = h₃.0 in
    let (n, n_is, n_fits) = verbosity_of c.log_verbosity h₁.0 in
    record {
      verbosity = n;
      verbosity_is = n_is;
      verbosity_fits = n_fits;
      has_url = url_given c h₂.0;
      has_mode = one_mode c.auth (ground arith);
      session = session-IsSessionConfig c.session h₃.1;
    }

usable_accepted : (c : Config) → IsUsable c → validate_config c ≡ none
unfolding validate_config
usable_accepted c u =
    let verbosity : less c.log_verbosity (pos 0) || not (less c.log_verbosity (pos 128)) ≡ false =
      rw u.verbosity_is (ground (arith, u.verbosity_fits)) in
    rw
      (
        verbosity,
        no_url c u.has_url,
        mode_on c.auth u.has_mode,
        session_accepted c.session u.session,
      )
      refl

-- A configuration is accepted just when it can be used: the verbosity is between 0 and 127, OIDC has a
-- URL, some login mode is on, the session limits are positive, the idle timeout is within the maximal
-- lifetime and one user's share within the number of sessions.
pub validate_config-IsUsable : (c : Config) → (validate_config c ≡ none) ↔ IsUsable c
validate_config-IsUsable c = (config-IsUsable c, usable_accepted c)
