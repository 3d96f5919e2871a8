-- ===== src/Authn/Laws/Redirects.antt =====
-- Where a login may send the browser afterwards (authn.go: SafeRedirectURL).
use antrea_ui.Base.{
  String, ◌≡◌, refl, ◌≢◌, ◌⊎◌, inl, inr, true, false, ◌&&◌, ◌||◌, not, some, arith, str_eq,
  Bool-cases, Option-cases, str_eq→eq, str_ne, has_prefix, contains_code, ap,
}
use Prim.Native.String.{◌++◌ as str_append}
use antrea_ui.Authn.Types.{Request, Config, Url, Net}
use antrea_ui.Authn.Origin.{same_host, is_empty, origin_allowed, safe_target, safe_redirect_url}

-- The origin of this site: the configured one, or, where none is configured, a URL whose host is
-- the request's own. Letter case does not matter.
pub data IsOwn (net : Net) (cfg : Config) (req : Request) (origin : String) : Type 0 where
  configured :
      cfg.server_origin ≢ ""
      → net.equal_fold origin cfg.server_origin ≡ true
      → IsOwn net cfg req origin
  of_host :
      (w : Url)
      → cfg.server_origin ≡ ""
      → net.parse_url origin ≡ some w
      → w.host ≢ ""
      → net.equal_fold w.host req.host ≡ true
      → IsOwn net cfg req origin

empty_false : (s : String) → s ≢ "" → is_empty s ≡ false
empty_false s ne = elim (Bool-cases (is_empty s)) [
  | inl e ↦ absurd (ne (str_eq→eq s "" e))
  | inr e ↦ e
]

own_allowed :
    (net : Net) (cfg : Config) (req : Request) (origin : String)
    → IsOwn net cfg req origin
    → origin_allowed net cfg req origin ≡ true
unfolding origin_allowed same_host
own_allowed net cfg req origin (configured ne e) = rw (empty_false cfg.server_origin ne, e) refl
own_allowed net cfg req origin (of_host w n p h e) = rw (n, p, empty_false w.host h, e) refl

allowed-IsOwn :
    (net : Net) (cfg : Config) (req : Request) (origin : String)
    → origin_allowed net cfg req origin ≡ true
    → IsOwn net cfg req origin
unfolding origin_allowed same_host
allowed-IsOwn net cfg req origin a = elim (Bool-cases (is_empty cfg.server_origin)) [
  | inr e ↦ configured (str_ne cfg.server_origin "" e) (ground arith)
  | inl e ↦ elim (Option-cases (net.parse_url origin)) [
    | inl p ↦ absurd (ground arith)
    | inr (w, p) ↦ elim (Bool-cases (is_empty w.host)) [
      | inl h ↦ absurd (ground arith)
      | inr h ↦ of_host w (str_eq→eq cfg.server_origin "" e) p (str_ne w.host "" h) (ground arith)
    ]
  ]
]

-- A target that stays on the site: a path below "/" that no browser reads as another host, or an
-- http or https URL on this site's origin.
pub data IsSafe (net : Net) (cfg : Config) (req : Request) (raw : String) (u : Url) : Type 0 where
  local_path :
      u.scheme ≡ ""
      → u.host ≡ ""
      → has_prefix raw "/" ≡ true
      → has_prefix raw "//" ≡ false
      → contains_code 92 raw ≡ false
      → IsSafe net cfg req raw u
  own_origin :
      (u.scheme ≡ "http") ⊎ (u.scheme ≡ "https")
      → IsOwn net cfg req (str_append u.scheme (str_append "://" u.host))
      → IsSafe net cfg req raw u

pub data Redirect (net : Net) (cfg : Config) (req : Request) (raw : String) : String → Type 0 where
  kept :
      (u : Url)
      → raw ≢ ""
      → net.parse_url raw ≡ some u
      → IsSafe net cfg req raw u
      → Redirect net cfg req raw raw
  dropped :
      ((u : Url) → raw ≢ "" → net.parse_url raw ≡ some u → ¬ IsSafe net cfg req raw u)
      → Redirect net cfg req raw ""

safe_target_kept :
    (net : Net) (cfg : Config) (req : Request) (raw : String) (u : Url)
    → IsSafe net cfg req raw u
    → safe_target net cfg req raw u ≡ raw
unfolding safe_target
safe_target_kept net cfg req raw u (local_path s h p q b) = rw (s, h, p, q, b) refl
safe_target_kept net cfg req raw u (own_origin (inl s) a) =
    ground
      (arith, ap (λ x. str_eq x "") s, ap (λ x. str_eq x "http") s, own_allowed net cfg req _ a)
safe_target_kept net cfg req raw u (own_origin (inr s) a) =
    ground
      (arith, ap (λ x. str_eq x "") s, ap (λ x. str_eq x "https") s, own_allowed net cfg req _ a)

safe_target-IsSafe :
    (net : Net) (cfg : Config) (req : Request) (raw : String) (u : Url)
    → (safe_target net cfg req raw u ≡ "")
      ⊎ ((safe_target net cfg req raw u ≡ raw) × IsSafe net cfg req raw u)
unfolding safe_target
safe_target-IsSafe net cfg req raw u = elim (Bool-cases (is_empty u.scheme && is_empty u.host)) [
  | inl e ↦ elim (Bool-cases (not (has_prefix raw "/") || has_prefix raw "//")) [
    | inl bad ↦ inl (ground arith)
    | inr good ↦ elim (Bool-cases (contains_code 92 raw)) [
      | inl b ↦ inl (ground arith)
      | inr b ↦ inr (
        ground arith,
        local_path (str_eq→eq u.scheme "" (ground arith)) (str_eq→eq u.host "" (ground arith))
            (ground arith) (ground arith) b,
      )
    ]
  ]
  | inr ne ↦
      elim (Bool-cases
        (origin_allowed net cfg req (str_append u.scheme (str_append "://" u.host)))) [
          | inr foreign ↦ inl (ground arith)
          | inl a ↦ elim (Bool-cases (str_eq u.scheme "http")) [
            | inl s ↦ inr (
              ground arith,
              own_origin (inl (str_eq→eq u.scheme "http" s)) (allowed-IsOwn net cfg req _ a),
            )
            | inr ns ↦ elim (Bool-cases (str_eq u.scheme "https")) [
              | inl s ↦ inr (
                ground arith,
                own_origin (inr (str_eq→eq u.scheme "https" s)) (allowed-IsOwn net cfg req _ a),
              )
              | inr ns' ↦ inl (ground arith)
            ]
          ]
        ]
]

-- A redirect target is either returned unchanged or dropped. It is returned just when it parses and
-- is safe: a relative path that starts with one slash and holds no backslash, or an http or https
-- URL on this site's own origin. That is the configured origin or, where none is configured, an
-- origin whose host is that of the request.
pub safe_redirect_url-Redirect :
    (net : Net) (cfg : Config) (req : Request) (raw : String)
    → Redirect net cfg req raw (safe_redirect_url net cfg req raw)
unfolding safe_redirect_url
safe_redirect_url-Redirect net cfg req raw = elim (Bool-cases (is_empty raw)) [
  | inl e ↦ rw e (dropped (λ u ne p. absurd (ne (str_eq→eq raw "" e))))
  | inr ne ↦ rw ne (elim (Option-cases (net.parse_url raw)) [
    | inl e ↦ rw e (dropped (λ u n p s. ground arith))
    | inr (u, e) ↦ rw e (elim (safe_target-IsSafe net cfg req raw u) [
      | inl d ↦ rw d (
          dropped
            (λ v n p s. ground (arith, safe_target_kept net cfg req raw v s, str_ne raw "" ne)))
      | inr (k, s) ↦ rw k (kept u (str_ne raw "" ne) e s)
    ])
  ])
]
