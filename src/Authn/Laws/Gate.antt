-- ===== src/Authn/Laws/Gate.antt =====
-- The cross-origin gate (authn.go: checkCrossOrigin) against a description of who may pass.
use antrea_ui.Base.{
  ◌≡◌, refl, ◌≢◌, Bool, true, Option, none, some, arith, eq_iff, inl, inr, ◌&&◌, str_eq, Bool-cases,
  Option-cases, str_eq→eq, str_ne,
}
use antrea_ui.Authn.Types.{Request, Config, Net, ServerError, dev_origin, status_forbidden}
use antrea_ui.Authn.Origin.{is_empty, is_top_level_navigation, origin_allowed, check_cross_origin}

-- Who may pass: the development server; a request that the browser says is same-origin or typed by
-- the user; a top-level navigation where the endpoint allows one; and, from a browser that sends no
-- Sec-Fetch-Site, a request without an Origin or with one that is allowed.
pub data IsTrusted (net : Net) (cfg : Config) (req : Request) (allow : Bool) : Type 0 where
  development : cfg.dev_mode ≡ true → req.origin ≡ dev_origin → IsTrusted net cfg req allow
  same_origin : req.sec_fetch_site ≡ "same-origin" → IsTrusted net cfg req allow
  user_initiated : req.sec_fetch_site ≡ "none" → IsTrusted net cfg req allow
  navigation :
      allow ≡ true
      → req.sec_fetch_site ≢ ""
      → req.sec_fetch_mode ≡ "navigate"
      → req.sec_fetch_dest ≡ "document"
      → IsTrusted net cfg req allow
  no_origin : req.sec_fetch_site ≡ "" → req.origin ≡ "" → IsTrusted net cfg req allow
  known_origin :
      req.sec_fetch_site ≡ ""
      → origin_allowed net cfg req req.origin ≡ true
      → IsTrusted net cfg req allow

pub data Gate (net : Net) (cfg : Config) (req : Request) (allow : Bool)
    : Option ServerError → Type 0 where
  admitted : IsTrusted net cfg req allow → Gate net cfg req allow none
  blocked :
      (e : ServerError)
      → ¬ IsTrusted net cfg req allow
      → e.code ≡ status_forbidden
      → Gate net cfg req allow (some e)

pub check_cross_origin_passes :
    (net : Net) (cfg : Config) (req : Request) (allow : Bool)
    → IsTrusted net cfg req allow
    → check_cross_origin net cfg req allow ≡ none
unfolding check_cross_origin is_top_level_navigation
check_cross_origin_passes net cfg req allow (development d o) = rw (d, o) refl
check_cross_origin_passes net cfg req allow (same_origin s) = rw s (ground arith)
check_cross_origin_passes net cfg req allow (user_initiated s) = rw s (ground arith)
check_cross_origin_passes net cfg req allow (navigation a s m d) =
    rw (a, m, d) (ground (arith, eq_iff req.sec_fetch_site ""))
check_cross_origin_passes net cfg req allow (no_origin s o) = rw (s, o) (ground arith)
check_cross_origin_passes net cfg req allow (known_origin s o) =
    ground (arith, eq_iff req.sec_fetch_site "")

pub check_cross_origin-IsTrusted :
    (net : Net) (cfg : Config) (req : Request) (allow : Bool)
    → check_cross_origin net cfg req allow ≡ none
    → IsTrusted net cfg req allow
unfolding check_cross_origin is_top_level_navigation
check_cross_origin-IsTrusted net cfg req allow h =
    elim (Bool-cases (cfg.dev_mode && str_eq req.origin dev_origin)) [
      | inl d ↦ development (ground arith) (str_eq→eq req.origin dev_origin (ground arith))
      | inr nd ↦ elim (Bool-cases (is_empty req.sec_fetch_site)) [
        | inl e ↦ elim (Bool-cases (is_empty req.origin)) [
          | inl o ↦ no_origin (str_eq→eq req.sec_fetch_site "" e) (str_eq→eq req.origin "" o)
          | inr o ↦ known_origin (str_eq→eq req.sec_fetch_site "" e) (ground arith)
        ]
        | inr ne ↦ elim (Bool-cases (str_eq req.sec_fetch_site "same-origin")) [
          | inl s ↦ same_origin (str_eq→eq req.sec_fetch_site "same-origin" s)
          | inr ns ↦ elim (Bool-cases (str_eq req.sec_fetch_site "none")) [
            | inl s ↦ user_initiated (str_eq→eq req.sec_fetch_site "none" s)
            | inr nn ↦
                navigation (ground arith) (str_ne req.sec_fetch_site "" ne)
                  (str_eq→eq req.sec_fetch_mode "navigate" (ground arith))
                  (str_eq→eq req.sec_fetch_dest "document" (ground arith))
          ]
        ]
      ]
    ]

pub check_cross_origin_forbids :
    (net : Net) (cfg : Config) (req : Request) (allow : Bool) (e : ServerError)
    → check_cross_origin net cfg req allow ≡ some e
    → e.code ≡ status_forbidden
unfolding check_cross_origin is_top_level_navigation
check_cross_origin_forbids net cfg req allow e h = ground arith

-- The gate lets exactly the trusted requests through, and answers every other one with 403. A
-- request is trusted when it comes from the development server in development mode; when the browser
-- says that it is same-origin or made by the user; when it is a top-level navigation of a document,
-- at an endpoint that allows one; and, without a Sec-Fetch-Site header, when it has no Origin or one
-- that is allowed.
pub check_cross_origin-Gate :
    (net : Net) (cfg : Config) (req : Request) (allow : Bool)
    → Gate net cfg req allow (check_cross_origin net cfg req allow)
check_cross_origin-Gate net cfg req allow =
    elim (Option-cases (check_cross_origin net cfg req allow)) [
      | inl e ↦ rw e (admitted (check_cross_origin-IsTrusted net cfg req allow e))
      | inr (x, e) ↦ rw e (
          blocked x (λ t. ground (arith, check_cross_origin_passes net cfg req allow t))
            (check_cross_origin_forbids net cfg req allow x e))
    ]
