-- ===== src/Authn/Origin.antt =====
-- The cross-origin gate and the redirect check (authn.go: checkCrossOrigin, originAllowed,
-- isTopLevelNavigation, SafeRedirectURL, bearerToken).
use Prim.Native.String.{◌++◌ as str_append}
use antrea_ui.Base.{
  String, Bool, false, ◌&&◌, ◌||◌, not, Option, none, some, str_eq, if◌then◌else◌, has_prefix,
  contains_code, cut,
}
use antrea_ui.Authn.Types.{
  Request, Config, Url, Net, Cause, ServerError, dev_origin, status_forbidden,
}

abbrev pub is_empty : String → Bool
is_empty s = str_eq s ""

unfoldable pub is_top_level_navigation : Request → Bool
is_top_level_navigation req =
    str_eq req.sec_fetch_mode "navigate" && str_eq req.sec_fetch_dest "document"

abbrev pub reject : Cause → ServerError
reject why = record {
  code = status_forbidden;
  message = "Cross-origin request rejected";
  cause = some why;
}

module _ (net : Net) where
  unfoldable pub same_host : Request → Option Url → Bool
  same_host req none = false
  same_host req (some u) = if is_empty u.host then false else net.equal_fold u.host req.host

  unfoldable pub origin_allowed : Config → Request → String → Bool
  unfolding same_host
  origin_allowed cfg req origin =
      if not (is_empty cfg.server_origin)
      then net.equal_fold origin cfg.server_origin
      else same_host req (net.parse_url origin)

  -- `none` lets the request through.
  unfoldable pub check_cross_origin : Config → Request → Bool → Option ServerError
  unfolding is_top_level_navigation
  check_cross_origin cfg req allow_top_level_navigation =
      if cfg.dev_mode && str_eq req.origin dev_origin
      then none
      else if not (is_empty req.sec_fetch_site)
      then (if str_eq req.sec_fetch_site "same-origin" || str_eq req.sec_fetch_site "none"
          then none
          else if allow_top_level_navigation && is_top_level_navigation req
          then none
          else some (reject (Cause.fetch_site req.sec_fetch_site)))
      else if is_empty req.origin
      then none
      else if origin_allowed cfg req req.origin
      then none
      else some (reject (Cause.foreign_origin req.origin))

  -- The target of a redirect that parses as `u`.
  unfoldable pub safe_target : Config → Request → String → Url → String
  safe_target cfg req raw u =
      if is_empty u.scheme && is_empty u.host
      then (if not (has_prefix raw "/") || has_prefix raw "//"
          then ""
          else if contains_code 92 raw
          then ""
          else raw)
      else if not (str_eq u.scheme "http") && not (str_eq u.scheme "https")
      then ""
      else if origin_allowed cfg req (str_append u.scheme (str_append "://" u.host))
      then raw
      else ""

  unfoldable pub safe_redirect_url : Config → Request → String → String
  unfolding safe_target
  safe_redirect_url cfg req raw =
      if is_empty raw
      then ""
      else elim (net.parse_url raw) [ none ↦ "" | some u ↦ safe_target cfg req raw u ]

  unfoldable pub bearer_parts : Option (String × String) → Option String
  bearer_parts none = none
  bearer_parts (some (scheme, token)) =
      if not (net.equal_fold scheme "Bearer") || is_empty token then none else some token

  -- `strings.SplitN(header, " ", 2)` has two parts just where the header has a space.
  unfoldable pub bearer_token : Request → Option String
  unfolding bearer_parts
  bearer_token req =
      if is_empty req.authorization then none else bearer_parts (cut b' ' req.authorization)
