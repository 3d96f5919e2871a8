-- ===== src/Login/Types.antt =====
-- The settings of the login endpoints, what one request changes, and what it is answered
-- (pkg/server/auth.go, pkg/server/server.go, apis/v1/auth.go).
use antrea_ui.Base.{ℕ, String, Bool, Option, none, some, List, ◌++◌}
use antrea_ui.Base.Int.{ℤ}
use antrea_ui.Session.Types.{Mode, Store}
use antrea_ui.Authn.Types.{ServerError}
use antrea_ui.Authn.Cookies.{SetCookie}

pub record ServerConfig : Type 0 where
  pub basic_auth_enabled : Bool
  pub oidc_auth_enabled : Bool
  pub oidc_needs_logout : Bool
  pub kubeconfig_auth_enabled : Bool
  pub sa_token_auth_enabled : Bool
  pub cookie_secure : Bool
  pub max_logins_per_second : ℤ
  pub admin_user_name : String

-- The session store, and the Set-Cookie headers of the response in the order in which they are
-- added.
pub record Visit : Type 0 where
  pub store : Store
  pub set_cookies : List SetCookie

unfoldable pub add_cookies : List SetCookie → Visit → Visit
add_cookies cs v = record v { set_cookies = v.set_cookies ++ cs }

-- A source of randomness (`none` where it fails), the clock when a certificate is checked, and the
-- clock when the session is created.
pub record Instant : Type 0 where
  pub random : Option String
  pub checked : ℕ
  pub now : ℕ

pub record SessionInfo : Type 0 where
  pub authenticated : Bool
  pub mode : String
  pub username : String
  pub expires_at : Option ℕ

abbrev pub mode_name : Mode → String
mode_name Mode.oidc = "oidc"
mode_name Mode.kubeconfig = "kubeconfig"
mode_name Mode.admin = "admin"
mode_name Mode.sa_token = "serviceAccountToken"

pub data Reply : Type 0 where
  failed : ServerError → Reply
  status : ℕ → Reply
  redirect : ℕ → String → Reply
  info : SessionInfo → Reply

-- The end of a login handler: 200 unless an error was returned.
abbrev pub finish : Option ServerError × Visit → Reply × Visit
finish (none, v) = (status 200, v)
finish (some e, v) = (failed e, v)
