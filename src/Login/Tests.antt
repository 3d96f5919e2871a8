-- ===== src/Login/Tests.antt =====
-- The login endpoints on a store of two sessions.
use antrea_ui.Base.{
  ℕ, String, ◌≡◌, refl, true, false, Option, none, some, [], ◌∷◌, ◌==◌, if◌then◌else◌, Bytes, All,
  lookup, insert, arith,
}
use antrea_ui.Base.Int.{pos}
use antrea_ui.Session.Scenarios.{two_users, two_users-IsWellFormed}
use antrea_ui.Session.Types.{Mode, Kind, Spec}
use antrea_ui.Authn.Tests.{foreign, browser, deployed, go_net}
use antrea_ui.Login.Types.{add_cookies, status, ServerConfig, Visit, Instant, Reply}
use antrea_ui.Login.Creation.{credential_refused, ApiServer, create_session}
use antrea_ui.Login.Flows.{login, login_with_kubeconfig, login_with_token, user_spec}
use antrea_ui.Login.Signing.{by_token, serve_login}
use antrea_ui.Login.Laws.Creating.{Creation, create_session-Creation}
use antrea_ui.Login.Routes.{auth_routes, Endpoint}
use antrea_ui.Login.Wording.{Formats}
use antrea_ui.Login.Laws.Leaving.{logout-LoggedOut, LoggedOut}
use antrea_ui.Login.Laws.Guarding.{logins_limit, auth_routes-AreGuarded, IsGuarded}
use antrea_ui.Credentials.Kubeconfig.{Decoders}
use antrea_ui.Login.Ending.{logout}
use antrea_ui.Password.Secret.{write_memory, read_memory, in_memory}
use antrea_ui.Credentials.Tests.{bob, config_of, decoders}
use antrea_ui.Password.Tests.{initialized, salting}
use antrea_ui.Authn.Cookies.{get_session_cookie, unset_session_cookie}
use antrea_ui.Session.Memory.{session_zero, contents}
use antrea_ui.Session.Store.{delete_session, per_user_cap_key, create}
use antrea_ui.Session.Expiry.{set_defaults}
use antrea_ui.Login.Laws.Holding.{AreAllocated}
use antrea_ui.Login.Laws.SigningIn.{serve_login-SignIn, SignIn}
use antrea_ui.Password.Store.{init, compare_password}

abbrev pub server_config : ServerConfig
server_config = record {
  basic_auth_enabled = true;
  oidc_auth_enabled = true;
  oidc_needs_logout = true;
  kubeconfig_auth_enabled = true;
  sa_token_auth_enabled = false;
  cookie_secure = true;
  max_logins_per_second = pos 1;
  admin_user_name = "system:serviceaccount:kube-system:antrea-ui-admin";
}

abbrev pub visit : Visit
visit = record { store = two_users; set_cookies = [] }

abbrev pub instant : Instant
instant = record { random = some "s3"; checked = 20; now = 20 }

abbrev spec : Spec
spec = user_spec Mode.sa_token "carol" (record {
  kind = Kind.bearer;
  token = some 0;
  cert_pem = none;
  key_pem = none;
  user_name = "";
  expires_at = 0;
})

create_session-Creation_example :
    Creation server_config deployed browser 20 spec visit
      (some "s3")
      (create_session server_config deployed browser (some "s3") 20 spec visit)
create_session-Creation_example =
    create_session-Creation server_config deployed browser 20 spec visit (some "s3")
      two_users-IsWellFormed

-- The API server knows the token of carol, and no other credential.
abbrev pub knows_carol : ApiServer
knows_carol kind (some (b ∷ bs)) cert key name = if b == 99 then some "carol" else none
knows_carol kind token cert key name = none

abbrev pub formats : Formats
formats = record { quote = λ s. s; rfc3339 = λ t. "later" }

abbrev token_in_kubeconfig : Decoders
token_in_kubeconfig = record decoders {
  load = λ text. some (config_of (record bob { token = "carols token" }));
}

pub two_users-AreAllocated : AreAllocated two_users
unfolding create lookup insert per_user_cap_key set_defaults
two_users-AreAllocated = omega arith

serve_login-SignIn_example :
    SignIn server_config deployed browser instant in_memory salting initialized decoders knows_carol
      formats visit
      (by_token (some "carols token"))
      (serve_login server_config deployed browser instant in_memory salting initialized decoders
        knows_carol formats
        (by_token (some "carols token"))
        visit)
serve_login-SignIn_example =
    serve_login-SignIn server_config deployed browser instant in_memory salting initialized decoders
      knows_carol formats visit (by_token (some "carols token")) two_users-IsWellFormed
      two_users-AreAllocated

kubeconfig_logs_in :
    (login_with_kubeconfig server_config deployed browser instant token_in_kubeconfig knows_carol
      formats
      (some "apiVersion: v1")
      visit).0
    ≡ none
unfolding login_with_kubeconfig contents create per_user_cap_key set_defaults insert
    get_session_cookie delete_session lookup session_zero
kubeconfig_logs_in = refl

token_logs_in :
    (login_with_token server_config deployed browser instant decoders knows_carol formats
      (some "carols token")
      visit).0
    ≡ none
unfolding login_with_token contents create per_user_cap_key set_defaults insert get_session_cookie
    delete_session lookup session_zero
token_logs_in = refl

token_refused :
    (login_with_token server_config deployed browser instant decoders knows_carol formats
      (some "daves token")
      visit).0
    ≡ some credential_refused
unfolding login_with_token contents create per_user_cap_key set_defaults insert
token_refused = refl

admin_logs_in :
    (login server_config deployed browser instant in_memory salting initialized
      (some ("admin", "admin"))
      visit).0
    ≡ none
unfolding login compare_password init read_memory write_memory contents create per_user_cap_key
    set_defaults insert get_session_cookie delete_session lookup session_zero
admin_logs_in = refl

abbrev logout_url : Bytes → Option String
logout_url token = some "https://idp.example.com/logout"

logout-LoggedOut_example :
    LoggedOut server_config logout_url go_net deployed browser "https://ui.example.com/traceflow"
      visit
      (logout server_config logout_url go_net deployed browser "https://ui.example.com/traceflow"
        visit)
logout-LoggedOut_example =
    logout-LoggedOut server_config logout_url go_net deployed browser
      "https://ui.example.com/traceflow" visit

abbrev counts : Option ℕ → Endpoint → Visit → Reply × Visit
counts size ep v = (status 200, add_cookies (unset_session_cookie ∷ []) v)

auth_routes-AreGuarded_example :
    All
      (IsGuarded go_net deployed foreign
        (λ l. true)
        counts
        (logins_limit server_config.max_logins_per_second))
      (auth_routes server_config)
auth_routes-AreGuarded_example =
    auth_routes-AreGuarded go_net deployed foreign (λ l. true) counts server_config
