-- ===== src/Login/Flows.antt =====
-- The three ways to log in with a credential of one's own or the admin password: Login,
-- LoginWithToken and LoginWithKubeconfig (pkg/server/auth.go).
use antrea_ui.Base.{String, Option, none, some, if◌then◌else◌, str_eq, not, codes}
use antrea_ui.Session.Types.{Mode, Kind, Credential, Spec, Heap}
use antrea_ui.Session.Memory.{new_buffer, credential_zero}
use antrea_ui.Credentials.Kubeconfig.{
  Decoders, NewCredential, Login, bearer_credential, credential_from_kubeconfig,
}
use antrea_ui.Password.Store.{ReadWriter, Hasher, PasswordStore, compare_password}
use antrea_ui.Authn.Types.{
  status_unauthorized, status_bad_request, Request, Config, ServerError, Answer, pass, refuse,
}
use antrea_ui.Login.Types.{ServerConfig, Visit, Instant}
use antrea_ui.Login.Creation.{ApiServer, create_session, validate_credential}
use antrea_ui.Login.Wording.{Formats, describe}

-- The credential's bytes stand in buffers of their own.
unfoldable pub store_credential : NewCredential → Heap → Credential × Heap
unfolding new_buffer
store_credential n h =
    let (token, h₁) = new_buffer n.token h in
    let (cert_pem, h₂) = new_buffer n.cert_pem h₁ in
    let (key_pem, h₃) = new_buffer n.key_pem h₂ in
    (
      record {
        kind = n.kind;
        token = token;
        cert_pem = cert_pem;
        key_pem = key_pem;
        user_name = "";
        expires_at = n.expires_at;
      },
      h₃,
    )

abbrev pub basic_auth_required : ServerError
basic_auth_required = record {
  code = status_unauthorized;
  message = "Basic Auth required";
  cause = none;
}

abbrev pub not_admin : ServerError
not_admin = record {
  code = status_unauthorized;
  message = "Must authenticate as admin";
  cause = none;
}

abbrev pub invalid_admin_password : ServerError
invalid_admin_password = record {
  code = status_unauthorized;
  message = "Invalid admin password";
  cause = none;
}

abbrev pub bad_request : String → ServerError
bad_request message = record { code = status_bad_request; message = message; cause = none }

abbrev pub invalid_body : ServerError
invalid_body = bad_request "Invalid request body"

-- The session of the admin password, whose requests impersonate this user.
abbrev pub admin_spec : String → String → Spec
admin_spec user admin_user_name = record {
  mode = Mode.admin;
  credential = record {
    kind = Kind.impersonate;
    token = none;
    cert_pem = none;
    key_pem = none;
    user_name = admin_user_name;
    expires_at = 0;
  };
  refresh_token = none;
  username = user;
  refresher = none;
}

abbrev pub user_spec : Mode → String → Credential → Spec
user_spec mode username c = record {
  mode = mode;
  credential = c;
  refresh_token = none;
  username = username;
  refresher = none;
}

module _ (cfg : ServerConfig) (auth : Config) (req : Request) (i : Instant) where
  -- `basic` is what `BasicAuth` finds in the request.
  unfoldable pub login :
      (rw : ReadWriter)
      → Hasher
      → PasswordStore rw
      → Option (String × String)
      → Visit
      → Option ServerError × Visit
  unfolding create_session
  login rw hasher passwords none v = (some basic_auth_required, v)
  login rw hasher passwords (some (user, password)) v =
      if not (str_eq user "admin")
      then (some not_admin, v)
      else elim (compare_password rw hasher (codes password) passwords) [
        | some e ↦ (some invalid_admin_password, v)
        | none ↦ create_session cfg auth req i.random i.now (admin_spec user cfg.admin_user_name) v
      ]

  -- After the API server has answered: `cred.Zero()`, or the session.
  unfoldable pub open_validated :
      Mode → Credential → Visit → Answer String → Option ServerError × Visit
  unfolding create_session
  open_validated mode c v (refuse e) =
      (some e, record v { store = record (v.store) { heap = (credential_zero c v.store.heap).1 } })
  open_validated mode c v (pass username) =
      create_session cfg auth req i.random i.now (user_spec mode username c) v

  -- What both endpoints do with a credential that they could read.
  unfoldable pub login_with :
      ApiServer → Formats → Mode → Login → Visit → Option ServerError × Visit
  unfolding store_credential validate_credential open_validated describe
  login_with api f mode (Login.rejected e) v = (some (bad_request (describe f e)), v)
  login_with api f mode (Login.accepted n) v =
      let (c, h) = store_credential n v.store.heap in
      open_validated mode c (record v { store = record (v.store) { heap = h } })
        (validate_credential api c h)

  -- `body` is the token of the request's JSON, `none` where it does not bind.
  unfoldable pub login_with_token :
      Decoders → ApiServer → Formats → Option String → Visit → Option ServerError × Visit
  unfolding login_with bearer_credential
  login_with_token d api f none v = (some invalid_body, v)
  login_with_token d api f (some token) v =
      login_with api f Mode.sa_token (bearer_credential d (codes token)) v

  unfoldable pub login_with_kubeconfig :
      Decoders → ApiServer → Formats → Option String → Visit → Option ServerError × Visit
  unfolding login_with credential_from_kubeconfig
  login_with_kubeconfig d api f none v = (some invalid_body, v)
  login_with_kubeconfig d api f (some text) v =
      login_with api f Mode.kubeconfig (credential_from_kubeconfig d i.checked (codes text)) v
