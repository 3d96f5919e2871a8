-- ===== src/Oidc/Endpoints.antt =====
-- /auth/oauth2/login and /auth/oauth2/callback (pkg/server/oauth2.go).
use Prim.Native.String.{◌++◌ as str_append}
use antrea_ui.Base.{
  ℕ, String, Bool, true, not, Option, none, some, List, [], ◌∷◌, str_eq, if◌then◌else◌, Bytes,
}
use antrea_ui.Base.Int.{pos}
use antrea_ui.Session.Types.{Mode, Kind, Credential, Spec, Heap}
use antrea_ui.Session.Memory.{new_buffer, spec_zero}
use antrea_ui.Authn.Types.{
  status_see_other, status_found, Url, status_internal_server_error, status_unauthorized,
  status_bad_request, Request, Config, Net, Cause, ServerError,
}
use antrea_ui.Authn.Origin.{safe_redirect_url, is_empty}
use antrea_ui.Authn.Cookies.{deletion, SetCookie, SameSite, find_cookie}
use antrea_ui.Login.Types.{redirect, failed, ServerConfig, Visit, Reply, Instant, add_cookies}
use antrea_ui.Login.Creation.{ApiServer, create_session, asked}
use antrea_ui.Oidc.Provider.{OidcProvider, Urls}
use antrea_ui.Oidc.State.{OAuth2State, Codec, get_oauth2_state, parse_oauth2_state}
use antrea_ui.Oidc.Refresh.{TokenEndpoint, TokenResponse, IdToken}

abbrev pub state_cookie_name : String
state_cookie_name = "antrea-ui-oauth2-state"

abbrev pub nonce_cookie_name : String
nonce_cookie_name = "antrea-ui-oidc-nonce"

abbrev pub oauth2_path : String
oauth2_path = "/auth/oauth2"

unfoldable pub oauth2_cookie : Bool → String → String → SetCookie
oauth2_cookie cookie_secure name value = record {
  name = name;
  value = value;
  path = oauth2_path;
  max_age = pos 0;
  secure = cookie_secure;
  http_only = true;
  same_site = SameSite.lax_mode;
}

abbrev pub oauth2_deletions : List SetCookie
oauth2_deletions =
    deletion state_cookie_name oauth2_path ∷ deletion nonce_cookie_name oauth2_path ∷ []

abbrev pub internal : Cause → ServerError
internal why = record { code = status_internal_server_error; message = ""; cause = some why }

abbrev pub bad_callback : String → Option Cause → ServerError
bad_callback message why = record { code = status_bad_request; message = message; cause = why }

-- What the endpoints have at hand: the libraries, the provider, and the handle of its refresher.
pub record Parts : Type 0 where
  pub net : Net
  pub urls : Urls
  pub codec : Codec
  pub idp : TokenEndpoint
  pub api : ApiServer
  pub hash_oidc_nonce : String → String
  pub auth_code_url : OidcProvider → String → String → String
  pub provider : OidcProvider
  pub refresher : ℕ

module _ (cfg : ServerConfig) (auth : Config) (x : Parts) (req : Request) where
  abbrev pub login_cookie : String → String → SetCookie
  login_cookie name value = oauth2_cookie cfg.cookie_secure name value

  unfoldable pub send_to_provider : Option String → OAuth2State → Visit → Reply × Visit
  unfolding add_cookies oauth2_cookie
  send_to_provider none state v = (failed (internal Cause.nonce_failed), v)
  send_to_provider (some nonce) state v = (
    redirect status_see_other (x.auth_code_url x.provider state.nonce (x.hash_oidc_nonce nonce)),
    add_cookies (login_cookie nonce_cookie_name nonce ∷ []) v,
  )

  -- Two sources of randomness: for the state's nonce and for the ID token's.
  unfoldable pub oauth2_login : Option String → Option String → String → Visit → Reply × Visit
  unfolding safe_redirect_url get_oauth2_state send_to_provider add_cookies oauth2_cookie
  oauth2_login random₁ random₂ redirect_query v =
      let redirect_url = safe_redirect_url x.net auth req redirect_query in
      elim (get_oauth2_state x.codec x.provider.oauth2_state_secret random₁ redirect_url) [
        | none ↦ (failed (internal Cause.state_failed), v)
        | some (state, raw) ↦
            send_to_provider random₂ state (add_cookies (login_cookie state_cookie_name raw ∷ []) v)
      ]

  abbrev pub id_token_refused : ServerError
  id_token_refused = record {
    code = status_unauthorized;
    message = str_append "Kubernetes rejected the id_token issued by the OIDC provider. " (
        str_append "The kube-apiserver must be configured to trust the same issuer and client ID " (
          str_append "as Antrea UI (--oidc-issuer-url / --oidc-client-id, or the equivalent "
            "structured authentication configuration). See docs/oidc.md."));
    cause = some Cause.credential_invalid;
  }

  abbrev pub oidc_credential : Option ℕ → ℕ → Credential
  oidc_credential token expires_at = record {
    kind = Kind.bearer;
    token = token;
    cert_pem = none;
    key_pem = none;
    user_name = "";
    expires_at = expires_at;
  }

  abbrev pub present_bytes : Bytes → Option Bytes
  present_bytes [] = none
  present_bytes (b ∷ bs) = some (b ∷ bs)

  unfoldable pub oidc_spec : Bytes → IdToken → Bytes → Heap → Spec × Heap
  unfolding new_buffer
  oidc_spec raw id_token refresh_token h =
      let (r, h₁) = new_buffer (present_bytes refresh_token) h in
      let (t, h₂) = new_buffer (some raw) h₁ in
      (
        record {
          mode = Mode.oidc;
          credential = oidc_credential t id_token.expiry;
          refresh_token = r;
          username = "";
          refresher = some x.refresher;
        },
        h₂,
      )

  abbrev pub target_or_root : Option Url → String → String
  target_or_root none redirect_url = "/"
  target_or_root (some u) redirect_url = redirect_url

  unfoldable pub callback_target : String → String
  callback_target redirect_url =
      let target =
        if is_empty redirect_url
        then "/"
        else target_or_root (x.net.parse_url redirect_url) redirect_url in
      x.urls.set_query target "auth_method" "oidc"

  unfoldable pub callback_done : String → Option ServerError × Visit → Reply × Visit
  unfolding add_cookies callback_target
  callback_done redirect_url (some e, v) = (failed e, v)
  callback_done redirect_url (none, v) =
      (redirect status_found (callback_target redirect_url), add_cookies oauth2_deletions v)

  -- After the API server has answered.
  unfoldable pub open_oidc :
      Instant → Spec → String → Visit → Option String → Option ServerError × Visit
  unfolding create_session
  open_oidc i spec redirect_url v none = (
    some id_token_refused,
    record v { store = record (v.store) { heap = (spec_zero spec v.store.heap).1 } },
  )
  open_oidc i spec redirect_url v (some username) =
      create_session cfg auth req i.random i.now (record spec { username = username }) v

  unfoldable pub callback_verified :
      Instant → Bytes → IdToken → Bytes → String → Visit → Reply × Visit
  unfolding oidc_spec open_oidc callback_done
  callback_verified i raw id_token refresh_token redirect_url v =
      let (spec, h) = oidc_spec raw id_token refresh_token v.store.heap in
      callback_done redirect_url (
        open_oidc i spec redirect_url (record v { store = record (v.store) { heap = h } })
          (asked x.api spec.credential h))

  unfoldable pub callback_nonce :
      Instant → Option String → Bytes → IdToken → Bytes → String → Visit → Reply × Visit
  unfolding callback_verified
  callback_nonce i none raw id_token refresh_token redirect_url v =
      (failed (bad_callback "Missing OIDC nonce cookie" none), v)
  callback_nonce i (some nonce) raw id_token refresh_token redirect_url v =
      if not (str_eq id_token.nonce (x.hash_oidc_nonce nonce))
      then (failed (internal Cause.invalid_nonce), v)
      else callback_verified i raw id_token refresh_token redirect_url v

  unfoldable pub callback_token : Instant → Option TokenResponse → String → Visit → Reply × Visit
  unfolding callback_nonce find_cookie
  callback_token i none redirect_url v = (failed (internal Cause.exchange_failed), v)
  callback_token i (some answer) redirect_url v = elim answer.id_token [
    | none ↦ (failed (internal Cause.no_id_token), v)
    | some raw ↦ elim (x.idp.verify raw) [
      | none ↦ (failed (internal Cause.id_token_invalid), v)
      | some id_token ↦
          callback_nonce i (find_cookie nonce_cookie_name req.cookies) raw id_token
            answer.refresh_token redirect_url v
    ]
  ]

  unfoldable pub callback_code :
      Instant → String → OAuth2State → Option String → Visit → Reply × Visit
  unfolding callback_token
  callback_code i state cs code v =
      if not (str_eq state cs.nonce)
      then (failed (bad_callback "OAuth2 state mismatch" none), v)
      else elim code [
        | none ↦ (failed (bad_callback "Missing code query param" none), v)
        | some c ↦ callback_token i (x.idp.exchange c) cs.redirect_url v
      ]

  -- `state` and `code` are the query's.
  unfoldable pub oauth2_callback : Instant → Option String → Option String → Visit → Reply × Visit
  unfolding find_cookie parse_oauth2_state callback_code
  oauth2_callback i none code v = (failed (bad_callback "Missing state query param" none), v)
  oauth2_callback i (some state) code v = elim (find_cookie state_cookie_name req.cookies) [
    | none ↦ (failed (bad_callback "Missing OAuth2 state cookie" none), v)
    | some raw ↦ elim (parse_oauth2_state x.codec x.provider.oauth2_state_secret raw) [
      | none ↦ (failed (bad_callback "Invalid OAuth2 state cookie" (some Cause.invalid_state)), v)
      | some cs ↦ callback_code i state cs code v
    ]
  ]
