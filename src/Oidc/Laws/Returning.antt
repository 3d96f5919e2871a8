-- ===== src/Oidc/Laws/Returning.antt =====
-- From /auth/oauth2/login through the provider and back.
use mathlib.Core.List.{append_assoc}
use antrea_ui.Base.{String, ◌≡◌, refl, true, some, List, [], ◌∷◌, ◌++◌, Bytes}
use antrea_ui.Authn.Types.{Request, Config}
use antrea_ui.Authn.Origin.{safe_redirect_url}
use antrea_ui.Authn.Cookies.{SetCookie, find_cookie}
use antrea_ui.Login.Types.{redirect, ServerConfig, Visit, add_cookies}
use antrea_ui.Oidc.State.{OAuth2State, get_oauth2_state, sign}
use antrea_ui.Oidc.Refresh.{TokenResponse, IdToken}
use antrea_ui.Oidc.Endpoints.{
  nonce_cookie_name, state_cookie_name, Parts, oauth2_login, send_to_provider, login_cookie,
}
use antrea_ui.Oidc.Laws.Signing.{parse-get_oauth2_state, parse_oauth2_state-IsSigned}
use antrea_ui.Oidc.Laws.Evidence.{Evidence}

module _ (cfg : ServerConfig) (auth : Config) (x : Parts) (req : Request)
    (nonce₁ nonce₂ query : String) (v : Visit) where
  abbrev pub target : String
  target = safe_redirect_url x.net auth req query

  -- The value of the state cookie.
  abbrev pub signed_state : String
  signed_state =
      sign x.codec x.provider.oauth2_state_secret
        (x.codec.encode (x.codec.marshal (record { nonce = nonce₁; redirect_url = target })))

  abbrev pub both_cookies : List SetCookie
  both_cookies =
      login_cookie cfg auth x req state_cookie_name signed_state
      ∷ login_cookie cfg auth x req nonce_cookie_name nonce₂
      ∷ []

  -- Where the nonce that is drawn for the state and the redirect target that the login found safe are
  -- both UTF-8, a login sets two cookies and sends the browser to the provider with the nonce of the state and
  -- the hash of the other one. If a browser with these cookies comes back with that nonce and a code
  -- for which the provider gives a verified ID token with that hash, it has all the evidence that the
  -- callback asks for, and the redirect target is the one that the login found safe.
  pub oauth2_login-Evidence :
      (back : Request) (code : String) (answer : TokenResponse) (raw : Bytes) (idt : IdToken)
      → x.codec.valid_utf8 nonce₁ ≡ true
      → x.codec.valid_utf8 target ≡ true
      → find_cookie state_cookie_name back.cookies ≡ some signed_state
      → find_cookie nonce_cookie_name back.cookies ≡ some nonce₂
      → x.idp.exchange code ≡ some answer
      → answer.id_token ≡ some raw
      → x.idp.verify raw ≡ some idt
      → idt.nonce ≡ x.hash_oidc_nonce nonce₂
      → (oauth2_login cfg auth x req (some nonce₁) (some nonce₂) query v ≡ (
        redirect 303 (x.auth_code_url x.provider nonce₁ (x.hash_oidc_nonce nonce₂)),
        record v { set_cookies = v.set_cookies ++ both_cookies },
      ))
        × Evidence cfg auth x back (some nonce₁) (some code) raw idt answer.refresh_token target
  unfolding oauth2_login get_oauth2_state send_to_provider add_cookies
  oauth2_login-Evidence back code answer raw idt u₁ u₂ c₁ c₂ ex tok ver non =
      let state : OAuth2State = record { nonce = nonce₁; redirect_url = target } in
      let parsed =
        parse-get_oauth2_state x.codec x.provider.oauth2_state_secret nonce₁ target state
          signed_state u₁ u₂ refl in
      (
        simp append_assoc,
        record {
          cookie = signed_state;
          state_found = c₁;
          cs = state;
          signed =
              (parse_oauth2_state-IsSigned x.codec x.provider.oauth2_state_secret signed_state
                  state).0
                parsed.0;
          state_matches = refl;
          query_code = code;
          sent = refl;
          answer = answer;
          exchanged = ex;
          has_token = tok;
          verified = ver;
          nonce = nonce₂;
          nonce_found = c₂;
          nonce_matches = non;
          is_refresh = refl;
          is_redirect = refl;
        },
      )
