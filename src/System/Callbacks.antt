-- ===== src/System/Callbacks.antt =====
-- What the endpoints of the OIDC flow do to the session store (pkg/server/oauth2.go).
use antrea_ui.Base.{String, ◌≡◌, Option, none, some, str_eq, Bool-cases, inl, inr, Bytes, refl}
use antrea_ui.Session.Types.{Spec}
use antrea_ui.Authn.Types.{Request, Config, ServerError, Cause}
use antrea_ui.Authn.Cookies.{find_cookie}
use antrea_ui.Login.Types.{failed, ServerConfig, Visit, Instant, Reply, add_cookies}
use antrea_ui.Oidc.State.{OAuth2State, parse_oauth2_state}
use antrea_ui.Oidc.Refresh.{TokenResponse, IdToken}
use antrea_ui.Oidc.Endpoints.{
  Parts, open_oidc, callback_done, callback_verified, callback_nonce, callback_token, callback_code,
  oauth2_callback, bad_callback, internal, state_cookie_name, nonce_cookie_name,
}
use antrea_ui.Oidc.Laws.Evidence.{spec-Evolves}
use antrea_ui.System.Lawful.{IsLawful, Evolves-IsLawful, IsLawful-trans, spec_zero-Evolves}
use antrea_ui.System.Entries.{unchanged-IsLawful, create_session-IsLawful}

module _ (cfg : ServerConfig) (auth : Config) (x : Parts) (req : Request) (i : Instant) where
  open_oidc-IsLawful :
      (spec : Spec) (redirect_url : String) (v : Visit) (username : Option String)
      → IsLawful i.random v.store (open_oidc cfg auth x req i spec redirect_url v username).1.store
  unfolding open_oidc
  open_oidc-IsLawful spec redirect_url v none = Evolves-IsLawful (spec_zero-Evolves spec v.store)
  open_oidc-IsLawful spec redirect_url v (some username) =
      create_session-IsLawful cfg auth req i.random i.now (record spec { username = username }) v

  callback_done-store :
      (redirect_url : String) (r : Option ServerError × Visit)
      → (callback_done cfg auth x req redirect_url r).1.store ≡ r.1.store
  unfolding callback_done add_cookies
  callback_done-store redirect_url (some e, v) = refl
  callback_done-store redirect_url (none, v) = refl

  callback_verified-IsLawful :
      (raw : Bytes) (id_token : IdToken) (refresh_token : Bytes) (redirect_url : String) (v : Visit)
      → IsLawful i.random v.store
          (callback_verified cfg auth x req i raw id_token refresh_token redirect_url v).1.store
  unfolding callback_verified
  callback_verified-IsLawful raw id_token refresh_token redirect_url v =
      rw (callback_done-store redirect_url _) (
        IsLawful-trans
          (Evolves-IsLawful (spec-Evolves cfg auth x req raw id_token refresh_token v.store))
          (open_oidc-IsLawful _ redirect_url _ _))

  callback_nonce-IsLawful :
      (nonce : Option String) (raw : Bytes) (id_token : IdToken) (refresh_token : Bytes)
      (redirect_url : String) (v : Visit)
      → IsLawful i.random v.store
          (callback_nonce cfg auth x req i nonce raw id_token refresh_token redirect_url v).1.store
  unfolding callback_nonce
  callback_nonce-IsLawful none raw id_token refresh_token redirect_url v =
      unchanged-IsLawful v.store
  callback_nonce-IsLawful (some nonce) raw id_token refresh_token redirect_url v =
      elim (Bool-cases (str_eq id_token.nonce (x.hash_oidc_nonce nonce))) [
        | inl same ↦ rw same (callback_verified-IsLawful raw id_token refresh_token redirect_url v)
        | inr other ↦ rw other (unchanged-IsLawful v.store)
      ]

  verified-IsLawful :
      (raw : Bytes) (answer : TokenResponse) (redirect_url : String) (v : Visit)
      (o : Option IdToken)
      → IsLawful i.random v.store
          (elim o as (λ _. Reply × Visit) [
            | none ↦ (failed (internal Cause.id_token_invalid), v)
            | some id_token ↦
                callback_nonce cfg auth x req i
                  (find_cookie nonce_cookie_name req.cookies)
                  raw
                  id_token
                  answer.refresh_token
                  redirect_url
                  v
          ]).1.store
  verified-IsLawful raw answer redirect_url v none = unchanged-IsLawful v.store
  verified-IsLawful raw answer redirect_url v (some id_token) =
      callback_nonce-IsLawful (find_cookie nonce_cookie_name req.cookies) raw id_token
        answer.refresh_token redirect_url v

  callback_token-IsLawful :
      (answer : Option TokenResponse) (redirect_url : String) (v : Visit)
      → IsLawful i.random v.store (callback_token cfg auth x req i answer redirect_url v).1.store
  unfolding callback_token
  callback_token-IsLawful none redirect_url v = unchanged-IsLawful v.store
  callback_token-IsLawful (some answer) redirect_url v = by_token answer.id_token
    where
      by_token :
          (o : Option Bytes)
          → IsLawful i.random v.store
              (elim o as (λ _. Reply × Visit) [
                | none ↦ (failed (internal Cause.no_id_token), v)
                | some raw ↦ elim (x.idp.verify raw) as (λ _. Reply × Visit) [
                  | none ↦ (failed (internal Cause.id_token_invalid), v)
                  | some id_token ↦
                      callback_nonce cfg auth x req i
                        (find_cookie nonce_cookie_name req.cookies)
                        raw
                        id_token
                        answer.refresh_token
                        redirect_url
                        v
                ]
              ]).1.store
      by_token none = unchanged-IsLawful v.store
      by_token (some raw) = verified-IsLawful raw answer redirect_url v (x.idp.verify raw)

  callback_code-IsLawful :
      (state : String) (cs : OAuth2State) (code : Option String) (v : Visit)
      → IsLawful i.random v.store (callback_code cfg auth x req i state cs code v).1.store
  unfolding callback_code
  callback_code-IsLawful state cs none v = elim (Bool-cases (str_eq state cs.nonce)) [
    | inl same ↦ rw same (unchanged-IsLawful v.store)
    | inr other ↦ rw other (unchanged-IsLawful v.store)
  ]
  callback_code-IsLawful state cs (some c) v = elim (Bool-cases (str_eq state cs.nonce)) [
    | inl same ↦ rw same (callback_token-IsLawful (x.idp.exchange c) cs.redirect_url v)
    | inr other ↦ rw other (unchanged-IsLawful v.store)
  ]

  pub oauth2_callback-IsLawful :
      (state code : Option String) (v : Visit)
      → IsLawful i.random v.store (oauth2_callback cfg auth x req i state code v).1.store
  unfolding oauth2_callback
  oauth2_callback-IsLawful none code v = unchanged-IsLawful v.store
  oauth2_callback-IsLawful (some state) code v =
      by_cookie (find_cookie state_cookie_name req.cookies)
    where
      by_state :
          (o : Option OAuth2State)
          → IsLawful i.random v.store
              (elim o as (λ _. Reply × Visit) [
                | none ↦ (
                  failed (bad_callback "Invalid OAuth2 state cookie" (some Cause.invalid_state)),
                  v,
                )
                | some cs ↦ callback_code cfg auth x req i state cs code v
              ]).1.store
      by_state none = unchanged-IsLawful v.store
      by_state (some cs) = callback_code-IsLawful state cs code v

      by_cookie :
          (o : Option String)
          → IsLawful i.random v.store
              (elim o as (λ _. Reply × Visit) [
                | none ↦ (failed (bad_callback "Missing OAuth2 state cookie" none), v)
                | some raw ↦
                    elim (parse_oauth2_state x.codec x.provider.oauth2_state_secret raw)
                      as (λ _. Reply × Visit) [
                        | none ↦ (
                          failed (
                              bad_callback "Invalid OAuth2 state cookie"
                                (some Cause.invalid_state)),
                          v,
                        )
                        | some cs ↦ callback_code cfg auth x req i state cs code v
                      ]
              ]).1.store
      by_cookie none = unchanged-IsLawful v.store
      by_cookie (some raw) =
          by_state (parse_oauth2_state x.codec x.provider.oauth2_state_secret raw)
