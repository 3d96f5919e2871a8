-- ===== src/Oidc/Laws/Callbacks.antt =====
-- The callback: a session only for a browser that the provider has sent back to its own login.
use antrea_ui.Base.{
  String, ◌≡◌, refl, Option, none, some, arith, Bytes, inl, inr, str_eq, Bool-cases, Option-cases,
  ap, str_eq→eq, str_ne,
}
use antrea_ui.Session.Invariant.{IsWellFormed}
use antrea_ui.Authn.Types.{Request, Config}
use antrea_ui.Authn.Cookies.{find_cookie}
use antrea_ui.Login.Types.{ServerConfig, Visit, Instant}
use antrea_ui.Oidc.State.{OAuth2State, parse_oauth2_state}
use antrea_ui.Oidc.Refresh.{TokenResponse, IdToken}
use antrea_ui.Oidc.Endpoints.{
  nonce_cookie_name, state_cookie_name, Parts, oauth2_callback, callback_code, callback_token,
  callback_nonce,
}
use antrea_ui.Oidc.Laws.Signing.{parse_oauth2_state-IsSigned}
use antrea_ui.Login.Laws.Holding.{AreAllocated}
use antrea_ui.Oidc.Laws.Evidence.{refused, Evidence, Callback, verified-Callback}
use antrea_ui.Session.Laws.Admission.{refused}

parsed_of :
    {cfg : ServerConfig} {auth : Config} {x : Parts} {req : Request} {state code : Option String}
    {raw : Bytes} {idt : IdToken} {rt : Bytes} {url : String}
    (ev : Evidence cfg auth x req state code raw idt rt url)
    → parse_oauth2_state x.codec x.provider.oauth2_state_secret ev.cookie ≡ some ev.cs
parsed_of {x = x} ev =
    (parse_oauth2_state-IsSigned x.codec x.provider.oauth2_state_secret ev.cookie ev.cs).1 ev.signed

module _ (cfg : ServerConfig) (auth : Config) (x : Parts) (req : Request) where
  module _ (i : Instant) (state code : Option String) (v : Visit) (w : IsWellFormed v.store)
      (a : AreAllocated v.store) where
    -- The nonce cookie, after everything before it has been found.
    nonce-Callback :
        (raw : Bytes) (idt : IdToken) (answer : TokenResponse) (cs : OAuth2State)
        → ((nonce : String)
            → find_cookie nonce_cookie_name req.cookies ≡ some nonce
            → idt.nonce ≡ x.hash_oidc_nonce nonce
            → Evidence cfg auth x req state code raw idt answer.refresh_token cs.redirect_url)
        → ((raw' : Bytes) (idt' : IdToken) (rt : Bytes) (url : String)
            → Evidence cfg auth x req state code raw' idt' rt url
            → idt' ≡ idt)
        → (o : Option String) → find_cookie nonce_cookie_name req.cookies ≡ o
        → Callback cfg auth x req i state code v
            (callback_nonce cfg auth x req i o raw idt answer.refresh_token cs.redirect_url v)
    unfolding callback_nonce
    nonce-Callback raw idt answer cs make only none e =
        refused _ (λ raw' idt' rt url ev. absurd (ground (arith, ev.nonce_found)))
    nonce-Callback raw idt answer cs make only (some nonce) e =
        elim (Bool-cases (str_eq idt.nonce (x.hash_oidc_nonce nonce))) [
          | inl hit ↦ rw hit (
              verified-Callback cfg auth x req i state code v w a raw idt answer.refresh_token
                cs.redirect_url (make nonce e (str_eq→eq _ _ hit)))
          | inr other ↦ rw other (
              refused _ (λ raw' idt' rt url ev.
                let same_nonce : ev.nonce ≡ nonce = ground (arith, ev.nonce_found) in
                let same_token : idt' ≡ idt = only raw' idt' rt url ev in
                absurd (str_ne _ _ other (cc (ev.nonce_matches, same_nonce, same_token)))))
        ]

    -- A code that is exchanged, after the state has been found to match.
    module _ (query_code cookie : String) (cs : OAuth2State)
        (found : find_cookie state_cookie_name req.cookies ≡ some cookie)
        (parsed : parse_oauth2_state x.codec x.provider.oauth2_state_secret cookie ≡ some cs)
        (matches : state ≡ some cs.nonce) (sent : code ≡ some query_code) where
      same_answer :
          {raw : Bytes} {idt : IdToken} {rt : Bytes} {url : String}
          (ev : Evidence cfg auth x req state code raw idt rt url)
          → x.idp.exchange query_code ≡ some ev.answer
      same_answer ev =
          let same_code : ev.query_code ≡ query_code = ground (arith, ev.sent, sent) in
          rw (← same_code) ev.exchanged

      same_raw :
          {raw : Bytes} {idt : IdToken} {rt : Bytes} {url : String} (answer : TokenResponse)
          → x.idp.exchange query_code ≡ some answer
          → Evidence cfg auth x req state code raw idt rt url
          → answer.id_token ≡ some raw
      same_raw answer n ev =
          let same : answer ≡ ev.answer = ground (arith, n, same_answer ev) in rw same ev.has_token

      token-Callback :
          Callback cfg auth x req i state code v
            (callback_token cfg auth x req i (x.idp.exchange query_code) cs.redirect_url v)
      unfolding callback_token
      token-Callback = elim (Option-cases (x.idp.exchange query_code)) [
        | inl n ↦
            rw (n, callback_token)
              (refused _ (λ raw idt rt url ev. absurd (ground (arith, n, same_answer ev))))
        | inr (answer, n) ↦ elim (Option-cases answer.id_token) [
          | inl m ↦
              rw (n, callback_token, m)
                (refused _ (λ raw idt rt url ev. absurd (ground (arith, m, same_raw answer n ev))))
          | inr (raw, m) ↦ elim (Option-cases (x.idp.verify raw)) [
            | inl k ↦
                rw (n, callback_token, m, k)
                  (refused _ (λ raw' idt rt url ev.
                    let same : raw ≡ raw' = ground (arith, m, same_raw answer n ev) in
                    absurd (ground (arith, k, ev.verified, ap x.idp.verify same))))
            | inr (idt, k) ↦
                rw (n, callback_token, m, k)
                  (nonce-Callback raw idt answer cs
                    (λ nonce nonce_found nonce_matches. record {
                      cookie = cookie;
                      state_found = found;
                      cs = cs;
                      signed =
                          (parse_oauth2_state-IsSigned x.codec x.provider.oauth2_state_secret cookie
                              cs).0
                            parsed;
                      state_matches = matches;
                      query_code = query_code;
                      sent = sent;
                      answer = answer;
                      exchanged = n;
                      has_token = m;
                      verified = k;
                      nonce = nonce;
                      nonce_found = nonce_found;
                      nonce_matches = nonce_matches;
                      is_refresh = refl;
                      is_redirect = refl;
                    })
                    (λ raw' idt' rt url ev.
                      let same : raw ≡ raw' = ground (arith, m, same_raw answer n ev) in
                      ground (arith, k, ev.verified, ap x.idp.verify same))
                    (find_cookie nonce_cookie_name req.cookies) refl)
          ]
        ]
      ]

module _ (cfg : ServerConfig) (auth : Config) (x : Parts) (req : Request) (i : Instant) (v : Visit)
    (w : IsWellFormed v.store) (a : AreAllocated v.store) where
  -- A state cookie that the server has signed.
  module _ (cookie : String) (cs : OAuth2State)
      (found : find_cookie state_cookie_name req.cookies ≡ some cookie)
      (parsed : parse_oauth2_state x.codec x.provider.oauth2_state_secret cookie ≡ some cs) where
    same_state :
        {state code : Option String} {raw : Bytes} {idt : IdToken} {rt : Bytes} {url : String}
        → Evidence cfg auth x req state code raw idt rt url
        → state ≡ some cs.nonce
    same_state ev =
        let same_cookie : ev.cookie ≡ cookie = ground (arith, ev.state_found, found) in
        let same_parsed : parse_oauth2_state x.codec x.provider.oauth2_state_secret cookie
            ≡ some ev.cs =
          rw (← same_cookie) (parsed_of ev) in
        let same : ev.cs ≡ cs = ground (arith, same_parsed, parsed) in rw (← same) ev.state_matches

    code-Callback :
        (state : String) (code : Option String)
        → Callback cfg auth x req i
            (some state)
            code
            v
            (callback_code cfg auth x req i state cs code v)
    unfolding callback_code
    code-Callback state code = elim (Bool-cases (str_eq state cs.nonce)) [
      | inr other ↦ rw other (
          refused _ (λ raw idt rt url ev.
            absurd (str_ne state cs.nonce other (ground (arith, same_state ev)))))
      | inl hit ↦ elim (Option-cases code) [
        | inl n ↦ rw (hit, n) (refused _ (λ raw idt rt url ev. absurd (ground (arith, ev.sent))))
        | inr (c, n) ↦
            let matches : some state ≡ some cs.nonce = ap some (str_eq→eq _ _ hit) in
            rw (hit, n)
              (token-Callback cfg auth x req i (some state) (some c) v w a c cookie cs found parsed
                matches refl)
      ]
    ]

  -- The outcome of every callback, where the sessions of the store name allocated buffers only. A
  -- session is opened only on this evidence: the query's state is the nonce of the state in this
  -- browser's cookie, whose text carries its HMAC under the server's secret; the code was exchanged
  -- for a verified ID token that carries the hash of this browser's nonce cookie; and the API
  -- server accepts the ID token. Without the evidence the callback is refused and nothing changes;
  -- where the API server or the store refuses, the tokens' buffers hold zeros and no session or
  -- cookie is new. Where a session is opened, its buffers hold the ID token and, if there is one,
  -- the refresh token, in the heap that the callback leaves; both login cookies are deleted, and
  -- the browser is sent to the target in the signed state.
  pub oauth2_callback-Callback :
      (state code : Option String)
      → Callback cfg auth x req i state code v (oauth2_callback cfg auth x req i state code v)
  unfolding oauth2_callback
  oauth2_callback-Callback none code =
      refused _ (λ raw idt rt url ev. absurd (ground (arith, ev.state_matches)))
  oauth2_callback-Callback (some state) code =
      elim (Option-cases (find_cookie state_cookie_name req.cookies)) [
        | inl n ↦
            rw (oauth2_callback, n)
              (refused _ (λ raw idt rt url ev. absurd (ground (arith, n, ev.state_found))))
        | inr (cookie, n) ↦
            elim (Option-cases (parse_oauth2_state x.codec x.provider.oauth2_state_secret cookie)) [
              | inr (cs, m) ↦ rw (oauth2_callback, n, m) (code-Callback cookie cs n m state code)
              | inl m ↦
                  rw (oauth2_callback, n, m)
                    (refused _ (λ raw idt rt url ev.
                      let same_cookie : ev.cookie ≡ cookie = ground (arith, n, ev.state_found) in
                      let same_parsed : parse_oauth2_state x.codec x.provider.oauth2_state_secret
                            cookie
                          ≡ some ev.cs =
                        rw (← same_cookie) (parsed_of ev) in
                      absurd (ground (arith, m, same_parsed))))
            ]
      ]
