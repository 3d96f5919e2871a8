-- ===== src/Credentials/Acceptance.antt =====
-- Which kubeconfigs a login accepts (pkg/k8s/credentials.go).
use antrea_ui.Base.{
  String, none, lookup, ℕ, ◌≤◌, ◌≡◌, refl, subst, ◌≢◌, inl, inr, true, false, ◌&&◌, some, arith,
  str_eq, Bool-cases, Option-cases, str_eq→eq, str_ne, after, codes, Bytes,
}
use antrea_ui.Session.Types.{Kind}
use antrea_ui.Credentials.Tokens.{jwt_expiry, has_bytes}
use antrea_ui.Credentials.Kubeconfig.{
  AuthInfo, Kubeconfig, NewCredential, accepted, Decoders, is_blank, bearer_credential,
  cert_credential, from_auth_info, from_config, credential_from_kubeconfig,
}

module _ (d : Decoders) where
  -- The user `info` offers the credential `c` itself, not a program to run, a service to ask or a
  -- file to read.
  pub data Offers (now : ℕ) (info : AuthInfo) (c : NewCredential) : Type 0 where
    by_token :
        info.token ≢ ""
        → is_blank (codes info.token) ≡ false
        → c ≡ record {
          kind = Kind.bearer;
          token = some (codes info.token);
          cert_pem = none;
          key_pem = none;
          expires_at = jwt_expiry d.tokens (codes info.token);
        }
        → Offers now info c
    by_certificate :
        (block key_block : Bytes)
        → info.token ≡ ""
        → info.token_file ≡ ""
        → has_bytes info.client_certificate_data ≡ true
        → has_bytes info.client_key_data ≡ true
        → d.pem_decode info.client_certificate_data ≡ some block
        → d.not_after block ≡ some c.expires_at
        → now ≤ c.expires_at
        → d.pem_decode info.client_key_data ≡ some key_block
        → c.kind ≡ Kind.cert
        → c.cert_pem ≡ some info.client_certificate_data
        → c.key_pem ≡ some info.client_key_data
        → c.token ≡ none
        → Offers now info c

  pub record IsAccepted (now : ℕ) (text : Bytes) (c : NewCredential) : Type 0 where
    pub config : Kubeconfig
    pub user : String
    pub info : AuthInfo
    pub loaded : d.load text ≡ some config
    pub named : config.current_context ≢ ""
    pub in_context : lookup config.current_context config.contexts ≡ some user
    pub known_user : lookup user config.auth_infos ≡ some info
    pub no_program : info.exec ≡ false
    pub no_provider : info.auth_provider ≡ none
    pub offered : Offers now info c

  cert_credential-Offers :
      (now : ℕ) (info : AuthInfo) (c : NewCredential)
      → info.token ≡ ""
      → info.token_file ≡ ""
      → has_bytes info.client_certificate_data ≡ true
      → has_bytes info.client_key_data ≡ true
      → cert_credential d now info.client_certificate_data info.client_key_data ≡ accepted c
      → Offers now info c
  unfolding cert_credential
  cert_credential-Offers now info c t f b k h =
      elim (Option-cases (d.pem_decode info.client_certificate_data)) [
        | inl e ↦ absurd (ground arith)
        | inr (block, e) ↦ elim (Option-cases (d.not_after block)) [
          | inl l ↦ absurd (ground arith)
          | inr (limit, l) ↦ elim (Bool-cases (after now limit)) [
            | inl late ↦ absurd (ground arith)
            | inr good ↦ elim (Option-cases (d.pem_decode info.client_key_data)) [
              | inl x ↦ absurd (ground arith)
              | inr (key_block, x) ↦
                  let same : record {
                    kind = Kind.cert;
                    token = none;
                    cert_pem = some info.client_certificate_data;
                    key_pem = some info.client_key_data;
                    expires_at = limit;
                  }
                      ≡ c =
                    ground arith in
                  subst (λ (n : NewCredential). Offers now info n) same
                    (by_certificate block key_block t f b k e l (ground arith) x refl refl refl
                      refl)
            ]
          ]
        ]
      ]

  from_auth_info-Offers :
      (now : ℕ) (name : String) (info : AuthInfo) (c : NewCredential)
      → from_auth_info d now name info ≡ accepted c
      → (info.exec ≡ false) × (info.auth_provider ≡ none) × Offers now info c
  unfolding from_auth_info bearer_credential
  from_auth_info-Offers now name info c h = elim (Bool-cases info.exec) [
    | inl x ↦ absurd (ground arith)
    | inr x ↦ elim (Option-cases info.auth_provider) [
      | inr (p, e) ↦ absurd (ground arith)
      | inl e ↦ (
        x,
        e,
        elim (Bool-cases (str_eq info.token "")) [
          | inr t ↦ elim (Bool-cases (is_blank (codes info.token))) [
            | inl b ↦ absurd (ground arith)
            | inr b ↦ by_token (str_ne info.token "" t) b (ground arith)
          ]
          | inl t ↦ elim (Bool-cases (str_eq info.token_file "")) [
            | inr f ↦ absurd (ground arith)
            | inl f ↦
                elim (Bool-cases
                  (has_bytes info.client_certificate_data && has_bytes info.client_key_data)) [
                    | inr n ↦ absurd (ground arith)
                    | inl y ↦
                        cert_credential-Offers now info c (str_eq→eq info.token "" t)
                          (str_eq→eq info.token_file "" f) (ground arith) (ground arith)
                          (ground arith)
                  ]
          ]
        ],
      )
    ]
  ]

  -- A kubeconfig is accepted only for a credential that it holds itself. The user of its current
  -- context then names no exec plugin and no auth provider, and the credential is either that user's
  -- bearer token, which is not blank, with the expiry of its claims; or, where the user has neither a
  -- token nor a token file, the embedded certificate and key, both in PEM, where the certificate has
  -- not expired, and its expiry is that of the certificate.
  pub credential_from_kubeconfig-IsAccepted :
      (now : ℕ) (text : Bytes) (c : NewCredential)
      → credential_from_kubeconfig d now text ≡ accepted c
      → IsAccepted now text c
  unfolding credential_from_kubeconfig from_config
  credential_from_kubeconfig-IsAccepted now text c h = elim (Option-cases (d.load text)) [
    | inl l ↦ absurd (ground arith)
    | inr (cfg, l) ↦ elim (Bool-cases (str_eq cfg.current_context "")) [
      | inl z ↦ absurd (ground arith)
      | inr z ↦ elim (Option-cases (lookup cfg.current_context cfg.contexts)) [
        | inl k ↦ absurd (ground arith)
        | inr (user, k) ↦ elim (Option-cases (lookup user cfg.auth_infos)) [
          | inl u ↦ absurd (ground arith)
          | inr (info, u) ↦
              let r = from_auth_info-Offers now user info c (ground arith) in
              record {
                config = cfg;
                user = user;
                info = info;
                loaded = l;
                named = str_ne cfg.current_context "" z;
                in_context = k;
                known_user = u;
                no_program = r.0;
                no_provider = r.1;
                offered = r.2;
              }
        ]
      ]
    ]
  ]
