-- ===== src/Credentials/Kubeconfig.antt =====
-- CredentialFromKubeconfig, BearerCredential and certCredential. The kubeconfig loader, the PEM and
-- X.509 decoders and those of a token are parameters.
use antrea_ui.Base.{
  ℕ, String, Bool, true, ◌&&◌, ◌||◌, not, Option, none, some, [], ◌∷◌, str_eq, if◌then◌else◌, after,
  Table, lookup, codes, Bytes,
}
use antrea_ui.Session.Types.{Kind}
use antrea_ui.Credentials.Tokens.{TokenDecoders, jwt_expiry, is_space, has_bytes}

-- A user of a kubeconfig. `exec` says whether an exec plugin is set, `auth_provider` names one.
pub record AuthInfo : Type 0 where
  pub exec : Bool
  pub auth_provider : Option String
  pub token : String
  pub token_file : String
  pub client_certificate_data : Bytes
  pub client_key_data : Bytes
  pub client_certificate : String
  pub client_key : String
  pub basic_username : String

-- `contexts` maps a context to the name of its user.
pub record Kubeconfig : Type 0 where
  pub current_context : String
  pub contexts : Table String
  pub auth_infos : Table AuthInfo

-- A fresh credential, with its bytes.
pub record NewCredential : Type 0 where
  pub kind : Kind
  pub token : Option Bytes
  pub cert_pem : Option Bytes
  pub key_pem : Option Bytes
  pub expires_at : ℕ

pub data LoginError : Type 0 where
  not_valid no_current_context : LoginError
  no_context no_user : String → LoginError
  exec_plugin : LoginError
  auth_provider_used : String → LoginError
  token_file_used certificate_files_used basic_authentication : LoginError
  no_usable_credential : String → LoginError
  token_empty certificate_not_pem certificate_not_x509 : LoginError
  certificate_expired : ℕ → LoginError
  key_not_pem : LoginError

pub data Login : Type 0 where
  accepted : NewCredential → Login
  rejected : LoginError → Login

-- What the code calls: `clientcmd.Load`, `pem.Decode` of the first block, the `NotAfter` of the
-- certificate in a block, and the decoders of a token.
pub record Decoders : Type 0 where
  pub load : Bytes → Option Kubeconfig
  pub pem_decode : Bytes → Option Bytes
  pub not_after : Bytes → Option ℕ
  pub tokens : TokenDecoders

-- `strings.TrimSpace(s) == ""` on ASCII text, which a token is.
unfoldable pub is_blank : Bytes → Bool
is_blank [] = true
is_blank (c ∷ cs) = is_space c && is_blank cs

module _ (d : Decoders) where
  unfoldable pub bearer_credential : Bytes → Login
  unfolding is_blank jwt_expiry
  bearer_credential token =
      if is_blank token
      then rejected LoginError.token_empty
      else accepted (record {
        kind = Kind.bearer;
        token = some token;
        cert_pem = none;
        key_pem = none;
        expires_at = jwt_expiry d.tokens token;
      })

  abbrev pub cert_accepted : Bytes → Bytes → ℕ → Login
  cert_accepted cert key not_after = accepted (record {
    kind = Kind.cert;
    token = none;
    cert_pem = some cert;
    key_pem = some key;
    expires_at = not_after;
  })

  -- `now` is the clock.
  unfoldable pub cert_credential : ℕ → Bytes → Bytes → Login
  cert_credential now cert key = elim (d.pem_decode cert) [
    | none ↦ rejected LoginError.certificate_not_pem
    | some block ↦ elim (d.not_after block) [
      | none ↦ rejected LoginError.certificate_not_x509
      | some limit ↦
          if after now limit
          then rejected (LoginError.certificate_expired limit)
          else elim (d.pem_decode key) [
            | none ↦ rejected LoginError.key_not_pem
            | some key_block ↦ cert_accepted cert key limit
          ]
    ]
  ]

  -- The switch over the user's credential.
  unfoldable pub from_auth_info : ℕ → String → AuthInfo → Login
  unfolding bearer_credential cert_credential
  from_auth_info now name info =
      if info.exec then rejected LoginError.exec_plugin else elim info.auth_provider [
        | some provider ↦ rejected (LoginError.auth_provider_used provider)
        | none ↦
            if not (str_eq info.token "")
            then bearer_credential (codes info.token)
            else if not (str_eq info.token_file "")
            then rejected LoginError.token_file_used
            else if has_bytes info.client_certificate_data && has_bytes info.client_key_data
            then cert_credential now info.client_certificate_data info.client_key_data
            else if not (str_eq info.client_certificate "") || not (str_eq info.client_key "")
            then rejected LoginError.certificate_files_used
            else if not (str_eq info.basic_username "")
            then rejected LoginError.basic_authentication
            else rejected (LoginError.no_usable_credential name)
      ]

  unfoldable pub from_config : ℕ → Kubeconfig → Login
  unfolding lookup from_auth_info
  from_config now cfg =
      if str_eq cfg.current_context ""
      then rejected LoginError.no_current_context
      else elim (lookup cfg.current_context cfg.contexts) [
        | none ↦ rejected (LoginError.no_context cfg.current_context)
        | some user ↦ elim (lookup user cfg.auth_infos) [
          | none ↦ rejected (LoginError.no_user user)
          | some info ↦ from_auth_info now user info
        ]
      ]

  unfoldable pub credential_from_kubeconfig : ℕ → Bytes → Login
  unfolding from_config
  credential_from_kubeconfig now text = elim (d.load text) [
    | none ↦ rejected LoginError.not_valid
    | some cfg ↦ from_config now cfg
  ]
