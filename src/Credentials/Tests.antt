-- ===== src/Credentials/Tests.antt =====
-- A kubeconfig with an embedded certificate, and one with an exec plugin.
use antrea_ui.Base.{
  ℕ, ◌≡◌, refl, true, false, Option, none, some, List, [], ◌∷◌, ◌==◌, if◌then◌else◌, lookup, ◌+◌,
  ◌*◌, codes,
}
use antrea_ui.Base.Int.{pos}
use antrea_ui.Session.Types.{Kind, second}
use antrea_ui.Credentials.Tokens.{TokenDecoders, jwt_expiry, unix_epoch}
use antrea_ui.Credentials.Kubeconfig.{
  AuthInfo, Kubeconfig, NewCredential, Decoders, LoginError, accepted, rejected,
  credential_from_kubeconfig,
}
use antrea_ui.Credentials.Acceptance.{IsAccepted, credential_from_kubeconfig-IsAccepted}

abbrev pub bob : AuthInfo
bob = record {
  exec = false;
  auth_provider = none;
  token = "";
  token_file = "";
  client_certificate_data = 1 ∷ 2 ∷ [];
  client_key_data = 3 ∷ [];
  client_certificate = "";
  client_key = "";
  basic_username = "";
}

abbrev pub config_of : AuthInfo → Kubeconfig
config_of info = record {
  current_context = "lab";
  contexts = ("lab", "bob") ∷ [];
  auth_infos = ("bob", info) ∷ [];
}

-- The file is one byte: 0 is a file with a certificate, any other one a file with an exec plugin.
abbrev load_one : List ℕ → Option Kubeconfig
load_one [] = none
load_one (b ∷ more) = some (config_of (if b == 0 then bob else record bob { exec = true }))

abbrev pub decoders : Decoders
decoders = record {
  load = load_one;
  pem_decode = λ b. some b;
  not_after = λ b. some 50;
  tokens = record { base64_decode = λ b. some b; exp_claim = λ b. none };
}

abbrev certificate : NewCredential
certificate = record {
  kind = Kind.cert;
  token = none;
  cert_pem = some (1 ∷ 2 ∷ []);
  key_pem = some (3 ∷ []);
  expires_at = 50;
}

certificate-accepted : credential_from_kubeconfig decoders 40 (0 ∷ []) ≡ accepted certificate
unfolding credential_from_kubeconfig lookup
certificate-accepted = refl

exec_rejected : credential_from_kubeconfig decoders 40 (1 ∷ []) ≡ rejected LoginError.exec_plugin
unfolding credential_from_kubeconfig lookup
exec_rejected = refl

credential_from_kubeconfig-IsAccepted_example : IsAccepted decoders 40 (0 ∷ []) certificate
credential_from_kubeconfig-IsAccepted_example =
    credential_from_kubeconfig-IsAccepted decoders 40 (0 ∷ []) certificate certificate-accepted

-- The claims of a token whose payload is one byte long name that many seconds of Unix time.
abbrev claims : TokenDecoders
claims = record {
  base64_decode = λ b. some b;
  exp_claim = λ b. elim b [ [] ↦ none | n ∷ more ↦ some (pos n) ];
}

expiry_read : jwt_expiry claims (codes " head.\n.sig ") ≡ (unix_epoch + 10) * second
unfolding jwt_expiry
expiry_read = refl

-- A token with another number of parts is opaque.
opaque_token : jwt_expiry claims (codes "head.\n") ≡ 0
unfolding jwt_expiry
opaque_token = refl
