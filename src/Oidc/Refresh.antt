-- ===== src/Oidc/Refresh.antt =====
-- The identity provider, and the refresher of a session (pkg/server/oauth2.go: oidcRefresher).
use antrea_ui.Base.{ℕ, String, ◌&&◌, not, Option, none, some, [], ◌∷◌, if◌then◌else◌, ◌>>=◌, Bytes}
use antrea_ui.Session.Types.{Kind}
use antrea_ui.Session.Get.{Refreshed}
use antrea_ui.Credentials.Tokens.{has_bytes}
use antrea_ui.Password.Store.{same_bytes}

-- A response of the token endpoint. `id_token` is `none` where the extra field is no text.
pub record TokenResponse : Type 0 where
  pub id_token : Option Bytes
  pub refresh_token : Bytes

pub record IdToken : Type 0 where
  pub expiry : ℕ
  pub nonce : String

-- The token endpoint, for a code and for a refresh token, and the verifier of ID tokens; `none` is
-- an error.
pub record TokenEndpoint : Type 0 where
  pub exchange : String → Option TokenResponse
  pub grant : Bytes → Option TokenResponse
  pub verify : Bytes → Option IdToken

module _ (idp : TokenEndpoint) where
  -- A rotated refresh token; the session keeps the one that it has otherwise.
  unfoldable pub rotated : Bytes → Bytes → Option Bytes
  rotated old new = if has_bytes new && not (same_bytes new old) then some new else none

  unfoldable pub refresh_with : Bytes → Option Refreshed
  unfolding rotated
  refresh_with refresh_token = idp.grant refresh_token >>= λ new_token.
      new_token.id_token >>= λ raw. idp.verify raw >>= λ id_token. some (record {
        kind = Kind.bearer;
        token = some raw;
        cert_pem = none;
        key_pem = none;
        user_name = "";
        expires_at = id_token.expiry;
        refresh_token = rotated refresh_token new_token.refresh_token;
      })

  -- `len(refreshToken) == 0` first.
  unfoldable pub refresh : Option Bytes → Option Refreshed
  unfolding refresh_with
  refresh none = none
  refresh (some []) = none
  refresh (some (c ∷ cs)) = refresh_with (c ∷ cs)
