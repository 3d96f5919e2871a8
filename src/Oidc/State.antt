-- ===== src/Oidc/State.antt =====
-- The OAuth2 state: GetOAuth2State and ParseOAuth2State (pkg/server/oauth2.go).
use Prim.Native.String.{◌++◌ as str_append}
use Prim.Native.Char.{Char}
use antrea_ui.Base.{
  String, ◌≡◌, false, not, Option, none, some, if◌then◌else◌, ◌>>=◌, Bytes, contains_code, cut,
  Bool, true,
}
use antrea_ui.Password.Store.{same_bytes}

pub record OAuth2State : Type 0 where
  pub nonce : String
  pub redirect_url : String

-- JSON, the test for UTF-8, the URL-safe alphabet of base64, and HMAC-SHA-256 with a key. What has
-- been encoded is read back, by JSON only where the texts are UTF-8, and base64 has no full stop.
pub record Codec : Type 0 where
  pub marshal : OAuth2State → Bytes
  pub unmarshal : Bytes → Option OAuth2State
  pub encode : Bytes → String
  pub decode : String → Option Bytes
  pub hmac : Bytes → String → Bytes
  pub valid_utf8 : String → Bool
  pub unmarshal-marshal :
      (s : OAuth2State)
      → valid_utf8 s.nonce ≡ true
      → valid_utf8 s.redirect_url ≡ true
      → unmarshal (marshal s) ≡ some s
  pub decode-encode : (b : Bytes) → decode (encode b) ≡ some b
  pub encode_plain : (b : Bytes) → contains_code 46 (encode b) ≡ false

-- `strings.Split(raw, ".")` where that has exactly two parts.
unfoldable pub two_parts : Option (String × String) → Option (String × String)
two_parts none = none
two_parts (some (a, b)) = if contains_code 46 b then none else some (a, b)

abbrev pub full_stop : Char
full_stop = "."

module _ (codec : Codec) (secret : Bytes) where
  unfoldable pub sign : String → String
  sign text = str_append text (String.◌∷◌ full_stop (codec.encode (codec.hmac secret text)))

  -- `random` is the nonce.
  unfoldable pub get_oauth2_state : Option String → String → Option (OAuth2State × String)
  unfolding sign
  get_oauth2_state random redirect_url = random >>= λ nonce.
      let state : OAuth2State = record { nonce = nonce; redirect_url = redirect_url } in
      some (state, sign (codec.encode (codec.marshal state)))

  unfoldable pub check_signature : String → Bytes → Bytes → Option OAuth2State
  check_signature text data_bytes signature =
      if not (same_bytes signature (codec.hmac secret text))
      then none
      else codec.unmarshal data_bytes

  unfoldable pub parse_oauth2_state : String → Option OAuth2State
  unfolding two_parts check_signature cut
  parse_oauth2_state raw = two_parts (cut 46 raw) >>= λ parts.
      codec.decode parts.0 >>= λ data_bytes.
      codec.decode parts.1 >>= λ signature. check_signature parts.0 data_bytes signature
