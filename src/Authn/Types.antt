-- ===== src/Authn/Types.antt =====
-- Requests, the configuration and the answers of the authenticator. A text is a byte string, each
-- character one byte. A header that is absent reads
-- as the empty text, as `Header.Get` gives it. Cookies stand in the order of the request.
use antrea_ui.Base.{ℕ, String, Bool, Option, List}
use antrea_ui.Session.Types.{Mode, Credential, SessionError}

pub record Request : Type 0 where
  pub cookies : List (String × String)
  pub authorization : String
  pub origin : String
  pub sec_fetch_site : String
  pub sec_fetch_mode : String
  pub sec_fetch_dest : String
  pub host : String

-- `server_origin` is scheme://host of the configured URL, or empty.
pub record Config : Type 0 where
  pub bearer_fallback_enabled : Bool
  pub dev_mode : Bool
  pub server_origin : String

-- The parts of a parsed URL that the program reads.
pub record Url : Type 0 where
  pub scheme : String
  pub host : String

-- Go's URL parser, `none` where it reports an error, and its case-insensitive comparison. Nothing
-- is assumed of either.
pub record Net : Type 0 where
  pub parse_url : String → Option Url
  pub equal_fold : String → String → Bool

pub data Cause : Type 0 where
  fetch_site : String → Cause
  foreign_origin : String → Cause
  validation_failed : Cause
  lookup_failed : SessionError → Cause
  creation_failed : SessionError → Cause
  credential_invalid : Cause
  logout_url_failed : Cause
  state_failed invalid_state nonce_failed invalid_nonce : Cause
  exchange_failed no_id_token id_token_invalid : Cause

pub record ServerError : Type 0 where
  pub code : ℕ
  pub message : String
  pub cause : Option Cause

abbrev pub status_ok : ℕ
status_ok = 200

abbrev pub status_found : ℕ
status_found = 302

abbrev pub status_see_other : ℕ
status_see_other = 303

abbrev pub status_bad_request : ℕ
status_bad_request = 400

abbrev pub status_internal_server_error : ℕ
status_internal_server_error = 500

abbrev pub status_unauthorized : ℕ
status_unauthorized = 401

abbrev pub status_forbidden : ℕ
status_forbidden = 403

abbrev pub status_too_many_requests : ℕ
status_too_many_requests = 429

abbrev pub status_service_unavailable : ℕ
status_service_unavailable = 503

abbrev pub dev_origin : String
dev_origin = "http://localhost:3000"

-- The identity of a request: a session of the store by its address, or a credential of its own
-- (`none` is Go's zero Credential).
pub record RequestAuth : Type 0 where
  pub mode : Mode
  pub username : String
  pub session : Option ℕ
  pub ephemeral_credential : Option Credential

pub data Answer {ℓ} (A : Type ℓ) : Type ℓ where
  pass : A → Answer A
  refuse : ServerError → Answer A
