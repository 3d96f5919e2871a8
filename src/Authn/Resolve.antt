-- ===== src/Authn/Resolve.antt =====
-- `Resolve`: the session cookie first, then the bearer token (authn.go). The store, the cache of
-- bearer tokens and the cookies of the response are what it changes.
use antrea_ui.Base.{
  ℕ, String, Bool, false, not, Option, none, some, List, [], ◌∷◌, if◌then◌else◌, codes,
}
use antrea_ui.Session.Types.{Mode, Kind, Credential, Session, Store, SessionError, Result, ok, err}
use antrea_ui.Session.Memory.{new_buffer}
use antrea_ui.Session.Get.{Refreshers, Readings, get}
use antrea_ui.Authn.Types.{
  Request, Config, Net, Cause, ServerError, RequestAuth, Answer, pass, refuse, status_unauthorized,
}
use antrea_ui.Authn.Origin.{check_cross_origin, bearer_token}
use antrea_ui.Authn.Cookies.{
  SetCookie, get_session_cookie, unset_session_cookie, unset_legacy_cookies,
}
use antrea_ui.Authn.Bearer.{token_expiry, LruCache, Outside, validate}

-- What one request brings with it: the refreshers and clock readings of `Get`, the answer of the
-- limiter of token validations, and the clock before and after a validation.
pub record Moment : Type 0 where
  pub refreshers : Refreshers
  pub readings : Readings
  pub allowed : Bool
  pub now : ℕ
  pub done : ℕ

-- `ErrNotFound` and `ErrExpired` are routine, and kept out of the error log.
unfoldable pub session_lookup_error : SessionError → Option Cause
session_lookup_error SessionError.not_found = none
session_lookup_error SessionError.expired = none
session_lookup_error e = some (Cause.lookup_failed e)

abbrev pub session_gone : SessionError → ServerError
unfolding session_lookup_error
session_gone e = record {
  code = status_unauthorized;
  message = "Session is no longer valid, please log in again";
  cause = session_lookup_error e;
}

abbrev pub bearer_disabled : ServerError
bearer_disabled = record {
  code = status_unauthorized;
  message = "Bearer token authentication is disabled (auth.bearerToken.enabled)";
  cause = none;
}

abbrev pub no_authentication : ServerError
no_authentication = record {
  code = status_unauthorized;
  message = "No authentication present (session cookie / Authorization header)";
  cause = none;
}

unfoldable pub new_session_auth : ℕ → Session → RequestAuth
new_session_auth p s = record {
  mode = s.mode;
  username = s.username;
  session = some p;
  ephemeral_credential = none;
}

unfoldable pub new_ephemeral_auth : Credential → String → RequestAuth
new_ephemeral_auth cred username = record {
  mode = Mode.sa_token;
  username = username;
  session = none;
  ephemeral_credential = some cred;
}

module _ (net : Net) (lru : LruCache) (out : Outside) where
  pub record AuthState : Type 0 where
    pub store : Store
    pub cache : lru.Cache

  pub record Resolution : Type 0 where
    pub answer : Answer RequestAuth
    pub state : AuthState
    pub set_cookies : List SetCookie

  abbrev pub refused : ServerError → AuthState → Resolution
  refused e st = record { answer = refuse e; state = st; set_cookies = [] }

  unfoldable pub from_lookup : Request → AuthState → Result ℕ → Store → Resolution
  unfolding new_session_auth session_lookup_error
  from_lookup req st (ok p) su = record {
    answer = pass (new_session_auth p (su.heap.objects p));
    state = record st { store = su };
    set_cookies = [];
  }
  from_lookup req st (err e) su = record {
    answer = refuse (session_gone e);
    state = record st { store = su };
    set_cookies = unset_session_cookie ∷ unset_legacy_cookies req;
  }

  unfoldable pub resolve_cookie : Config → Request → Moment → String → AuthState → Resolution
  unfolding from_lookup
  resolve_cookie cfg req m id st = elim (check_cross_origin net cfg req false) [
    | some e ↦ refused e st
    | none ↦ let (r, su) = get m.refreshers id m.readings st.store in from_lookup req st r su
  ]

  -- The token is copied into a buffer of its own.
  unfoldable pub from_verdict : String → AuthState → Answer String → lru.Cache → Resolution
  unfolding new_ephemeral_auth new_buffer
  from_verdict token st (refuse e) c = refused e (record st { cache = c })
  from_verdict token st (pass username) c =
      let (buffer, h) = new_buffer (some (codes token)) st.store.heap in
      record {
        answer = pass (
            new_ephemeral_auth
              (record {
                kind = Kind.bearer;
                token = buffer;
                cert_pem = none;
                key_pem = none;
                user_name = "";
                expires_at = token_expiry out token;
              })
              username);
        state = record { store = record (st.store) { heap = h }; cache = c };
        set_cookies = [];
      }

  unfoldable pub resolve_bearer : Config → Moment → String → AuthState → Resolution
  unfolding from_verdict
  resolve_bearer cfg m token st =
      if not cfg.bearer_fallback_enabled
      then refused bearer_disabled st
      else (let (r, c) = validate lru out m.allowed m.now m.done token st.cache in
          from_verdict token st r c)

  unfoldable pub without_cookie : Config → Request → Moment → AuthState → Resolution
  unfolding resolve_bearer
  without_cookie cfg req m st = elim (bearer_token net req) [
    | some token ↦ resolve_bearer cfg m token st
    | none ↦ refused no_authentication st
  ]

  unfoldable pub resolve : Config → Request → Moment → AuthState → Resolution
  unfolding resolve_cookie without_cookie
  resolve cfg req m st = elim (get_session_cookie req) [
    | some id ↦ resolve_cookie cfg req m id st
    | none ↦ without_cookie cfg req m st
  ]
