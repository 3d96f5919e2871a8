-- ===== src/Login/Laws/SigningIn.antt =====
-- Every login of the server's own forms.
use antrea_ui.Base.{Option, none, some}
use antrea_ui.Session.Types.{Mode}
use antrea_ui.Session.Invariant.{IsWellFormed}
use antrea_ui.Credentials.Kubeconfig.{Decoders, bearer_credential, credential_from_kubeconfig}
use antrea_ui.Password.Store.{ReadWriter, Hasher, PasswordStore}
use antrea_ui.Authn.Types.{Request, Config, ServerError}
use antrea_ui.Login.Types.{failed, status, ServerConfig, Visit, Instant, Reply, finish}
use antrea_ui.Login.Creation.{ApiServer}
use antrea_ui.Login.Wording.{Formats}
use antrea_ui.Login.Signing.{Post, by_password, by_token, by_kubeconfig, try_login, serve_login}
use antrea_ui.Login.Laws.Holding.{AreAllocated}
use antrea_ui.Login.Laws.Entering.{Posted, login_with_token-Posted, login_with_kubeconfig-Posted}
use antrea_ui.Login.Laws.Admin.{Entry, login-Entry}

module _ (cfg : ServerConfig) (auth : Config) (req : Request) (i : Instant) (back : ReadWriter)
    (hasher : Hasher) (passwords : PasswordStore back) (d : Decoders) (api : ApiServer)
    (f : Formats) (v : Visit) where
  abbrev pub Outcome : Post → Option ServerError × Visit → Type 0
  Outcome (by_password b) r = Entry cfg auth req i back hasher passwords v b r
  Outcome (by_token body) r =
      Posted cfg auth req i api f Mode.sa_token (bearer_credential d) v body r
  Outcome (by_kubeconfig body) r =
      Posted cfg auth req i api f Mode.kubeconfig (credential_from_kubeconfig d i.checked) v body r

  -- The answer to a login, and the login's outcome behind it.
  pub data SignIn (post : Post) : Reply × Visit → Type 0 where
    signed_in : (w : Visit) → Outcome post (none, w) → SignIn post (status 200, w)
    rejected_with :
        (e : ServerError) (w : Visit) → Outcome post (some e, w) → SignIn post (failed e, w)

  finish-SignIn :
      (post : Post) (r : Option ServerError × Visit) → Outcome post r → SignIn post (finish r)
  finish-SignIn post (none, w) o = signed_in w o
  finish-SignIn post (some e, w) o = rejected_with e w o

  try_login-Outcome :
      (post : Post)
      → IsWellFormed v.store
      → AreAllocated v.store
      → Outcome post (try_login cfg auth req i back hasher passwords d api f post v)
  unfolding try_login
  try_login-Outcome (by_password b) w a = login-Entry cfg auth req i back hasher passwords v b w
  try_login-Outcome (by_token body) w a = login_with_token-Posted cfg auth req i api f d body v w a
  try_login-Outcome (by_kubeconfig body) w a =
      login_with_kubeconfig-Posted cfg auth req i api f d body v w a

  -- Where the sessions of the store name allocated buffers only, every login is answered with 200 or an
  -- error. With Basic Auth only "admin" with the admin
  -- password gets a session, which impersonates the configured user. A token or a kubeconfig gets one
  -- only if the API server accepts its credential: the session has the name that the API server gave
  -- and, in the heap that the login leaves, holds the credential byte for byte. A body that does not bind or does not read as a
  -- credential is answered with 400 and, like a wrong user or password, changes nothing; where the
  -- API server or the store refuses, the credential's buffers hold zeros and no session or cookie is new.
  pub serve_login-SignIn :
      (post : Post)
      → IsWellFormed v.store
      → AreAllocated v.store
      → SignIn post (serve_login cfg auth req i back hasher passwords d api f post v)
  unfolding serve_login
  serve_login-SignIn post w a = finish-SignIn post _ (try_login-Outcome post w a)
