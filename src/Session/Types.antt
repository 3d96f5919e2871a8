-- ===== src/Session/Types.antt =====
-- The data of pkg/auth/session. A `*Session` and a byte slice are addresses into a heap, so that
-- what a request holds and what the store erases are the same object. Times and durations are
-- nanoseconds since Go's zero time, which is 0; a nil slice is `none`.
use antrea_ui.Base.{ℕ, ◌*◌, String, Option, List, Table}

pub data Kind : Type 0 where
  bearer cert impersonate : Kind

pub data Mode : Type 0 where
  oidc kubeconfig admin sa_token : Mode

pub record Credential : Type 0 where
  pub kind : Kind
  pub token : Option ℕ
  pub cert_pem : Option ℕ
  pub key_pem : Option ℕ
  pub user_name : String
  pub expires_at : ℕ

-- The round tripper and its cleanup function, each by a number that names it.
pub record CachedTransport : Type 0 where
  pub rt : ℕ
  pub cleanup : Option ℕ

-- `refresher` is the handle of the session's `Refresher`, nil where it has none.
pub record Session : Type 0 where
  pub id : String
  pub mode : Mode
  pub created_at : ℕ
  pub username : String
  pub cap_key : String
  pub refresher : Option ℕ
  pub credential : Credential
  pub refresh_token : Option ℕ
  pub last_seen : ℕ
  pub expires_at : ℕ
  pub transports : Table CachedTransport

pub record Spec : Type 0 where
  pub mode : Mode
  pub credential : Credential
  pub refresh_token : Option ℕ
  pub username : String
  pub refresher : Option ℕ

-- The buffers and the session objects, the next address of each, and the cleanup functions that
-- have been called, oldest first.
pub record Heap : Type 0 where
  pub bytes : ℕ → List ℕ
  pub next_buffer : ℕ
  pub objects : ℕ → Session
  pub next_object : ℕ
  pub released : List ℕ

-- Options after `setDefaults`.
pub record Options : Type 0 where
  pub idle_timeout : ℕ
  pub max_lifetime : ℕ
  pub max_sessions : ℕ
  pub max_sessions_per_user : ℕ

-- `sessions` maps an ID to the session's address.
pub record Store : Type 0 where
  pub opts : Options
  pub sessions : Table ℕ
  pub heap : Heap

pub data SessionError : Type 0 where
  no_randomness not_found expired too_many_sessions : SessionError

pub data Result {ℓ} (A : Type ℓ) : Type ℓ where
  ok : A → Result A
  err : SessionError → Result A

abbrev pub second : ℕ
second = 1_000_000_000

abbrev pub refresh_window : ℕ
refresh_window = 60 * second

abbrev pub gc_batch_size : ℕ
gc_batch_size = 100
