-- ===== src/Session/Scenarios.antt =====
-- A session store with two users, for the tests.
use antrea_ui.Base.{ℕ, String, none, some, [], ◌∷◌}
use antrea_ui.Base.Int.{pos}
use antrea_ui.Session.Types.{Kind, Mode, Credential, Session, Spec, Heap, Store}
use antrea_ui.Session.Expiry.{GivenOptions, set_defaults}
use antrea_ui.Session.Store.{create}
use antrea_ui.Session.Get.{Refreshers, Readings}
use antrea_ui.Session.Run.{new_store, new_store-IsWellFormed}
use antrea_ui.Session.Invariant.{IsWellFormed}
use antrea_ui.Session.Invariant.Creation.{create-IsWellFormed}

abbrev pub limits : GivenOptions
limits = record {
  idle_timeout = pos 50;
  max_lifetime = pos 1000;
  max_sessions = pos 2;
  max_sessions_per_user = pos 1;
}

abbrev pub no_credential : Credential
no_credential = record {
  kind = Kind.bearer;
  token = none;
  cert_pem = none;
  key_pem = none;
  user_name = "";
  expires_at = 0;
}

abbrev pub blank : Session
blank = record {
  id = "";
  mode = Mode.oidc;
  created_at = 0;
  username = "";
  cap_key = "";
  refresher = none;
  credential = no_credential;
  refresh_token = none;
  last_seen = 0;
  expires_at = 0;
  transports = [];
}

abbrev pub start_heap : Heap
start_heap = record {
  bytes = λ b. 7 ∷ b ∷ [];
  next_buffer = 10;
  objects = λ p. blank;
  next_object = 0;
  released = [];
}

abbrev pub alice : Spec
alice = record {
  mode = Mode.oidc;
  credential = record no_credential { token = some 3; expires_at = 100_000_000_000 };
  refresh_token = some 4;
  username = "alice";
  refresher = some 0;
}

abbrev pub bob : Spec
bob = record {
  mode = Mode.sa_token;
  credential = record no_credential { token = some 5; expires_at = 30 };
  refresh_token = none;
  username = "bob";
  refresher = none;
}

abbrev pub start : Store
start = record { opts = set_defaults limits; sessions = []; heap = start_heap }

abbrev pub login : String → ℕ → Spec → Store → Store
login id now spec st = (create (some id) now spec st).1

abbrev pub two_users : Store
two_users = login "s2" 6 bob (login "s1" 5 alice start)

-- The provider renews every token.
abbrev pub provider : Refreshers
provider handle token = some (record {
  kind = Kind.bearer;
  token = some (8 ∷ 8 ∷ []);
  cert_pem = none;
  key_pem = none;
  user_name = "";
  expires_at = 500_000_000_000;
  refresh_token = some (9 ∷ []);
})

start-IsWellFormed : IsWellFormed start
unfolding new_store
start-IsWellFormed = new_store-IsWellFormed limits start_heap

pub two_users-IsWellFormed : IsWellFormed two_users
two_users-IsWellFormed =
    create-IsWellFormed (some "s2") 6 bob _
      (create-IsWellFormed (some "s1") 5 alice start start-IsWellFormed)

abbrev pub late : Readings
late = record { found = 20; locked = 20; refreshed = 21; returned = 22 }
