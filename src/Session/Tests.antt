-- ===== src/Session/Tests.antt =====
-- The session store on a small history: two users, a store of two sessions, one for each user.
use antrea_ui.Session.Scenarios.{
  limits, blank, start_heap, alice, start, login, two_users, provider, two_users-IsWellFormed, late,
}
use antrea_ui.Base.{
  ◌≡◌, refl, none, some, [], ◌∷◌, lookup, insert, ◌≤◌, inl, false, arith, ◌==◌, if◌then◌else◌, All,
  sort_by, delete,
}
use antrea_ui.Session.Types.{Kind, Heap, Store, ok, err, SessionError}
use antrea_ui.Session.Memory.{IsErased, material, contents}
use antrea_ui.Session.Expiry.{set_defaults, alive}
use antrea_ui.Session.Transports.{TransportBuilder, transport_for, cut_slash}
use antrea_ui.Session.Store.{
  evict, create, peek, delete_session, enforce_per_user_limit_locked, owned, per_user_cap_key,
}
use antrea_ui.Session.Get.{Refreshed, Readings, get, do_gc, sweep, maybe_refresh, refresh_now, ask}
use antrea_ui.Session.Run.{new_store, creates, gets, deletes, sweeps, run, run-IsWellFormed}
use antrea_ui.Session.Invariant.{IsWellFormed}
use antrea_ui.Session.Invariant.Caps.{delete_each}
use antrea_ui.Session.Invariant.Eviction.{enforce_drops_stalest, enforce_spares_others}
use antrea_ui.Session.Laws.Removal.{IsGone, delete_session-IsGone}
use antrea_ui.Session.Laws.Liveness.{Outcome, get-Outcome}
use antrea_ui.Session.Laws.Admission.{Admission, create-Admission}
use antrea_ui.Session.Laws.Sweeping.{sweep-delete_each, peek-do_gc, survivor}
use antrea_ui.Session.Laws.Erasing.{do_gc-erases}
use antrea_ui.Session.Laws.Renewal.{IsAccounted, maybe_refresh-IsAccounted}
use antrea_ui.Session.Laws.Refreshing.{IsRenewed, refresh_now-IsRenewed, AllBelow}
use antrea_ui.Session.Laws.Caching.{
  Answers, built, transport_for_builds, transport_for_again, transport_for_one_version,
  versioned_key,
}

found_alice : peek "s1" two_users ≡ some 0
unfolding peek create set_defaults lookup insert delete per_user_cap_key sort_by evict
found_alice = refl

-- A second login of alice signs her first session out and leaves bob's.
second_login : peek "s1" (login "s3" 7 alice two_users) ≡ none
unfolding peek create set_defaults lookup insert delete per_user_cap_key sort_by evict
second_login = refl

second_login_bob : peek "s2" (login "s3" 7 alice two_users) ≡ some 1
unfolding peek create set_defaults lookup insert delete per_user_cap_key sort_by evict
second_login_bob = refl

abbrev after_expiry : Readings
after_expiry = record { found = 40; locked = 40; refreshed = 40; returned = 40 }

run-IsWellFormed_example : IsWellFormed (
    run
      (new_store limits start_heap)
      (creates (some "s1") 5 alice ∷ gets provider "s1" late ∷ sweeps 70 ∷ deletes "s1" ∷ []))
run-IsWellFormed_example = run-IsWellFormed limits start_heap _

get-Outcome_example : Outcome "s1" late two_users (get provider "s1" late two_users)
get-Outcome_example = get-Outcome provider "s1" late two_users

get_bob : (get provider "s2" after_expiry two_users).0 ≡ err SessionError.expired
unfolding get create set_defaults lookup insert per_user_cap_key
get_bob = refl

get_alice : (get provider "s1" late two_users).0 ≡ ok 0
unfolding get create set_defaults lookup insert per_user_cap_key
get_alice = refl

create-Admission_example : Admission "s3" 7 alice two_users (create (some "s3") 7 alice two_users)
create-Admission_example = create-Admission "s3" 7 alice two_users two_users-IsWellFormed

delete_session-IsGone_example : IsGone "s1" 0 two_users (delete_session "s1" two_users)
delete_session-IsGone_example = delete_session-IsGone "s1" 0 two_users found_alice

swept_bob :
    peek "s2" (do_gc 40 two_users) ≡ survivor two_users.opts two_users.heap 40 (peek "s2" two_users)
swept_bob = peek-do_gc 40 two_users "s2" two_users-IsWellFormed

bob_swept : peek "s2" (do_gc 40 two_users) ≡ none
unfolding peek do_gc create set_defaults lookup insert delete per_user_cap_key
bob_swept = refl

found_bob : peek "s2" two_users ≡ some 1
unfolding peek create set_defaults lookup insert delete per_user_cap_key
found_bob = refl

bob_dead : alive two_users.opts (two_users.heap.objects 1) 40 ≡ false
unfolding alive create set_defaults lookup insert delete per_user_cap_key
bob_dead = refl

swept-IsErased : All (IsErased (do_gc 40 two_users).heap) (material (two_users.heap.objects 1))
swept-IsErased = do_gc-erases 40 two_users "s2" 1 two_users-IsWellFormed found_bob bob_dead

sweep-delete_each_example :
    (sweep 2 ("s2" ∷ "s9" ∷ []) two_users).sessions
    ≡ delete_each ("s2" ∷ "s9" ∷ []) two_users.sessions
sweep-delete_each_example = sweep-delete_each 2 ("s2" ∷ "s9" ∷ []) two_users (omega arith)

refresh-IsAccounted :
    IsAccounted
      (two_users.heap.objects 0)
      (maybe_refresh provider two_users.opts 0 90_000_000_000 90_000_000_000 two_users.heap).1
      0
refresh-IsAccounted =
    maybe_refresh-IsAccounted provider two_users.opts 0 90_000_000_000 90_000_000_000 two_users.heap

-- What the provider answers for alice.
abbrev answer : Refreshed
answer = record {
  kind = Kind.bearer;
  token = some (8 ∷ 8 ∷ []);
  cert_pem = none;
  key_pem = none;
  user_name = "";
  expires_at = 500_000_000_000;
  refresh_token = some (9 ∷ []);
}

alice_allocated : AllBelow two_users.heap.next_buffer (two_users.heap.objects 0)
unfolding create set_defaults lookup insert delete per_user_cap_key
alice_allocated = omega arith

alice_answered :
    ask provider
      (two_users.heap.objects 0).refresher
      (contents (two_users.heap.objects 0).refresh_token two_users.heap)
    ≡ some answer
unfolding create set_defaults lookup insert delete per_user_cap_key
alice_answered = refl

refresh_now-IsRenewed_example :
    let k = (refresh_now provider two_users.opts 0 two_users.heap).1 in
    IsRenewed answer two_users.opts (two_users.heap.objects 0) (k.objects 0) k
refresh_now-IsRenewed_example =
    refresh_now-IsRenewed provider two_users.opts 0 two_users.heap answer alice_allocated
      alice_answered

-- Two sessions of alice, of which the second was last seen later.
abbrev two_of_alice : Store
two_of_alice = record start {
  opts = record (start.opts) { max_sessions_per_user = 2; max_sessions = 2 };
  sessions = ("s2", 1) ∷ ("s1", 0) ∷ [];
  heap = record start_heap {
    next_object = 2;
    objects = λ p.
        if p == 0
        then record blank {
          id = "s1";
          cap_key = "alice";
          last_seen = 5;
          created_at = 5;
          expires_at = 9;
        }
        else record blank {
          id = "s2";
          cap_key = "alice";
          last_seen = 8;
          created_at = 4;
          expires_at = 9;
        };
  };
}

two_of_alice-IsWellFormed : IsWellFormed two_of_alice
unfolding set_defaults owned
two_of_alice-IsWellFormed = record {
  sane = omega arith;
  distinct = (refl, (refl, tt));
  entries = (
    record { keyed = refl; capped = omega arith; allocated = omega arith },
    (record { keyed = refl; capped = omega arith; allocated = omega arith }, tt),
  );
  within = omega arith;
  shares = λ c named. ground arith;
}

dropped_s1 :
    (peek "s1" two_of_alice ≡ some 0)
    × (peek "s1" (enforce_per_user_limit_locked "alice" two_of_alice) ≡ none)
    × (peek "s2" (enforce_per_user_limit_locked "alice" two_of_alice) ≡ some 1)
unfolding peek enforce_per_user_limit_locked set_defaults lookup delete sort_by evict
dropped_s1 = (refl, refl, refl)

stalest_goes : (two_of_alice.heap.objects 0).last_seen ≤ (two_of_alice.heap.objects 1).last_seen
stalest_goes =
    enforce_drops_stalest "alice" two_of_alice "s1" "s2" 0 1 two_of_alice-IsWellFormed dropped_s1.0
      dropped_s1.1 dropped_s1.2 refl

other_users_stay : peek "s2" (enforce_per_user_limit_locked "" two_of_alice) ≡ some 1
unfolding peek set_defaults lookup
other_users_stay =
    enforce_spares_others "" two_of_alice "s2" 1 two_of_alice-IsWellFormed refl (inl refl)

-- A session with a transport for the first version of the Antrea CA.
abbrev with_transport : Heap
with_transport = record start_heap {
  objects =
      λ p. record blank { transports = ("antrea/1", record { rt = 40; cleanup = some 41 }) ∷ [] };
}

abbrev builder : TransportBuilder
builder h c = some (record { rt = 50; cleanup = some 51 })

not_cached : lookup "antrea/2" (with_transport.objects 0).transports ≡ none
unfolding lookup
not_cached = refl

transport_built :
    Answers "antrea/2" 0 with_transport
      (built "antrea/2" builder 0 with_transport)
      (transport_for "antrea/2" builder 0 with_transport)
transport_built = transport_for_builds "antrea/2" builder 0 with_transport not_cached

handed_out : (transport_for "antrea/2" builder 0 with_transport).0 ≡ some 50
unfolding transport_for lookup
handed_out = refl

transport_asked_again :
    transport_for "antrea/2" builder 0 (transport_for "antrea/2" builder 0 with_transport).1
    ≡ (some 50, (transport_for "antrea/2" builder 0 with_transport).1)
transport_asked_again =
    transport_for_again "antrea/2" builder builder 0 50 with_transport handed_out

one_version_left :
    lookup
      (versioned_key "antrea" "1")
      ((transport_for (versioned_key "antrea" "2") builder 0 with_transport).1.objects 0).transports
    ≡ none
unfolding cut_slash lookup
one_version_left =
    transport_for_one_version "antrea" "2" "1" builder 0 with_transport refl refl refl
