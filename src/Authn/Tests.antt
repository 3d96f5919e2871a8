-- ===== src/Authn/Tests.antt =====
-- The authenticator on the requests of a browser and of a script.
use antrea_ui.Base.{
  String, ◌≡◌, refl, ◌⊎◌, true, false, ◌&&◌, ◌||◌, Option, none, some, [], ◌∷◌, arith, str_eq,
  if◌then◌else◌, Table, lookup, delete, insert, lookup-insert, has_prefix, contains_code, cut,
}
use antrea_ui.Session.Types.{err, SessionError}
use antrea_ui.Session.Get.{get}
use antrea_ui.Authn.Types.{RequestAuth}
use antrea_ui.Authn.Identity.{keep_alive, invalidate}
use antrea_ui.Authn.Laws.Streams.{Tick, keep_alive-Tick, get-invalidate}
use antrea_ui.Authn.Resolve.{new_session_auth}
use antrea_ui.Session.Scenarios.{two_users, provider, late}
use antrea_ui.Authn.Types.{Request, Config, Url, Net, pass}
use antrea_ui.Authn.Origin.{check_cross_origin, safe_redirect_url, bearer_token, origin_allowed}
use antrea_ui.Authn.Bearer.{CacheEntry, accepted, unauthorized, LruCache, Outside, validate}
use antrea_ui.Authn.Resolve.{Moment, AuthState, resolve}
use antrea_ui.Authn.Laws.Gate.{Gate, check_cross_origin-Gate}
use antrea_ui.Authn.Laws.Redirects.{Redirect, safe_redirect_url-Redirect}
use antrea_ui.Authn.Laws.Tokens.{Call, history, Grounds, validate-Grounds}
use antrea_ui.Authn.Laws.Resolving.{Resolved, resolve-Resolved}
use antrea_ui.Credentials.Tokens.{jwt_expiry}

abbrev pub browser : Request
browser = record {
  cookies = ("theme", "dark") ∷ ("antrea-ui-session", "s1") ∷ [];
  authorization = "";
  origin = "";
  sec_fetch_site = "same-origin";
  sec_fetch_mode = "cors";
  sec_fetch_dest = "empty";
  host = "ui.example.com";
}

abbrev pub foreign : Request
foreign = record browser { sec_fetch_site = "cross-site"; origin = "https://evil.example.com" }

abbrev pub script : Request
script = record browser { cookies = []; authorization = "bearer abc"; sec_fetch_site = "" }

abbrev pub deployed : Config
deployed = record {
  bearer_fallback_enabled = true;
  dev_mode = false;
  server_origin = "https://ui.example.com";
}

-- A parser that knows the two URLs of the tests, and a comparison that knows one spelling.
abbrev parse : String → Option Url
parse s =
    if str_eq s "https://ui.example.com/traceflow"
    then some (record { scheme = "https"; host = "ui.example.com" })
    else if str_eq s "https://evil.example.com/"
    then some (record { scheme = "https"; host = "evil.example.com" })
    else some (record { scheme = ""; host = "" })

abbrev pub go_net : Net
go_net = record {
  parse_url = parse;
  equal_fold = λ a b. str_eq a b || (str_eq a "bearer" && str_eq b "Bearer");
}

pub found_added :
    (k j : String) (v : CacheEntry) (c : Table CacheEntry) (e : CacheEntry)
    → lookup j (insert k v c) ≡ some e
    → ((str_eq k j ≡ true) × (v ≡ e)) ⊎ (lookup j c ≡ some e)
found_added k j v c e h = ground (arith, lookup-insert k j v c)

-- A cache that evicts nothing.
abbrev pub table_cache : LruCache
table_cache = record {
  Cache = Table CacheEntry;
  find = λ k c. lookup k c;
  touched = λ k c. c;
  add = λ k e c. insert k e c;
  find-touched = λ k j c e h. h;
  find-add = λ k j v c e h. found_added k j v c e h;
}

abbrev pub cluster : Outside
cluster = record {
  hash = λ t. t;
  tokens = record { base64_decode = λ b. some b; exp_claim = λ b. none };
  verdict = λ now t. if str_eq t "abc" then accepted "robot" else unauthorized;
}

abbrev pub moment : Moment
moment = record { refreshers = provider; readings = late; allowed = true; now = 20; done = 21 }

abbrev pub serving : AuthState go_net table_cache cluster
serving = record { store = two_users; cache = [] }

abbrev first_call : Call
first_call = record { allowed = true; now = 20; done = 21; token = "abc" }

-- The second call is answered from the cache, although the limiter would refuse it.
abbrev second_call : Call
second_call = record { allowed = false; now = 30; done = 30; token = "abc" }

same_origin_passes : check_cross_origin go_net deployed browser false ≡ none
unfolding check_cross_origin
same_origin_passes = refl

evil_redirect : safe_redirect_url go_net deployed browser "https://evil.example.com/" ≡ ""
unfolding safe_redirect_url origin_allowed
evil_redirect = refl

protocol_relative : safe_redirect_url go_net deployed browser "//evil.example.com" ≡ ""
unfolding safe_redirect_url has_prefix
protocol_relative = refl

own_path : safe_redirect_url go_net deployed browser "/summary" ≡ "/summary"
unfolding safe_redirect_url has_prefix contains_code
own_path = refl

script_token : bearer_token go_net script ≡ some "abc"
unfolding bearer_token cut
script_token = refl

cached_answer :
    (validate table_cache cluster false 30 30 "abc"
      (history table_cache cluster (first_call ∷ []) [])).0
    ≡ pass "robot"
unfolding validate history lookup insert delete jwt_expiry
cached_answer = refl

check_cross_origin-Gate_example :
    Gate go_net deployed foreign false (check_cross_origin go_net deployed foreign false)
check_cross_origin-Gate_example = check_cross_origin-Gate go_net deployed foreign false

safe_redirect_url-Redirect_example :
    Redirect go_net deployed browser "/summary"
      (safe_redirect_url go_net deployed browser "/summary")
safe_redirect_url-Redirect_example = safe_redirect_url-Redirect go_net deployed browser "/summary"

validate-Grounds_example : Grounds table_cache cluster (first_call ∷ []) second_call "robot"
unfolding lookup
validate-Grounds_example =
    validate-Grounds table_cache cluster (λ a b h. h) [] (λ key. refl) (first_call ∷ []) second_call
      "robot" cached_answer

resolve-Resolved_example :
    Resolved go_net table_cache cluster deployed browser moment serving
      (resolve go_net table_cache cluster deployed browser moment serving)
resolve-Resolved_example =
    resolve-Resolved go_net table_cache cluster deployed browser moment serving

abbrev alice_auth : RequestAuth
alice_auth = new_session_auth 0 (two_users.heap.objects 0)

stream_ticks_on :
    Tick alice_auth 20 late two_users (keep_alive provider alice_auth 20 late two_users)
stream_ticks_on = keep_alive-Tick provider alice_auth 20 late two_users

rejected_then_refused :
    (get provider (two_users.heap.objects 0).id late (invalidate alice_auth two_users)).0
    ≡ err SessionError.not_found
unfolding new_session_auth
rejected_then_refused = get-invalidate alice_auth 0 two_users provider late refl
