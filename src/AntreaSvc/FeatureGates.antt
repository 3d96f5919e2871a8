-- ===== src/AntreaSvc/FeatureGates.antt =====
-- pkg/server/api/featuregates.go: the feature gates of Antrea, passed on as they come.
use antrea_ui.Base.{ℕ, String, Bool, not, Option, none, some, List, [], ◌==◌, if◌then◌else◌}
use antrea_ui.Session.Types.{Store}
use antrea_ui.Authn.Types.{RequestAuth}
use antrea_ui.Authn.Cookies.{SetCookie}
use antrea_ui.Upstream.Errors.{Reply, plain, upstream_status_error}
use antrea_ui.AntreaSvc.Factory.{Rest}
use antrea_ui.AntreaSvc.Requests.{ServiceHandler, HttpClient, Sent, request}

pub data GatesReply : Type 0 where
  gates : String → Store → GatesReply
  refused : Reply → GatesReply

abbrev pub reply_code : GatesReply → ℕ
reply_code (GatesReply.gates body st) = 200
reply_code (GatesReply.refused r) = r.error.code

abbrev pub reply_store : GatesReply → Store
reply_store (GatesReply.gates body st) = st
reply_store (GatesReply.refused r) = r.store

abbrev pub reply_cookies : GatesReply → List SetCookie
reply_cookies (GatesReply.gates body st) = []
reply_cookies (GatesReply.refused r) = r.set_cookies

abbrev pub broken : Store → GatesReply
broken st = GatesReply.refused (plain (record { code = 500; message = none }) st)

-- `are_gates` tells whether the body decodes as a list of feature gates.
unfoldable pub gates_reply : (String → Bool) → Sent × Store → GatesReply
unfolding upstream_status_error
gates_reply are_gates (sent, st) = elim sent.failure [
  | some e ↦ broken st
  | none ↦
      if not (sent.status == 200)
      then GatesReply.refused (upstream_status_error sent.status sent.body st)
      else if are_gates sent.body
      then GatesReply.gates sent.body st
      else broken st
]

unfoldable pub get_feature_gates :
    (rest : Rest)
    → HttpClient
    → (String → Bool)
    → (Store → Store)
    → ServiceHandler rest
    → Option RequestAuth
    → Store
    → GatesReply
unfolding request gates_reply
get_feature_gates rest http are_gates meanwhile handler identity st =
    gates_reply are_gates (request rest http meanwhile handler identity "GET" "/featuregates" st)
