-- ===== src/Traceflow/Handler.antt =====
-- pkg/handlers/traceflow/handler.go: traceflows as objects of the API server, and the collection of
-- the old ones.
use antrea_ui.Base.{
  ℕ, String, Bool, false, ◌*◌, ◌-◌, ◌||◌, Option, none, some, List, [], ◌∷◌, str_eq, ltb,
  if◌then◌else◌,
}
use antrea_ui.Session.Types.{second}
use antrea_ui.Upstream.Errors.{ApiFailure, unauthorized, forbidden, not_found, other}

pub record Manifest (Object : Type 0) : Type 0 where
  pub api_version : String
  pub kind : String
  pub name : String
  pub labels : List (String × String)
  pub spec : Object

pub record Item : Type 0 where
  pub name : String
  pub creation_timestamp : ℕ

-- What `NestedString` finds under `status.phase`.
pub data Phase : Type 0 where
  phase_text : String → Phase
  no_phase wrong_type : Phase

pub data Got (Object : Type 0) : Type 0 where
  found : Object → Got Object
  get_failed : ApiFailure → Got Object

-- The API server as its clients see it, and the JSON library. A list answers with the objects that
-- carry a label.
pub record Cluster : Type 1 where
  pub World : Type 0
  pub Object : Type 0
  pub Client : Type 0
  pub connect : ℕ → Option Client
  pub create : Client → Manifest Object → World → Option ApiFailure × World
  pub get : Client → String → World → Got Object
  pub delete : Client → String → World → Option ApiFailure × World
  pub list : Client → List (String × String) → World → Option (List Item)
  pub spec : Object → Object
  pub phase : Object → Phase
  pub marshal : Object → Option String

abbrev pub traceflow_labels : List (String × String)
traceflow_labels = ("ui.antrea.io", "") ∷ []

abbrev pub traceflow_expiry_timeout : ℕ
traceflow_expiry_timeout = 60 * 60 * second

unfoldable pub create_traceflow :
    (cluster : Cluster)
    → cluster.Client
    → String
    → cluster.Object
    → cluster.World
    → Option ApiFailure × cluster.World
create_traceflow cluster client name object w =
    cluster.create client
      (record {
        api_version = "crd.antrea.io/v1beta1";
        kind = "Traceflow";
        name = name;
        labels = traceflow_labels;
        spec = cluster.spec object;
      })
      w

-- The object with whether it is done, or the error. The error of NestedString is no error of the API.
pub data Progress (Object : Type 0) : Type 0 where
  progress : Object → Bool → Progress Object
  no_progress : ApiFailure → Progress Object

abbrev pub is_done : String → Bool
is_done phase = str_eq phase "Succeeded" || str_eq phase "Failed"

abbrev pub progress_of : {Object : Type 0} → Object → Phase → Progress Object
progress_of o (Phase.phase_text phase) = Progress.progress o (is_done phase)
progress_of o Phase.no_phase = Progress.progress o false
progress_of o Phase.wrong_type = Progress.no_progress (other "phase is not a string")

unfoldable pub get_traceflow :
    (cluster : Cluster) → cluster.Client → String → cluster.World → Progress cluster.Object
get_traceflow cluster client name w = elim (cluster.get client name w) [
  | Got.found o ↦ progress_of o (cluster.phase o)
  | Got.get_failed e ↦ Progress.no_progress e
]

-- A traceflow that is not there is no error, but not deleted either.
pub data Deletion : Type 0 where
  deleted not_there : Deletion
  not_deleted : ApiFailure → Deletion

abbrev pub deletion_of : Option ApiFailure → Deletion
deletion_of none = Deletion.deleted
deletion_of (some (not_found text)) = Deletion.not_there
deletion_of (some unauthorized) = Deletion.not_deleted unauthorized
deletion_of (some (forbidden text)) = Deletion.not_deleted (forbidden text)
deletion_of (some (other text)) = Deletion.not_deleted (other text)

unfoldable pub delete_request :
    (cluster : Cluster) → cluster.Client → String → cluster.World → Deletion × cluster.World
delete_request cluster client name w =
    let (failure, w') = cluster.delete client name w in (deletion_of failure, w')

-- `now.Sub(creation) > traceflowExpiryTimeout`.
abbrev pub has_expired : ℕ → Item → Bool
has_expired now item = ltb traceflow_expiry_timeout (now - item.creation_timestamp)

unfoldable pub expired_traceflows : ℕ → List Item → List String
expired_traceflows now [] = []
expired_traceflows now (i ∷ is) =
    let rest = expired_traceflows now is in if has_expired now i then i.name ∷ rest else rest

-- An error is logged and the next one is tried.
unfoldable pub delete_expired :
    (cluster : Cluster) → cluster.Client → List String → cluster.World → cluster.World
delete_expired cluster client [] w = w
delete_expired cluster client (name ∷ names) w =
    delete_expired cluster client names (cluster.delete client name w).1

unfoldable pub do_gc : (cluster : Cluster) → cluster.Client → ℕ → cluster.World → cluster.World
unfolding expired_traceflows delete_expired
do_gc cluster gc_client now w = elim (cluster.list gc_client traceflow_labels w) [
  | none ↦ w
  | some items ↦ delete_expired cluster gc_client (expired_traceflows now items) w
]
