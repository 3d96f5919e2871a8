-- ===== src/Traceflow/Tests.antt =====
-- A cluster that holds traceflows in a table, by name, with the time of their creation.
use antrea_ui.Base.{
  ℕ, String, ◌*◌, ◌≡◌, refl, Option, none, some, [], ◌∷◌, Table, lookup, delete, insert, map, ◌∙◌,
  eq_refl, lookup-delete,
}
use antrea_ui.Session.Types.{second}
use antrea_ui.Session.Scenarios.{two_users}
use antrea_ui.Upstream.Errors.{not_found}
use antrea_ui.AntreaSvc.Factory.{ClientFactory}
use antrea_ui.AntreaSvc.Tests.{client_go, bobs_request}
use antrea_ui.Traceflow.Handler.{Cluster, Item, Phase, Got, do_gc}
use antrea_ui.Traceflow.Endpoints.{get_traceflow_request_status, get_traceflow_request_result}
use antrea_ui.Traceflow.Laws.Expiry.{IsDeleting, is_due, Fate, do_gc-Fate}
use antrea_ui.Traceflow.Laws.Polling.{IsPolled, get_traceflow_request_status-IsPolled}

abbrev item_of : String × ℕ → Item
item_of (name, at) = record { name = name; creation_timestamp = at }

abbrev got_of : Option ℕ → Got ℕ
got_of none = Got.get_failed (not_found "no such traceflow")
got_of (some at) = Got.found at

abbrev table_cluster : Cluster
table_cluster = record {
  World = Table ℕ;
  Object = ℕ;
  Client = ℕ;
  connect = λ rt. some rt;
  create = λ client manifest w. (none, insert manifest.name manifest.spec w);
  get = λ client name w. got_of (lookup name w);
  delete = λ client name w. (none, delete name w);
  list = λ client labels w. some (map item_of w);
  spec = λ o. o;
  phase = λ o. Phase.phase_text "Succeeded";
  marshal = λ o. some "{}";
}

table_deletes : IsDeleting table_cluster 0 lookup
table_deletes = record {
  drops = λ name w e. lookup-delete name name w ∙ rw (eq_refl name) refl;
  spares = λ name m w ne. lookup-delete name m w ∙ rw ne refl;
}

abbrev old_and_new : Table ℕ
old_and_new = ("old", 5) ∷ ("new", 3000 * second) ∷ []

do_gc-Fate_example :
    Fate table_cluster 0 lookup table_deletes
      (is_due (4000 * second) "old" (map item_of old_and_new))
      "old"
      old_and_new
      (do_gc table_cluster 0 (4000 * second) old_and_new)
do_gc-Fate_example =
    do_gc-Fate table_cluster 0 lookup table_deletes (4000 * second) "old" (map item_of old_and_new)
      old_and_new refl

new_is_kept : do_gc table_cluster 0 (4000 * second) old_and_new ≡ ("new", 3000 * second) ∷ []
unfolding do_gc delete
new_is_kept = refl

abbrev api_factory : ClientFactory client_go
api_factory = record {
  config = [];
  base_transport = 100;
  sa_transport = 100;
  transport_key = "k8s";
}

get_traceflow_request_status-IsPolled_example :
    IsPolled "old"
      (get_traceflow_request_status client_go table_cluster api_factory
        (some bobs_request)
        "old"
        two_users
        old_and_new)
      (get_traceflow_request_result client_go table_cluster api_factory
        (some bobs_request)
        "old"
        two_users
        old_and_new)
get_traceflow_request_status-IsPolled_example =
    get_traceflow_request_status-IsPolled client_go table_cluster api_factory (some bobs_request)
      (λ o. ("{}", refl)) "old" two_users old_and_new
