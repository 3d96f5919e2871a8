-- ===== src/Access/Tests.antt =====
-- A user who is bound in two namespaces, one of them through a local service account.
use antrea_ui.Base.{
  String, ◌≡◌, refl, true, false, none, some, List, [], ◌∷◌, arith, if◌then◌else◌, sort_by,
}
use antrea_ui.Session.Scenarios.{two_users}
use antrea_ui.Access.Resolver.{
  holds_none, RoleBinding, Resolver, new_resolver, sync, handle_role_binding_event, namespaces_for,
  cluster_scope_probe_usable, probe_namespace,
}
use antrea_ui.Access.Namespaces.{IsExact, namespaces_for-IsExact}
use antrea_ui.Access.Probe.{Reaches, started, synced_now, event, probe_usable-Reaches}
use antrea_ui.Access.Summary.{got, Reviews, Query, AccessSummary, summary, get_access_summary}
use antrea_ui.Access.Honesty.{IsHonest, get_access_summary-IsHonest}

abbrev robot : String
robot = "system:serviceaccount:lab:robot"

abbrev bindings : List RoleBinding
bindings =
    record {
      namespace = "lab";
      subjects = record { kind = "ServiceAccount"; namespace = ""; name = "robot" } ∷ [];
    }
    ∷ record {
      namespace = "apps";
      subjects = record { kind = "Group"; namespace = ""; name = "robots" } ∷ [];
    }
    ∷ record {
      namespace = "prod";
      subjects = record { kind = "User"; namespace = ""; name = "alice" } ∷ [];
    }
    ∷ []

abbrev watching : Resolver
watching = sync (some bindings) new_resolver

robots_namespaces :
    namespaces_for watching (some bindings) robot ("robots" ∷ []) ≡ some ("apps" ∷ "lab" ∷ [])
unfolding namespaces_for sync sort_by
robots_namespaces = refl

namespaces_for-IsExact_example : IsExact bindings robot ("robots" ∷ []) ("apps" ∷ "lab" ∷ [])
namespaces_for-IsExact_example =
    namespaces_for-IsExact watching bindings robot ("robots" ∷ []) ("apps" ∷ "lab" ∷ [])
      robots_namespaces

abbrev intruder : List RoleBinding
intruder = record { namespace = probe_namespace; subjects = [] } ∷ bindings

abbrev warned : Resolver
warned = handle_role_binding_event (some probe_namespace) (some intruder) watching

warned-Reaches : Reaches intruder warned
warned-Reaches =
    event bindings intruder watching probe_namespace (λ h. absurd (ground arith))
      (synced_now bindings new_resolver (started bindings))

probe_usable-Reaches_example :
    cluster_scope_probe_usable warned ≡ (if warned.synced then holds_none intruder else true)
probe_usable-Reaches_example = probe_usable-Reaches intruder warned warned-Reaches

abbrev reviews : Reviews
reviews = record {
  client = true;
  identity = got (record { username = robot; groups = "robots" ∷ [] });
  rules_in = λ ns. got (record { rules = "get pods" ∷ []; incomplete = false });
  all_allowed = got false;
  list_allowed = got false;
}

abbrev query : Query
query = record { auth = none; namespace = "" }

abbrev robots_summary : AccessSummary
robots_summary = record {
  namespace = "";
  username = robot;
  groups = "robots" ∷ [];
  rules = record { rules = "get pods" ∷ []; incomplete = false };
  cluster_admin = false;
  namespaces = "apps" ∷ "lab" ∷ [];
}

answered :
    get_access_summary (λ l. true) query reviews watching (some bindings) two_users
    ≡ summary robots_summary
unfolding get_access_summary namespaces_for sync sort_by cluster_scope_probe_usable
answered = refl

get_access_summary-IsHonest_example :
    IsHonest (λ l. true) query reviews watching (some bindings) two_users robots_summary
get_access_summary-IsHonest_example =
    get_access_summary-IsHonest (λ l. true) query reviews watching (some bindings) two_users
      robots_summary answered
