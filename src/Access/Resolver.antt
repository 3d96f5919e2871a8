-- ===== src/Access/Resolver.antt =====
-- pkg/handlers/access/handler.go: the resolver of namespaces from RoleBindings, and the watch over
-- the namespace that must hold none. The informer's cache is an argument, `none` where listing it
-- fails.
use antrea_ui.Base.{
  String, Bool, true, false, ◌&&◌, ◌||◌, not, Option, none, some, List, [], ◌∷◌, str_eq,
  if◌then◌else◌, elem, sort_by,
}
use Prim.Native.String.{◌++◌ as str_append, compare}
use Prim.Native.Nat.{Ordering}

pub record Subject : Type 0 where
  pub kind : String
  pub namespace : String
  pub name : String

pub record RoleBinding : Type 0 where
  pub namespace : String
  pub subjects : List Subject

-- `has_lister` is whether the lister has been set.
pub record Resolver : Type 0 where
  pub has_lister : Bool
  pub synced : Bool
  pub probe_usable : Bool

abbrev pub Cache : Type 0
Cache = Option (List RoleBinding)

abbrev pub probe_namespace : String
probe_namespace = "antrea-ui-cluster-scope-probe"

abbrev pub new_resolver : Resolver
new_resolver = record { has_lister = false; synced = false; probe_usable = true }

abbrev pub service_account_name : String → String → String
service_account_name namespace name =
    str_append "system:serviceaccount:" (str_append namespace (str_append ":" name))

-- One subject, in the switch over its kind.
unfoldable pub matches_one : Subject → String → String → List String → Bool
matches_one s binding_namespace username groups =
    if str_eq s.kind "User"
    then str_eq s.name username
    else if str_eq s.kind "Group"
    then elem s.name groups
    else if str_eq s.kind "ServiceAccount"
    then (let namespace = if str_eq s.namespace "" then binding_namespace else s.namespace in
        str_eq (service_account_name namespace s.name) username)
    else false

-- The loop; the set of groups is a list here.
unfoldable pub matches_subject : List Subject → String → String → List String → Bool
unfolding matches_one
matches_subject [] binding_namespace username groups = false
matches_subject (s ∷ ss) binding_namespace username groups =
    matches_one s binding_namespace username groups
    || matches_subject ss binding_namespace username groups

abbrev pub text_before : String → String → Bool
text_before a b = elim (compare a b) [ Ordering.lt ↦ true | _ ↦ false ]

-- The set of namespaces, as a list without repetition.
unfoldable pub namespace_set : List RoleBinding → String → List String → List String
unfolding matches_subject
namespace_set [] username groups = []
namespace_set (rb ∷ rbs) username groups =
    let rest = namespace_set rbs username groups in
    if matches_subject rb.subjects rb.namespace username groups
    then (if elem rb.namespace rest then rest else rb.namespace ∷ rest)
    else rest

abbrev pub sorted_set : Cache → String → List String → Option (List String)
sorted_set none username groups = none
sorted_set (some rbs) username groups =
    some (sort_by text_before (namespace_set rbs username groups))

-- `none` is an error.
unfoldable pub namespaces_for : Resolver → Cache → String → List String → Option (List String)
unfolding namespace_set sort_by
namespaces_for r cache username groups =
    if not r.synced || not r.has_lister then none else sorted_set cache username groups

unfoldable pub holds_none : List RoleBinding → Bool
holds_none [] = true
holds_none (rb ∷ rbs) = not (str_eq rb.namespace probe_namespace) && holds_none rbs

abbrev pub recheck : Cache → Resolver → Resolver
recheck none r = r
recheck (some rbs) r = record r { probe_usable = holds_none rbs }

unfoldable pub recheck_cluster_scope_probe : Cache → Resolver → Resolver
unfolding holds_none
recheck_cluster_scope_probe cache r = if not r.has_lister then r else recheck cache r

-- The event's RoleBinding, its namespace if it is one.
unfoldable pub handle_role_binding_event : Option String → Cache → Resolver → Resolver
unfolding recheck_cluster_scope_probe
handle_role_binding_event none cache r = r
handle_role_binding_event (some namespace) cache r =
    if str_eq namespace probe_namespace then recheck_cluster_scope_probe cache r else r

-- `Run`, when the cache has synced.
unfoldable pub sync : Cache → Resolver → Resolver
unfolding recheck_cluster_scope_probe
sync cache r = recheck_cluster_scope_probe cache (record r { has_lister = true; synced = true })

unfoldable pub cluster_scope_probe_usable : Resolver → Bool
cluster_scope_probe_usable r = if not r.synced then true else r.probe_usable
