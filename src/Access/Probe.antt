-- ===== src/Access/Probe.antt =====
-- The watch over the probe namespace (pkg/handlers/access/handler.go): events of the informer as
-- steps, with the cache as it is when the handler runs.
use antrea_ui.Base.{
  String, ◌≡◌, refl, inl, inr, true, false, not, none, some, List, arith, str_eq, if◌then◌else◌,
  Bool-cases, Bool,
}
use antrea_ui.Access.Resolver.{
  RoleBinding, Resolver, new_resolver, probe_namespace, holds_none, recheck_cluster_scope_probe,
  handle_role_binding_event, sync, cluster_scope_probe_usable,
}

-- The cache and the resolver after a history of events. An event on a RoleBinding of another
-- namespace leaves open what changes there, but not whether the probe namespace is empty.
pub data Reaches : List RoleBinding → Resolver → Type 0 where
  started : (w : List RoleBinding) → Reaches w new_resolver
  filling :
      (w w' : List RoleBinding) (r : Resolver) → r.has_lister ≡ false → Reaches w r → Reaches w' r
  synced_now : (w : List RoleBinding) (r : Resolver) → Reaches w r → Reaches w (sync (some w) r)
  event :
      (w w' : List RoleBinding) (r : Resolver) (namespace : String)
      → (str_eq namespace probe_namespace ≡ false → holds_none w' ≡ holds_none w)
      → Reaches w r
      → Reaches w' (handle_role_binding_event (some namespace) (some w') r)
  foreign_object :
      (w : List RoleBinding) (r : Resolver)
      → Reaches w r
      → Reaches w (handle_role_binding_event none (some w) r)

record IsTracking (w : List RoleBinding) (r : Resolver) : Type 0 where
  synced_lister : r.synced ≡ r.has_lister
  current : r.has_lister ≡ true → r.probe_usable ≡ holds_none w

rechecked :
    (v w : List RoleBinding) (r : Resolver) (b : Bool)
    → IsTracking v r
    → r.has_lister ≡ b
    → IsTracking w (if not b then r else record r { probe_usable = holds_none w })
rechecked v w r true t h = record { synced_lister = t.synced_lister; current = λ y. refl }
rechecked v w r false t h = record {
  synced_lister = t.synced_lister;
  current = λ y. absurd (ground arith);
}

recheck-IsTracking :
    (v w : List RoleBinding) (r : Resolver)
    → IsTracking v r
    → IsTracking w (recheck_cluster_scope_probe (some w) r)
unfolding recheck_cluster_scope_probe
recheck-IsTracking v w r t = rechecked v w r r.has_lister t refl

Reaches-IsTracking : (w : List RoleBinding) (r : Resolver) → Reaches w r → IsTracking w r
unfolding handle_role_binding_event recheck_cluster_scope_probe sync
Reaches-IsTracking w r (started _) = record {
  synced_lister = refl;
  current = λ h. absurd (ground arith);
}
Reaches-IsTracking w r (filling v _ _ empty h) =
    let t = Reaches-IsTracking v r h in
    record { synced_lister = t.synced_lister; current = λ y. absurd (ground arith) }
Reaches-IsTracking w r (synced_now _ q h) = record { synced_lister = refl; current = λ y. refl }
Reaches-IsTracking w r (event v _ q namespace same h) =
    let t = Reaches-IsTracking v q h in
    elim (Bool-cases (str_eq namespace probe_namespace)) [
      | inr e ↦
          rw (e, handle_role_binding_event)
            (record {
              synced_lister = t.synced_lister;
              current = λ y. ground (arith, t.current y, same e);
            })
      | inl e ↦ rw (e, handle_role_binding_event) (recheck-IsTracking v w q t)
    ]
Reaches-IsTracking w r (foreign_object _ q h) = Reaches-IsTracking w q h

-- In every state that the events of the informer lead to, the resolver reports the probe namespace as
-- usable just when it holds no RoleBinding, once the cache has synced, and always before.
pub probe_usable-Reaches :
    (w : List RoleBinding) (r : Resolver)
    → Reaches w r
    → cluster_scope_probe_usable r ≡ (if r.synced then holds_none w else true)
unfolding cluster_scope_probe_usable
probe_usable-Reaches w r h =
    let t = Reaches-IsTracking w r h in ground (arith, t.synced_lister, t.current)
