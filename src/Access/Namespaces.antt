-- ===== src/Access/Namespaces.antt =====
-- The namespaces of a user, against a description of who a RoleBinding names (RBAC).
use antrea_ui.Base.{
  String, ◌≡◌, ◌≢◌, ◌↔◌, ◌⊎◌, true, List, [], ◌∷◌, elem, refl, subst, sym, ap, inl, inr, some, map,
  arith, str_eq, eq_iff, eq_refl, Bool-cases, str_eq→eq, str_ne, Distinct, sort_by, elem-sort_by,
  Distinct-sort_by, if◌then◌else◌,
}
use antrea_ui.Access.Resolver.{
  Subject, RoleBinding, Resolver, matches_one, matches_subject, namespace_set, namespaces_for,
  service_account_name, text_before,
}

-- The subject names the user: as a user, by one of the groups, or as a service account, whose
-- namespace is that of the binding where it gives none.
pub data Names (s : Subject) (binding_namespace username : String) (groups : List String)
    : Type 0 where
  as_user : s.kind ≡ "User" → s.name ≡ username → Names s binding_namespace username groups
  by_group :
      s.kind ≡ "Group" → elem s.name groups ≡ true → Names s binding_namespace username groups
  as_service_account :
      s.kind ≡ "ServiceAccount"
      → s.namespace ≢ ""
      → username ≡ service_account_name s.namespace s.name
      → Names s binding_namespace username groups
  as_local_service_account :
      s.kind ≡ "ServiceAccount"
      → s.namespace ≡ ""
      → username ≡ service_account_name binding_namespace s.name
      → Names s binding_namespace username groups

abbrev pub OneNames : List Subject → String → String → List String → Type 0
OneNames [] ns username groups = ⊥
OneNames (s ∷ ss) ns username groups = Names s ns username groups ⊎ OneNames ss ns username groups

-- One of the bindings is in the namespace and names the user.
abbrev pub Binds : List RoleBinding → String → String → List String → Type 0
Binds [] ns username groups = ⊥
Binds (rb ∷ rbs) ns username groups =
    ((rb.namespace ≡ ns) × OneNames rb.subjects ns username groups) ⊎ Binds rbs ns username groups

matches_one-Names :
    (s : Subject) (ns username : String) (groups : List String)
    → matches_one s ns username groups ≡ true
    → Names s ns username groups
unfolding matches_one
matches_one-Names s ns username groups h = elim (Bool-cases (str_eq s.kind "User")) [
  | inl u ↦ as_user (str_eq→eq s.kind "User" u) (str_eq→eq s.name username (ground arith))
  | inr nu ↦ elim (Bool-cases (str_eq s.kind "Group")) [
    | inl g ↦ by_group (str_eq→eq s.kind "Group" g) (ground arith)
    | inr ng ↦ elim (Bool-cases (str_eq s.kind "ServiceAccount")) [
      | inr na ↦ absurd (ground arith)
      | inl a ↦
          let account : str_eq
                (service_account_name (if str_eq s.namespace "" then ns else s.namespace) s.name)
                username
              ≡ true =
            ground arith in
          elim (Bool-cases (str_eq s.namespace "")) [
            | inl e ↦
                as_local_service_account (str_eq→eq s.kind "ServiceAccount" a)
                  (str_eq→eq s.namespace "" e)
                  (sym (str_eq→eq (service_account_name ns s.name) username (rw e at account)))
            | inr e ↦
                as_service_account (str_eq→eq s.kind "ServiceAccount" a) (str_ne s.namespace "" e) (
                  sym (
                    str_eq→eq (service_account_name s.namespace s.name) username (rw e at account)))
          ]
    ]
  ]
]

Names-matches_one :
    (s : Subject) (ns username : String) (groups : List String)
    → Names s ns username groups
    → matches_one s ns username groups ≡ true
unfolding matches_one
Names-matches_one s ns username groups (as_user k n) = rw (k, n) (ground (arith, eq_refl username))
Names-matches_one s ns username groups (by_group k g) = rw (k, g) (ground arith)
Names-matches_one s ns username groups (as_service_account k e n) =
    rw (k, n)
      (ground (arith, eq_refl (service_account_name s.namespace s.name), eq_iff s.namespace ""))
Names-matches_one s ns username groups (as_local_service_account k e n) =
    rw (k, e, n) (ground (arith, eq_refl (service_account_name ns s.name)))

matches_subject-OneNames :
    (ss : List Subject) (ns username : String) (groups : List String)
    → matches_subject ss ns username groups ≡ true
    → OneNames ss ns username groups
unfolding matches_subject
matches_subject-OneNames [] ns username groups h = absurd (ground arith)
matches_subject-OneNames (s ∷ ss) ns username groups h =
    elim (Bool-cases (matches_one s ns username groups)) [
      | inl m ↦ inl (matches_one-Names s ns username groups m)
      | inr m ↦ inr (matches_subject-OneNames ss ns username groups (ground arith))
    ]

matches_subject_named :
    (ss : List Subject) (ns username : String) (groups : List String)
    → OneNames ss ns username groups
    → matches_subject ss ns username groups ≡ true
unfolding matches_subject
matches_subject_named [] ns username groups h = absurd h
matches_subject_named (s ∷ ss) ns username groups (inl m) =
    ground (arith, Names-matches_one s ns username groups m)
matches_subject_named (s ∷ ss) ns username groups (inr m) =
    ground (arith, matches_subject_named ss ns username groups m)

namespace_set-Binds :
    (rbs : List RoleBinding) (ns username : String) (groups : List String)
    → elem ns (namespace_set rbs username groups) ≡ true
    → Binds rbs ns username groups
unfolding namespace_set
namespace_set-Binds [] ns username groups h = absurd (ground arith)
namespace_set-Binds (rb ∷ rbs) ns username groups h =
    elim (Bool-cases (elem ns (namespace_set rbs username groups))) [
      | inl e ↦ inr (namespace_set-Binds rbs ns username groups e)
      | inr e ↦ elim (Bool-cases (matches_subject rb.subjects rb.namespace username groups)) [
        | inr m ↦ absurd (ground arith)
        | inl m ↦
            let same : rb.namespace ≡ ns = sym (str_eq→eq ns rb.namespace (ground arith)) in
            inl (
              same,
              rw same at (matches_subject-OneNames rb.subjects rb.namespace username groups m),
            )
      ]
    ]

namespace_set_bound :
    (rbs : List RoleBinding) (ns username : String) (groups : List String)
    → Binds rbs ns username groups
    → elem ns (namespace_set rbs username groups) ≡ true
unfolding namespace_set
namespace_set_bound [] ns username groups b = absurd b
namespace_set_bound (rb ∷ rbs) ns username groups (inl (same, m)) =
    let found = matches_subject_named rb.subjects rb.namespace username groups (rw same m) in
    ground (
      arith,
      found,
      same,
      eq_iff ns rb.namespace,
      ap (λ k. elem k (namespace_set rbs username groups)) same,
    )
namespace_set_bound (rb ∷ rbs) ns username groups (inr b) =
    ground (arith, namespace_set_bound rbs ns username groups b)

namespace_set-Distinct :
    (rbs : List RoleBinding) (username : String) (groups : List String)
    → Distinct (namespace_set rbs username groups)
unfolding namespace_set
namespace_set-Distinct [] username groups = tt
namespace_set-Distinct (rb ∷ rbs) username groups =
    ground (arith, namespace_set-Distinct rbs username groups)

map_id : (ns : List String) → map (λ (n : String). n) ns ≡ ns
map_id [] = refl
map_id (n ∷ ns) = λ i. n ∷ map_id ns i

-- The namespaces that a synced resolver answers with.
pub record IsExact (rbs : List RoleBinding) (username : String) (groups : List String)
    (answer : List String) : Type 0 where
  pub once : Distinct answer
  pub bound : (ns : String) → (elem ns answer ≡ true) ↔ Binds rbs ns username groups

-- Once the cache has synced, the answer lists exactly the namespaces that hold a RoleBinding which
-- names the user, by name, by a group or as a service account, each once.
pub namespaces_for-IsExact :
    (r : Resolver) (rbs : List RoleBinding) (username : String) (groups answer : List String)
    → namespaces_for r (some rbs) username groups ≡ some answer
    → IsExact rbs username groups answer
unfolding namespaces_for
namespaces_for-IsExact r rbs username groups answer h =
    let set = namespace_set rbs username groups in
    let sorted = sort_by text_before set in
    let same : sorted ≡ answer = ground arith in
    let id_sorted = map_id sorted in
    let id_set = map_id set in
    let kept : (k : String)
        → elem k (map (λ (n : String). n) sorted) ≡ elem k (map (λ (n : String). n) set) =
      λ k. elem-sort_by text_before (λ n. n) k set in
    let once : Distinct (map (λ (n : String). n) sorted) =
      Distinct-sort_by text_before (λ n. n) set
        (rw id_set (namespace_set-Distinct rbs username groups)) in
    subst (IsExact rbs username groups) same (record {
      once = rw id_sorted at once;
      bound = λ ns. (
        λ e.
            namespace_set-Binds rbs ns username groups
              (ground (arith, kept ns, ap (elem ns) id_sorted, ap (elem ns) id_set)),
        λ b. ground (
          arith,
          namespace_set_bound rbs ns username groups b,
          kept ns,
          ap (elem ns) id_sorted,
          ap (elem ns) id_set,
        ),
      );
    })
