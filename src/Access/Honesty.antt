-- ===== src/Access/Honesty.antt =====
-- A summary holds answers only (pkg/server/api/access.go: GetAccessSummary).
use antrea_ui.Upstream.Errors.{ApiFailure}
use antrea_ui.Base.{
  String, ◌≡◌, refl, ◌⊎◌, inl, inr, Bool, true, false, some, List, [], ◌∷◌, Bool-cases, subst,
  arith, str_eq, Option-cases, str_eq→eq, ◌≢◌, ◌↔◌,
}
use antrea_ui.Session.Types.{Store}
use antrea_ui.Access.Resolver.{cluster_scope_probe_usable, Resolver, Cache, namespaces_for}
use antrea_ui.Access.Summary.{
  Review, got, failed, Identity, Rules, Reviews, AccessSummary, summary, Query, is_admin_request,
  rules_namespace, marked, finished, resolve_namespaces, namespaces_step, reviews_step,
  get_access_summary,
}

Review-cases {ℓ} :
    {A : Type ℓ} (v : Review A) → ((a : A) × (v ≡ got a)) ⊎ ((f : ApiFailure) × (v ≡ failed f))
Review-cases (got a) = inl (a, refl)
Review-cases (failed f) = inr (f, refl)

rules_namespace_there : (ns : String) → ns ≢ "" → rules_namespace ns ≡ ns
rules_namespace_there ns ne = elim (Bool-cases (str_eq ns "")) [
  | inl e ↦ absurd (ne (str_eq→eq ns "" e))
  | inr e ↦ rw e refl
]

rules_namespace_probe :
    (ns : String) → ns ≡ "" → rules_namespace ns ≡ "antrea-ui-cluster-scope-probe"
rules_namespace_probe ns e = rw e refl

rules-marked :
    (r : Resolver) (ns : String) (rules : Rules) → (marked r ns rules).rules ≡ rules.rules
rules-marked r ns rules = ground arith

incomplete-marked :
    (r : Resolver) (ns : String) (rules : Rules)
    → ((marked r ns rules).incomplete ≡ true)
      ↔ ((rules.incomplete ≡ true) ⊎ ((ns ≡ "") × (r.synced ≡ true) × (r.probe_usable ≡ false)))
unfolding cluster_scope_probe_usable
incomplete-marked r ns rules = (
  λ h. elim (Bool-cases rules.incomplete) [
    | inl i ↦ inl i
    | inr i ↦ inr (str_eq→eq ns "" (ground arith), ground arith, ground arith)
  ],
  λ s. elim s [ inl i ↦ ground arith | inr (e, y, u) ↦ rw (e, y, u) refl ],
)

module _ (valid_label : String → Bool) (q : Query) (rev : Reviews) (r : Resolver) (cache : Cache)
    (st : Store) where
  -- Where the list of namespaces comes from.
  pub data Visible (who : Identity) (namespaces : List String) : Type 0 where
    admin_sees_all : is_admin_request q.auth ≡ true → namespaces ≡ "*" ∷ [] → Visible who namespaces
    lists_all : rev.list_allowed ≡ got true → namespaces ≡ "*" ∷ [] → Visible who namespaces
    by_bindings :
        rev.list_allowed ≡ got false
        → namespaces_for r cache who.username who.groups ≡ some namespaces
        → Visible who namespaces

  pub record IsHonest (s : AccessSummary) : Type 0 where
    pub valid_namespace : (q.namespace ≡ "") ⊎ (valid_label q.namespace ≡ true)
    pub same_namespace : s.namespace ≡ q.namespace
    pub who : Identity
    pub identified : rev.identity ≡ got who
    pub same_username : s.username ≡ who.username
    pub same_groups : s.groups ≡ who.groups
    pub rules : Rules
    pub ruled_there : q.namespace ≢ "" → rev.rules_in q.namespace ≡ got rules
    pub ruled_at_probe : q.namespace ≡ "" → rev.rules_in "antrea-ui-cluster-scope-probe" ≡ got rules
    pub same_rules : s.rules.rules ≡ rules.rules
    pub is_incomplete : (s.rules.incomplete ≡ true) ↔ (
        (rules.incomplete ≡ true)
        ⊎ ((q.namespace ≡ "") × (r.synced ≡ true) × (r.probe_usable ≡ false)))
    pub admin_reviewed : rev.all_allowed ≡ got s.cluster_admin
    pub visible : Visible who s.namespaces

  abbrev Finished : Identity → Rules → Bool → AccessSummary → Type 0
  Finished who rules admin s =
      (namespaces : List String) × Visible who namespaces
      × (finished valid_label q rev r cache st who rules admin namespaces ≡ summary s)

  namespaces_step-Finished :
      (who : Identity) (rules : Rules) (admin : Bool) (s : AccessSummary)
      → namespaces_step valid_label q rev r cache st who rules admin ≡ summary s
      → Finished who rules admin s
  unfolding namespaces_step resolve_namespaces
  namespaces_step-Finished who rules admin s h = elim (Bool-cases (is_admin_request q.auth)) [
    | inl a ↦ ("*" ∷ [], admin_sees_all a refl, ground arith)
    | inr a ↦ elim (Review-cases rev.list_allowed) [
      | inr (f, e) ↦ absurd (ground arith)
      | inl (allowed, e) ↦ elim (Bool-cases allowed) [
        | inl y ↦ ("*" ∷ [], lists_all (ground arith) refl, ground arith)
        | inr n ↦ elim (Option-cases (namespaces_for r cache who.username who.groups)) [
          | inl m ↦ absurd (ground arith)
          | inr (namespaces, m) ↦ (namespaces, by_bindings (ground arith) m, ground arith)
        ]
      ]
    ]
  ]

  reviews_step-IsHonest :
      (s : AccessSummary)
      → (q.namespace ≡ "") ⊎ (valid_label q.namespace ≡ true)
      → reviews_step valid_label q rev r cache st ≡ summary s
      → IsHonest s
  unfolding reviews_step
  reviews_step-IsHonest s v h = elim (Review-cases rev.identity) [
    | inr (f, e) ↦ absurd (ground arith)
    | inl (who, e) ↦ elim (Review-cases (rev.rules_in (rules_namespace q.namespace))) [
      | inr (f, g) ↦ absurd (ground arith)
      | inl (rules, g) ↦ elim (Review-cases rev.all_allowed) [
        | inr (f, k) ↦ absurd (ground arith)
        | inl (admin, k) ↦
            honest who rules admin e g k (namespaces_step-Finished who rules admin s (ground arith))
      ]
    ]
  ]
    where
      honest :
          (who : Identity) (rules : Rules) (admin : Bool)
          → rev.identity ≡ got who
          → rev.rules_in (rules_namespace q.namespace) ≡ got rules
          → rev.all_allowed ≡ got admin
          → Finished who rules admin s
          → IsHonest s
      honest who rules admin e g k (namespaces, seen, f) =
          let same : record {
            namespace = q.namespace;
            username = who.username;
            groups = who.groups;
            rules = marked r q.namespace rules;
            cluster_admin = admin;
            namespaces = namespaces;
          }
              ≡ s =
            ground arith in
          subst IsHonest same (record {
            valid_namespace = v;
            same_namespace = refl;
            who = who;
            identified = e;
            same_username = refl;
            same_groups = refl;
            rules = rules;
            ruled_there = λ ne. rw (rules_namespace_there q.namespace ne) at g;
            ruled_at_probe = λ e. rw (rules_namespace_probe q.namespace e) at g;
            same_rules = rules-marked r q.namespace rules;
            is_incomplete = incomplete-marked r q.namespace rules;
            admin_reviewed = k;
            visible = seen;
          })

  -- A summary is answered only when every field of it is an answer. The namespace asked about is none
  -- or a valid label. The identity, the rules and the verdict on cluster-admin are what the API server
  -- has answered to the user's own client. The rules are those of the namespace asked about, or of
  -- the probe namespace where none is; and they are marked incomplete just when the API server calls
  -- them so, or no namespace is asked about and the synced resolver has found the probe namespace
  -- not usable. The namespaces are all of them for the admin and for a
  -- user who may list them, and otherwise those that the resolver has found.
  pub get_access_summary-IsHonest :
      (s : AccessSummary) → get_access_summary valid_label q rev r cache st ≡ summary s → IsHonest s
  unfolding get_access_summary
  get_access_summary-IsHonest s h = elim (Bool-cases (str_eq q.namespace "")) [
    | inl e ↦ elim (Bool-cases rev.client) [
      | inr c ↦ absurd (ground arith)
      | inl c ↦ reviews_step-IsHonest s (inl (str_eq→eq q.namespace "" e)) (ground arith)
    ]
    | inr e ↦ elim (Bool-cases (valid_label q.namespace)) [
      | inr v ↦ absurd (ground arith)
      | inl v ↦ elim (Bool-cases rev.client) [
        | inr c ↦ absurd (ground arith)
        | inl c ↦ reviews_step-IsHonest s (inr v) (ground arith)
      ]
    ]
  ]
