-- ===== src/Access/Summary.antt =====
-- pkg/server/api/access.go: the access summary, from the API server's reviews of the user.
use antrea_ui.Base.{
  String, Bool, true, false, ◌&&◌, not, Option, none, some, List, [], ◌∷◌, str_eq, if◌then◌else◌,
}
use antrea_ui.Session.Types.{Store}
use antrea_ui.Session.Store.{is_admin}
use antrea_ui.Authn.Types.{RequestAuth}
use antrea_ui.Upstream.Errors.{ApiFailure, Reply, plain, k8s_error}
use antrea_ui.Access.Resolver.{
  Resolver, Cache, probe_namespace, namespaces_for, cluster_scope_probe_usable,
}

-- The answer of one review.
pub data Review {ℓ} (A : Type ℓ) : Type ℓ where
  got : A → Review A
  failed : ApiFailure → Review A

pub record Identity : Type 0 where
  pub username : String
  pub groups : List String

-- The rules, each by a text, and whether the API server calls them incomplete.
pub record Rules : Type 0 where
  pub rules : List String
  pub incomplete : Bool

-- What the API server answers to the user's client, if that can be built: the identity, the rules in
-- a namespace, and whether everything, or the list of namespaces, is allowed.
pub record Reviews : Type 0 where
  pub client : Bool
  pub identity : Review Identity
  pub rules_in : String → Review Rules
  pub all_allowed : Review Bool
  pub list_allowed : Review Bool

pub record AccessSummary : Type 0 where
  pub namespace : String
  pub username : String
  pub groups : List String
  pub rules : Rules
  pub cluster_admin : Bool
  pub namespaces : List String

pub data Outcome : Type 0 where
  summary : AccessSummary → Outcome
  problem : Reply → Outcome

-- The request: the identity that the middleware has resolved, and the namespace, or "".
pub record Query : Type 0 where
  pub auth : Option RequestAuth
  pub namespace : String

abbrev pub is_admin_request : Option RequestAuth → Bool
is_admin_request none = false
is_admin_request (some ra) = is_admin ra.mode

abbrev pub rules_namespace : String → String
rules_namespace ns = if str_eq ns "" then probe_namespace else ns

-- The rules are marked incomplete where the probe namespace is not usable.
abbrev pub marked : Resolver → String → Rules → Rules
marked r ns rules =
    if str_eq ns "" && not (cluster_scope_probe_usable r)
    then record rules { incomplete = true }
    else rules

-- `valid_label` is the API library's test of a DNS label.
module _ (valid_label : String → Bool) (q : Query) (rev : Reviews) (r : Resolver) (cache : Cache)
    (st : Store) where
  abbrev pub call_failed : ApiFailure → Outcome
  call_failed f = problem (k8s_error q.auth f st)

  unfoldable pub resolve_namespaces : Identity → Option (List String)
  unfolding namespaces_for
  resolve_namespaces who = namespaces_for r cache who.username who.groups

  abbrev pub finished : Identity → Rules → Bool → List String → Outcome
  finished who rules admin namespaces = summary (record {
    namespace = q.namespace;
    username = who.username;
    groups = who.groups;
    rules = marked r q.namespace rules;
    cluster_admin = admin;
    namespaces = namespaces;
  })

  unfoldable pub namespaces_step : Identity → Rules → Bool → Outcome
  unfolding resolve_namespaces
  namespaces_step who rules admin =
      if is_admin_request q.auth
      then finished who rules admin ("*" ∷ [])
      else elim rev.list_allowed [
        | failed f ↦ call_failed f
        | got allowed ↦
            if allowed then finished who rules admin ("*" ∷ []) else elim (resolve_namespaces who) [
              | none ↦ problem (
                  plain (record { code = 503; message = some "namespace discovery is not ready" })
                    st)
              | some namespaces ↦ finished who rules admin namespaces
            ]
      ]

  unfoldable pub reviews_step : Outcome
  unfolding namespaces_step
  reviews_step = elim rev.identity [
    | failed f ↦ call_failed f
    | got who ↦ elim (rev.rules_in (rules_namespace q.namespace)) [
      | failed f ↦ call_failed f
      | got rules ↦ elim rev.all_allowed [
        | failed f ↦ call_failed f
        | got admin ↦ namespaces_step who rules admin
      ]
    ]
  ]

  unfoldable pub get_access_summary : Outcome
  unfolding reviews_step
  get_access_summary =
      if not (str_eq q.namespace "") && not (valid_label q.namespace)
      then problem (plain (record { code = 400; message = some "invalid namespace" }) st)
      else if not rev.client
      then problem (plain (record { code = 500; message = none }) st)
      else reviews_step
