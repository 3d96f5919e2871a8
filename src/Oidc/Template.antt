-- ===== src/Oidc/Template.antt =====
-- pkg/server/utils/template/template.go: texts with variables in double braces. The two regular
-- expressions are a parameter.
use antrea_ui.Base.{
  String, Bool, true, ◌&&◌, not, Option, none, some, List, [], ◌∷◌, if◌then◌else◌, is_none, ◌>>=◌,
  elem, Table, lookup,
}

-- What the code asks of `regexp`: the template with blanks inside braces removed, the names of the
-- variables of a template in order, and the template with each variable replaced.
pub record Regexps : Type 0 where
  pub normalize : String → String
  pub matches : String → List String
  pub replace_all : String → (String → String) → String

pub record Template : Type 0 where
  pub tpl : String
  pub required_vars : List String

-- The loop over the matches: `none` at a variable that is not supported.
unfoldable pub collect_vars : List String → List String → Option (List String)
collect_vars supported [] = some []
collect_vars supported (v ∷ vs) =
    let rest = collect_vars supported vs in
    if elem v supported then (rest >>= λ more. some (v ∷ more)) else none

abbrev pub value_of : Table String → String → String
value_of values v = elim (lookup v values) [ none ↦ "" | some x ↦ x ]

unfoldable pub has_all : Table String → List String → Bool
has_all values [] = true
has_all values (v ∷ vs) = not (is_none (lookup v values)) && has_all values vs

module _ (re : Regexps) where
  unfoldable pub new_template : String → List String → Option Template
  unfolding collect_vars
  new_template tpl supported =
      let normalized = re.normalize tpl in
      collect_vars supported (re.matches normalized) >>= λ vars.
      some (record { tpl = normalized; required_vars = vars })

  unfoldable pub replace : Template → Table String → Option String
  unfolding has_all
  replace t values =
      if has_all values t.required_vars then some (re.replace_all t.tpl (value_of values)) else none
