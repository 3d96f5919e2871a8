-- ===== src/Oidc/Laws/Templates.antt =====
-- The template of the logout URL: what was accepted at the start can be filled in at a logout.
use antrea_ui.Base.{
  String, ◌≡◌, refl, inl, inr, true, some, List, [], ◌∷◌, arith, Bool-cases, Option-cases, All,
  elem, Table, keys, false, Option, eq_iff, is_none, ◌>>=◌, Bytes, lookup,
}
use antrea_ui.Authn.Types.{Net}
use antrea_ui.Oidc.Template.{
  value_of, Regexps, Template, collect_vars, has_all, new_template, replace,
}
use antrea_ui.Oidc.Provider.{
  Urls, OidcProvider, ProviderConfig, new_oidc_provider, build_logout_url, logout_inputs,
  logout_vars,
}

-- Every variable that `New` accepts is a supported one.
collect_vars-supported :
    (supported ms vars : List String)
    → collect_vars supported ms ≡ some vars
    → All (λ v. elem v supported ≡ true) vars
unfolding collect_vars
collect_vars-supported supported [] vars e = ground arith
collect_vars-supported supported (m ∷ ms) vars e = elim (Bool-cases (elem m supported)) [
  | inr other ↦ absurd (ground arith)
  | inl in_list ↦ elim (Option-cases (collect_vars supported ms)) [
    | inl n ↦ absurd (ground arith)
    | inr (more, n) ↦
        let vars_is : m ∷ more ≡ vars = ground arith in
        rw (← vars_is) (in_list, collect_vars-supported supported ms more n)
  ]
]

lookup-elem :
    (v : String) (t : Table String) → elem v (keys t) ≡ true → is_none (lookup v t) ≡ false
unfolding lookup
lookup-elem v [] e = absurd (ground arith)
lookup-elem v ((k, x) ∷ t) e = ground (arith, lookup-elem v t, eq_iff v k, eq_iff k v)

has_all-supported :
    (values : Table String) (vars : List String)
    → All (λ v. elem v (keys values) ≡ true) vars
    → has_all values vars ≡ true
unfolding has_all
has_all-supported values [] a = refl
has_all-supported values (v ∷ vars) a =
    rw (lookup-elem v values a.0) (has_all-supported values vars a.1)

module _ (net : Net) (urls : Urls) (re : Regexps) where
  new_template-supported :
      (tpl : String) (t : Template)
      → new_template re tpl logout_vars ≡ some t
      → All (λ v. elem v logout_vars ≡ true) t.required_vars
  unfolding new_template
  new_template-supported tpl t e =
      let ms = re.matches (re.normalize tpl) in
      elim (Option-cases (collect_vars logout_vars ms)) [
        | inl n ↦ absurd (ground arith)
        | inr (vars, n) ↦
            let t_is : vars ≡ t.required_vars = ground arith in
            rw (← t_is) (collect_vars-supported logout_vars ms vars n)
      ]

  provider-supported :
      (random : Option Bytes) (c : ProviderConfig) (p : OidcProvider)
      → new_oidc_provider net urls re random c ≡ some p
      → All (λ v. elem v logout_vars ≡ true) p.logout_url_template.required_vars
  unfolding new_oidc_provider
  provider-supported random c p e = elim (Option-cases (net.parse_url c.server_url)) [
    | inl n ↦ absurd (ground arith)
    | inr (u, n) ↦ elim (Option-cases random) [
      | inl m ↦ absurd (ground arith)
      | inr (secret, m) ↦ elim (Option-cases (new_template re c.logout_url_template logout_vars)) [
        | inl k ↦ absurd (ground arith)
        | inr (t, k) ↦
            let t_is : t ≡ p.logout_url_template = ground arith in
            rw (← t_is) (new_template-supported c.logout_url_template t k)
      ]
    ]
  ]

  -- A provider that could be set up can build its logout URL for any token: no variable of its
  -- template is missing, so the only way to fail is that the filled-in template is no URL.
  pub build_logout_url-Fills :
      (random : Option Bytes) (c : ProviderConfig) (p : OidcProvider) (id_token : Bytes)
      → new_oidc_provider net urls re random c ≡ some p
      → build_logout_url net urls re p id_token ≡ (
          net.parse_url (
            re.replace_all p.logout_url_template.tpl
              (value_of (logout_inputs net urls re p id_token)))
          >>= λ u. some (
              re.replace_all p.logout_url_template.tpl
                (value_of (logout_inputs net urls re p id_token))))
  unfolding build_logout_url replace
  build_logout_url-Fills random c p id_token e =
      rw
        (has_all-supported (logout_inputs net urls re p id_token)
          p.logout_url_template.required_vars (provider-supported random c p e))
        refl
