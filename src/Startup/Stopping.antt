-- ===== src/Startup/Stopping.antt =====
-- The start of the process stops for a reason (cmd/server/main.go: run).
use antrea_ui.Base.{
  ◌≡◌, refl, inl, inr, true, false, ◌||◌, Option, none, some, ℕ, String, arith, ap, ◌∙◌, subst,
  str_eq, Bool-cases, str_ne, str_eq→eq,
}
use antrea_ui.Authn.Types.{Net}
use antrea_ui.Password.Secret.{Cluster}
use antrea_ui.AntreaSvc.Factory.{Rest}
use antrea_ui.Settings.Types as SettingsTypes
use antrea_ui.Startup.Steps.{StartupError, goes, stops, and_then-stops, require-stops}
use antrea_ui.Startup.Tls.{
  ConfigMapAnswer, TlsConfig, flow_tls, ca_data, build_flow_aggregator_tls_config, with_pool,
  certificate_of, ca_data-named,
}
use antrea_ui.Startup.Run.{Environment, dialled, flow_step}
use antrea_ui.Startup.Reasons.{Reason, aggregator_answer, AggregatorNamed}

module _ (rest : Rest) (k : Cluster) (net : Net) (env : Environment rest k)
    (c : SettingsTypes.Config) where
  abbrev Why : StartupError → Type 0
  Why e = Reason rest k net env c e

  certificate_of-stops :
      (a : ConfigMapAnswer) (e : StartupError)
      → AggregatorNamed rest k net env c
      → aggregator_answer rest k net env c ≡ a
      → certificate_of a ≡ stops e
      → Why e
  certificate_of-stops ConfigMapAnswer.not_got e n a h =
      let x : StartupError.no_ca_config_map ≡ e = cc in subst Why x (n, a)
  certificate_of-stops (ConfigMapAnswer.got none) e n a h =
      let x : StartupError.no_ca_certificate ≡ e = cc in subst Why x (n, inl a)
  certificate_of-stops (ConfigMapAnswer.got (some ca)) e n a h = elim (Bool-cases (str_eq ca "")) [
    | inl empty ↦
        let x : StartupError.no_ca_certificate ≡ e = ground (arith, h, empty) in
        let nothing : ca ≡ "" = str_eq→eq ca "" empty in
        subst Why x (n, inr (a ∙ ap (λ s. ConfigMapAnswer.got (some s)) nothing))
    | inr full ↦ absurd (ground (arith, h, full))
  ]

  certificate_of-goes :
      (a : ConfigMapAnswer) (ca : String)
      → certificate_of a ≡ goes ca
      → a ≡ ConfigMapAnswer.got (some ca)
  certificate_of-goes ConfigMapAnswer.not_got ca h = cc
  certificate_of-goes (ConfigMapAnswer.got none) ca h = cc
  certificate_of-goes (ConfigMapAnswer.got (some x)) ca h = elim (Bool-cases (str_eq x "")) [
    | inl empty ↦ absurd (ground (arith, h, empty))
    | inr full ↦ ground (arith, h, full)
  ]

  ca_data-stops :
      (e : StartupError)
      → c.flow_aggregator.enabled ≡ true
      → ca_data env.certificates c.flow_aggregator ≡ stops e
      → Why e
  unfolding ca_data
  ca_data-stops e on h = elim (Bool-cases (str_eq c.flow_aggregator.ca_config_map "")) [
    | inl unnamed ↦ absurd (ground (arith, h, unnamed))
    | inr named ↦
        certificate_of-stops (aggregator_answer rest k net env c) e
          (on, str_ne c.flow_aggregator.ca_config_map "" named) refl (ground (arith, h, named))
  ]

  with_pool-stops :
      (ca : String) (o : Option ℕ) (e : StartupError)
      → AggregatorNamed rest k net env c
      → aggregator_answer rest k net env c ≡ ConfigMapAnswer.got (some ca)
      → env.certificates.parse_pool ca ≡ o
      → with_pool c.flow_aggregator o ≡ stops e
      → Why e
  with_pool-stops ca none e n a p h =
      let x : StartupError.invalid_ca_certificate ≡ e = cc in subst Why x (n, ca, a, p)
  with_pool-stops ca (some pool) e n a p h = cc

  build-stops :
      (ca : String) (e : StartupError)
      → c.flow_aggregator.enabled ≡ true
      → ca_data env.certificates c.flow_aggregator ≡ goes ca
      → build_flow_aggregator_tls_config env.certificates c.flow_aggregator ca ≡ stops e
      → Why e
  unfolding build_flow_aggregator_tls_config ca_data
  build-stops ca e on d h =
      elim (Bool-cases (c.flow_aggregator.insecure_skip_verify || str_eq ca "")) [
        | inl unverified ↦ absurd (ground (arith, h, unverified))
        | inr verified ↦
            let full : str_eq ca "" ≡ false = ground (arith, verified) in
            let named = ca_data-named env.certificates c.flow_aggregator ca d ∙ full in
            with_pool-stops ca (env.certificates.parse_pool ca) e
              (on, str_ne c.flow_aggregator.ca_config_map "" named)
              (certificate_of-goes (aggregator_answer rest k net env c) ca
                (ground (arith, d, named)))
              refl (ground (arith, h, verified))
      ]

  pub flow_step-stops :
      (e : StartupError)
      → c.flow_aggregator.enabled ≡ true
      → flow_step rest k env c.flow_aggregator ≡ stops e
      → Why e
  unfolding flow_step flow_tls
  flow_step-stops e on h =
      elim (and_then-stops (flow_tls env.certificates c.flow_aggregator)
        (λ (t : TlsConfig). dialled rest k env t) h) [
          | inl s ↦
              elim (and_then-stops (ca_data env.certificates c.flow_aggregator)
                (λ (ca : String).
                  build_flow_aggregator_tls_config env.certificates c.flow_aggregator ca)
                s) [ inl d ↦ ca_data-stops e on d | inr q ↦ build-stops q.0 e on q.1 q.2 ]
          | inr q ↦ elim (require-stops (env.dial q.0) StartupError.no_flow_client (goes q.0) q.2) [
            | inl x ↦ subst Why x.1 (on, q.0, q.1, x.0)
            | inr x ↦ cc
          ]
        ]
