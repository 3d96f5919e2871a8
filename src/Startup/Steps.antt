-- ===== src/Startup/Steps.antt =====
-- Steps that stop the start of the process with an error, or go on with a value.
use antrea_ui.Base.{Bool, true, false, ◌≡◌, refl, Option, none, some, arith, ◌⊎◌, inl, inr}

pub data StartupError : Type 0 where
  no_clients invalid_host no_admin_client no_client_factory no_clientset : StartupError
  no_antrea_handler no_password no_provider provider_not_ready : StartupError
  no_ca_config_map no_ca_certificate invalid_ca_certificate no_flow_client : StartupError
  no_validator no_bearer_validator invalid_server_url : StartupError

pub data Step {ℓ} (A : Type ℓ) : Type ℓ where
  goes : A → Step A
  stops : StartupError → Step A

-- The rest runs where the step goes on.
abbrev pub and_then {ℓ κ} : {A : Type ℓ} {B : Type κ} → Step A → (A → Step B) → Step B
and_then (goes a) rest = rest a
and_then (stops e) rest = stops e

abbrev pub require {ℓ} : {A : Type ℓ} → Bool → StartupError → Step A → Step A
require true e rest = rest
require false e rest = stops e

-- A step that runs only where its feature is on; with what it finds, or nothing.
abbrev pub attempt {ℓ} : {A : Type ℓ} → Bool → Step A → Step (Option A)
attempt false s = goes none
attempt true (goes a) = goes (some a)
attempt true (stops e) = stops e

abbrev pub or_stop {ℓ} : {A : Type ℓ} → StartupError → Option A → Step A
or_stop e none = stops e
or_stop e (some a) = goes a

abbrev pub has_some {ℓ} : {A : Type ℓ} → Option A → Bool
has_some none = false
has_some (some a) = true

pub and_then-goes {ℓ κ} :
    {A : Type ℓ} {B : Type κ} (s : Step A) (rest : A → Step B) {b : B}
    → and_then s rest ≡ goes b
    → (a : A) × (s ≡ goes a) × (rest a ≡ goes b)
and_then-goes (goes a) rest h = (a, refl, h)
and_then-goes (stops e) rest h = cc

pub require-goes {ℓ} :
    {A : Type ℓ} (b : Bool) (e : StartupError) (rest : Step A) {a : A}
    → require b e rest ≡ goes a
    → (b ≡ true) × (rest ≡ goes a)
require-goes true e rest h = (refl, h)
require-goes false e rest h = cc

pub attempt-goes {ℓ} :
    {A : Type ℓ} (on : Bool) (s : Step A) (o : Option A)
    → attempt on s ≡ goes o
    → (has_some o ≡ on) × ((a : A) → o ≡ some a → s ≡ goes a)
attempt-goes false s none h = (refl, λ a e. absurd (ground (arith, e)))
attempt-goes false s (some a) h = cc
attempt-goes true (goes b) none h = cc
attempt-goes true (goes b) (some a) h = (refl, λ c e. cc)
attempt-goes true (stops e) o h = cc

pub or_stop-goes {ℓ} :
    {A : Type ℓ} (e : StartupError) (o : Option A) {a : A} → or_stop e o ≡ goes a → o ≡ some a
or_stop-goes e none h = cc
or_stop-goes e (some b) h = cc

pub goes-injective {ℓ} : {A : Type ℓ} {a b : A} → Step.goes a ≡ goes b → a ≡ b
goes-injective h = cc

pub and_then-stops {ℓ κ} :
    {A : Type ℓ} {B : Type κ} (s : Step A) (rest : A → Step B) {e : StartupError}
    → and_then s rest ≡ stops e
    → (s ≡ stops e) ⊎ ((a : A) × (s ≡ goes a) × (rest a ≡ stops e))
and_then-stops (goes a) rest h = inr (a, refl, h)
and_then-stops (stops x) rest h = inl cc

pub require-stops {ℓ} :
    {A : Type ℓ} (b : Bool) (x : StartupError) (rest : Step A) {e : StartupError}
    → require b x rest ≡ stops e
    → ((b ≡ false) × (x ≡ e)) ⊎ (rest ≡ stops e)
require-stops true x rest h = inr h
require-stops false x rest h = inl (refl, cc)

pub attempt-stops {ℓ} :
    {A : Type ℓ} (on : Bool) (s : Step A) {e : StartupError}
    → attempt on s ≡ stops e
    → (on ≡ true) × (s ≡ stops e)
attempt-stops false s h = cc
attempt-stops true (goes a) h = cc
attempt-stops true (stops x) h = (refl, cc)

pub or_stop-stops {ℓ} :
    {A : Type ℓ} (x : StartupError) (o : Option A) {e : StartupError}
    → or_stop x o ≡ stops e
    → (o ≡ none) × (x ≡ e)
or_stop-stops x none h = (refl, cc)
or_stop-stops x (some a) h = cc
