-- ===== src/Startup/Clients.antt =====
-- The clients of Kubernetes that the process has of its own (pkg/k8s/client.go).
use antrea_ui.Base.{ℕ, String, ◌≡◌, refl, Bool, true, false, Option, none, some, if◌then◌else◌}
use antrea_ui.AntreaSvc.Factory.{Rest}
use antrea_ui.Startup.Steps.{has_some}

-- The configurations that the client library finds in a pod and in a kubeconfig, and what it makes
-- of one: the transport of an HTTP client, and whether a dynamic client can be built over it.
pub record ClientLibrary (rest : Rest) : Type 0 where
  pub in_cluster_config : Option rest.Conf
  pub kubeconfig : Option rest.Conf
  pub http_client : rest.Conf → Option ℕ
  pub dynamic_client : rest.Conf → ℕ → Bool

-- `service_host` is the variable KUBERNETES_SERVICE_HOST, if it is set.
unfoldable pub rest_config : {rest : Rest} → ClientLibrary rest → Option String → Option rest.Conf
rest_config lib service_host =
    if has_some service_host then lib.in_cluster_config else lib.kubeconfig

abbrev pub over_transport : {A : Type 0} → Bool → A → Option A
over_transport true a = some a
over_transport false a = none

abbrev pub client_with :
    {rest : Rest} → ClientLibrary rest → rest.Conf → Option ℕ → Option (rest.Conf × ℕ)
client_with lib config none = none
client_with lib config (some transport) =
    over_transport (lib.dynamic_client config transport) (config, transport)

abbrev pub client_of :
    {rest : Rest} → ClientLibrary rest → Option rest.Conf → Option (rest.Conf × ℕ)
client_of lib none = none
client_of lib (some config) = client_with lib config (lib.http_client config)

unfoldable pub client : {rest : Rest} → ClientLibrary rest → Option String → Option (rest.Conf × ℕ)
unfolding rest_config
client lib service_host = client_of lib (rest_config lib service_host)

-- The transport that acts as a user.
unfoldable pub impersonated_client :
    {rest : Rest} → ClientLibrary rest → rest.Conf → ℕ → String → Option ℕ
impersonated_client {rest} lib config base_transport user_name =
    let transport = rest.impersonating user_name base_transport in
    over_transport (lib.dynamic_client config transport) transport

-- Why there are no clients.
pub data HasNoClients {rest : Rest} (lib : ClientLibrary rest) (service_host : Option String)
    : Type 0 where
  no_config : rest_config lib service_host ≡ none → HasNoClients lib service_host
  no_http_client :
      (config : rest.Conf)
      → rest_config lib service_host ≡ some config
      → lib.http_client config ≡ none
      → HasNoClients lib service_host
  no_dynamic_client :
      (config : rest.Conf) (transport : ℕ)
      → lib.http_client config ≡ some transport
      → lib.dynamic_client config transport ≡ false
      → HasNoClients lib service_host

pub over_transport-none : {A : Type 0} → (b : Bool) (a : A) → over_transport b a ≡ none → b ≡ false
over_transport-none true a h = cc
over_transport-none false a h = refl

pub impersonated_client-none :
    {rest : Rest} (lib : ClientLibrary rest) (config : rest.Conf) (base_transport : ℕ)
    (user_name : String)
    → impersonated_client lib config base_transport user_name ≡ none
    → lib.dynamic_client config (rest.impersonating user_name base_transport) ≡ false
unfolding impersonated_client
impersonated_client-none lib config base_transport user_name h = over_transport-none _ _ h

module _ {rest : Rest} (lib : ClientLibrary rest) (service_host : Option String) where
  dynamic-HasNoClients :
      (config : rest.Conf) (o : Option ℕ)
      → rest_config lib service_host ≡ some config
      → lib.http_client config ≡ o
      → client_with lib config o ≡ none
      → HasNoClients lib service_host
  dynamic-HasNoClients config none r t h = no_http_client config r t
  dynamic-HasNoClients config (some transport) r t h =
      no_dynamic_client config transport t
        (over_transport-none (lib.dynamic_client config transport) (config, transport) h)

  config-HasNoClients :
      (o : Option rest.Conf)
      → rest_config lib service_host ≡ o
      → client_of lib o ≡ none
      → HasNoClients lib service_host
  config-HasNoClients none r h = no_config r
  config-HasNoClients (some config) r h =
      dynamic-HasNoClients config (lib.http_client config) r refl h

  pub client-HasNoClients : client lib service_host ≡ none → HasNoClients lib service_host
  unfolding client
  client-HasNoClients h = config-HasNoClients (rest_config lib service_host) refl h
