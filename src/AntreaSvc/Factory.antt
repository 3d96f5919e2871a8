-- ===== src/AntreaSvc/Factory.antt =====
-- pkg/k8s/factory.go: the transports that act as a user, one kind for each kind of credential.
use antrea_ui.Base.{ℕ, String, Option, none, some, List, []}
use antrea_ui.Session.Types.{Kind, Credential, CachedTransport, Heap}
use antrea_ui.Session.Memory.{contents}
use antrea_ui.Session.Transports.{TransportBuilder}

-- The client library: its configurations, and the round trippers that it builds, each a number.
pub record Rest : Type 1 where
  pub Conf : Type 0
  pub anonymous_client_config : Conf → Conf
  pub with_client_cert : List ℕ → List ℕ → Conf → Conf
  pub with_server : List ℕ → String → Conf → Conf
  pub round_tripper : Conf → Option ℕ
  pub bearer_auth : List ℕ → ℕ → ℕ
  pub impersonating : String → ℕ → ℕ
  pub close_idle_connections : ℕ → ℕ

pub record ClientFactory (rest : Rest) : Type 0 where
  pub config : rest.Conf
  pub base_transport : ℕ
  pub sa_transport : ℕ
  pub transport_key : String

abbrev pub factory_over :
    (rest : Rest) → rest.Conf → ℕ → String → Option ℕ → Option (ClientFactory rest)
factory_over rest config sa_transport key none = none
factory_over rest config sa_transport key (some base) = some (record {
  config = config;
  base_transport = base;
  sa_transport = sa_transport;
  transport_key = key;
})

unfoldable pub new_client_factory :
    (rest : Rest) → rest.Conf → ℕ → String → Option (ClientFactory rest)
new_client_factory rest config sa_transport key =
    factory_over rest config sa_transport key
      (rest.round_tripper (rest.anonymous_client_config config))

-- The bytes of a slice; a nil slice has none.
abbrev pub bytes_of : Option ℕ → Heap → List ℕ
bytes_of b h = elim (contents b h) [ none ↦ [] | some bs ↦ bs ]

abbrev pub owned : Rest → Option ℕ → Option CachedTransport
owned rest none = none
owned rest (some rt) = some (record { rt = rt; cleanup = some (rest.close_idle_connections rt) })

abbrev pub transport_of :
    (rest : Rest) → ClientFactory rest → Heap → Credential → Kind → Option CachedTransport
transport_of rest f h c Kind.bearer =
    some (record { rt = rest.bearer_auth (bytes_of c.token h) f.base_transport; cleanup = none })
transport_of rest f h c Kind.cert = owned rest (
    rest.round_tripper (
      rest.with_client_cert (bytes_of c.cert_pem h) (bytes_of c.key_pem h)
        (rest.anonymous_client_config f.config)))
transport_of rest f h c Kind.impersonate =
    some (record { rt = rest.impersonating c.user_name f.sa_transport; cleanup = none })

-- `ClientFactory.TransportFor`; a credential has one of the three kinds here, so that the default
-- branch of the switch is not reached.
unfoldable pub factory_transport_for : (rest : Rest) → ClientFactory rest → TransportBuilder
unfolding contents
factory_transport_for rest f h c = transport_of rest f h c c.kind
