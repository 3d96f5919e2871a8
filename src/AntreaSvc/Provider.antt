-- ===== src/AntreaSvc/Provider.antt =====
-- pkg/handlers/antreasvc/client.go: the factory that is update_factory when the CA bundle changes.
use Prim.Native.String.{◌++◌ as str_append}
use antrea_ui.Base.{ℕ, String, suc, Option, none, some, List}
use antrea_ui.Base.Numerals.{decimal}
use antrea_ui.AntreaSvc.Factory.{Rest, ClientFactory, new_client_factory}

-- `antreaClientFactoryProvider`.
pub record FactoryProvider (rest : Rest) : Type 0 where
  pub config : Option rest.Conf
  pub server_name : String
  pub factory : Option (ClientFactory rest)
  pub generation : ℕ

unfoldable pub transport_key : ℕ → String
unfolding decimal
transport_key generation = str_append "antreasvc/" (decimal generation)

unfoldable pub get_client_factory :
    {rest : Rest} → FactoryProvider rest → Option (ClientFactory rest × ℕ)
get_client_factory p = elim p.factory [ none ↦ none | some f ↦ some (f, p.generation) ]

pub data UpdateError : Type 0 where
  no_token no_sa_transport no_base_transport : UpdateError

-- Where the configuration comes from: the given one, or the token of the pod, which may not be
-- readable.
abbrev pub base_config : {A : Type 0} → Option A → Option A → Option A
base_config none in_cluster = in_cluster
base_config (some c) in_cluster = some c

abbrev pub update_factory :
    {rest : Rest}
    → FactoryProvider rest
    → Option (ClientFactory rest)
    → Option UpdateError × FactoryProvider rest
update_factory p none = (some UpdateError.no_base_transport, p)
update_factory p (some f) = (none, record p { factory = some f; generation = suc p.generation })

abbrev pub update_over :
    (rest : Rest)
    → FactoryProvider rest
    → rest.Conf
    → Option ℕ
    → Option UpdateError × FactoryProvider rest
update_over rest p config none = (some UpdateError.no_sa_transport, p)
update_over rest p config (some sa) =
    update_factory p (new_client_factory rest config sa (transport_key (suc p.generation)))

abbrev pub update_with :
    (rest : Rest)
    → List ℕ
    → FactoryProvider rest
    → Option rest.Conf
    → Option UpdateError × FactoryProvider rest
update_with rest ca p none = (some UpdateError.no_token, p)
update_with rest ca p (some c) =
    let config = rest.with_server ca p.server_name c in
    update_over rest p config (rest.round_tripper config)

-- `updateClientFactory`, where the CA bundle and the pod's token are read as given. Without a bundle
-- nothing happens.
unfoldable pub update_client_factory :
    (rest : Rest)
    → Option rest.Conf
    → Option (List ℕ)
    → FactoryProvider rest
    → Option UpdateError × FactoryProvider rest
unfolding new_client_factory transport_key
update_client_factory rest in_cluster none p = (none, p)
update_client_factory rest in_cluster (some ca) p =
    update_with rest ca p (base_config p.config in_cluster)
