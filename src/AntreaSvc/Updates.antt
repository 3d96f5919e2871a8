-- ===== src/AntreaSvc/Updates.antt =====
-- A successful update of the client factory (pkg/handlers/antreasvc/client.go: updateClientFactory).
use antrea_ui.Base.{ℕ, ◌≡◌, refl, suc, Option, none, some, List, arith}
use antrea_ui.AntreaSvc.Factory.{factory_over, Rest, ClientFactory, new_client_factory}
use antrea_ui.AntreaSvc.Provider.{
  update_with, update_over, update_factory, FactoryProvider, transport_key, base_config,
  update_client_factory,
}

-- What a successful update leaves: the next generation, and a factory over the new bundle.
pub record IsUpdated (rest : Rest) (in_cluster : Option rest.Conf) (ca : List ℕ)
    (p p' : FactoryProvider rest) : Type 0 where
  pub current : ClientFactory rest
  pub config : rest.Conf
  pub is_current : p'.factory ≡ some current
  pub is_next : p'.generation ≡ suc p.generation
  pub is_based : base_config p.config in_cluster ≡ some config
  pub trusts : current.config ≡ rest.with_server ca p.server_name config
  pub sa_trusts :
      rest.round_tripper (rest.with_server ca p.server_name config) ≡ some current.sa_transport
  pub base_trusts :
      rest.round_tripper (rest.anonymous_client_config (rest.with_server ca p.server_name config))
      ≡ some current.base_transport

pub update-IsUpdated :
    (rest : Rest) (in_cluster : Option rest.Conf) (ca : List ℕ) (p : FactoryProvider rest)
    → (update_client_factory rest in_cluster (some ca) p).0 ≡ none
    → IsUpdated rest in_cluster ca p (update_client_factory rest in_cluster (some ca) p).1
unfolding update_client_factory new_client_factory
update-IsUpdated rest in_cluster ca p e = based (base_config p.config in_cluster) refl e
  where
    made :
        (c : rest.Conf) (sa : ℕ) (base : Option ℕ)
        → base_config p.config in_cluster ≡ some c
        → rest.round_tripper (rest.with_server ca p.server_name c) ≡ some sa
        → rest.round_tripper (rest.anonymous_client_config (rest.with_server ca p.server_name c))
          ≡ base
        → (update_factory p (
            factory_over rest
              (rest.with_server ca p.server_name c)
              sa
              (transport_key (suc p.generation))
              base)).0
          ≡ none
        → IsUpdated rest in_cluster ca p
            (update_factory p (
              factory_over rest
                (rest.with_server ca p.server_name c)
                sa
                (transport_key (suc p.generation))
                base)).1
    made c sa none b k l e = absurd (ground arith)
    made c sa (some base) b k l e = record {
      current = record {
        config = rest.with_server ca p.server_name c;
        base_transport = base;
        sa_transport = sa;
        transport_key = transport_key (suc p.generation);
      };
      config = c;
      is_current = refl;
      is_next = refl;
      is_based = b;
      trusts = refl;
      sa_trusts = k;
      base_trusts = l;
    }

    sa_made :
        (c : rest.Conf) (sa : Option ℕ)
        → base_config p.config in_cluster ≡ some c
        → rest.round_tripper (rest.with_server ca p.server_name c) ≡ sa
        → (update_over rest p (rest.with_server ca p.server_name c) sa).0 ≡ none
        → IsUpdated rest in_cluster ca p
            (update_over rest p (rest.with_server ca p.server_name c) sa).1
    sa_made c none b k e = absurd (ground arith)
    sa_made c (some sa) b k e =
        made c sa
          (rest.round_tripper (rest.anonymous_client_config (rest.with_server ca p.server_name c)))
          b k refl e

    based :
        (o : Option rest.Conf)
        → base_config p.config in_cluster ≡ o
        → (update_with rest ca p o).0 ≡ none
        → IsUpdated rest in_cluster ca p (update_with rest ca p o).1
    based none b e = absurd (ground arith)
    based (some c) b e =
        sa_made c (rest.round_tripper (rest.with_server ca p.server_name c)) b refl e
