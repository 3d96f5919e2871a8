-- ===== src/AntreaSvc/Rotation.antt =====
-- After the CA bundle of the Antrea Service has changed (pkg/handlers/antreasvc/client.go).
use antrea_ui.Base.{
  ℕ, String, ◌≡◌, ◌≢◌, refl, sym, ap, suc, Option, none, some, List, arith, ◌<◌, lookup, ◌∙◌,
}
use antrea_ui.Base.Numerals.{decimal}
use antrea_ui.Session.Types.{CachedTransport, Heap, Credential, Kind}
use antrea_ui.Session.Memory.{contents}
use antrea_ui.Session.Transports.{transport_for, cut_slash, drop_superseded_transports_locked}
use antrea_ui.Session.Laws.Caching.{
  Answers, built, transport_for_builds, versioned_key, transport_for_one_version,
}
use antrea_ui.AntreaSvc.Factory.{bytes_of, transport_of, Rest, ClientFactory, factory_transport_for}
use antrea_ui.AntreaSvc.Provider.{
  get_client_factory, FactoryProvider, transport_key, base_config, update_client_factory,
}
use antrea_ui.AntreaSvc.Updates.{update-IsUpdated}
use antrea_ui.AntreaSvc.Keys.{transport_key-versioned_key, versions_differ}

abbrev pub rt_of : Option CachedTransport → Option ℕ
rt_of none = none
rt_of (some t) = some t.rt

-- Releasing other transports leaves the credential as it is.
credential-drop_superseded_transports_locked :
    (key : String) (s : ℕ) (h : Heap)
    → ((drop_superseded_transports_locked key s h).objects s).credential ≡ (h.objects s).credential
unfolding drop_superseded_transports_locked
credential-drop_superseded_transports_locked key s h = ground arith

same_bytes_of :
    (key : String) (s : ℕ) (h : Heap) (b : Option ℕ)
    → bytes_of b (drop_superseded_transports_locked key s h) ≡ bytes_of b h
unfolding contents drop_superseded_transports_locked
same_bytes_of key s h none = refl
same_bytes_of key s h (some b) = refl

same_transport :
    (rest : Rest) (f : ClientFactory rest) (key : String) (s : ℕ) (h : Heap) (c : Credential)
    (k : Kind)
    → transport_of rest f (drop_superseded_transports_locked key s h) c k
      ≡ transport_of rest f h c k
same_transport rest f key s h c Kind.bearer = rw (same_bytes_of key s h c.token, transport_of) refl
same_transport rest f key s h c Kind.cert =
    rw (same_bytes_of key s h c.cert_pem, same_bytes_of key s h c.key_pem, transport_of) refl
same_transport rest f key s h c Kind.impersonate = refl

same_bytes :
    (rest : Rest) (f : ClientFactory rest) (key : String) (s : ℕ) (h : Heap) (c : Credential)
    → factory_transport_for rest f (drop_superseded_transports_locked key s h) c
      ≡ factory_transport_for rest f h c
unfolding factory_transport_for
same_bytes rest f key s h c = same_transport rest f key s h c c.kind

built_same :
    (rest : Rest) (f : ClientFactory rest) (key : String) (s : ℕ) (h : Heap)
    → built key (factory_transport_for rest f) s h
      ≡ factory_transport_for rest f h (h.objects s).credential
built_same rest f key s h =
    same_bytes rest f key s h ((drop_superseded_transports_locked key s h).objects s).credential
    ∙ ap (factory_transport_for rest f h) (credential-drop_superseded_transports_locked key s h)

-- A session's transport for the Antrea Service, after its CA bundle has changed.
pub record IsRotated (rest : Rest) (f : ClientFactory rest) (generation s : ℕ) (h : Heap)
    (r : Option ℕ × Heap) : Type 0 where
  pub is_built : r.0 ≡ rt_of (factory_transport_for rest f h (h.objects s).credential)
  pub none_older :
      (g : ℕ) → g < generation → lookup (transport_key g) (r.1.objects s).transports ≡ none
  pub none_later :
      (g : ℕ) → generation < g → lookup (transport_key g) (r.1.objects s).transports ≡ none

absent :
    (rest : Rest) (f : ClientFactory rest) (m n s : ℕ) (h : Heap)
    → lookup (transport_key m) (h.objects s).transports ≡ none
    → m ≢ n
    → lookup
        (transport_key n)
        ((transport_for (transport_key m) (factory_transport_for rest f) s h).1.objects
          s).transports
      ≡ none
unfolding cut_slash
absent rest f m n s h e ne =
    let e : lookup (versioned_key "antreasvc" (decimal m)) (h.objects s).transports ≡ none =
      rw (sym (transport_key-versioned_key m)) e in
    rw (transport_key-versioned_key m, transport_key-versioned_key n)
      (transport_for_one_version "antreasvc" (decimal m) (decimal n) (factory_transport_for rest f)
        s h refl (versions_differ m n ne) e)

handed_out :
    (key : String) (s : ℕ) (h : Heap) (t : Option CachedTransport) (r : Option ℕ × Heap)
    → Answers key s h t r
    → r.0 ≡ rt_of t
handed_out key s h none r a = a.0
handed_out key s h (some t) r a = a.0

transport_for-IsRotated :
    (rest : Rest) (f : ClientFactory rest) (generation s : ℕ) (h : Heap)
    → lookup (transport_key generation) (h.objects s).transports ≡ none
    → IsRotated rest f generation s h
        (transport_for (transport_key generation) (factory_transport_for rest f) s h)
transport_for-IsRotated rest f g s h e = record {
  is_built =
      handed_out (transport_key g) s h _ _
        (transport_for_builds (transport_key g) (factory_transport_for rest f) s h e)
      ∙ ap rt_of (built_same rest f (transport_key g) s h);
  none_older = λ k lt. absent rest f g k s h e (λ e. omega arith);
  none_later = λ k lt. absent rest f g k s h e (λ e. omega arith);
}

-- What an update by a bundle leaves, for a request of the session `s` that follows.
pub record IsFollowed (rest : Rest) (in_cluster : Option rest.Conf) (ca : List ℕ)
    (p p' : FactoryProvider rest) (s : ℕ) (h : Heap) : Type 0 where
  pub current : ClientFactory rest
  pub config : rest.Conf
  pub handed : get_client_factory p' ≡ some (current, suc p.generation)
  pub is_based : base_config p.config in_cluster ≡ some config
  pub trusts : current.config ≡ rest.with_server ca p.server_name config
  pub sa_trusts :
      rest.round_tripper (rest.with_server ca p.server_name config) ≡ some current.sa_transport
  pub base_trusts :
      rest.round_tripper (rest.anonymous_client_config (rest.with_server ca p.server_name config))
      ≡ some current.base_transport
  pub is_rotated :
      IsRotated rest current
        (suc p.generation)
        s
        h
        (transport_for (transport_key (suc p.generation)) (factory_transport_for rest current) s h)

handed_of :
    {rest : Rest} (p : FactoryProvider rest) (f : ClientFactory rest) (g : ℕ)
    → p.factory ≡ some f
    → p.generation ≡ g
    → get_client_factory p ≡ some (f, g)
unfolding get_client_factory
handed_of p f g e e' = rw (e, e', get_client_factory) refl

-- When an update by a CA bundle succeeds, requests are given a factory under the next generation that
-- trusts this bundle: its configuration, and its two shared transports, the one as the service account
-- and the one without credentials, are built from the base configuration with the bundle. The transport that a session without one for this generation then gets is built
-- by that factory from the session's credential, and the session is left with none for any other
-- generation.
pub update-IsFollowed :
    (rest : Rest) (in_cluster : Option rest.Conf) (ca : List ℕ) (p : FactoryProvider rest) (s : ℕ)
    (h : Heap)
    → (update_client_factory rest in_cluster (some ca) p).0 ≡ none
    → lookup (transport_key (suc p.generation)) (h.objects s).transports ≡ none
    → IsFollowed rest in_cluster ca p (update_client_factory rest in_cluster (some ca) p).1 s h
update-IsFollowed rest in_cluster ca p s h e none_cached =
    let u = update-IsUpdated rest in_cluster ca p e in
    record {
      current = u.current;
      config = u.config;
      handed = handed_of _ u.current (suc p.generation) u.is_current u.is_next;
      is_based = u.is_based;
      trusts = u.trusts;
      sa_trusts = u.sa_trusts;
      base_trusts = u.base_trusts;
      is_rotated = transport_for-IsRotated rest u.current (suc p.generation) s h none_cached;
    }
