-- ===== src/Plugins/Listing.antt =====
-- What the loop of `Index` lists (pkg/plugins/registry.go), and what `File` finds.
use antrea_ui.Base.{
  String, ◌≡◌, refl, ap, inl, inr, true, false, Option, none, some, List, [], ◌∷◌, map, arith,
  str_eq, eq_iff, eq_refl, if◌then◌else◌, Option-cases, All, All-mono, elem, Distinct, Table,
  lookup, insert, lookup-insert, subst, Bool-cases, str_eq→eq,
}
use antrea_ui.Plugins.Registry.{
  index_names, PluginEntry, PluginManifest, entry_at, file_names, Registry,
}
use antrea_ui.Plugins.Soundness.{IsLoadable, IsSound}

-- The first of the ConfigMaps that carries the plugin.
abbrev pub first_entry : List String → String → Registry → Option PluginEntry
first_entry [] p r = none
first_entry (n ∷ ns) p r =
    let rest = first_entry ns p r in
    if str_eq (entry_at n r).manifest.name p then some (entry_at n r) else rest

pub file_names_first :
    (ns : List String) (p f : String) (r : Registry)
    → file_names ns p f r ≡ elim (first_entry ns p r) [ none ↦ none | some e ↦ lookup f e.files ]
unfolding file_names
file_names_first [] p f r = refl
file_names_first (n ∷ ns) p f r = ground (arith, file_names_first ns p f r)

-- Each manifest that the loop lists is new, and is that of the first ConfigMap with its name.
abbrev pub IsListed : List String → Table String → Registry → PluginManifest → Type 0
IsListed ns seen r m =
    (lookup m.name seen ≡ none)
    × ((e : PluginEntry) × (first_entry ns m.name r ≡ some e) × (e.manifest ≡ m))

IsListed-later :
    (n : String) (ns : List String) (seen : Table String) (r : Registry) (x : PluginManifest)
    → str_eq (entry_at n r).manifest.name x.name ≡ false
    → lookup x.name seen ≡ none
    → ((e : PluginEntry) × (first_entry ns x.name r ≡ some e) × (e.manifest ≡ x))
    → IsListed (n ∷ ns) seen r x
IsListed-later n ns seen r x ne new (e, f, m) = (new, (e, rw ne f, m))

pub index_names-IsListed :
    (ns : List String) (seen : Table String) (r : Registry)
    → All (IsListed ns seen r) (index_names ns seen r)
unfolding index_names
index_names-IsListed [] seen r = tt
index_names-IsListed (n ∷ ns) seen r =
    let m = (entry_at n r).manifest in
    elim (Option-cases (lookup m.name seen)) [
      | inr (owner, l) ↦
          rw (l, index_names)
            (All-mono (IsListed ns seen r) (IsListed (n ∷ ns) seen r)
              (λ x h.
                IsListed-later n ns seen r x
                  (ground (arith, ap (λ k. lookup k seen), h.0, eq_iff m.name x.name)) h.0 h.1)
              _ (index_names-IsListed ns seen r))
      | inl l ↦
          rw (l, index_names)
            (
              (l, (entry_at n r, ground (arith, eq_refl m.name), refl)),
              All-mono (IsListed ns (insert m.name n seen) r) (IsListed (n ∷ ns) seen r)
                  (λ x h.
                    IsListed-later n ns seen r x
                      (ground (arith, lookup-insert m.name x.name n seen, h.0))
                      (ground (arith, lookup-insert m.name x.name n seen, h.0)) h.1)
                  _ (index_names-IsListed ns (insert m.name n seen) r),
            )
    ]

abbrev pub manifest_names : List PluginManifest → List String
manifest_names = map (λ (m : PluginManifest). m.name)

-- The names in the list are not those of a manifest that is absent from it.
elem-manifest_names :
    (k : String) (ms : List PluginManifest)
    → All (λ (m : PluginManifest). str_eq k m.name ≡ false) ms
    → elem k (manifest_names ms) ≡ false
elem-manifest_names k [] h = refl
elem-manifest_names k (m ∷ ms) h = ground (arith, h.0, elem-manifest_names k ms h.1)

pub index_names-Distinct :
    (ns : List String) (seen : Table String) (r : Registry)
    → Distinct (manifest_names (index_names ns seen r))
unfolding index_names
index_names-Distinct [] seen r = tt
index_names-Distinct (n ∷ ns) seen r =
    let m = (entry_at n r).manifest in
    elim (Option-cases (lookup m.name seen)) [
      | inr (owner, l) ↦ rw (l, index_names) (index_names-Distinct ns seen r)
      | inl l ↦
          rw (l, index_names)
            (
              elem-manifest_names m.name (index_names ns (insert m.name n seen) r) (
                  All-mono (IsListed ns (insert m.name n seen) r)
                    (λ (x : PluginManifest). str_eq m.name x.name ≡ false)
                    (λ x h. ground (arith, lookup-insert m.name x.name n seen, h.0)) _
                    (index_names-IsListed ns (insert m.name n seen) r)),
              index_names-Distinct ns (insert m.name n seen) r,
            )
    ]

-- A plugin that some ConfigMap carries is listed, if its name has not been seen before.
pub index_names_lists :
    (ns : List String) (seen : Table String) (r : Registry) (p : String) (e : PluginEntry)
    → first_entry ns p r ≡ some e
    → lookup p seen ≡ none
    → elem p (manifest_names (index_names ns seen r)) ≡ true
unfolding index_names
index_names_lists [] seen r p e f s = absurd (ground arith)
index_names_lists (n ∷ ns) seen r p e f s =
    let m = (entry_at n r).manifest in
    elim (Option-cases (lookup m.name seen)) [
      | inr (owner, l) ↦
          rw (l, index_names)
            (index_names_lists ns seen r p e
              (ground (arith, ap (λ k. lookup k seen), eq_iff m.name p)) s)
      | inl l ↦
          rw (l, index_names)
            (elim (Bool-cases (str_eq p m.name)) [
              | inl same ↦ ground arith
              | inr ne ↦
                  let rest =
                    index_names_lists ns (insert m.name n seen) r p e
                      (ground (arith, eq_iff m.name p, eq_iff p m.name))
                      (ground
                        (arith, lookup-insert m.name p n seen, eq_iff m.name p, eq_iff p m.name)) in
                  ground (arith, rest)
            ])
    ]

pub first_entry-elem :
    (ns : List String) (k : String) (r : Registry)
    → elem k ns ≡ true
    → (e : PluginEntry) × (first_entry ns (entry_at k r).manifest.name r ≡ some e)
first_entry-elem [] k r h = absurd (ground arith)
first_entry-elem (n ∷ ns) k r h = elim (Bool-cases (str_eq k n)) [
  | inl same ↦
      rw (str_eq→eq k n same) (entry_at n r, ground (arith, eq_refl (entry_at n r).manifest.name))
  | inr ne ↦ elim (Bool-cases (str_eq (entry_at n r).manifest.name (entry_at k r).manifest.name)) [
    | inl e ↦ (entry_at n r, ground arith)
    | inr e ↦ let rest = first_entry-elem ns k r (ground arith) in (rest.0, ground (arith, rest.1))
  ]
]

pub first_entry-IsLoadable :
    (r : Registry)
    → IsSound r
    → (ns : List String)
    → ((n : String) → elem n ns ≡ true → (e : PluginEntry) × (lookup n r ≡ some e))
    → (p : String) (e : PluginEntry) → first_entry ns p r ≡ some e
    → IsLoadable e
unfolding entry_at
first_entry-IsLoadable r sound [] known p e f = absurd (ground arith)
first_entry-IsLoadable r sound (n ∷ ns) known p e f =
    elim (Bool-cases (str_eq (entry_at n r).manifest.name p)) [
      | inl same ↦
          let x = known n (ground (arith, eq_refl n)) in
          subst IsLoadable (ground (arith, x.1)) (sound n x.0 x.1)
      | inr other ↦
          first_entry-IsLoadable r sound ns (λ k h. known k (ground arith)) p e (ground arith)
    ]
