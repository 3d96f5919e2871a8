-- ===== src/Plugins/Soundness.antt =====
-- Every plugin that the registry holds can be loaded (pkg/plugins/registry.go: parsePluginConfigMap).
use antrea_ui.Base.{
  ℕ, String, ◌≡◌, subst, ◌≢◌, inl, inr, ◌||◌, some, List, [], ◌∷◌, arith, str_eq, Bool-cases,
  Option-cases, str_ne, Table, lookup, lookup-delete, lookup-insert,
}
use antrea_ui.Plugins.Registry.{
  manifest_file_name, add_files, ConfigMap, as_config_map, Object, PluginManifest, Unmarshal,
  parse_plugin_config_map, upsert, handle_delete, handle_upsert, check_manifest, PluginEntry, watch,
  Registry, Event, upserted, deleted,
}

-- The entry has a name and the file that its manifest names.
pub record IsLoadable (e : PluginEntry) : Type 0 where
  pub named : e.manifest.name ≢ ""
  pub loadable : (v : List ℕ) × (lookup e.manifest.entry e.files ≡ some v)

check_manifest-IsLoadable :
    (files : Table (List ℕ)) (m : PluginManifest) (e : PluginEntry)
    → check_manifest files m ≡ some e
    → IsLoadable e
unfolding check_manifest
check_manifest-IsLoadable files m e h = elim (Bool-cases (str_eq m.name "" || str_eq m.entry "")) [
  | inl bad ↦ absurd (ground arith)
  | inr good ↦ elim (Option-cases (lookup m.entry files)) [
    | inl l ↦ absurd (ground arith)
    | inr (v, l) ↦
        let same : record { manifest = m; files = files } ≡ e = ground arith in
        subst IsLoadable same
          (record { named = str_ne m.name "" (ground arith); loadable = (v, l) })
  ]
]

parse_plugin_config_map-IsLoadable :
    (unmarshal : Unmarshal) (cm : ConfigMap) (e : PluginEntry)
    → parse_plugin_config_map unmarshal cm ≡ some e
    → IsLoadable e
unfolding parse_plugin_config_map
parse_plugin_config_map-IsLoadable unmarshal cm e h =
    let files = add_files cm.binary_data (add_files cm.data_files []) in
    elim (Option-cases (lookup manifest_file_name files)) [
      | inl l ↦ absurd (ground arith)
      | inr (d, l) ↦ elim (Option-cases (unmarshal d)) [
        | inl u ↦ absurd (ground arith)
        | inr (m, u) ↦ check_manifest-IsLoadable files m e (ground arith)
      ]
    ]

-- Every entry of the registry is loadable.
abbrev pub IsSound : Registry → Type 0
IsSound r = (k : String) (e : PluginEntry) → lookup k r ≡ some e → IsLoadable e

upsert-IsSound :
    (unmarshal : Unmarshal) (cm : ConfigMap) (r : Registry)
    → IsSound r
    → IsSound (upsert unmarshal cm r)
unfolding upsert
upsert-IsSound unmarshal cm r s = elim (Option-cases (parse_plugin_config_map unmarshal cm)) [
  | inl p ↦ rw (p, upsert) s
  | inr (e, p) ↦
      rw (p, upsert)
        (λ k x h. elim (Bool-cases (str_eq cm.name k)) [
          | inl same ↦
              parse_plugin_config_map-IsLoadable unmarshal cm x
                (ground (arith, lookup-insert cm.name k e r))
          | inr other_key ↦ s k x (ground (arith, lookup-insert cm.name k e r))
        ])
]

handle_upsert-IsSound :
    (unmarshal : Unmarshal) (obj : Object) (r : Registry)
    → IsSound r
    → IsSound (handle_upsert unmarshal obj r)
unfolding handle_upsert
handle_upsert-IsSound unmarshal obj r s = elim (Option-cases (as_config_map obj)) [
  | inl o ↦ rw (o, handle_upsert) s
  | inr (cm, o) ↦ rw (o, handle_upsert) (upsert-IsSound unmarshal cm r s)
]

handle_delete-IsSound : (obj : Object) (r : Registry) → IsSound r → IsSound (handle_delete obj r)
unfolding handle_delete
handle_delete-IsSound obj r s = elim (Option-cases (as_config_map obj)) [
  | inl o ↦ rw (o, handle_delete) s
  | inr (cm, o) ↦ rw (o, handle_delete) (λ k e h. s k e (ground (arith, lookup-delete cm.name k r)))
]

pub watch-IsSound : (unmarshal : Unmarshal) (events : List Event) → IsSound (watch unmarshal events)
unfolding watch lookup
watch-IsSound unmarshal [] k e h = absurd (ground arith)
watch-IsSound unmarshal (upserted obj ∷ events) k e h =
    handle_upsert-IsSound unmarshal obj (watch unmarshal events) (watch-IsSound unmarshal events) k
      e h
watch-IsSound unmarshal (deleted obj ∷ events) k e h =
    handle_delete-IsSound obj (watch unmarshal events) (watch-IsSound unmarshal events) k e h
