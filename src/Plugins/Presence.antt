-- ===== src/Plugins/Presence.antt =====
-- Which plugins the registry holds, told from what the informer has reported (pkg/plugins/registry.go).
use antrea_ui.Base.{
  ℕ, String, ◌≡◌, ◌≢◌, refl, inl, inr, ◌||◌, some, List, [], ◌∷◌, arith, str_eq, Bool-cases,
  Option-cases, str_ne, lookup, ◌↔◌, false, none, str_eq→eq, lookup-insert, eq_refl, before,
  lookup-delete,
}
use antrea_ui.Plugins.Registry.{
  manifest_file_name, add_files, ConfigMap, as_config_map, Object, config_map, tombstone, Unmarshal,
  parse_plugin_config_map, upsert, handle_delete, handle_upsert, check_manifest, PluginEntry, watch,
  Registry, Event, upserted, deleted,
}

-- The ConfigMap that an informer's object is, or that it is the last known state of.
pub data About (cm : ConfigMap) : Object → Type 0 where
  itself : About cm (config_map cm)
  last_known : About cm (tombstone (config_map cm))

-- The ConfigMap is a valid plugin: its manifest reads, and names the plugin and a file that is there.
pub record IsPlugin (unmarshal : Unmarshal) (cm : ConfigMap) (e : PluginEntry) : Type 0 where
  pub has_files : e.files ≡ add_files cm.binary_data (add_files cm.data_files [])
  pub manifest_data : List ℕ
  pub has_manifest : lookup "manifest.json" e.files ≡ some manifest_data
  pub reads : unmarshal manifest_data ≡ some e.manifest
  pub named : e.manifest.name ≢ ""
  pub enters : e.manifest.entry ≢ ""
  pub entry_file : List ℕ
  pub has_entry : lookup e.manifest.entry e.files ≡ some entry_file

-- The last valid plugin that the ConfigMap of this name has held since it was last deleted.
pub data Holds (unmarshal : Unmarshal) (k : String) (e : PluginEntry) : List Event → Type 0 where
  stored :
      (cm : ConfigMap) (obj : Object) (events : List Event)
      → About cm obj
      → cm.name ≡ k
      → IsPlugin unmarshal cm e
      → Holds unmarshal k e (upserted obj ∷ events)
  kept :
      (obj : Object) (events : List Event)
      → ((cm : ConfigMap) (x : PluginEntry)
          → About cm obj
          → cm.name ≡ k
          → ¬ IsPlugin unmarshal cm x)
      → Holds unmarshal k e events
      → Holds unmarshal k e (upserted obj ∷ events)
  survives :
      (obj : Object) (events : List Event)
      → ((cm : ConfigMap) → About cm obj → cm.name ≢ k)
      → Holds unmarshal k e events
      → Holds unmarshal k e (deleted obj ∷ events)

as_config_map-About : (cm : ConfigMap) (obj : Object) → as_config_map obj ≡ some cm → About cm obj
unfolding as_config_map
as_config_map-About cm (config_map x) e = let same : x ≡ cm = ground arith in rw same itself
as_config_map-About cm (tombstone (config_map x)) e =
    let same : x ≡ cm = ground arith in rw same last_known
as_config_map-About cm (tombstone (tombstone x)) e = absurd (ground arith)
as_config_map-About cm (tombstone Object.other) e = absurd (ground arith)
as_config_map-About cm Object.other e = absurd (ground arith)

About-as_config_map : (cm : ConfigMap) (obj : Object) → About cm obj → as_config_map obj ≡ some cm
unfolding as_config_map
About-as_config_map cm obj itself = refl
About-as_config_map cm obj last_known = refl

parsed-IsPlugin :
    (unmarshal : Unmarshal) (cm : ConfigMap) (e : PluginEntry)
    → parse_plugin_config_map unmarshal cm ≡ some e
    → IsPlugin unmarshal cm e
unfolding parse_plugin_config_map check_manifest
parsed-IsPlugin unmarshal cm e h =
    let files = add_files cm.binary_data (add_files cm.data_files []) in
    elim (Option-cases (lookup manifest_file_name files)) [
      | inl l ↦ absurd (ground arith)
      | inr (d, l) ↦ elim (Option-cases (unmarshal d)) [
        | inl u ↦ absurd (ground arith)
        | inr (m, u) ↦ elim (Bool-cases (str_eq m.name "" || str_eq m.entry "")) [
          | inl bad ↦ absurd (ground arith)
          | inr good ↦ elim (Option-cases (lookup m.entry files)) [
            | inl f ↦ absurd (ground arith)
            | inr (v, f) ↦
                let same : record { manifest = m; files = files } ≡ e = ground arith in
                rw (← same) (record {
                  has_files = refl;
                  manifest_data = d;
                  has_manifest = l;
                  reads = u;
                  named = str_ne m.name "" (ground arith);
                  enters = str_ne m.entry "" (ground arith);
                  entry_file = v;
                  has_entry = f;
                })
          ]
        ]
      ]
    ]

str_ne_false : (s t : String) → s ≢ t → str_eq s t ≡ false
str_ne_false s t ne = elim (Bool-cases (str_eq s t)) [
  | inl e ↦ absurd (ne (str_eq→eq s t e))
  | inr e ↦ e
]

plugin-parsed :
    (unmarshal : Unmarshal) (cm : ConfigMap) (e : PluginEntry)
    → IsPlugin unmarshal cm e
    → parse_plugin_config_map unmarshal cm ≡ some e
unfolding parse_plugin_config_map check_manifest
plugin-parsed unmarshal cm e p =
    rw
      (
        ← p.has_files,
        p.has_manifest,
        p.reads,
        str_ne_false e.manifest.name "" p.named,
        str_ne_false e.manifest.entry "" p.enters,
        p.has_entry,
      )
      (ground (arith, p.has_files))

-- The registry holds under each name just what the reports say.
abbrev IsHolding : Unmarshal → List Event → Type 0
IsHolding unmarshal events =
    (k : String) (e : PluginEntry)
    → (lookup k (watch unmarshal events) ≡ some e) ↔ Holds unmarshal k e events

abbrev HoldsAll : Unmarshal → List Event → Type 0
HoldsAll unmarshal events =
    (k : String) (e : PluginEntry)
    → lookup k (watch unmarshal events) ≡ some e
    → Holds unmarshal k e events

not_IsPlugin :
    (unmarshal : Unmarshal) (cm : ConfigMap)
    → parse_plugin_config_map unmarshal cm ≡ none
    → (x : PluginEntry) → ¬ IsPlugin unmarshal cm x
not_IsPlugin unmarshal cm n x p = ground (arith, n, plugin-parsed unmarshal cm x p)

same_map : (cm cn : ConfigMap) (obj : Object) → as_config_map obj ≡ some cm → About cn obj → cm ≡ cn
same_map cm cn obj e a = ground (arith, e, About-as_config_map cn obj a)

upserted-Holds :
    (unmarshal : Unmarshal) (obj : Object) (events : List Event)
    → HoldsAll unmarshal events
    → (k : String) (e : PluginEntry)
    → lookup k (handle_upsert unmarshal obj (watch unmarshal events)) ≡ some e
    → Holds unmarshal k e (upserted obj ∷ events)
unfolding handle_upsert upsert
upserted-Holds unmarshal obj events held k e h = elim (Option-cases (as_config_map obj)) [
  | inl o ↦
      kept obj events (λ cm x a same p. absurd (ground (arith, o, About-as_config_map cm obj a)))
        (held k e (ground (arith, o)))
  | inr (cm, o) ↦ elim (Option-cases (parse_plugin_config_map unmarshal cm)) [
    | inl n ↦
        kept obj events
          (λ cn x a same p. not_IsPlugin unmarshal cm n x (rw (same_map cm cn obj o a) p))
          (held k e (ground (arith, o, n)))
    | inr (x, n) ↦ elim (Bool-cases (str_eq cm.name k)) [
      | inl same ↦
          let is_x : x ≡ e =
            ground (arith, o, n, same, lookup-insert cm.name k x (watch unmarshal events)) in
          stored cm obj events (as_config_map-About cm obj o) (str_eq→eq cm.name k same)
            (parsed-IsPlugin unmarshal cm e (rw (← is_x) n))
      | inr other ↦
          kept obj events
            (λ cn y a same p. str_ne cm.name k other (rw (same_map cm cn obj o a) same))
            (held k e
              (ground (arith, o, n, other, lookup-insert cm.name k x (watch unmarshal events))))
    ]
  ]
]

kept_of :
    (unmarshal : Unmarshal) (obj : Object) (events : List Event)
    → (k : String) (e : PluginEntry)
    → ((cm : ConfigMap) (x : PluginEntry) → About cm obj → cm.name ≡ k → ¬ IsPlugin unmarshal cm x)
    → lookup k (watch unmarshal events) ≡ some e
    → lookup k (handle_upsert unmarshal obj (watch unmarshal events)) ≡ some e
unfolding handle_upsert upsert
kept_of unmarshal obj events k e none_valid before = elim (Option-cases (as_config_map obj)) [
  | inl o ↦ ground (arith, o, before)
  | inr (cm, o) ↦ elim (Option-cases (parse_plugin_config_map unmarshal cm)) [
    | inl n ↦ ground (arith, o, n, before)
    | inr (x, n) ↦ elim (Bool-cases (str_eq cm.name k)) [
      | inl same ↦ absurd (
          none_valid cm x (as_config_map-About cm obj o) (str_eq→eq cm.name k same)
            (parsed-IsPlugin unmarshal cm x n))
      | inr other ↦
          ground (arith, o, n, other, before, lookup-insert cm.name k x (watch unmarshal events))
    ]
  ]
]

stored_of :
    (unmarshal : Unmarshal) (cm : ConfigMap) (obj : Object) (r : Registry) (e : PluginEntry)
    → About cm obj
    → IsPlugin unmarshal cm e
    → lookup cm.name (handle_upsert unmarshal obj r) ≡ some e
unfolding handle_upsert upsert
stored_of unmarshal cm obj r e a p = ground (
  arith,
  About-as_config_map cm obj a,
  plugin-parsed unmarshal cm e p,
  lookup-insert cm.name cm.name e r,
  eq_refl cm.name,
)

survives_of :
    (obj : Object) (k : String) (r : Registry) (e : PluginEntry)
    → ((cm : ConfigMap) → About cm obj → cm.name ≢ k)
    → lookup k r ≡ some e
    → lookup k (handle_delete obj r) ≡ some e
unfolding handle_delete
survives_of obj k r e others h = elim (Option-cases (as_config_map obj)) [
  | inl o ↦ ground (arith, o, h)
  | inr (cm, o) ↦ ground (
    arith,
    o,
    h,
    lookup-delete cm.name k r,
    str_ne_false cm.name k (others cm (as_config_map-About cm obj o)),
  )
]

deleted-Holds :
    (unmarshal : Unmarshal) (obj : Object) (events : List Event)
    → HoldsAll unmarshal events
    → (k : String) (e : PluginEntry)
    → lookup k (handle_delete obj (watch unmarshal events)) ≡ some e
    → Holds unmarshal k e (deleted obj ∷ events)
unfolding handle_delete
deleted-Holds unmarshal obj events held k e h = elim (Option-cases (as_config_map obj)) [
  | inl o ↦
      survives obj events (λ cm a same. absurd (ground (arith, o, About-as_config_map cm obj a)))
        (held k e (ground (arith, o)))
  | inr (cm, o) ↦ elim (Bool-cases (str_eq cm.name k)) [
    | inl same ↦ absurd (ground (arith, o, same, lookup-delete cm.name k (watch unmarshal events)))
    | inr other ↦
        survives obj events (λ cn a same. str_ne cm.name k other (rw (same_map cm cn obj o a) same))
          (held k e (ground (arith, o, other, lookup-delete cm.name k (watch unmarshal events))))
  ]
]

held_of :
    (unmarshal : Unmarshal) (k : String) (e : PluginEntry) (events : List Event)
    → Holds unmarshal k e events
    → lookup k (watch unmarshal events) ≡ some e
unfolding watch
held_of unmarshal k e _ (stored cm obj events a same p) =
    rw (← same) (stored_of unmarshal cm obj (watch unmarshal events) e a p)
held_of unmarshal k e _ (kept obj events n h) =
    kept_of unmarshal obj events k e n (held_of unmarshal k e events h)
held_of unmarshal k e _ (survives obj events n h) =
    survives_of obj k (watch unmarshal events) e n (held_of unmarshal k e events h)

-- The registry holds an entry under a name just when the reports leave one there.
pub watch-IsHolding : (unmarshal : Unmarshal) (events : List Event) → IsHolding unmarshal events
unfolding watch lookup
watch-IsHolding unmarshal events k e = (holds_of unmarshal events k e, held_of unmarshal k e events)
  where
    holds_of :
        (unmarshal : Unmarshal) (events : List Event) (k : String) (e : PluginEntry)
        → lookup k (watch unmarshal events) ≡ some e
        → Holds unmarshal k e events
    holds_of unmarshal [] k e h = absurd (ground arith)
    holds_of unmarshal (upserted obj ∷ events) k e h =
        upserted-Holds unmarshal obj events (holds_of unmarshal events) k e h
    holds_of unmarshal (deleted obj ∷ events) k e h =
        deleted-Holds unmarshal obj events (holds_of unmarshal events) k e h
