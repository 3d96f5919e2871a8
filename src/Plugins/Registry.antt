-- ===== src/Plugins/Registry.antt =====
-- pkg/plugins/registry.go: the index of the plugins, by the ConfigMaps that carry them.
use antrea_ui.Base.{
  ℕ, String, Bool, true, false, ◌||◌, not, Option, none, some, List, [], ◌∷◌, str_eq, if◌then◌else◌,
  ◌>>=◌, sort_by, Table, lookup, delete, insert, keys,
}
use Prim.Native.String.{compare}
use Prim.Native.Nat.{Ordering}

pub record PluginManifest : Type 0 where
  pub name : String
  pub version : String
  pub entry : String

pub record PluginEntry : Type 0 where
  pub manifest : PluginManifest
  pub files : Table (List ℕ)

-- `data` holds texts, `binary_data` bytes; both are bytes here.
pub record ConfigMap : Type 0 where
  pub name : String
  pub data_files : Table (List ℕ)
  pub binary_data : Table (List ℕ)

-- What an informer hands to a handler. A tombstone stands for an object whose deletion was missed.
pub data Object : Type 0 where
  config_map : ConfigMap → Object
  tombstone : Object → Object
  other : Object

-- A tombstone is opened once.
unfoldable pub as_config_map : Object → Option ConfigMap
as_config_map (config_map cm) = some cm
as_config_map (tombstone (config_map cm)) = some cm
as_config_map (tombstone _) = none
as_config_map other = none

abbrev pub manifest_file_name : String
manifest_file_name = "manifest.json"

-- `json.Unmarshal` into a manifest, `none` where it reports an error.
abbrev pub Unmarshal : Type 0
Unmarshal = List ℕ → Option PluginManifest

-- The loop that copies one of the ConfigMap's maps into the plugin's files.
unfoldable pub add_files : Table (List ℕ) → Table (List ℕ) → Table (List ℕ)
add_files [] files = files
add_files ((k, v) ∷ more) files = add_files more (insert k v files)

unfoldable pub check_manifest : Table (List ℕ) → PluginManifest → Option PluginEntry
unfolding lookup
check_manifest files m =
    if str_eq m.name "" || str_eq m.entry "" then none else elim (lookup m.entry files) [
      | none ↦ none
      | some v ↦ some (record { manifest = m; files = files })
    ]

unfoldable pub parse_plugin_config_map : Unmarshal → ConfigMap → Option PluginEntry
unfolding lookup add_files check_manifest
parse_plugin_config_map unmarshal cm =
    let files = add_files cm.binary_data (add_files cm.data_files []) in
    lookup manifest_file_name files >>= λ manifest_data.
    unmarshal manifest_data >>= λ m. check_manifest files m

-- The plugins by the names of their ConfigMaps.
abbrev pub Registry : Type 0
Registry = Table PluginEntry

unfoldable pub upsert : Unmarshal → ConfigMap → Registry → Registry
unfolding insert parse_plugin_config_map
upsert unmarshal cm r = elim (parse_plugin_config_map unmarshal cm) [
  | none ↦ r
  | some e ↦ insert cm.name e r
]

unfoldable pub handle_upsert : Unmarshal → Object → Registry → Registry
unfolding as_config_map upsert
handle_upsert unmarshal obj r = elim (as_config_map obj) [
  | none ↦ r
  | some cm ↦ upsert unmarshal cm r
]

unfoldable pub handle_delete : Object → Registry → Registry
unfolding as_config_map delete
handle_delete obj r = elim (as_config_map obj) [ none ↦ r | some cm ↦ delete cm.name r ]

abbrev pub text_less : String → String → Bool
text_less a b = elim (compare a b) [ Ordering.lt ↦ true | _ ↦ false ]

unfoldable pub sorted_config_map_names : Registry → List String
unfolding sort_by
sorted_config_map_names r = sort_by text_less (keys r)

-- `r.plugins[cmName]`, the zero value for a missing key.
unfoldable pub entry_at : String → Registry → PluginEntry
unfolding lookup
entry_at name r = elim (lookup name r) [
  | none ↦ record { manifest = record { name = ""; version = ""; entry = "" }; files = [] }
  | some e ↦ e
]

-- The loop of `Index`. `seen` maps a plugin's name to the ConfigMap that has claimed it.
unfoldable pub index_names : List String → Table String → Registry → List PluginManifest
unfolding entry_at lookup insert
index_names [] seen r = []
index_names (name ∷ names) seen r =
    let m = (entry_at name r).manifest in
    let skipped = index_names names seen r in
    let rest = index_names names (insert m.name name seen) r in
    elim (lookup m.name seen) [ some owner ↦ skipped | none ↦ m ∷ rest ]

unfoldable pub index : Registry → List PluginManifest
unfolding sorted_config_map_names index_names
index r = index_names (sorted_config_map_names r) [] r

-- The loop of `File`.
unfoldable pub file_names : List String → String → String → Registry → Option (List ℕ)
unfolding entry_at lookup
file_names [] plugin_name filename r = none
file_names (name ∷ names) plugin_name filename r =
    let e = entry_at name r in
    let rest = file_names names plugin_name filename r in
    if not (str_eq e.manifest.name plugin_name) then rest else lookup filename e.files

unfoldable pub file : String → String → Registry → Option (List ℕ)
unfolding sorted_config_map_names file_names
file plugin_name filename r = file_names (sorted_config_map_names r) plugin_name filename r

-- What the informer reports.
pub data Event : Type 0 where
  upserted deleted : Object → Event

-- The registry after some events, the last one first.
unfoldable pub watch : Unmarshal → List Event → Registry
unfolding handle_upsert handle_delete
watch unmarshal [] = []
watch unmarshal (upserted obj ∷ events) = handle_upsert unmarshal obj (watch unmarshal events)
watch unmarshal (deleted obj ∷ events) = handle_delete obj (watch unmarshal events)
