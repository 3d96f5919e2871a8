-- ===== src/Plugins/Tests.antt =====
-- Two ConfigMaps that carry a plugin of the same name, and one that is not valid.
use antrea_ui.Base.{
  ℕ, String, ◌≡◌, refl, true, Option, none, some, List, [], ◌∷◌, sort_by, lookup, delete, insert,
  contains_code, ◌==◌, if◌then◌else◌,
}
use antrea_ui.Plugins.Registry.{
  watch, index, PluginManifest, ConfigMap, config_map, tombstone, Event, upserted, deleted,
}
use antrea_ui.Plugins.Files.{get_plugin_file}
use antrea_ui.Plugins.Serving.{watch-IsIndex, IsIndex}

-- A manifest is one byte long here, the number of a known manifest.
abbrev known_manifests : List ℕ → Option PluginManifest
known_manifests [] = none
known_manifests (b ∷ more) =
    if b == 1
    then some (record { name = "flows"; version = "1.0"; entry = "main.js" })
    else if b == 2
    then some (record { name = "flows"; version = "2.0"; entry = "main.js" })
    else none

abbrev carrier : String → ℕ → ConfigMap
carrier name manifest = record {
  name = name;
  data_files = ("manifest.json", manifest ∷ []) ∷ [];
  binary_data = ("main.js", 0x1f ∷ 0x8b ∷ manifest ∷ []) ∷ [];
}

abbrev history : List Event
history =
    upserted (config_map (carrier "c" 9))
    ∷ upserted (config_map (carrier "a" 1))
    ∷ upserted (config_map (carrier "b" 2))
    ∷ []

-- The ConfigMap whose name sorts first wins.
first_wins :
    index (watch known_manifests history)
    ≡ record { name = "flows"; version = "1.0"; entry = "main.js" } ∷ []
unfolding index watch lookup insert delete sort_by
first_wins = refl

served_file : get_plugin_file "flows" "/main.js" (watch known_manifests history) ≡ record {
  status = 200;
  no_store = true;
  gzip = true;
  content_type = "application/javascript";
  body = 0x1f ∷ 0x8b ∷ 1 ∷ [];
}
unfolding get_plugin_file watch lookup insert delete sort_by contains_code
served_file = refl

-- When the first one is deleted, even behind a tombstone, the other takes over.
takes_over :
    index (watch known_manifests (deleted (tombstone (config_map (carrier "a" 1))) ∷ history))
    ≡ record { name = "flows"; version = "2.0"; entry = "main.js" } ∷ []
unfolding index watch lookup insert delete sort_by
takes_over = refl

watch-IsIndex_example : IsIndex known_manifests history (watch known_manifests history)
watch-IsIndex_example = watch-IsIndex known_manifests history
