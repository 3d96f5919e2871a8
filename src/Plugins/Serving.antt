-- ===== src/Plugins/Serving.antt =====
-- Index and files agree: what the index lists can be fetched, and only that (pkg/plugins).
use antrea_ui.Base.{
  String, ◌≡◌, refl, inl, inr, some, List, [], ◌∷◌, arith, str_eq, Bool-cases, All, lookup, ap,
  false, All-mono, true, map, elem, Distinct, sort_by, elem-sort_by, keys, ℕ, none, Option-cases,
  eq_refl,
}
use antrea_ui.Plugins.Registry.{
  PluginManifest, PluginEntry, Unmarshal, Registry, sorted_config_map_names, entry_at, index, file,
  Event, watch, text_less,
}
use antrea_ui.Plugins.Files.{get_plugin_file, trim_slash}
use antrea_ui.Plugins.Soundness.{watch-IsSound, IsSound}
use antrea_ui.Plugins.Listing.{
  index_names_lists, first_entry, file_names_first, first_entry-elem, index_names-IsListed,
  first_entry-IsLoadable, IsListed, manifest_names, index_names-Distinct,
}
use antrea_ui.Plugins.Presence.{watch-IsHolding, Holds}

keys_known :
    (n : String) (r : Registry) → elem n (keys r) ≡ true → (e : PluginEntry) × (lookup n r ≡ some e)
unfolding lookup
keys_known n [] h = absurd (ground arith)
keys_known n ((k, e) ∷ r) h = elim (Bool-cases (str_eq n k)) [
  | inl same ↦ (e, ground arith)
  | inr ne ↦ let x = keys_known n r (ground arith) in (x.0, ground (arith, x.1))
]

keys_of :
    (n : String) (r : Registry) (e : PluginEntry) → lookup n r ≡ some e → elem n (keys r) ≡ true
unfolding lookup
keys_of n [] e h = absurd (ground arith)
keys_of n ((k, x) ∷ r) e h = elim (Bool-cases (str_eq n k)) [
  | inl same ↦ ground arith
  | inr ne ↦ ground (arith, keys_of n r e (ground arith))
]

map_id : (ns : List String) → map (λ (n : String). n) ns ≡ ns
map_id [] = refl
map_id (n ∷ ns) = λ i. n ∷ map_id ns i

elem-sorted_config_map_names :
    (n : String) (r : Registry) → elem n (sorted_config_map_names r) ≡ elem n (keys r)
unfolding sorted_config_map_names
elem-sorted_config_map_names n r =
    let kept : elem n (map (λ (k : String). k) (sort_by text_less (keys r)))
        ≡ elem n (map (λ (k : String). k) (keys r)) =
      elem-sort_by text_less (λ k. k) n (keys r) in
    rw (map_id (sort_by text_less (keys r)), map_id (keys r)) at kept

abbrev pub with_slash : String → String
with_slash s = String.◌∷◌ "/" s

status_found :
    (name path : String) (r : Registry) (v : List ℕ)
    → file name (trim_slash path) r ≡ some v
    → (get_plugin_file name path r).status ≡ 200
unfolding get_plugin_file
status_found name path r v h = rw (h, get_plugin_file) refl

status_missing :
    (name path : String) (r : Registry)
    → file name (trim_slash path) r ≡ none
    → (get_plugin_file name path r).status ≡ 404
unfolding get_plugin_file
status_missing name path r h = rw (h, get_plugin_file) refl

entry_at_found :
    (k : String) (r : Registry) (e : PluginEntry) → lookup k r ≡ some e → entry_at k r ≡ e
unfolding entry_at
entry_at_found k r e h = rw (h, entry_at) refl

-- The endpoint answers with a file of the plugin that has this manifest.
abbrev pub IsServed : Registry → PluginManifest → Type 0
IsServed r m = (get_plugin_file m.name (with_slash m.entry) r).status ≡ 200

-- A ConfigMap holds a valid plugin with this manifest.
abbrev pub IsCarried : Unmarshal → List Event → PluginManifest → Type 0
IsCarried unmarshal events m =
    (k : String) × (e : PluginEntry) × Holds unmarshal k e events × (e.manifest ≡ m)

pub record IsIndex (unmarshal : Unmarshal) (events : List Event) (r : Registry) : Type 0 where
  pub distinct : Distinct (manifest_names (index r))
  pub complete :
      (k : String) (e : PluginEntry)
      → Holds unmarshal k e events
      → elem e.manifest.name (manifest_names (index r)) ≡ true
  pub carried : All (IsCarried unmarshal events) (index r)
  pub served : All (IsServed r) (index r)
  pub only_listed :
      (p f : String)
      → elem p (manifest_names (index r)) ≡ false
      → (get_plugin_file p f r).status ≡ 404

listed-IsServed :
    (r : Registry)
    → IsSound r
    → (m : PluginManifest) → IsListed (sorted_config_map_names r) [] r m
    → IsServed r m
unfolding file trim_slash
listed-IsServed r sound m (new, (e, f, same)) =
    let known : (n : String)
        → elem n (sorted_config_map_names r) ≡ true
        → (x : PluginEntry) × (lookup n r ≡ some x) =
      λ n h. keys_known n r (ground (arith, elem-sorted_config_map_names n r)) in
    let good = first_entry-IsLoadable r sound (sorted_config_map_names r) known m.name e f in
    let (v, l) = good.loadable in
    let stored : lookup m.entry e.files ≡ some v =
      rw⁻¹ (ap (λ (x : PluginManifest). x.entry) same) l in
    status_found m.name (with_slash m.entry) r v
      (rw (file_names_first (sorted_config_map_names r) m.name m.entry r) (rw f stored))

first_entry_known :
    (r : Registry) (ns : List String)
    → ((n : String) → elem n ns ≡ true → (e : PluginEntry) × (lookup n r ≡ some e))
    → (p : String) (e : PluginEntry) → first_entry ns p r ≡ some e
    → (k : String) × (lookup k r ≡ some e)
unfolding entry_at
first_entry_known r [] known p e f = absurd (ground arith)
first_entry_known r (n ∷ ns) known p e f =
    elim (Bool-cases (str_eq (entry_at n r).manifest.name p)) [
      | inl same ↦ let x = known n (ground (arith, eq_refl n)) in (n, ground (arith, x.1))
      | inr other ↦ first_entry_known r ns (λ k h. known k (ground arith)) p e (ground arith)
    ]

listed-IsCarried :
    (unmarshal : Unmarshal) (events : List Event) (m : PluginManifest)
    → IsListed (sorted_config_map_names (watch unmarshal events)) [] (watch unmarshal events) m
    → IsCarried unmarshal events m
listed-IsCarried unmarshal events m (new, (e, f, same)) =
    let r = watch unmarshal events in
    let known : (n : String)
        → elem n (sorted_config_map_names r) ≡ true
        → (x : PluginEntry) × (lookup n r ≡ some x) =
      λ n h. keys_known n r (ground (arith, elem-sorted_config_map_names n r)) in
    let (k, l) = first_entry_known r (sorted_config_map_names r) known m.name e f in
    (k, e, (watch-IsHolding unmarshal events k e).0 l, same)

unlisted_missing :
    (p f : String) (r : Registry) → elem p (manifest_names (index r)) ≡ false → file p f r ≡ none
unfolding index file lookup
unlisted_missing p f r h = elim (Option-cases (first_entry (sorted_config_map_names r) p r)) [
  | inl e ↦ ground (arith, file_names_first (sorted_config_map_names r) p f r, e)
  | inr (x, e) ↦
      absurd (ground (arith, index_names_lists (sorted_config_map_names r) [] r p x e refl))
]

-- However ConfigMaps have come and gone, the index and the files agree. A ConfigMap carries the
-- plugin that it last held as a valid one, until it is deleted; a version that is not valid changes
-- nothing. The index lists the name of each plugin so carried, once, with the manifest of a ConfigMap
-- that carries it, and no other; the entry file of each listed manifest is served; and of a plugin
-- that is not listed no file is served.
pub watch-IsIndex :
    (unmarshal : Unmarshal) (events : List Event)
    → IsIndex unmarshal events (watch unmarshal events)
unfolding index lookup
watch-IsIndex unmarshal events =
    let r = watch unmarshal events in
    record {
      distinct = index_names-Distinct (sorted_config_map_names r) [] r;
      complete = λ k e held.
          let h = (watch-IsHolding unmarshal events k e).1 held in
          let x =
            first_entry-elem (sorted_config_map_names r) k r
              (ground (arith, elem-sorted_config_map_names k r, keys_of k r e h)) in
          index_names_lists (sorted_config_map_names r) [] r e.manifest.name x.0
            (rw (entry_at_found k r e h) at x.1) refl;
      carried =
          All-mono (IsListed (sorted_config_map_names r) [] r) (IsCarried unmarshal events)
            (listed-IsCarried unmarshal events) (index r)
            (index_names-IsListed (sorted_config_map_names r) [] r);
      served =
          All-mono (IsListed (sorted_config_map_names r) [] r) (IsServed r)
            (listed-IsServed r (watch-IsSound unmarshal events)) (index r)
            (index_names-IsListed (sorted_config_map_names r) [] r);
      only_listed = λ p f h. status_missing p f r (unlisted_missing p (trim_slash f) r h);
    }
