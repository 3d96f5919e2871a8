-- ===== src/Plugins/Files.antt =====
-- pkg/server/api/plugins.go: the endpoint that serves the files of a plugin.
use antrea_ui.Base.{
  List, ℕ, Bool, true, false, ◌&&◌, ◌||◌, not, none, some, [], ◌∷◌, str_eq, ◌==◌, if◌then◌else◌,
  contains_code,
}
use Prim.Native.Char.{code}
use antrea_ui.Plugins.Registry.{Registry, file}
use Prim.Native.String.{
  String, String, String, String, String, String, String, String, String, String, String, String,
}

-- `path.Ext`: from the last dot of the last element.
unfoldable pub ext : String → String
unfolding contains_code
ext String.[] = String.[]
ext (String.◌∷◌ c s) =
    let rest = ext s in
    if not (str_eq rest "")
    then rest
    else if code c == b'.' && not (contains_code b'/' s)
    then String.◌∷◌ c s
    else ""

-- `strings.TrimPrefix(s, "/")`.
unfoldable pub trim_slash : String → String
trim_slash String.[] = String.[]
trim_slash (String.◌∷◌ c s) = if code c == b'/' then s else String.◌∷◌ c s

unfoldable pub is_gzip : List ℕ → Bool
is_gzip (a ∷ b ∷ more) = a == 0x1f && b == 0x8b
is_gzip (a ∷ []) = false
is_gzip [] = false

unfoldable pub plugin_file_content_type : String → String
unfolding ext
plugin_file_content_type filename =
    let e = ext filename in
    if str_eq e ".js" || str_eq e ".mjs"
    then "application/javascript"
    else if str_eq e ".json"
    then "application/json"
    else "application/octet-stream"

pub record Response : Type 0 where
  pub status : ℕ
  pub no_store : Bool
  pub gzip : Bool
  pub content_type : String
  pub body : List ℕ

abbrev pub not_found_response : Response
not_found_response = record {
  status = 404;
  no_store = false;
  gzip = false;
  content_type = "";
  body = [];
}

-- `path` is the rest of the URL's path, from its slash.
unfoldable pub get_plugin_file : String → String → Registry → Response
unfolding trim_slash is_gzip plugin_file_content_type file
get_plugin_file name path r = elim (file name (trim_slash path) r) [
  | none ↦ not_found_response
  | some bytes ↦ record {
    status = 200;
    no_store = true;
    gzip = is_gzip bytes;
    content_type = plugin_file_content_type (trim_slash path);
    body = bytes;
  }
]
