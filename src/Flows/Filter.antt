-- ===== src/Flows/Filter.antt =====
-- The filter of a stream (pkg/handlers/flowstream/handler.go: splitTrimmed, parseFlowType,
-- parseFlowStreamFilter). A text of the query is its bytes, empty where it is missing.
use antrea_ui.Base.{
  ℕ, String, ◌+◌, ◌&&◌, Option, none, some, List, [], ◌∷◌, map, leb, if◌then◌else◌, ◌>>=◌, Bytes,
  codes,
}
use antrea_ui.Base.Int.{ℤ, pos}
use antrea_ui.Password.Store.{same_bytes}
use antrea_ui.Credentials.Tokens.{split, trim_left, trim_right, has_bytes}

pub data FlowFilterDirection : Type 0 where
  both from to : FlowFilterDirection

pub record FlowStreamFilter : Type 0 where
  pub namespaces : List Bytes
  pub pod_names : List Bytes
  pub pod_label_selector : Bytes
  pub service_names : List Bytes
  pub flow_types : List ℤ
  pub ips : List Bytes
  pub direction : FlowFilterDirection

abbrev pub trim : Bytes → Bytes
trim p = trim_left (trim_right p)

unfoldable pub trim_each : List Bytes → List Bytes
trim_each [] = []
trim_each (p ∷ ps) = let rest = trim_each ps in if has_bytes (trim p) then trim p ∷ rest else rest

unfoldable pub split_trimmed : Bytes → List Bytes
unfolding split trim_each
split_trimmed s = trim_each (split b',' s)

-- `strings.ToLower` on ASCII text.
abbrev pub lower : ℕ → ℕ
lower c = if leb 65 c && leb c 90 then c + 32 else c

abbrev pub to_lower : Bytes → Bytes
to_lower = map lower

-- The enumeration's integers, `none` for a name that is not in the map.
unfoldable pub parse_flow_type : Bytes → Option ℤ
parse_flow_type s =
    let name = to_lower s in
    if same_bytes name (codes "intra-node")
    then some (pos 1)
    else if same_bytes name (codes "inter-node")
    then some (pos 2)
    else if same_bytes name (codes "to-external")
    then some (pos 3)
    else if same_bytes name (codes "from-external")
    then some (pos 4)
    else none

-- The loop over the names: it ends at the first one that is not valid.
unfoldable pub parse_flow_types : List Bytes → Option (List ℤ)
unfolding parse_flow_type
parse_flow_types [] = some []
parse_flow_types (p ∷ ps) =
    let rest = parse_flow_types ps in parse_flow_type p >>= λ v. rest >>= λ vs. some (v ∷ vs)

unfoldable pub parse_direction : Bytes → FlowFilterDirection
parse_direction dir =
    if same_bytes (to_lower dir) (codes "from")
    then from
    else if same_bytes (to_lower dir) (codes "to")
    then to
    else both

abbrev pub list_of : Bytes → List Bytes
unfolding split_trimmed
list_of s = if has_bytes s then split_trimmed s else []

-- `none` is the answer 400.
unfoldable pub parse_flow_stream_filter : (String → Bytes) → Option FlowStreamFilter
unfolding parse_flow_types parse_direction split_trimmed
parse_flow_stream_filter query = parse_flow_types (list_of (query "flowTypes")) >>= λ flow_types.
    some (record {
      namespaces = list_of (query "namespaces");
      pod_names = list_of (query "pods");
      pod_label_selector = query "podLabelSelector";
      service_names = list_of (query "services");
      flow_types = flow_types;
      ips = list_of (query "ips");
      direction =
          if has_bytes (query "direction") then parse_direction (query "direction") else both;
    })
