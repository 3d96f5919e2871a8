-- ===== src/RateLimit/ClientKey.antt =====
-- pkg/server/ratelimit/client.go: ClientKeyIP. Header values are bytes.
use antrea_ui.Base.{Bool, Option, none, some, List, [], ◌∷◌, ◌++◌, if◌then◌else◌, Bytes}
use antrea_ui.Credentials.Tokens.{trim_left, trim_right, split}

-- The net package: an address by its text, whether it is private, and the host of "host:port".
pub record Addresses : Type 1 where
  pub Ip : Type 0
  pub parse_ip : Bytes → Option Ip
  pub is_private : Ip → Bool
  pub show : Ip → Bytes
  pub split_host : Bytes → Option Bytes

-- What a request says of its client.
pub record ClientRequest : Type 0 where
  pub forwarded_for : List Bytes
  pub real_ip : Bytes
  pub remote_addr : Bytes

unfoldable pub trim_space : Bytes → Bytes
unfolding trim_left trim_right
trim_space s = trim_left (trim_right s)

-- The first loop: the parts of all values, in order.
unfoldable pub all_parts : List Bytes → List Bytes
unfolding split
all_parts [] = []
all_parts (v ∷ vs) = split b',' v ++ all_parts vs

module _ (net : Addresses) where
  abbrev if_public : Option net.Ip → Option net.Ip
  if_public none = none
  if_public (some ip) = if net.is_private ip then none else some ip

  unfoldable pub public_ip : Bytes → Option net.Ip
  unfolding trim_space
  public_ip part = if_public (net.parse_ip (trim_space part))

  -- The second loop, from the right.
  unfoldable pub rightmost : List Bytes → Option net.Ip
  unfolding public_ip
  rightmost [] = none
  rightmost (p ∷ ps) =
      let rest = rightmost ps in elim rest [ some ip ↦ some ip | none ↦ public_ip p ]

  unfoldable pub ip_from_xff_header : List Bytes → Option net.Ip
  unfolding all_parts rightmost
  ip_from_xff_header values = rightmost (all_parts values)

  -- An empty value is none.
  unfoldable pub ip_from_header : Bytes → Option net.Ip
  unfolding trim_space
  ip_from_header value = elim (trim_space value) [ [] ↦ none | c ∷ cs ↦ net.parse_ip (c ∷ cs) ]

  unfoldable pub remote_host : Bytes → Bytes
  unfolding trim_space
  remote_host addr =
      let a = trim_space addr in elim (net.split_host a) [ none ↦ a | some host ↦ host ]

  unfoldable pub client_key_ip : ClientRequest → Bytes
  unfolding ip_from_xff_header ip_from_header remote_host
  client_key_ip req = elim (ip_from_xff_header req.forwarded_for) [
    | some ip ↦ net.show ip
    | none ↦ elim (ip_from_header req.real_ip) [
      | some ip ↦ net.show ip
      | none ↦ remote_host req.remote_addr
    ]
  ]
