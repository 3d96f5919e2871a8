-- ===== src/Upstream/Proxy.antt =====
-- pkg/handlers/k8sproxy/handler.go: the reverse proxy to the API server. Header names are canonical,
-- as Go keeps them; a header has several values.
use antrea_ui.Base.{
  ℕ, String, Option, none, some, List, [], ◌∷◌, ◌==◌, if◌then◌else◌, Table, lookup, delete, insert,
  has_prefix,
}
use Prim.Native.String.{◌++◌ as str_append}
use antrea_ui.Session.Types.{Store}
use antrea_ui.Authn.Types.{RequestAuth}
use antrea_ui.Authn.Identity.{invalidate}

abbrev pub Headers : Type 0
Headers = Table (List String)

abbrev pub impersonate_extra : String
impersonate_extra = "Impersonate-Extra-"

-- `delete` of each header whose name has the prefix.
unfoldable pub drop_prefixed : String → Headers → Headers
unfolding has_prefix
drop_prefixed p [] = []
drop_prefixed p ((k, v) ∷ hs) =
    let rest = drop_prefixed p hs in if has_prefix k p then rest else (k, v) ∷ rest

-- `strings.Join(prior, ", ") + ", " + ip`.
unfoldable pub joined : List String → String → String
joined [] ip = ip
joined (x ∷ xs) ip = str_append x (str_append ", " (joined xs ip))

-- The client's address, and what it asked for.
pub record Inbound : Type 0 where
  pub headers : Headers
  pub remote_ip : String
  pub host : String
  pub proto : String

abbrev pub values : Option (List String) → List String
values none = []
values (some vs) = vs

-- The X-Forwarded-For of the client is kept, and `SetXForwarded` extends it.
unfoldable pub set_x_forwarded : Inbound → Headers → Headers
unfolding joined lookup insert
set_x_forwarded inbound out = insert "X-Forwarded-Proto" (inbound.proto ∷ []) (
    insert "X-Forwarded-Host" (inbound.host ∷ []) (
      insert "X-Forwarded-For"
        (joined (values (lookup "X-Forwarded-For" inbound.headers)) inbound.remote_ip ∷ []) out))

-- `out` are the headers of the outgoing request, as the standard library's proxy prepares them.
unfoldable pub rewrite : Inbound → Headers → Headers
unfolding set_x_forwarded drop_prefixed delete
rewrite inbound out = drop_prefixed impersonate_extra (
    delete "Impersonate-Group" (
      delete "Impersonate-Uid" (
        delete "Impersonate-User"
          (delete "Authorization" (delete "Cookie" (set_x_forwarded inbound out))))))

-- `status` is that of the API server's answer; the identity is that of the request, if it has one.
unfoldable pub modify_response : ℕ → Option RequestAuth → Store → Store
unfolding invalidate
modify_response status identity st =
    if status == 401 then elim identity [ none ↦ st | some ra ↦ invalidate ra st ] else st
