-- ===== src/Login/Signing.antt =====
-- Which handler serves which login route (pkg/server/auth.go: AddAuthRoutes).
use antrea_ui.Base.{String, Option}
use antrea_ui.Credentials.Kubeconfig.{Decoders}
use antrea_ui.Password.Store.{ReadWriter, Hasher, PasswordStore}
use antrea_ui.Authn.Types.{Request, Config, ServerError}
use antrea_ui.Login.Types.{ServerConfig, Visit, Instant, Reply, finish}
use antrea_ui.Login.Creation.{ApiServer}
use antrea_ui.Login.Wording.{Formats}
use antrea_ui.Login.Flows.{login, login_with_token, login_with_kubeconfig}

-- What a login posts: Basic Auth, or the text in its JSON body; `none` where that is missing.
pub data Post : Type 0 where
  by_password : Option (String × String) → Post
  by_token by_kubeconfig : Option String → Post

module _ (cfg : ServerConfig) (auth : Config) (req : Request) (i : Instant) (back : ReadWriter)
    (hasher : Hasher) (passwords : PasswordStore back) (d : Decoders) (api : ApiServer)
    (f : Formats) where
  unfoldable pub try_login : Post → Visit → Option ServerError × Visit
  unfolding login login_with_token login_with_kubeconfig
  try_login (by_password b) v = login cfg auth req i back hasher passwords b v
  try_login (by_token body) v = login_with_token cfg auth req i d api f body v
  try_login (by_kubeconfig body) v = login_with_kubeconfig cfg auth req i d api f body v

  unfoldable pub serve_login : Post → Visit → Reply × Visit
  unfolding try_login
  serve_login post v = finish (try_login post v)
