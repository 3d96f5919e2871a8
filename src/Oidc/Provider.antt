-- ===== src/Oidc/Provider.antt =====
-- The provider: NewOIDCProvider, Init and BuildLogoutURL (pkg/server/oauth2.go).
use antrea_ui.Base.{
  ℕ, String, ◌*◌, ◌&&◌, not, Option, some, List, [], ◌∷◌, str_eq, ltb, if◌then◌else◌, ◌>>=◌, Bytes,
  Table, codes,
}
use antrea_ui.Session.Types.{second}
use antrea_ui.Authn.Types.{Net}
use antrea_ui.Oidc.Template.{Regexps, Template, new_template, replace}

-- What the code asks of `net/url` besides its parser: a path appended, a query set in place of the
-- URL's own, one key of the query set, and the escape of a query value.
pub record Urls : Type 0 where
  pub join_path : String → List String → String
  pub with_query : String → String → String → String
  pub set_query : String → String → String → String
  pub query_escape : Bytes → String

pub record OidcProvider : Type 0 where
  pub server_url : String
  pub issuer_url : String
  pub discovery_url : String
  pub client_id : String
  pub client_secret : String
  pub callback_url : String
  pub logout_url_template : Template
  pub logout_return_url : String
  pub scopes : List String
  pub oauth2_state_secret : Bytes

-- The arguments of NewOIDCProvider.
pub record ProviderConfig : Type 0 where
  pub server_url : String
  pub issuer_url : String
  pub discovery_url : String
  pub client_id : String
  pub client_secret : String
  pub logout_url_template : String
  pub scopes : List String

abbrev pub default_oidc_scopes : List String
default_oidc_scopes = "openid" ∷ "email" ∷ "groups" ∷ "offline_access" ∷ []

abbrev pub logout_vars : List String
logout_vars = "Token" ∷ "ClientID" ∷ "URL" ∷ "LogoutReturnURL" ∷ []

abbrev pub scopes_or_default : List String → List String
scopes_or_default [] = default_oidc_scopes
scopes_or_default (s ∷ more) = s ∷ more

module _ (net : Net) (urls : Urls) (re : Regexps) where
  abbrev pub provider_of : ProviderConfig → Bytes → Template → OidcProvider
  provider_of c secret tpl = record {
    server_url = c.server_url;
    issuer_url = c.issuer_url;
    discovery_url = c.discovery_url;
    client_id = c.client_id;
    client_secret = c.client_secret;
    callback_url = urls.join_path c.server_url ("auth" ∷ "oauth2" ∷ "callback" ∷ []);
    logout_url_template = tpl;
    logout_return_url =
        urls.with_query c.server_url "msg" "You successfully logged out from the OIDC provider";
    scopes = scopes_or_default c.scopes;
    oauth2_state_secret = secret;
  }

  -- `random` is the secret, `none` where the source of randomness fails.
  unfoldable pub new_oidc_provider : Option Bytes → ProviderConfig → Option OidcProvider
  unfolding new_template
  new_oidc_provider random c = net.parse_url c.server_url >>= λ u. random >>= λ secret.
      new_template re c.logout_url_template logout_vars >>= λ tpl. some (provider_of c secret tpl)

  abbrev pub logout_inputs : OidcProvider → Bytes → Table String
  logout_inputs p id_token =
      ("Token", urls.query_escape id_token)
      ∷ ("ClientID", urls.query_escape (codes p.client_id))
      ∷ ("URL", urls.query_escape (codes p.server_url))
      ∷ ("LogoutReturnURL", urls.query_escape (codes p.logout_return_url))
      ∷ []

  unfoldable pub build_logout_url : OidcProvider → Bytes → Option String
  unfolding replace
  build_logout_url p id_token =
      replace re p.logout_url_template (logout_inputs p id_token) >>= λ logout_url.
      net.parse_url logout_url >>= λ u. some logout_url

abbrev pub initial_wait : ℕ
initial_wait = 1 * second

abbrev pub max_wait : ℕ
max_wait = 10 * second

-- One round of the loop of `Init`: discovery succeeds, or it fails and the context ends during the
-- wait, or the wait runs out.
pub data Round : Type 0 where
  succeeds ends waits : Round

pub data Progress : Type 0 where
  ready cancelled running : Progress

unfoldable pub next_wait : ℕ → ℕ
next_wait wait = if ltb max_wait (2 * wait) then max_wait else 2 * wait

-- The rounds so far, from the current wait on: how `Init` stands after them and the waits that ran
-- out, in order.
unfoldable pub init_rounds : ℕ → List Round → Progress × List ℕ
unfolding next_wait
init_rounds wait [] = (Progress.running, [])
init_rounds wait (Round.succeeds ∷ later) = (Progress.ready, [])
init_rounds wait (Round.ends ∷ later) = (Progress.cancelled, [])
init_rounds wait (Round.waits ∷ later) =
    let (p, ws) = init_rounds (next_wait wait) later in (p, wait ∷ ws)

unfoldable pub init_provider : List Round → Progress × List ℕ
unfolding init_rounds
init_provider rounds = init_rounds initial_wait rounds

-- The URL that discovery asks.
unfoldable pub discovery_target : OidcProvider → String
discovery_target p =
    if not (str_eq p.discovery_url "") && not (str_eq p.discovery_url p.issuer_url)
    then p.discovery_url
    else p.issuer_url
