-- ===== src/Oidc/Tests.antt =====
-- Login with a provider that knows one code, and a codec that writes bytes in unary.
use Prim.Native.Char.{code}
use antrea_ui.Base.{
  Option, none, ℕ, String, zero, suc, ◌+◌, ◌≡◌, refl, ◌∙◌, Bool, true, false, ◌||◌, some, [], ◌∷◌,
  arith, str_eq, eq_iff, ◌==◌, if◌then◌else◌, ◌>>=◌, Bytes, contains_code, ◌*◌, ◌≤◌, ◌↔◌, All,
  lookup,
}
use antrea_ui.Session.Types.{second}
use antrea_ui.Session.Scenarios.{two_users-IsWellFormed}
use antrea_ui.Authn.Types.{Request}
use antrea_ui.Authn.Tests.{browser, deployed, go_net}
use antrea_ui.Login.Tests.{two_users-AreAllocated, server_config, visit, instant, knows_carol}
use antrea_ui.Oidc.Template.{Regexps, Template}
use antrea_ui.Oidc.Provider.{
  init_provider, max_wait, Progress, Round, Urls, OidcProvider, ProviderConfig, provider_of,
  new_oidc_provider, build_logout_url,
}
use antrea_ui.Oidc.State.{get_oauth2_state, sign, parse_oauth2_state, OAuth2State, Codec}
use antrea_ui.Oidc.Refresh.{TokenResponse, IdToken, TokenEndpoint}
use antrea_ui.Oidc.Endpoints.{oauth2_login, oauth2_callback, Parts}
use antrea_ui.Oidc.Laws.Evidence.{Evidence, Callback}
use antrea_ui.Authn.Origin.{origin_allowed, safe_redirect_url}
use antrea_ui.Login.Types.{redirect, Visit, Reply}
use antrea_ui.Oidc.Laws.Templates.{build_logout_url-Fills}
use antrea_ui.Authn.Cookies.{find_cookie}
use antrea_ui.Oidc.Laws.Signing.{parse_oauth2_state-IsSigned, parse-get_oauth2_state, IsSigned}
use antrea_ui.Oidc.Laws.Callbacks.{oauth2_callback-Callback}
use antrea_ui.Oidc.Laws.Returning.{oauth2_login-Evidence, both_cookies}
use antrea_ui.Oidc.Laws.Backoff.{init_provider-Backoff, waits_from}

abbrev pub tally : ℕ → String → String
tally zero s = String.◌∷◌ "b" s
tally (suc n) s = String.◌∷◌ "a" (tally n s)

abbrev pub unary : Bytes → String
unary [] = ""
unary (n ∷ ns) = tally n (unary ns)

abbrev pub from_unary : ℕ → String → Option Bytes
from_unary k String.[] = if k == 0 then some [] else none
from_unary k (String.◌∷◌ c s) =
    let next = from_unary 0 s in
    let more = from_unary (suc k) s in if code c == 98 then (next >>= λ bs. some (k ∷ bs)) else more

pub from_unary-tally :
    (k n : ℕ) (s : String) (bs : Bytes)
    → from_unary 0 s ≡ some bs
    → from_unary k (tally n s) ≡ some ((k + n) ∷ bs)
from_unary-tally k zero s bs e = rw e (ground arith)
from_unary-tally k (suc n) s bs e = from_unary-tally (suc k) n s bs e ∙ ground arith

pub from_unary-unary : (b : Bytes) → from_unary 0 (unary b) ≡ some b
from_unary-unary [] = refl
from_unary-unary (n ∷ ns) = from_unary-tally 0 n (unary ns) ns (from_unary-unary ns) ∙ ground arith

pub tally_plain :
    (n : ℕ) (s : String) → contains_code 46 s ≡ false → contains_code 46 (tally n s) ≡ false
unfolding contains_code
tally_plain zero s e = e
tally_plain (suc n) s e = tally_plain n s e

pub unary_plain : (b : Bytes) → contains_code 46 (unary b) ≡ false
unfolding contains_code
unary_plain [] = refl
unary_plain (n ∷ ns) = tally_plain n (unary ns) (unary_plain ns)

abbrev pub page : String
page = "https://ui.example.com/traceflow"

-- JSON for two texts.
abbrev pub is_known : String → Bool
is_known s = str_eq s "n1" || str_eq s page

abbrev pub number : String → ℕ
number s = if str_eq s "n1" then 0 else 1

abbrev pub named : ℕ → String
named n = if n == 0 then "n1" else page

abbrev pub from_numbers : Bytes → Option OAuth2State
from_numbers (a ∷ b ∷ []) = some (record { nonce = named a; redirect_url = named b })
from_numbers _ = none

pub named-number : (s : String) → is_known s ≡ true → named (number s) ≡ s
named-number s e = ground (arith, eq_iff s "n1", eq_iff s page)

abbrev pub codec : Codec
codec = record {
  marshal = λ s. number s.nonce ∷ number s.redirect_url ∷ [];
  unmarshal = from_numbers;
  encode = unary;
  decode = from_unary 0;
  hmac = λ key text. key;
  valid_utf8 = is_known;
  unmarshal-marshal = λ s n u. rw (named-number s.nonce n, named-number s.redirect_url u) refl;
  decode-encode = from_unary-unary;
  encode_plain = unary_plain;
}

abbrev pub urls : Urls
urls = record {
  join_path = λ base parts. base;
  with_query = λ base key value. base;
  set_query = λ url key value. url;
  query_escape = λ b. "escaped";
}

-- A template with one variable.
abbrev pub regexps : Regexps
regexps = record { normalize = λ s. s; matches = λ s. "Token" ∷ []; replace_all = λ s f. f "Token" }

abbrev pub provider_config : ProviderConfig
provider_config = record {
  server_url = "https://ui.example.com";
  issuer_url = "https://idp.example.com";
  discovery_url = "";
  client_id = "antrea-ui";
  client_secret = "secret";
  logout_url_template = "https://idp.example.com/logout?id_token_hint={{ Token }}";
  scopes = [];
}

abbrev pub template : Template
template = record { tpl = provider_config.logout_url_template; required_vars = "Token" ∷ [] }

abbrev pub secret : Bytes
secret = 1 ∷ 2 ∷ []

abbrev pub idp_client : OidcProvider
idp_client = provider_of go_net urls regexps provider_config secret template

is_set_up : new_oidc_provider go_net urls regexps (some secret) provider_config ≡ some idp_client
unfolding new_oidc_provider
is_set_up = refl

logout_url_filled : build_logout_url go_net urls regexps idp_client (1 ∷ []) ≡ some "escaped"
unfolding build_logout_url lookup
logout_url_filled =
    build_logout_url-Fills go_net urls regexps (some secret) provider_config idp_client (1 ∷ [])
      is_set_up

two_failures :
    init_provider (Round.waits ∷ Round.waits ∷ Round.succeeds ∷ [])
    ≡ (Progress.ready, 1 * second ∷ 2 * second ∷ [])
unfolding init_provider
two_failures = refl

init_provider-Backoff_example :
    (init_provider (Round.waits ∷ Round.succeeds ∷ []) ≡ (Progress.ready, waits_from 0 1))
    × All (λ w. w ≤ max_wait) (init_provider (Round.waits ∷ Round.succeeds ∷ [])).1
init_provider-Backoff_example = init_provider-Backoff (Round.waits ∷ Round.succeeds ∷ [])

abbrev pub state : OAuth2State
state = record { nonce = "n1"; redirect_url = page }

abbrev pub raw_state : String
raw_state = sign codec secret (unary (0 ∷ 1 ∷ []))

state_comes_back :
    (parse_oauth2_state codec secret raw_state ≡ some state)
    × (state.nonce ≡ "n1")
    × (state.redirect_url ≡ page)
unfolding get_oauth2_state
state_comes_back = parse-get_oauth2_state codec secret "n1" page state raw_state refl refl refl

raw_state-IsSigned :
    (parse_oauth2_state codec secret raw_state ≡ some state) ↔ IsSigned codec secret raw_state state
raw_state-IsSigned = parse_oauth2_state-IsSigned codec secret raw_state state

-- The provider knows the code "c1", for carol's ID token.
abbrev pub carols : TokenResponse
carols = record { id_token = some (99 ∷ 1 ∷ []); refresh_token = 7 ∷ [] }

abbrev pub carols_token : IdToken
carols_token = record { expiry = 500_000_000_000; nonce = "hash" }

abbrev pub idp : TokenEndpoint
idp = record {
  exchange = λ c. if str_eq c "c1" then some carols else none;
  grant = λ b. none;
  verify = λ b. some carols_token;
}

abbrev pub parts : Parts
parts = record {
  net = go_net;
  urls = urls;
  codec = codec;
  idp = idp;
  api = knows_carol;
  hash_oidc_nonce = λ n. if str_eq n "m1" then "hash" else "other";
  auth_code_url = λ p state nonce. "https://idp.example.com/authorize";
  provider = idp_client;
  refresher = 0;
}

abbrev pub back : Request
back = record browser {
  cookies = ("antrea-ui-oauth2-state", raw_state) ∷ ("antrea-ui-oidc-nonce", "m1") ∷ [];
}

oauth2_callback-Callback_example :
    Callback server_config deployed parts back instant
      (some "n1")
      (some "c1")
      visit
      (oauth2_callback server_config deployed parts back instant (some "n1") (some "c1") visit)
oauth2_callback-Callback_example =
    oauth2_callback-Callback server_config deployed parts back instant visit two_users-IsWellFormed
      two_users-AreAllocated (some "n1") (some "c1")

abbrev pub with_login : Reply × Visit
with_login = oauth2_login server_config deployed parts browser (some "n1") (some "m1") page visit

oauth2_login-Evidence_example :
    (with_login ≡ (
      redirect 303 "https://idp.example.com/authorize",
      record visit {
        set_cookies = both_cookies server_config deployed parts browser "n1" "m1" page visit;
      },
    ))
    × Evidence server_config deployed parts back
        (some "n1")
        (some "c1")
        (99 ∷ 1 ∷ [])
        carols_token
        (7 ∷ [])
        page
unfolding safe_redirect_url find_cookie origin_allowed
oauth2_login-Evidence_example =
    oauth2_login-Evidence server_config deployed parts browser "n1" "m1" page visit back "c1" carols
      (99 ∷ 1 ∷ []) carols_token refl refl refl refl refl refl refl refl
