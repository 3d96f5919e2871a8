-- ===== src/System/Histories.antt =====
-- The session store under the whole server: a step is what one endpoint, one call of Kubernetes in
-- flight, one tick of a stream or one collection does to it, and steps come in any order
-- (pkg/server, pkg/handlers, pkg/auth/session/store.go).
use antrea_ui.Base.{
  ℕ, String, ◌≡◌, ◌⊎◌, inl, inr, Option, none, some, List, [], ◌∷◌, Bytes, ◌==◌, Bool-cases, before,
}
use antrea_ui.Session.Types.{Store}
use antrea_ui.Session.Transports.{TransportBuilder}
use antrea_ui.Session.Store.{peek}
use antrea_ui.Session.Get.{Refreshers, Readings, do_gc}
use antrea_ui.Session.Invariant.{IsWellFormed, Evolves, Evolves-refl}
use antrea_ui.Session.Invariant.Lookups.{do_gc-Evolves}
use antrea_ui.Authn.Types.{Request, Config, Net, RequestAuth}
use antrea_ui.Authn.Bearer.{LruCache, Outside}
use antrea_ui.Authn.Resolve.{Moment, resolve}
use antrea_ui.Authn.Identity.{keep_alive, request_transport}
use antrea_ui.Password.Store.{ReadWriter, Hasher, PasswordStore}
use antrea_ui.Credentials.Kubeconfig.{Decoders}
use antrea_ui.Login.Types.{ServerConfig, Visit, Instant}
use antrea_ui.Login.Wording.{Formats}
use antrea_ui.Login.Creation.{ApiServer}
use antrea_ui.Login.Signing.{Post, serve_login}
use antrea_ui.Login.Ending.{logout}
use antrea_ui.Oidc.Endpoints.{Parts, oauth2_callback}
use antrea_ui.AntreaSvc.Factory.{Rest, ClientFactory}
use antrea_ui.AntreaSvc.Requests.{Response, received}
use antrea_ui.Traceflow.Clients.{transport_for_request}
use antrea_ui.Upstream.Errors.{ApiFailure, k8s_error}
use antrea_ui.Upstream.Proxy.{modify_response}
use antrea_ui.System.Lawful.{
  IsLawful, Evolves-IsLawful, keep_alive-Evolves, modify_response-Evolves, k8s_error-Evolves,
  request_transport-Evolves, transport_for_request-Evolves, invalidate-Evolves,
}
use antrea_ui.System.Entries.{try_login-IsLawful, finish-IsLawful, logout-Evolves, resolve-Evolves}
use antrea_ui.System.Callbacks.{oauth2_callback-IsLawful}

-- A server that is set up: its configuration and the libraries that its parts use.
pub record Deployment : Type 1 where
  pub net : Net
  pub lru : LruCache
  pub out : Outside
  pub cfg : ServerConfig
  pub auth : Config
  pub rest : Rest
  pub back : ReadWriter
  pub hasher : Hasher
  pub decoders : Decoders
  pub api : ApiServer
  pub formats : Formats
  pub build_logout_url : Bytes → Option String
  pub oidc : Parts

module _ (d : Deployment) where
  -- One step, with the ID that a login draws.
  pub data ServerStep : Option String → Store → Store → Type 0 where
    authenticates :
        (req : Request) (m : Moment) (cache : d.lru.Cache) (st : Store)
        → ServerStep none st
            (resolve d.net d.lru d.out d.auth req m
              (record { store = st; cache = cache })).state.store
    logs_in :
        (req : Request) (i : Instant) (passwords : PasswordStore d.back) (post : Post) (v : Visit)
        → ServerStep i.random v.store
            (serve_login d.cfg d.auth req i d.back d.hasher passwords d.decoders d.api d.formats
              post v).1.store
    calls_back :
        (req : Request) (i : Instant) (state code : Option String) (v : Visit)
        → ServerStep i.random v.store
            (oauth2_callback d.cfg d.auth d.oidc req i state code v).1.store
    logs_out :
        (req : Request) (redirect_query : String) (v : Visit)
        → ServerStep none v.store
            (logout d.cfg d.build_logout_url d.net d.auth req redirect_query v).1.store
    asks_kubernetes :
        (f : ClientFactory d.rest) (identity : Option RequestAuth) (st : Store)
        → ServerStep none st (transport_for_request d.rest f identity st).1
    asks_antrea :
        (ra : RequestAuth) (key : String) (build : TransportBuilder) (st : Store)
        → ServerStep none st (record st { heap = (request_transport ra key build st.heap).1 })
    proxy_answers :
        (status : ℕ) (identity : Option RequestAuth) (st : Store)
        → ServerStep none st (modify_response status identity st)
    kubernetes_fails :
        (identity : Option RequestAuth) (failure : ApiFailure) (st : Store)
        → ServerStep none st (k8s_error identity failure st).store
    antrea_answers :
        (ra : RequestAuth) (response : Option Response) (st : Store)
        → ServerStep none st (received ra response st).1
    stream_ticks :
        (rs : Refreshers) (ra : RequestAuth) (now : ℕ) (at : Readings) (st : Store)
        → ServerStep none st (keep_alive rs ra now at st).1
    collects : (now : ℕ) (st : Store) → ServerStep none st (do_gc now st)

  -- The IDs that have been drawn on the way from one store to another, the last one first.
  pub data Reaches (st : Store) : List (Option String) → Store → Type 0 where
    here : Reaches st [] st
    after_step :
        {ids : List (Option String)} {drawn : Option String} {su sv : Store}
        → Reaches st ids su
        → ServerStep drawn su sv
        → Reaches st (drawn ∷ ids) sv

  received-Evolves :
      (ra : RequestAuth) (response : Option Response) (st : Store)
      → Evolves st (received ra response st).1
  unfolding received
  received-Evolves ra none st = Evolves-refl st
  received-Evolves ra (some r) st = elim (Bool-cases (r.status == 401)) [
    | inl e ↦ rw e (invalidate-Evolves ra st)
    | inr e ↦ rw e (Evolves-refl st)
  ]

  pub ServerStep-IsLawful :
      (drawn : Option String) (st su : Store) → ServerStep drawn st su → IsLawful drawn st su
  unfolding serve_login
  ServerStep-IsLawful _ _ _ (authenticates req m cache st) =
      Evolves-IsLawful
        (resolve-Evolves d.net d.lru d.out d.auth req m (record { store = st; cache = cache }))
  ServerStep-IsLawful _ _ _ (logs_in req i passwords post v) = finish-IsLawful i.random v.store _ (
      try_login-IsLawful d.cfg d.auth req i d.back d.hasher passwords d.decoders d.api d.formats
        post v)
  ServerStep-IsLawful _ _ _ (calls_back req i state code v) =
      oauth2_callback-IsLawful d.cfg d.auth d.oidc req i state code v
  ServerStep-IsLawful _ _ _ (logs_out req redirect_query v) =
      Evolves-IsLawful (logout-Evolves d.cfg d.build_logout_url d.net d.auth req redirect_query v)
  ServerStep-IsLawful _ _ _ (asks_kubernetes f identity st) =
      Evolves-IsLawful (transport_for_request-Evolves d.rest f identity st)
  ServerStep-IsLawful _ _ _ (asks_antrea ra key build st) =
      Evolves-IsLawful (request_transport-Evolves ra key build st)
  ServerStep-IsLawful _ _ _ (proxy_answers status identity st) =
      Evolves-IsLawful (modify_response-Evolves status identity st)
  ServerStep-IsLawful _ _ _ (kubernetes_fails identity failure st) =
      Evolves-IsLawful (k8s_error-Evolves identity failure st)
  ServerStep-IsLawful _ _ _ (antrea_answers ra response st) =
      Evolves-IsLawful (received-Evolves ra response st)
  ServerStep-IsLawful _ _ _ (stream_ticks rs ra now at st) =
      Evolves-IsLawful (keep_alive-Evolves rs ra now at st)
  ServerStep-IsLawful _ _ _ (collects now st) = Evolves-IsLawful (do_gc-Evolves now st)

  abbrev pub WasDrawn : String → List (Option String) → Type 0
  WasDrawn id [] = ⊥
  WasDrawn id (drawn ∷ ids) = (drawn ≡ some id) ⊎ WasDrawn id ids

  pub record IsGuarded (st : Store) (ids : List (Option String)) (su : Store) : Type 0 where
    pub limits : IsWellFormed su
    pub origin :
        (id : String) (p : ℕ) → peek id su ≡ some p → WasDrawn id ids ⊎ (peek id st ≡ some p)

  -- Whatever requests are served, calls of Kubernetes are in flight, streams tick and collections run,
  -- in any order, from a store that keeps its limits on: the store keeps them, and a session is there
  -- only if it was there before, as the same object, or if a login has drawn its ID on the way. So an
  -- ID that a logout, a rejection, an eviction or an expiry has taken out names no session again
  -- unless it is drawn again.
  pub Reaches-IsGuarded :
      (st : Store) (ids : List (Option String)) (su : Store)
      → IsWellFormed st
      → Reaches st ids su
      → IsGuarded st ids su
  Reaches-IsGuarded st _ _ w here = record { limits = w; origin = λ id p k. inr k }
  Reaches-IsGuarded st _ _ w (after_step {ids} {drawn} {su} {sv} r step) =
      let g = Reaches-IsGuarded st ids su w r in
      let l = ServerStep-IsLawful drawn su sv step in
      record {
        limits = l.keeps g.limits;
        origin = λ id p k. elim (l.origin id p k) [
          | inl new ↦ inl (inl new)
          | inr old ↦ elim (g.origin id p old) [
            | inl earlier ↦ inl (inr earlier)
            | inr before ↦ inr before
          ]
        ];
      }
