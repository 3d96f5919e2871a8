-- ===== src/AntreaSvc/Answering.antt =====
-- What a request for the feature gates does to the session, and how it is answered
-- (pkg/handlers/antreasvc/handler.go: Request; pkg/server/api/featuregates.go).
use antrea_ui.Base.{
  String, ◌≡◌, refl, sym, subst, ◌↔◌, Bool, true, false, some, [], ◌∷◌, ◌==◌, if◌then◌else◌,
  Bool-cases, inl, inr, arith, ℕ, Option, none, Option-cases, ◌≢◌, ◌⊎◌, str_eq→eq, str_ne,
}
use antrea_ui.Session.Types.{Store, Heap}
use antrea_ui.Authn.Types.{RequestAuth}
use antrea_ui.Authn.Cookies.{unset_session_cookie}
use antrea_ui.Authn.Identity.{request_transport}
use antrea_ui.Upstream.Errors.{upstream_status_error}
use antrea_ui.Upstream.Rejections.{After, untouched, invalidate-After}
use antrea_ui.AntreaSvc.Factory.{Rest, ClientFactory, factory_transport_for}
use antrea_ui.AntreaSvc.Provider.{get_client_factory, transport_key}
use antrea_ui.AntreaSvc.Requests.{
  request_as, ServiceHandler, HttpClient, Response, Sent, received, send_with, request, get_host,
}
use antrea_ui.AntreaSvc.FeatureGates.{
  GatesReply, reply_code, reply_store, reply_cookies, broken, gates_reply, get_feature_gates,
}

-- An answer of the Antrea Service, given the store `st` at that time.
pub record IsPassedOn (are_gates : String → Bool) (ra : RequestAuth) (r : Response) (st : Store)
    (reply : GatesReply) : Type 0 where
  pub after_call : After (some ra) (r.status == 401) st (reply_store reply)
  pub logs_out : (reply_code reply ≡ 401) ↔ ((r.status ≡ 401) × (r.read_fails ≡ false))
  pub clears :
      reply_cookies reply ≡ (if reply_code reply == 401 then unset_session_cookie ∷ [] else [])
  pub delivers :
      (reply_code reply ≡ 200)
      ↔ ((r.status ≡ 200) × (r.read_fails ≡ false) × (are_gates r.body ≡ true))
  pub verbatim : reply_code reply ≡ 200 → reply ≡ GatesReply.gates r.body (reply_store reply)

received-After :
    (ra : RequestAuth) (r : Response) (st : Store)
    → After (some ra) (r.status == 401) st (received ra (some r) st).1
unfolding received
received-After ra r st = elim (Bool-cases (r.status == 401)) [
  | inl e ↦ rw e (invalidate-After ra st)
  | inr e ↦ rw e (untouched (inl refl))
]

store-gates_reply :
    (are_gates : String → Bool) (sent : Sent) (st : Store)
    → reply_store (gates_reply are_gates (sent, st)) ≡ st
unfolding gates_reply upstream_status_error
store-gates_reply are_gates sent st = ground arith

received-IsPassedOn :
    (are_gates : String → Bool) (ra : RequestAuth) (r : Response) (st : Store)
    → IsPassedOn are_gates ra r st (gates_reply are_gates (received ra (some r) st))
unfolding gates_reply upstream_status_error received
received-IsPassedOn are_gates ra r st = record {
  after_call =
      subst (After (some ra) (r.status == 401) st)
        (sym (store-gates_reply are_gates (received ra (some r) st).0 (received ra (some r) st).1))
        (received-After ra r st);
  logs_out = (λ e. ground arith, λ e. ground arith);
  clears = ground arith;
  delivers = (λ e. ground arith, λ e. ground arith);
  verbatim = λ e. ground arith;
}

-- The request can be made: there is a host, a client and an identity.
pub record IsReady (rest : Rest) (handler : ServiceHandler rest) (identity : Option RequestAuth)
    (ra : RequestAuth) (f : ClientFactory rest) (g : ℕ) : Type 0 where
  pub has_host : handler.host ≢ ""
  pub has_identity : identity ≡ some ra
  pub has_client : get_client_factory handler.client_provider ≡ some (f, g)

-- What the identity has for a transport in the current generation, and the heap with it.
abbrev transport : (rest : Rest) → RequestAuth → ClientFactory rest → ℕ → Heap → Option ℕ × Heap
transport rest ra f g h = request_transport ra (transport_key g) (factory_transport_for rest f) h

-- What becomes of the request: not sent, not answered, or answered.
pub data GatesOutcome (rest : Rest) (http : HttpClient) (are_gates : String → Bool)
    (meanwhile : Store → Store) (handler : ServiceHandler rest) (identity : Option RequestAuth)
    (st : Store) : GatesReply → Type 0 where
  not_ready :
      (handler.host ≡ "") ⊎ (handler.client_provider.factory ≡ none) ⊎ (identity ≡ none)
      → GatesOutcome rest http are_gates meanwhile handler identity st (broken st)
  no_transport :
      (ra : RequestAuth) (f : ClientFactory rest) (g : ℕ)
      → IsReady rest handler identity ra f g
      → (transport rest ra f g st.heap).0 ≡ none
      → GatesOutcome rest http are_gates meanwhile handler identity st
          (broken (record st { heap = (transport rest ra f g st.heap).1 }))
  malformed :
      (ra : RequestAuth) (f : ClientFactory rest) (g : ℕ)
      → IsReady rest handler identity ra f g
      → http.is_request "GET" (http.url_string handler.host "/featuregates") ≡ false
      → GatesOutcome rest http are_gates meanwhile handler identity st
          (broken (record st { heap = (transport rest ra f g st.heap).1 }))
  unanswered :
      (ra : RequestAuth) (f : ClientFactory rest) (g rt : ℕ)
      → IsReady rest handler identity ra f g
      → (transport rest ra f g st.heap).0 ≡ some rt
      → http.send rt "GET" (http.url_string handler.host "/featuregates") ≡ none
      → GatesOutcome rest http are_gates meanwhile handler identity st
          (broken (meanwhile (record st { heap = (transport rest ra f g st.heap).1 })))
  answered :
      (ra : RequestAuth) (f : ClientFactory rest) (g rt : ℕ) (r : Response) (reply : GatesReply)
      → IsReady rest handler identity ra f g
      → (transport rest ra f g st.heap).0 ≡ some rt
      → http.send rt "GET" (http.url_string handler.host "/featuregates") ≡ some r
      → IsPassedOn are_gates ra r
          (meanwhile (record st { heap = (transport rest ra f g st.heap).1 }))
          reply
      → GatesOutcome rest http are_gates meanwhile handler identity st reply

module _ (rest : Rest) (http : HttpClient) (are_gates : String → Bool) (meanwhile : Store → Store)
    (handler : ServiceHandler rest) (identity : Option RequestAuth) (st : Store) where
  abbrev Reached : GatesReply → Type 0
  Reached = GatesOutcome rest http are_gates meanwhile handler identity st

  sent_reached :
      (ra : RequestAuth) (f : ClientFactory rest) (g : ℕ)
      → IsReady rest handler identity ra f g
      → (t : Option ℕ) → (transport rest ra f g st.heap).0 ≡ t
      → Reached (
          gates_reply are_gates (
            send_with http meanwhile ra "GET"
              (http.url_string handler.host "/featuregates")
              t
              (record st { heap = (transport rest ra f g st.heap).1 })))
  unfolding send_with gates_reply
  sent_reached ra f g i none t = GatesOutcome.no_transport ra f g i t
  sent_reached ra f g i (some rt) t =
      let url = http.url_string handler.host "/featuregates" in
      elim (Bool-cases (http.is_request "GET" url)) [
        | inr e ↦ rw e (GatesOutcome.malformed ra f g i e)
        | inl e ↦ elim (Option-cases (http.send rt "GET" url)) [
          | inl s ↦ rw (e, s, received) (GatesOutcome.unanswered ra f g rt i t s)
          | inr (r, s) ↦
              rw (e, s)
                (GatesOutcome.answered ra f g rt r _ i t s (received-IsPassedOn are_gates ra r _))
        ]
      ]

  no_host : get_host handler ≡ none → handler.host ≡ ""
  unfolding get_host
  no_host e = str_eq→eq handler.host "" (ground arith)

  no_factory :
      get_client_factory handler.client_provider ≡ none → handler.client_provider.factory ≡ none
  unfolding get_client_factory
  no_factory e = elim (Option-cases handler.client_provider.factory) [
    | inl n ↦ n
    | inr (f, n) ↦ absurd (ground (arith, n))
  ]

  a_host : (host : String) → get_host handler ≡ some host → handler.host ≢ ""
  unfolding get_host
  a_host host e = str_ne handler.host "" (ground arith)

  hosted : (host : String) → get_host handler ≡ some host → host ≡ handler.host
  unfolding get_host
  hosted host e = ground arith

  reached :
      (host : Option String) (client : Option (ClientFactory rest × ℕ)) (o : Option RequestAuth)
      → get_host handler ≡ host
      → get_client_factory handler.client_provider ≡ client
      → identity ≡ o
      → Reached (
          gates_reply are_gates
            (request_as rest http meanwhile host client o "GET" "/featuregates" st))
  unfolding gates_reply
  reached none client o e p i = GatesOutcome.not_ready (inl (no_host e))
  reached (some host) none o e p i = GatesOutcome.not_ready (inr (inl (no_factory p)))
  reached (some host) (some client) none e p i = GatesOutcome.not_ready (inr (inr i))
  reached (some host) (some (f, g)) (some ra) e p i = rw (hosted host e) (
      sent_reached ra f g (record { has_host = a_host host e; has_identity = i; has_client = p }) _
        refl)

  -- A request for the feature gates is not made where the host, the client or the identity is
  -- missing: the reply is then a 500 without a cookie, and the store is as it was. Else the
  -- identity is asked for its transport of the current generation. Where it has none, the request
  -- is malformed, or no answer comes, the reply is the same 500, and the request has done nothing
  -- else to the store. Or the Antrea Service answers over this transport. Then the identity's
  -- session, where the store still holds it, is ended just when the answer is a 401; the reply is a
  -- 401, with the cookie deleted, just when this answer could also be read; and it is a 200 just
  -- when the answer is one whose body is feature gates, which is passed on unchanged. Sessions may
  -- have changed in other ways while the answer was awaited.
  pub get_feature_gates-GatesOutcome :
      Reached (get_feature_gates rest http are_gates meanwhile handler identity st)
  unfolding get_feature_gates request
  get_feature_gates-GatesOutcome = reached _ _ identity refl refl refl
