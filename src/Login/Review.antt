-- ===== src/Login/Review.antt =====
-- What the API server says of a credential: ClientFactory.ValidateCredential
-- (pkg/k8s/credentials.go). The endpoints of the login take it as an `ApiServer`.
use antrea_ui.Base.{ℕ, String, ◌≡◌, refl, Option, none, some, [], Bytes, ap}
use antrea_ui.Session.Types.{Kind, Credential, CachedTransport, Heap}
use antrea_ui.Session.Memory.{contents}
use antrea_ui.AntreaSvc.Factory.{Rest, ClientFactory, factory_transport_for, transport_of, owned}
use antrea_ui.Login.Creation.{ApiServer, asked}

-- The user name that a SelfSubjectReview over a round tripper finds, `none` for an error.
abbrev pub SelfSubjectReview : Type 0
SelfSubjectReview = ℕ → Option String

-- With the clean-up that has run, if the transport has one.
abbrev pub reviewed : SelfSubjectReview → Option CachedTransport → Option String × Option ℕ
reviewed review none = (none, none)
reviewed review (some t) = (review t.rt, t.cleanup)

unfoldable pub review_credential :
    (rest : Rest)
    → ClientFactory rest
    → SelfSubjectReview
    → Credential
    → Heap
    → Option String × Option ℕ
unfolding factory_transport_for
review_credential rest f review c h = reviewed review (factory_transport_for rest f h c)

-- The slice, nil or not, as the client library gets it.
abbrev bytes_or_nil : Option Bytes → Bytes
bytes_or_nil b = elim b [ none ↦ [] | some bs ↦ bs ]

module _ (rest : Rest) (f : ClientFactory rest) (review : SelfSubjectReview) where
  -- The transport of a credential by what its buffers hold.
  abbrev transport_by :
      Kind → Option Bytes → Option Bytes → Option Bytes → String → Option CachedTransport
  transport_by Kind.bearer token cert key user_name =
      some (record { rt = rest.bearer_auth (bytes_or_nil token) f.base_transport; cleanup = none })
  transport_by Kind.cert token cert key user_name = owned rest (
      rest.round_tripper (
        rest.with_client_cert (bytes_or_nil cert) (bytes_or_nil key)
          (rest.anonymous_client_config f.config)))
  transport_by Kind.impersonate token cert key user_name =
      some (record { rt = rest.impersonating user_name f.sa_transport; cleanup = none })

  -- What the endpoints of the login ask.
  abbrev pub reviewing : ApiServer
  reviewing kind token cert key user_name =
      (reviewed review (transport_by kind token cert key user_name)).0

  transport_of-by :
      (c : Credential) (h : Heap) (kind : Kind)
      → transport_of rest f h c kind
        ≡ transport_by kind
            (contents c.token h)
            (contents c.cert_pem h)
            (contents c.key_pem h)
            c.user_name
  transport_of-by c h Kind.bearer = refl
  transport_of-by c h Kind.cert = refl
  transport_of-by c h Kind.impersonate = refl

  -- The answer depends on what the credential's buffers hold and on nothing else of the heap.
  pub review_credential-asked :
      (c : Credential) (h : Heap) → (review_credential rest f review c h).0 ≡ asked reviewing c h
  unfolding review_credential factory_transport_for
  review_credential-asked c h = ap (λ t. (reviewed review t).0) (transport_of-by c h c.kind)
