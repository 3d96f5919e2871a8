-- ===== src/Authn/Identity.antt =====
-- pkg/auth/session/context.go: the identity of a request in flight. It reads through to the session
-- and never keeps a copy of its credential.
use antrea_ui.Base.{ℕ, String, Bool, true, false, ◌||◌, Option, none, some, is_zero, before}
use antrea_ui.Session.Types.{Kind, Credential, Heap, Store, Result, ok, err}
use antrea_ui.Session.Transports.{TransportBuilder, transport_for}
use antrea_ui.Session.Store.{delete_session}
use antrea_ui.Session.Get.{Refreshers, Readings, get}
use antrea_ui.Authn.Types.{RequestAuth}

-- Go's zero Credential: its Kind is the first one.
abbrev pub zero_credential : Credential
zero_credential = record {
  kind = Kind.bearer;
  token = none;
  cert_pem = none;
  key_pem = none;
  user_name = "";
  expires_at = 0;
}

abbrev pub ephemeral : RequestAuth → Credential
ephemeral ra = elim ra.ephemeral_credential [ none ↦ zero_credential | some c ↦ c ]

unfoldable pub credential : RequestAuth → Heap → Credential
credential ra h = elim ra.session [ none ↦ ephemeral ra | some p ↦ (h.objects p).credential ]

unfoldable pub session_id : RequestAuth → Heap → String
session_id ra h = elim ra.session [ none ↦ "" | some p ↦ (h.objects p).id ]

-- An ephemeral credential gets a transport of its own, whose cleanup is dropped.
unfoldable pub request_transport : RequestAuth → String → TransportBuilder → Heap → Option ℕ × Heap
unfolding transport_for
request_transport ra key build h = elim ra.session [
  | some p ↦ transport_for key build p h
  | none ↦ (elim (build h (ephemeral ra)) [ none ↦ none | some t ↦ some t.rt ], h)
]

abbrev pub succeeded {ℓ} : {A : Type ℓ} → Result A → Bool
succeeded (ok a) = true
succeeded (err e) = false

unfoldable pub keep_alive : Refreshers → RequestAuth → ℕ → Readings → Store → Bool × Store
unfolding get
keep_alive rs ra now at st = elim ra.session [
  | none ↦ (is_zero (ephemeral ra).expires_at || before now (ephemeral ra).expires_at, st)
  | some p ↦ let (r, su) = get rs (st.heap.objects p).id at st in (succeeded r, su)
]

unfoldable pub invalidate : RequestAuth → Store → Store
unfolding delete_session
invalidate ra st = elim ra.session [ none ↦ st | some p ↦ delete_session (st.heap.objects p).id st ]
