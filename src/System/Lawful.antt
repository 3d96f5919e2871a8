-- ===== src/System/Lawful.antt =====
-- What the server may do to its session store in one step (pkg/auth/session/store.go), and the
-- operations on a session that the handlers share (context.go, pkg/k8s/factory.go,
-- pkg/server/api/k8s_errors.go).
use antrea_ui.Base.{ℕ, String, ◌≡◌, refl, ◌⊎◌, inl, inr, Option, none, some, Bool-cases, ◌==◌}
use antrea_ui.Session.Types.{Spec, Store, Credential}
use antrea_ui.Session.Memory.{spec_zero, credential_zero}
use antrea_ui.Session.Memory.Erasure.{spec_zero-objects, credential_zero-objects}
use antrea_ui.Session.Memory.Keeping.{Keeps-objects}
use antrea_ui.Session.Transports.{TransportBuilder, transport_for}
use antrea_ui.Session.Store.{create, delete_session, peek}
use antrea_ui.Session.Get.{Refreshers, Readings}
use antrea_ui.Session.Run.{transport_for-Keeps}
use antrea_ui.Session.Invariant.{
  IsWellFormed, Evolves, Evolves-refl, Evolves-IsWellFormed, Pruned-lookup,
}
use antrea_ui.Session.Invariant.Operations.{delete_session-Evolves}
use antrea_ui.Session.Invariant.Lookups.{get-Evolves, heap-Evolves}
use antrea_ui.Session.Invariant.Creation.{create-IsWellFormed}
use antrea_ui.Session.Laws.Origins.{create_origin}
use antrea_ui.Authn.Types.{RequestAuth}
use antrea_ui.Authn.Identity.{keep_alive, invalidate, request_transport}
use antrea_ui.AntreaSvc.Factory.{Rest, ClientFactory, factory_transport_for}
use antrea_ui.Traceflow.Clients.{transport_for_request}
use antrea_ui.Upstream.Errors.{ApiFailure, k8s_error}
use antrea_ui.Upstream.Proxy.{modify_response}

-- From `st` to `su` the store keeps its limits, and no session appears but one under the ID that was
-- drawn for it.
pub record IsLawful (drawn : Option String) (st su : Store) : Type 0 where
  pub keeps : IsWellFormed st → IsWellFormed su
  pub origin :
      (id : String) (p : ℕ) → peek id su ≡ some p → (drawn ≡ some id) ⊎ (peek id st ≡ some p)

pub Evolves-IsLawful :
    {drawn : Option String} {st su : Store} → Evolves st su → IsLawful drawn st su
unfolding peek
Evolves-IsLawful e = record {
  keeps = λ w. Evolves-IsWellFormed e w;
  origin = λ id p k. inr (Pruned-lookup e.pruned id p k);
}

pub IsLawful-trans :
    {drawn : Option String} {st su sv : Store}
    → IsLawful drawn st su
    → IsLawful drawn su sv
    → IsLawful drawn st sv
IsLawful-trans a b = record {
  keeps = λ w. b.keeps (a.keeps w);
  origin = λ id p k. elim (b.origin id p k) [ inl new ↦ inl new | inr old ↦ a.origin id p old ];
}

pub create-IsLawful :
    (random : Option String) (now : ℕ) (spec : Spec) (st : Store)
    → IsLawful random st (create random now spec st).1
create-IsLawful random now spec st = record {
  keeps = λ w. create-IsWellFormed random now spec st w;
  origin = λ id p k. create_origin random now spec st id p k;
}

pub spec_zero-Evolves :
    (spec : Spec) (st : Store) → Evolves st (record st { heap = (spec_zero spec st.heap).1 })
spec_zero-Evolves spec st =
    let (o, n) = spec_zero-objects spec st.heap in heap-Evolves st _ (Keeps-objects o n)

pub credential_zero-Evolves :
    (c : Credential) (st : Store) → Evolves st (record st { heap = (credential_zero c st.heap).1 })
credential_zero-Evolves c st =
    let o = credential_zero-objects c st.heap in heap-Evolves st _ (Keeps-objects o.0 o.2)

pub invalidate-Evolves : (ra : RequestAuth) (st : Store) → Evolves st (invalidate ra st)
unfolding invalidate
invalidate-Evolves ra st = by_session ra.session
  where
    by_session :
        (o : Option ℕ)
        → Evolves st (elim o [ none ↦ st | some p ↦ delete_session (st.heap.objects p).id st ])
    by_session none = Evolves-refl st
    by_session (some p) = delete_session-Evolves (st.heap.objects p).id st

pub keep_alive-Evolves :
    (rs : Refreshers) (ra : RequestAuth) (now : ℕ) (at : Readings) (st : Store)
    → Evolves st (keep_alive rs ra now at st).1
unfolding keep_alive
keep_alive-Evolves rs ra now at st = by_session ra.session refl
  where
    by_session : (o : Option ℕ) → ra.session ≡ o → Evolves st (keep_alive rs ra now at st).1
    by_session none e = rw (e, keep_alive) (Evolves-refl st)
    by_session (some p) e = rw (e, keep_alive) (get-Evolves rs (st.heap.objects p).id at st)

pub modify_response-Evolves :
    (status : ℕ) (identity : Option RequestAuth) (st : Store)
    → Evolves st (modify_response status identity st)
unfolding modify_response
modify_response-Evolves status none st = elim (Bool-cases (status == 401)) [
  | inl e ↦ rw e (Evolves-refl st)
  | inr e ↦ rw e (Evolves-refl st)
]
modify_response-Evolves status (some ra) st = elim (Bool-cases (status == 401)) [
  | inl e ↦ rw e (invalidate-Evolves ra st)
  | inr e ↦ rw e (Evolves-refl st)
]

pub k8s_error-Evolves :
    (identity : Option RequestAuth) (failure : ApiFailure) (st : Store)
    → Evolves st (k8s_error identity failure st).store
unfolding k8s_error
k8s_error-Evolves none ApiFailure.unauthorized st = Evolves-refl st
k8s_error-Evolves (some ra) ApiFailure.unauthorized st = invalidate-Evolves ra st
k8s_error-Evolves identity (ApiFailure.forbidden text) st = Evolves-refl st
k8s_error-Evolves identity (ApiFailure.not_found text) st = Evolves-refl st
k8s_error-Evolves identity (ApiFailure.other text) st = Evolves-refl st

pub request_transport-Evolves :
    (ra : RequestAuth) (key : String) (build : TransportBuilder) (st : Store)
    → Evolves st (record st { heap = (request_transport ra key build st.heap).1 })
unfolding request_transport
request_transport-Evolves ra key build st = by_session ra.session refl
  where
    by_session :
        (o : Option ℕ)
        → ra.session ≡ o
        → Evolves st (record st { heap = (request_transport ra key build st.heap).1 })
    by_session none e = rw (e, request_transport) (Evolves-refl st)
    by_session (some p) e =
        rw (e, request_transport)
          (heap-Evolves st (transport_for key build p st.heap).1
            (transport_for-Keeps key build p st.heap))

pub transport_for_request-Evolves :
    (rest : Rest) (f : ClientFactory rest) (identity : Option RequestAuth) (st : Store)
    → Evolves st (transport_for_request rest f identity st).1
unfolding transport_for_request
transport_for_request-Evolves rest f none st = Evolves-refl st
transport_for_request-Evolves rest f (some ra) st =
    request_transport-Evolves ra f.transport_key (factory_transport_for rest f) st
