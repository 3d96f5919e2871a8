-- ===== src/Upstream/Rejections.antt =====
-- Only a rejected credential ends a session (k8sproxy/handler.go: ModifyResponse; k8s_errors.go).
use antrea_ui.Base.{
  ℕ, ◌≡◌, refl, ◌↔◌, ◌⊎◌, inl, inr, Bool, true, false, ◌&&◌, not, Option, none, some, [], ◌∷◌,
  arith, ◌==◌, if◌then◌else◌, Bool-cases, is_none,
}
use antrea_ui.Session.Types.{Store}
use antrea_ui.Session.Store.{delete_session, peek}
use antrea_ui.Session.Laws.Removal.{IsGone, delete_session-IsGone}
use antrea_ui.Authn.Types.{RequestAuth}
use antrea_ui.Authn.Cookies.{unset_session_cookie}
use antrea_ui.Authn.Identity.{invalidate}
use antrea_ui.Upstream.Errors.{
  ApiFailure, unauthorized, forbidden, not_found, other, Reply, k8s_error,
}
use antrea_ui.Upstream.Proxy.{modify_response}

-- After a call of Kubernetes with this identity, the store `su`.
pub data After (identity : Option RequestAuth) (rejected : Bool) (st : Store) : Store → Type 0 where
  untouched : (rejected ≡ false) ⊎ (identity ≡ none) → After identity rejected st st
  without_session :
      (ra : RequestAuth)
      → rejected ≡ true
      → identity ≡ some ra
      → ra.session ≡ none
      → After identity rejected st st
  session_ended :
      (ra : RequestAuth) (p : ℕ) (su : Store)
      → rejected ≡ true
      → identity ≡ some ra
      → ra.session ≡ some p
      → (peek (st.heap.objects p).id st ≡ some p → IsGone (st.heap.objects p).id p st su)
      → After identity rejected st su

pub invalidate-After : (ra : RequestAuth) (st : Store) → After (some ra) true st (invalidate ra st)
unfolding invalidate
invalidate-After ra st = session_case ra.session refl
  where
    session_case :
        (o : Option ℕ)
        → ra.session ≡ o
        → After
            (some ra)
            true
            st
            (elim o [ none ↦ st | some p ↦ delete_session (st.heap.objects p).id st ])
    session_case none s = without_session ra refl refl s
    session_case (some p) s =
        session_ended ra p _ refl refl s
          (λ known. delete_session-IsGone (st.heap.objects p).id p st known)

-- An answer of the API server touches the store only when it is a 401 to a request with an identity.
-- If that identity has a session that the store still holds, the session is then gone, and its
-- material is erased; a 403, and every other answer, leaves every session as it was.
pub modify_response-After :
    (status : ℕ) (identity : Option RequestAuth) (st : Store)
    → After identity (status == 401) st (modify_response status identity st)
unfolding modify_response
modify_response-After status none st = elim (Bool-cases (status == 401)) [
  | inl e ↦ rw (e, modify_response) (untouched (inr refl))
  | inr e ↦ rw (e, modify_response) (untouched (inl refl))
]
modify_response-After status (some ra) st = elim (Bool-cases (status == 401)) [
  | inl e ↦ rw (e, modify_response) (invalidate-After ra st)
  | inr e ↦ rw (e, modify_response) (untouched (inl refl))
]

abbrev pub is_unauthorized : ApiFailure → Bool
is_unauthorized unauthorized = true
is_unauthorized _ = false

-- How a failed call of Kubernetes is answered.
pub record IsAnswered (identity : Option RequestAuth) (f : ApiFailure) (st : Store) (r : Reply)
    : Type 0 where
  pub same_verdict : (r.error.code ≡ 401) ↔ (is_unauthorized f ≡ true)
  pub after_call : After identity (is_unauthorized f) st r.store
  pub cookie_cleared :
      r.set_cookies
      ≡ (if is_unauthorized f && not (is_none identity) then unset_session_cookie ∷ [] else [])

-- A failed call of Kubernetes is answered with 401 just when the API server has rejected the
-- credential itself. Only then does the store change, in that the session of the request is ended,
-- and only then is the cookie of a request with an identity deleted.
pub k8s_error-IsAnswered :
    (identity : Option RequestAuth) (f : ApiFailure) (st : Store)
    → IsAnswered identity f st (k8s_error identity f st)
unfolding k8s_error
k8s_error-IsAnswered none unauthorized st = record {
  same_verdict = (λ h. refl, λ h. refl);
  after_call = untouched (inr refl);
  cookie_cleared = refl;
}
k8s_error-IsAnswered (some ra) unauthorized st = record {
  same_verdict = (λ h. refl, λ h. refl);
  after_call = invalidate-After ra st;
  cookie_cleared = refl;
}
k8s_error-IsAnswered identity (forbidden text) st = record {
  same_verdict = (λ h. absurd (ground arith), λ h. absurd (ground arith));
  after_call = untouched (inl refl);
  cookie_cleared = refl;
}
k8s_error-IsAnswered identity (not_found text) st = record {
  same_verdict = (λ h. absurd (ground arith), λ h. absurd (ground arith));
  after_call = untouched (inl refl);
  cookie_cleared = refl;
}
k8s_error-IsAnswered identity (other text) st = record {
  same_verdict = (λ h. absurd (ground arith), λ h. absurd (ground arith));
  after_call = untouched (inl refl);
  cookie_cleared = refl;
}
