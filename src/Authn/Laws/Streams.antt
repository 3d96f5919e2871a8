-- ===== src/Authn/Laws/Streams.antt =====
-- Long-running requests (context.go: KeepAlive, Invalidate): a stream ends with its session.
use antrea_ui.Base.{
  ℕ, ◌≤◌, ◌<◌, ◌≡◌, refl, subst, ◌⊎◌, inl, inr, Bool, true, false, ◌||◌, none, some, arith,
  Option-cases, is_zero, before, String, ap,
}
use antrea_ui.Session.Types.{Store, SessionError, Result, err}
use antrea_ui.Session.Get.{Refreshers, Readings, get}
use antrea_ui.Session.Store.{delete_session, peek}
use antrea_ui.Session.Laws.Liveness.{IsServed, Outcome, get-Outcome}
use antrea_ui.Session.Laws.Removal.{delete_session-IsGone, delete_session_unknown}
use antrea_ui.Authn.Types.{RequestAuth}
use antrea_ui.Authn.Identity.{succeeded, ephemeral, keep_alive, invalidate}

-- Whether a stream may go on, and the store afterwards.
pub data Tick (ra : RequestAuth) (now : ℕ) (at : Readings) (st : Store)
    : Bool × Store → Type 0 where
  renewed :
      (p q : ℕ) (su : Store)
      → ra.session ≡ some p
      → IsServed (st.heap.objects p).id q at st su
      → Tick ra now at st (true, su)
  session_over :
      (p : ℕ) (e : SessionError) (su : Store)
      → ra.session ≡ some p
      → Outcome (st.heap.objects p).id at st (err e, su)
      → Tick ra now at st (false, su)
  token_valid :
      ra.session ≡ none
      → ((ephemeral ra).expires_at ≡ 0) ⊎ (now < (ephemeral ra).expires_at)
      → Tick ra now at st (true, st)
  token_over :
      ra.session ≡ none
      → 0 < (ephemeral ra).expires_at
      → (ephemeral ra).expires_at ≤ now
      → Tick ra now at st (false, st)

session-Tick :
    (ra : RequestAuth) (now : ℕ) (at : Readings) (st : Store) (p : ℕ)
    → ra.session ≡ some p
    → (r : Result ℕ × Store) → Outcome (st.heap.objects p).id at st r
    → Tick ra now at st (succeeded r.0, r.1)
session-Tick ra now at st p s r (Outcome.unknown u) =
    session_over p SessionError.not_found _ s (Outcome.unknown u)
session-Tick ra now at st p s r (Outcome.served q su v) = renewed p q su s v
session-Tick ra now at st p s r (Outcome.ended q su v) =
    session_over p SessionError.expired su s (Outcome.ended q su v)

token-Tick :
    (ra : RequestAuth) (now : ℕ) (at : Readings) (st : Store)
    → ra.session ≡ none
    → (b : Bool) → (is_zero (ephemeral ra).expires_at || before now (ephemeral ra).expires_at) ≡ b
    → Tick ra now at st (b, st)
token-Tick ra now at st s true h = token_valid s (ground arith)
token-Tick ra now at st s false h = token_over s (ground arith) (ground arith)

-- A stream goes on just as long as its identity is valid. With a session, a tick is a lookup: it
-- renews the session, within its lifetime cap and with a valid credential, or the stream ends with
-- the session. Without one, the expiry of the token bounds the stream, where the token has one, and
-- the store is as it was.
pub keep_alive-Tick :
    (rs : Refreshers) (ra : RequestAuth) (now : ℕ) (at : Readings) (st : Store)
    → Tick ra now at st (keep_alive rs ra now at st)
unfolding keep_alive
keep_alive-Tick rs ra now at st = elim (Option-cases ra.session) [
  | inl s ↦
      subst (λ (x : Bool × Store). Tick ra now at st x) (ground arith)
        (token-Tick ra now at st s _ refl)
  | inr (p, s) ↦
      subst (λ (x : Bool × Store). Tick ra now at st x) (ground arith)
        (session-Tick ra now at st p s _ (get-Outcome rs (st.heap.objects p).id at st))
]

peek-delete_session : (id : String) (st : Store) → peek id (delete_session id st) ≡ none
peek-delete_session id st = elim (Option-cases (peek id st)) [
  | inl e ↦ rw (delete_session_unknown id st e) e
  | inr (p, e) ↦ (delete_session-IsGone id p st e).forgotten
]

get_unknown :
    (rs : Refreshers) (id : String) (at : Readings) (st : Store)
    → peek id st ≡ none
    → get rs id at st ≡ (err SessionError.not_found, st)
unfolding get peek
get_unknown rs id at st e = rw (e, get) refl

-- When the API server has rejected the credential of a request with a session, no later request with
-- that session's ID is served.
pub get-invalidate :
    (ra : RequestAuth) (p : ℕ) (st : Store) (rs : Refreshers) (at : Readings)
    → ra.session ≡ some p
    → (get rs (st.heap.objects p).id at (invalidate ra st)).0 ≡ err SessionError.not_found
unfolding invalidate
get-invalidate ra p st rs at s =
    rw (s, invalidate)
      (ap (λ (r : Result ℕ × Store). r.0)
        (get_unknown rs (st.heap.objects p).id at _
          (peek-delete_session (st.heap.objects p).id st)))
