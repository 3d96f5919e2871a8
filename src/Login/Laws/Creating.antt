-- ===== src/Login/Laws/Creating.antt =====
-- createSession: one session, in place of the caller's old one, or none.
use antrea_ui.Base.{
  ℕ, String, ◌≤◌, ◌≡◌, refl, ap, ◌∙◌, ◌≢◌, ◌⊎◌, inl, inr, Option, none, some, ◌∷◌, ◌++◌, arith,
  Option-cases, before, length, All, sym, true,
}
use antrea_ui.Session.Types.{Options, Spec, Store, SessionError, Result, err}
use antrea_ui.Session.Memory.{spec_zero, IsErased}
use antrea_ui.Session.Memory.Erasure.{spec_zero-objects, spec_material, spec_zero-material}
use antrea_ui.Session.Store.{create, peek, new_session}
use antrea_ui.Session.Invariant.{
  Evolves-trans, IsWellFormed, Evolves, Evolves-refl, Evolves-IsWellFormed, Pruned-lookup,
}
use antrea_ui.Session.Invariant.Operations.{delete_session-Evolves}
use antrea_ui.Session.Laws.Admission.{refused, admitted, Admission, create-Admission}
use antrea_ui.Session.Laws.Removal.{delete_session_unknown, delete_session-IsGone}
use antrea_ui.Session.Laws.Origins.{create_origin, create_refused-Evolves}
use antrea_ui.Authn.Types.{Request, Config, ServerError}
use antrea_ui.Login.Types.{ServerConfig, Visit, add_cookies}
use antrea_ui.Login.Creation.{create_session, created, drop_old, same_site, create_error}
use antrea_ui.Authn.Cookies.{unset_legacy_cookies, set_session_cookie, get_session_cookie}
use antrea_ui.Session.Laws.Sparing.{delete_session-IsSpared, IsSpared, IsFree, create-spares}
use antrea_ui.Session.Expiry.{alive}

pub drop_old-Evolves : (old : Option String) (st : Store) → Evolves st (drop_old old st)
unfolding drop_old
drop_old-Evolves none st = Evolves-refl st
drop_old-Evolves (some id) st = delete_session-Evolves id st

drop_old-forgets : (id : String) (st : Store) → peek id (drop_old (some id) st) ≡ none
unfolding drop_old
drop_old-forgets id st = elim (Option-cases (peek id st)) [
  | inl e ↦ rw (delete_session_unknown id st e) e
  | inr (p, e) ↦ (delete_session-IsGone id p st e).forgotten
]

-- Every session of the later store is one of the earlier store.
abbrev pub AddsNone : Store → Store → Type 0
AddsNone st su = (jd : String) (q : ℕ) → peek jd su ≡ some q → peek jd st ≡ some q

pub Evolves-AddsNone : {st su : Store} → Evolves st su → AddsNone st su
unfolding peek
Evolves-AddsNone e jd q k = Pruned-lookup e.pruned jd q k

-- The store has a new session under `id` and no other one, and the caller's old one is gone. A buffer
-- that no session named before keeps its bytes, those that the new session names included.
pub record IsOpened (id : String) (now : ℕ) (spec : Spec) (old : Option String) (st su : Store)
    : Type 0 where
  pub at : ℕ
  pub known : peek id su ≡ some at
  pub object : su.heap.objects at ≡ new_session id now st.opts spec
  pub replaced : (jd : String) → old ≡ some jd → jd ≢ id → peek jd su ≡ none
  pub only : (jd : String) (q : ℕ) → peek jd su ≡ some q → (id ≡ jd) ⊎ (peek jd st ≡ some q)
  pub same_bytes : (b : ℕ) → IsFree b st.heap st.sessions → su.heap.bytes b ≡ st.heap.bytes b

abbrev AreAlive : Options → ℕ → Store → Type 0
AreAlive o now st =
    (jd : String) (q : ℕ) → peek jd st ≡ some q → alive o (st.heap.objects q) now ≡ true

-- Erasing a login's buffers leaves the sessions as they are.
spec_zero-AreAlive :
    (o : Options) (now : ℕ) (spec : Spec) (st : Store)
    → AreAlive o now st
    → AreAlive o now (record st { heap = (spec_zero spec st.heap).1 })
unfolding peek
spec_zero-AreAlive o now spec st live jd q k = rw (spec_zero-objects spec st.heap).0 (live jd q k)

pub drop_old-IsSpared :
    (b : ℕ) (old : Option String) (st : Store)
    → IsFree b st.heap st.sessions
    → IsSpared b st (drop_old old st)
unfolding drop_old
drop_old-IsSpared b none st f = record { bytes = refl; free = f }
drop_old-IsSpared b (some id) st f = delete_session-IsSpared b id st f

pub record IsTurnedAway (spec : Spec) (v w : Visit) : Type 0 where
  pub erased_material : All (IsErased w.store.heap) (spec_material spec)
  pub adds_none : AddsNone v.store w.store
  pub no_cookies : w.set_cookies ≡ v.set_cookies

module _ (cfg : ServerConfig) (auth : Config) (req : Request) (now : ℕ) (spec : Spec)
    (v : Visit) where
  pub data Creation (random : Option String) : Option ServerError × Visit → Type 0 where
    opened :
        (id : String) (w : Visit)
        → random ≡ some id
        → IsOpened id now spec (get_session_cookie req) v.store w.store
        → w.set_cookies ≡ (
            v.set_cookies
            ++ set_session_cookie id cfg.cookie_secure (same_site auth) ∷ unset_legacy_cookies req)
        → Creation random (none, w)
    no_id :
        (w : Visit)
        → random ≡ none
        → IsTurnedAway spec v w
        → Creation random (some (create_error SessionError.no_randomness), w)
    full :
        (w : Visit)
        → v.store.opts.max_sessions ≤ length w.store.sessions
        → AreAlive v.store.opts now w.store
        → IsTurnedAway spec v w
        → Creation random (some (create_error SessionError.too_many_sessions), w)

  -- Where a session has been opened, each buffer that none named before has its bytes still.
  pub opened_with_bytes :
      (random : Option String) (w : Visit) (r : Option ServerError × Visit)
      → Creation random r
      → r ≡ (none, w)
      → (b : ℕ) → IsFree b v.store.heap v.store.sessions
      → w.store.heap.bytes b ≡ v.store.heap.bytes b
  opened_with_bytes random w _ (opened id x is_random o cookies) is_r b free =
      ap (λ (r : Option ServerError × Visit). r.1.store.heap.bytes b) (sym is_r)
      ∙ o.same_bytes b free
  opened_with_bytes random w _ (no_id x is_random t) is_r b free = absurd (ground (arith, is_r))
  opened_with_bytes random w _ (full x many live t) is_r b free = absurd (ground (arith, is_r))

  turned_away :
      (su : Store)
      → Evolves v.store su
      → IsTurnedAway spec v (record v { store = record su { heap = (spec_zero spec su.heap).1 } })
  unfolding peek
  turned_away su e = record {
    erased_material = spec_zero-material spec su.heap;
    adds_none = Evolves-AddsNone e;
    no_cookies = refl;
  }

  created-Creation :
      (id : String) (st : Store) (r : Result ℕ × Store)
      → Evolves v.store st
      → Admission id now spec st r
      → ((e : SessionError) → r.0 ≡ err e → Evolves st r.1)
      → ((jd : String) (q : ℕ) → peek jd r.1 ≡ some q → (some id ≡ some jd) ⊎ (peek jd st ≡ some q))
      → ((jd : String) → get_session_cookie req ≡ some jd → peek jd st ≡ none)
      → ((b : ℕ) → IsFree b v.store.heap v.store.sessions → r.1.heap.bytes b ≡ v.store.heap.bytes b)
      → Creation (some id) (created cfg auth req spec v r)
  unfolding created add_cookies
  created-Creation id st _ e (admitted p su known object) f origin gone spares =
      opened id _ refl
        (record {
          at = p;
          known = known;
          object = object ∙ ap (λ o. new_session id now o spec) e.same_opts;
          replaced = λ jd old ne. elim (Option-cases (peek jd su)) [
            | inl n ↦ n
            | inr (q, k) ↦ elim (origin jd q k) [
              | inl same ↦ absurd (ne (ground arith))
              | inr before ↦ absurd (ground (arith, gone jd old))
            ]
          ];
          only = λ jd q k. elim (origin jd q k) [
            | inl same ↦ inl (ground arith)
            | inr before ↦ inr (Evolves-AddsNone e jd q before)
          ];
          same_bytes = spares;
        })
        (rw object refl)
  created-Creation id st _ e (refused su many live) f origin gone spares =
      full _ (rw e.same_opts at many)
        (spec_zero-AreAlive v.store.opts now spec su (rw (sym e.same_opts) live))
        (turned_away su (Evolves-trans e (f SessionError.too_many_sessions refl)))

  -- A login either opens one session, or answers 503 where the store is full of live sessions or
  -- 500 where no ID could be drawn. The session has the mode, name and credential of the login and
  -- is the only one that is new; the one that the caller's cookie named is gone; each buffer that
  -- no session of the store named before has its bytes still, also where the new session names it;
  -- and the response sets the cookie to the new ID and clears the old scheme's cookies. Otherwise
  -- each buffer of the login's credential holds zeros, no session is new and no cookie is set.
  pub create_session-Creation :
      (random : Option String)
      → IsWellFormed v.store
      → Creation random (create_session cfg auth req random now spec v)
  unfolding create_session created create
  create_session-Creation none w =
      no_id _ refl (turned_away _ (drop_old-Evolves (get_session_cookie req) v.store))
  create_session-Creation (some id) w =
      let old = get_session_cookie req in
      let st = drop_old old v.store in
      let e : Evolves v.store st = drop_old-Evolves old v.store in
      created-Creation id st (create (some id) now spec st) e
        (create-Admission id now spec st (Evolves-IsWellFormed e w))
        (create_refused-Evolves (some id) now spec st) (create_origin (some id) now spec st)
        (λ jd is_old. rw is_old (drop_old-forgets jd v.store))
        (λ b free.
          let d = drop_old-IsSpared b old v.store free in
          create-spares b (some id) now spec st (Evolves-IsWellFormed e w) d.free ∙ d.bytes)
