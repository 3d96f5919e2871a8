-- ===== src/Oidc/Laws/Evidence.antt =====
-- What a callback must bring with it, and its outcome once it has.
use antrea_ui.Base.{String, ◌≡◌, refl, Option, none, some, [], ◌∷◌, arith, Bytes, ℕ, suc, ◌≤◌, ◌≢◌}
use antrea_ui.Session.Types.{Kind, Spec, Heap, Store}
use antrea_ui.Session.Memory.{contents, new_buffer}
use antrea_ui.Session.Memory.Keeping.{Keeps-trans, new_buffer-Keeps}
use antrea_ui.Session.Invariant.{IsWellFormed, Evolves, Evolves-IsWellFormed, same}
use antrea_ui.Authn.Types.{Request, Config, ServerError}
use antrea_ui.Authn.Cookies.{find_cookie}
use antrea_ui.Login.Types.{redirect, failed, ServerConfig, Visit, Reply, Instant, add_cookies}
use antrea_ui.Login.Creation.{asked}
use antrea_ui.Login.Laws.Holding.{AreAllocated, fresh-IsFree, new_buffer-objects}
use antrea_ui.Login.Laws.Creating.{
  opened_with_bytes, Creation, create_session-Creation, IsTurnedAway, Evolves-AddsNone,
}
use antrea_ui.Login.Laws.Entering.{with_heap}
use antrea_ui.Oidc.State.{OAuth2State}
use antrea_ui.Oidc.Laws.Signing.{IsSigned}
use antrea_ui.Oidc.Refresh.{TokenResponse, IdToken}
use antrea_ui.Oidc.Endpoints.{
  oauth2_deletions, nonce_cookie_name, id_token_refused, state_cookie_name, present_bytes, Parts,
  callback_verified, callback_done, open_oidc, oidc_spec, callback_target,
}
use antrea_ui.Session.Store.{peek}
use antrea_ui.Session.Memory.Erasure.{spec_zero-material}

-- The credential of the callback stands in buffers that hold the tokens.
held_spec :
    (cfg : ServerConfig) (auth : Config) (x : Parts) (req : Request) (raw : Bytes) (idt : IdToken)
    (refresh_token : Bytes) (h : Heap)
    → asked x.api
        (oidc_spec cfg auth x req raw idt refresh_token h).0.credential
        (oidc_spec cfg auth x req raw idt refresh_token h).1
      ≡ x.api Kind.bearer (some raw) none none ""
unfolding oidc_spec new_buffer contents
held_spec cfg auth x req raw idt [] h = ground arith
held_spec cfg auth x req raw idt (b ∷ bs) h = ground arith

-- In this heap, the buffers that were allocated for the tokens hold them.
pub record HoldsTokens (spec : Spec) (raw refresh_token : Bytes) (h : Heap) : Type 0 where
  pub id_token : contents spec.credential.token h ≡ some raw
  pub no_refresh_token : refresh_token ≡ [] → spec.refresh_token ≡ none
  pub kept_refresh_token : refresh_token ≢ [] → contents spec.refresh_token h ≡ some refresh_token

spec-HoldsTokens :
    (cfg : ServerConfig) (auth : Config) (x : Parts) (req : Request) (raw : Bytes) (idt : IdToken)
    (refresh_token : Bytes) (h k : Heap)
    → ((b : ℕ)
        → h.next_buffer ≤ b
        → k.bytes b ≡ (oidc_spec cfg auth x req raw idt refresh_token h).1.bytes b)
    → HoldsTokens (oidc_spec cfg auth x req raw idt refresh_token h).0 raw refresh_token k
unfolding oidc_spec new_buffer contents
spec-HoldsTokens cfg auth x req raw idt [] h k kept = record {
  id_token = ground (arith, kept h.next_buffer (omega arith));
  no_refresh_token = λ e. refl;
  kept_refresh_token = λ ne. absurd (ne refl);
}
spec-HoldsTokens cfg auth x req raw idt (b ∷ bs) h k kept = record {
  id_token = ground (arith, kept (suc h.next_buffer) (omega arith));
  no_refresh_token = λ e. absurd (ground (arith, e));
  kept_refresh_token = λ ne. ground (arith, kept h.next_buffer (omega arith));
}

objects-oidc_spec :
    (cfg : ServerConfig) (auth : Config) (x : Parts) (req : Request) (raw : Bytes) (idt : IdToken)
    (refresh_token : Bytes) (h : Heap)
    → (oidc_spec cfg auth x req raw idt refresh_token h).1.objects ≡ h.objects
unfolding oidc_spec
objects-oidc_spec cfg auth x req raw idt refresh_token h = simp new_buffer-objects

pub spec-Evolves :
    (cfg : ServerConfig) (auth : Config) (x : Parts) (req : Request) (raw : Bytes) (idt : IdToken)
    (refresh_token : Bytes) (st : Store)
    → Evolves st (record st { heap = (oidc_spec cfg auth x req raw idt refresh_token st.heap).1 })
unfolding oidc_spec
spec-Evolves cfg auth x req raw idt refresh_token st =
    let h₁ = (new_buffer (present_bytes cfg auth x req refresh_token) st.heap).1 in
    record {
      same_opts = refl;
      keeps =
          Keeps-trans (new_buffer-Keeps (present_bytes cfg auth x req refresh_token) st.heap)
            (new_buffer-Keeps (some raw) h₁);
      pruned = same;
    }

module _ (cfg : ServerConfig) (auth : Config) (x : Parts) (req : Request) where
  -- What a callback must bring with it: the nonce of a state that is in this browser's cookie under a
  -- valid signature of the server,
  -- a code for which the provider gives a verified ID token, and the nonce cookie whose hash the
  -- token carries.
  pub record Evidence (state code : Option String) (raw : Bytes) (idt : IdToken)
      (refresh_token : Bytes) (redirect_url : String) : Type 0 where
    pub cookie : String
    pub state_found : find_cookie state_cookie_name req.cookies ≡ some cookie
    pub cs : OAuth2State
    pub signed : IsSigned x.codec x.provider.oauth2_state_secret cookie cs
    pub state_matches : state ≡ some cs.nonce
    pub query_code : String
    pub sent : code ≡ some query_code
    pub answer : TokenResponse
    pub exchanged : x.idp.exchange query_code ≡ some answer
    pub has_token : answer.id_token ≡ some raw
    pub verified : x.idp.verify raw ≡ some idt
    pub nonce : String
    pub nonce_found : find_cookie nonce_cookie_name req.cookies ≡ some nonce
    pub nonce_matches : idt.nonce ≡ x.hash_oidc_nonce nonce
    pub is_refresh : answer.refresh_token ≡ refresh_token
    pub is_redirect : cs.redirect_url ≡ redirect_url

  -- The outcome of a callback.
  pub data Callback (i : Instant) (state code : Option String) (v : Visit)
      : Reply × Visit → Type 0 where
    refused :
        (e : ServerError)
        → ((raw : Bytes) (idt : IdToken) (refresh_token : Bytes) (redirect_url : String)
            → ¬ Evidence state code raw idt refresh_token redirect_url)
        → Callback i state code v (failed e, v)
    unwelcome :
        (raw : Bytes) (idt : IdToken) (refresh_token : Bytes) (redirect_url : String) (w : Visit)
        → Evidence state code raw idt refresh_token redirect_url
        → x.api Kind.bearer (some raw) none none "" ≡ none
        → IsTurnedAway (oidc_spec cfg auth x req raw idt refresh_token v.store.heap).0 v w
        → Callback i state code v (failed (id_token_refused cfg auth x req), w)
    no_room :
        (raw : Bytes) (idt : IdToken) (refresh_token : Bytes) (redirect_url username : String)
        (e : ServerError) (w : Visit)
        → Evidence state code raw idt refresh_token redirect_url
        → x.api Kind.bearer (some raw) none none "" ≡ some username
        → Creation cfg auth req i.now
            (record ((oidc_spec cfg auth x req raw idt refresh_token v.store.heap).0) {
              username = username;
            })
            (with_heap (oidc_spec cfg auth x req raw idt refresh_token v.store.heap).1 v)
            i.random
            (some e, w)
        → Callback i state code v (failed e, w)
    entered :
        (raw : Bytes) (idt : IdToken) (refresh_token : Bytes) (redirect_url username : String)
        (w : Visit)
        → Evidence state code raw idt refresh_token redirect_url
        → x.api Kind.bearer (some raw) none none "" ≡ some username
        → Creation cfg auth req i.now
            (record ((oidc_spec cfg auth x req raw idt refresh_token v.store.heap).0) {
              username = username;
            })
            (with_heap (oidc_spec cfg auth x req raw idt refresh_token v.store.heap).1 v)
            i.random
            (none, w)
        → HoldsTokens
            (oidc_spec cfg auth x req raw idt refresh_token v.store.heap).0
            raw
            refresh_token
            w.store.heap
        → Callback i state code v (
          redirect 302 (callback_target cfg auth x req redirect_url),
          add_cookies oauth2_deletions w,
        )

  module _ (i : Instant) (state code : Option String) (v : Visit) (w : IsWellFormed v.store)
      (a : AreAllocated v.store) where
    module _ (raw : Bytes) (idt : IdToken) (refresh_token : Bytes) (redirect_url : String)
        (ev : Evidence state code raw idt refresh_token redirect_url) where
      abbrev spec : Spec
      spec = (oidc_spec cfg auth x req raw idt refresh_token v.store.heap).0

      abbrev heap : Heap
      heap = (oidc_spec cfg auth x req raw idt refresh_token v.store.heap).1

      created-Callback :
          (username : String) (r : Option ServerError × Visit)
          → x.api Kind.bearer (some raw) none none "" ≡ some username
          → Creation cfg auth req i.now
              (record spec { username = username })
              (with_heap heap v)
              i.random
              r
          → Callback i state code v (callback_done cfg auth x req redirect_url r)
      unfolding callback_done
      created-Callback username (some e, u) named c =
          no_room raw idt refresh_token redirect_url username e u ev named c
      created-Callback username (none, u) named c =
          entered raw idt refresh_token redirect_url username u ev named c (
            spec-HoldsTokens cfg auth x req raw idt refresh_token v.store.heap u.store.heap
              (λ b is_fresh.
                opened_with_bytes cfg auth req i.now _ (with_heap heap v) i.random u _ c refl b (
                  rw (objects-oidc_spec cfg auth x req raw idt refresh_token v.store.heap)
                    (fresh-IsFree b v.store is_fresh a))))

      asked-Callback :
          (answer : Option String)
          → x.api Kind.bearer (some raw) none none "" ≡ answer
          → Callback i state code v (
              callback_done cfg auth x req redirect_url
                (open_oidc cfg auth x req i spec redirect_url (with_heap heap v) answer))
      unfolding open_oidc callback_done peek
      asked-Callback none known = unwelcome raw idt refresh_token redirect_url _ ev known (record {
        erased_material = spec_zero-material spec heap;
        adds_none = Evolves-AddsNone (spec-Evolves cfg auth x req raw idt refresh_token v.store);
        no_cookies = refl;
      })
      asked-Callback (some username) known = created-Callback username _ known (
          create_session-Creation cfg auth req i.now (record spec { username = username })
            (with_heap heap v) i.random
            (Evolves-IsWellFormed (spec-Evolves cfg auth x req raw idt refresh_token v.store) w))

      pub verified-Callback :
          Callback i state code v
            (callback_verified cfg auth x req i raw idt refresh_token redirect_url v)
      unfolding callback_verified
      verified-Callback =
          rw (held_spec cfg auth x req raw idt refresh_token v.store.heap)
            (asked-Callback (x.api Kind.bearer (some raw) none none "") refl)
