-- ===== src/Login/Laws/Entering.antt =====
-- What each way to log in does with the credential it is given.
use antrea_ui.Base.{◌≡◌, refl, Option, none, some, Bytes, String, codes}
use antrea_ui.Session.Types.{Mode, Credential, Heap, Store}
use antrea_ui.Session.Memory.{credential_zero, new_buffer}
use antrea_ui.Session.Memory.Erasure.{credential_zero-IsErased}
use antrea_ui.Session.Store.{peek}
use antrea_ui.Session.Invariant.{Evolves-IsWellFormed, same, Evolves, IsWellFormed}
use antrea_ui.Credentials.Kubeconfig.{
  LoginError, Decoders, NewCredential, Login, bearer_credential, credential_from_kubeconfig,
}
use antrea_ui.Authn.Types.{Request, Config, ServerError}
use antrea_ui.Login.Types.{ServerConfig, Visit, Instant}
use antrea_ui.Login.Creation.{credential_refused, answered, validate_credential, asked, ApiServer}
use antrea_ui.Login.Flows.{
  bad_request, user_spec, open_validated, invalid_body, store_credential, login_with,
  login_with_token, login_with_kubeconfig,
}
use antrea_ui.Login.Laws.Creating.{
  opened_with_bytes, Evolves-AddsNone, IsTurnedAway, Creation, create_session-Creation,
}
use antrea_ui.Login.Wording.{describe, Formats}
use antrea_ui.Session.Memory.Keeping.{new_buffer-Keeps, Keeps-trans}
use antrea_ui.Login.Laws.Holding.{
  store_credential-IsHeld, fresh-IsFree, store_credential-objects, IsHeld-later, IsHeld,
  AreAllocated,
}

pub store_credential-Evolves :
    (n : NewCredential) (st : Store)
    → Evolves st (record st { heap = (store_credential n st.heap).1 })
unfolding store_credential
store_credential-Evolves n st =
    let h₁ = (new_buffer n.token st.heap).1 in
    let h₂ = (new_buffer n.cert_pem h₁).1 in
    record {
      same_opts = refl;
      keeps =
          Keeps-trans (new_buffer-Keeps n.token st.heap)
            (Keeps-trans (new_buffer-Keeps n.cert_pem h₁) (new_buffer-Keeps n.key_pem h₂));
      pruned = same;
    }

-- The API server's answer for a credential that has just been read.
abbrev pub verdict : ApiServer → NewCredential → Option String
verdict api n = api n.kind n.token n.cert_pem n.key_pem ""

asked-verdict :
    (api : ApiServer) (n : NewCredential) (h : Heap)
    → asked api (store_credential n h).0 (store_credential n h).1 ≡ verdict api n
unfolding store_credential
asked-verdict api n h = let e = store_credential-IsHeld n h in rw (e.0, e.1, e.2) refl

abbrev pub with_heap : Heap → Visit → Visit
with_heap h v = record v { store = record (v.store) { heap = h } }

module _ (cfg : ServerConfig) (auth : Config) (req : Request) (i : Instant) (api : ApiServer)
    (f : Formats) where
  -- The outcome of a login whose credential reads as the last index but one.
  pub data Attempt (mode : Mode) (v : Visit) : Login → Option ServerError × Visit → Type 0 where
    unreadable :
        (e : LoginError) → Attempt mode v (Login.rejected e) (some (bad_request (describe f e)), v)
    unwelcome :
        (n : NewCredential) (w : Visit)
        → verdict api n ≡ none
        → IsTurnedAway (user_spec mode "" (store_credential n v.store.heap).0) v w
        → Attempt mode v (Login.accepted n) (some credential_refused, w)
    welcome :
        (n : NewCredential) (username : String) (w : Visit)
        → verdict api n ≡ some username
        → Creation cfg auth req i.now
            (user_spec mode username (store_credential n v.store.heap).0)
            (with_heap (store_credential n v.store.heap).1 v)
            i.random
            (none, w)
        → IsHeld n ((store_credential n v.store.heap).0, w.store.heap)
        → Attempt mode v (Login.accepted n) (none, w)
    no_room :
        (n : NewCredential) (username : String) (e : ServerError) (w : Visit)
        → verdict api n ≡ some username
        → Creation cfg auth req i.now
            (user_spec mode username (store_credential n v.store.heap).0)
            (with_heap (store_credential n v.store.heap).1 v)
            i.random
            (some e, w)
        → Attempt mode v (Login.accepted n) (some e, w)

  unwelcome-IsTurnedAway :
      (mode : Mode) (c : Credential) (h : Heap) (v : Visit)
      → Evolves v.store (record (v.store) { heap = h })
      → IsTurnedAway (user_spec mode "" c) v (with_heap (credential_zero c h).1 v)
  unfolding peek
  unwelcome-IsTurnedAway mode c h v e =
      let z = credential_zero-IsErased c h in
      record {
        erased_material = (z.0, (z.1, (z.2, (tt, tt))));
        adds_none = Evolves-AddsNone e;
        no_cookies = refl;
      }

  created-Attempt :
      (mode : Mode) (n : NewCredential) (v : Visit) (username : String)
      (r : Option ServerError × Visit)
      → verdict api n ≡ some username
      → AreAllocated v.store
      → Creation cfg auth req i.now
          (user_spec mode username (store_credential n v.store.heap).0)
          (with_heap (store_credential n v.store.heap).1 v)
          i.random
          r
      → Attempt mode v (Login.accepted n) r
  created-Attempt mode n v username (some e, w) verdict_is a c = no_room n username e w verdict_is c
  created-Attempt mode n v username (none, w) verdict_is a c = welcome n username w verdict_is c (
      IsHeld-later n v.store w.store.heap (λ b is_fresh.
        opened_with_bytes cfg auth req i.now _ (with_heap (store_credential n v.store.heap).1 v)
          i.random w _ c refl b
          (rw (store_credential-objects n v.store.heap) (fresh-IsFree b v.store is_fresh a))))

  accepted-Attempt :
      (mode : Mode) (n : NewCredential) (v : Visit) (answer : Option String)
      → verdict api n ≡ answer
      → IsWellFormed v.store
      → AreAllocated v.store
      → Attempt mode v (Login.accepted n) (
          open_validated cfg auth req i mode
            (store_credential n v.store.heap).0
            (with_heap (store_credential n v.store.heap).1 v)
            (answered answer))
  unfolding open_validated
  accepted-Attempt mode n v none e w a = unwelcome n _ e (
      unwelcome-IsTurnedAway mode (store_credential n v.store.heap).0
        (store_credential n v.store.heap).1 v (store_credential-Evolves n v.store))
  accepted-Attempt mode n v (some username) e w a = created-Attempt mode n v username _ e a (
      create_session-Creation cfg auth req i.now _ _ i.random
        (Evolves-IsWellFormed (store_credential-Evolves n v.store) w))

  login_with-Attempt :
      (mode : Mode) (l : Login) (v : Visit)
      → IsWellFormed v.store
      → AreAllocated v.store
      → Attempt mode v l (login_with cfg auth req i api f mode l v)
  unfolding login_with validate_credential
  login_with-Attempt mode (Login.rejected e) v w a = unreadable e
  login_with-Attempt mode (Login.accepted n) v w a =
      rw (asked-verdict api n v.store.heap) (accepted-Attempt mode n v (verdict api n) refl w a)

  -- `read` is how the endpoint reads the body's text.
  pub data Posted (mode : Mode) (read : Bytes → Login) (v : Visit)
      : Option String → Option ServerError × Visit → Type 0 where
    malformed : Posted mode read v none (some invalid_body, v)
    posted :
        (text : String) (r : Option ServerError × Visit)
        → Attempt mode v (read (codes text)) r
        → Posted mode read v (some text) r

  pub login_with_token-Posted :
      (d : Decoders) (body : Option String) (v : Visit)
      → IsWellFormed v.store
      → AreAllocated v.store
      → Posted Mode.sa_token
          (bearer_credential d)
          v
          body
          (login_with_token cfg auth req i d api f body v)
  unfolding login_with_token
  login_with_token-Posted d none v w a = malformed
  login_with_token-Posted d (some text) v w a = posted text _ (login_with-Attempt _ _ v w a)

  pub login_with_kubeconfig-Posted :
      (d : Decoders) (body : Option String) (v : Visit)
      → IsWellFormed v.store
      → AreAllocated v.store
      → Posted Mode.kubeconfig
          (credential_from_kubeconfig d i.checked)
          v
          body
          (login_with_kubeconfig cfg auth req i d api f body v)
  unfolding login_with_kubeconfig
  login_with_kubeconfig-Posted d none v w a = malformed
  login_with_kubeconfig-Posted d (some text) v w a = posted text _ (login_with-Attempt _ _ v w a)
