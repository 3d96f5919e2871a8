-- ===== src/RateLimit/Spoofing.antt =====
-- A client cannot choose its key by what it sends along (pkg/server/ratelimit/client.go).
use antrea_ui.Base.{
  ◌≡◌, refl, inl, inr, none, some, List, [], ◌∷◌, ◌++◌, arith, Option-cases, Bytes, All,
}
use antrea_ui.RateLimit.ClientKey.{
  Addresses, all_parts, public_ip, rightmost, ip_from_xff_header, client_key_ip,
}
use antrea_ui.Credentials.Tokens.{split}

append_assoc {ℓ} : {A : Type ℓ} (xs ys zs : List A) → xs ++ (ys ++ zs) ≡ (xs ++ ys) ++ zs
append_assoc [] ys zs = refl
append_assoc (x ∷ xs) ys zs = λ i. x ∷ append_assoc xs ys zs i

module _ (net : Addresses) where
  all_parts-append : (xs ys : List Bytes) → all_parts (xs ++ ys) ≡ all_parts xs ++ all_parts ys
  unfolding all_parts
  all_parts-append [] ys = refl
  all_parts-append (x ∷ xs) ys =
      rw (all_parts-append xs ys) (append_assoc (split b',' x) (all_parts xs) (all_parts ys))

  rightmost_behind :
      (xs ys : List Bytes) (ip : net.Ip)
      → rightmost net ys ≡ some ip
      → rightmost net (xs ++ ys) ≡ some ip
  unfolding rightmost
  rightmost_behind [] ys ip h = h
  rightmost_behind (x ∷ xs) ys ip h = rw (rightmost_behind xs ys ip h) refl

  -- One of the parts is the last that parses as a public address.
  pub data Last (ip : net.Ip) : List Bytes → Type 0 where
    here :
        (p : Bytes) (ps : List Bytes)
        → public_ip net p ≡ some ip
        → All (λ x. public_ip net x ≡ none) ps
        → Last ip (p ∷ ps)
    later : (p : Bytes) (ps : List Bytes) → Last ip ps → Last ip (p ∷ ps)

  none_public : (ps : List Bytes) → rightmost net ps ≡ none → All (λ x. public_ip net x ≡ none) ps
  unfolding rightmost
  none_public [] h = tt
  none_public (p ∷ ps) h = elim (Option-cases (rightmost net ps)) [
    | inl e ↦ ((rw e at h), none_public ps e)
    | inr (ip, e) ↦ absurd (ground arith)
  ]

  rightmost-Last : (ps : List Bytes) (ip : net.Ip) → rightmost net ps ≡ some ip → Last ip ps
  unfolding rightmost
  rightmost-Last [] ip h = absurd (ground arith)
  rightmost-Last (p ∷ ps) ip h = elim (Option-cases (rightmost net ps)) [
    | inl e ↦ here p ps (rw e at h) (none_public ps e)
    | inr (x, e) ↦ later p ps (rightmost-Last ps ip (ground arith))
  ]

  -- What decides a client's key behind a proxy that adds the addresses it has seen.
  pub record IsDecided (sent added : List Bytes) (real_ip remote : Bytes) (ip : net.Ip)
      : Type 0 where
    pub last_public : Last ip (all_parts added)
    pub same_key :
        client_key_ip net
          (record { forwarded_for = sent ++ added; real_ip = real_ip; remote_addr = remote })
        ≡ net.show ip

  -- Where the values of X-Forwarded-For that the proxies have added hold a public address, the last
  -- of these is the client's key: no value that the client has sent before them, and no X-Real-IP,
  -- changes it.
  pub client_key_ip-IsDecided :
      (sent added : List Bytes) (real_ip remote : Bytes) (ip : net.Ip)
      → ip_from_xff_header net added ≡ some ip
      → IsDecided sent added real_ip remote ip
  unfolding ip_from_xff_header client_key_ip
  client_key_ip-IsDecided sent added real_ip remote ip h = record {
    last_public = rightmost-Last (all_parts added) ip h;
    same_key =
        rw (all_parts-append sent added, client_key_ip)
          (rw (rightmost_behind (all_parts sent) (all_parts added) ip h) refl);
  }
