-- ===== src/Upstream/Headers.antt =====
-- Which headers of a user's request reach the API server (pkg/handlers/k8sproxy/handler.go).
use antrea_ui.Base.{
  String, ◌≡◌, ap, Bool, true, false, ◌||◌, none, [], ◌∷◌, arith, str_eq, eq_iff, if◌then◌else◌,
  lookup, has_prefix, delete, lookup-delete, ◌∙◌, List, insert, lookup-insert,
}
use antrea_ui.Upstream.Proxy.{
  Headers, Inbound, rewrite, drop_prefixed, set_x_forwarded, impersonate_extra, joined, values,
}

-- The headers that could speak for another identity.
abbrev pub speaks_for : String → Bool
speaks_for k =
    str_eq "Cookie" k
    || str_eq "Authorization" k
    || str_eq "Impersonate-User" k
    || str_eq "Impersonate-Uid" k
    || str_eq "Impersonate-Group" k
    || has_prefix k impersonate_extra

abbrev pub is_forwarded : String → Bool
is_forwarded k =
    str_eq "X-Forwarded-For" k || str_eq "X-Forwarded-Host" k || str_eq "X-Forwarded-Proto" k

lookup-drop_prefixed :
    (p k : String) (hs : Headers)
    → lookup k (drop_prefixed p hs) ≡ (if has_prefix k p then none else lookup k hs)
unfolding drop_prefixed lookup
lookup-drop_prefixed p k [] = ground arith
lookup-drop_prefixed p k ((j, v) ∷ hs) =
    ground (arith, lookup-drop_prefixed p k hs, eq_iff k j, ap (λ x. has_prefix x p))

lookup-stripped :
    (k : String) (hs : Headers)
    → lookup k (
        drop_prefixed impersonate_extra (
          delete "Impersonate-Group" (
            delete "Impersonate-Uid"
              (delete "Impersonate-User" (delete "Authorization" (delete "Cookie" hs))))))
      ≡ (if speaks_for k then none else lookup k hs)
lookup-stripped k hs =
    let h₁ = delete "Cookie" hs in
    let h₂ = delete "Authorization" h₁ in
    let h₃ = delete "Impersonate-User" h₂ in
    let h₄ = delete "Impersonate-Uid" h₃ in
    ground (
      arith,
      lookup-drop_prefixed impersonate_extra k (delete "Impersonate-Group" h₄),
      lookup-delete "Impersonate-Group" k h₄,
      lookup-delete "Impersonate-Uid" k h₃,
      lookup-delete "Impersonate-User" k h₂,
      lookup-delete "Authorization" k h₁,
      lookup-delete "Cookie" k hs,
    )

lookup-insert_other :
    (j k : String) (v : List String) (hs : Headers)
    → str_eq j k ≡ false
    → lookup k (insert j v hs) ≡ lookup k hs
lookup-insert_other j k v hs ne = ground (arith, lookup-insert j k v hs)

lookup-set_x_forwarded :
    (inbound : Inbound) (out : Headers) (k : String)
    → is_forwarded k ≡ false
    → lookup k (set_x_forwarded inbound out) ≡ lookup k out
unfolding set_x_forwarded
lookup-set_x_forwarded inbound out k f =
    let chain = joined (values (lookup "X-Forwarded-For" inbound.headers)) inbound.remote_ip in
    let h₁ = insert "X-Forwarded-For" (chain ∷ []) out in
    let h₂ = insert "X-Forwarded-Host" (inbound.host ∷ []) h₁ in
    lookup-insert_other "X-Forwarded-Proto" k (inbound.proto ∷ []) h₂ (ground arith)
    ∙ lookup-insert_other "X-Forwarded-Host" k (inbound.host ∷ []) h₁ (ground arith)
    ∙ lookup-insert_other "X-Forwarded-For" k (chain ∷ []) out (ground arith)

pub record IsClean (inbound : Inbound) (out : Headers) : Type 0 where
  pub stripped : (k : String) → speaks_for k ≡ true → lookup k (rewrite inbound out) ≡ none
  pub kept :
      (k : String)
      → speaks_for k ≡ false
      → is_forwarded k ≡ false
      → lookup k (rewrite inbound out) ≡ lookup k out

-- No header reaches the API server that could speak for an identity: the cookies and the
-- authorization of the client, and every header that asks to impersonate. Apart from those and from
-- the X-Forwarded headers, the outgoing request is as it was.
pub rewrite-IsClean : (inbound : Inbound) (out : Headers) → IsClean inbound out
unfolding rewrite
rewrite-IsClean inbound out = record {
  stripped = λ k h. ground (arith, lookup-stripped k (set_x_forwarded inbound out));
  kept = λ k h f. ground (
    arith,
    lookup-stripped k (set_x_forwarded inbound out),
    lookup-set_x_forwarded inbound out k,
  );
}
