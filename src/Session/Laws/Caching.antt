-- ===== src/Session/Laws/Caching.antt =====
-- The transports of a session: one for each key, built once, and one version of an upstream.
use Prim.Native.Char.{Char}
use Prim.Native.String.{◌++◌ as str_append}
use Prim.Native.String.append
use antrea_ui.Base.{
  String, ◌≡◌, inl, inr, none, [], ◌∷◌, arith, if◌then◌else◌, Bool-cases, Table, lookup, ℕ, ◌⊎◌,
  true, false, some, str_eq, eq_iff, refl, Option, Option-cases, lookup-insert, ap, ◌∙◌, eq_refl,
}
use antrea_ui.Session.Types.{CachedTransport, Heap}
use antrea_ui.Session.Transports.{
  cut_slash, cut_slash, superseded, drop_superseded, drop_superseded_transports_locked,
  TransportBuilder, store_transport, build_transport, transport_for,
}

-- One step of the loop, with the test shut.
drop_superseded_cases :
    (key j : String) (t : CachedTransport) (ts : Table CachedTransport)
    → ((superseded key j ≡ true)
        × ((drop_superseded key ((j, t) ∷ ts)).0 ≡ (drop_superseded key ts).0))
      ⊎ ((superseded key j ≡ false)
          × ((drop_superseded key ((j, t) ∷ ts)).0 ≡ (j, t) ∷ (drop_superseded key ts).0))
unfolding drop_superseded
drop_superseded_cases key j t ts = elim (Bool-cases (superseded key j)) [
  | inl gone ↦ inl (gone, rw gone)
  | inr kept ↦ inr (kept, rw kept)
]

lookup-drop_superseded :
    (key k : String) (ts : Table CachedTransport)
    → lookup k (drop_superseded key ts).0 ≡ (if superseded key k then none else lookup k ts)
unfolding lookup
lookup-drop_superseded key k [] = unfold drop_superseded in ground arith
lookup-drop_superseded key k ((j, t) ∷ ts) = elim (drop_superseded_cases key j t ts) [
  | inl (gone, e) ↦ rw e (ground (arith, lookup-drop_superseded key k ts, eq_iff k j))
  | inr (kept, e) ↦ rw e (ground (arith, lookup-drop_superseded key k ts, eq_iff k j))
]

-- The session's table after the superseded transports are released.
released_table :
    (key k : String) (p : ℕ) (h : Heap)
    → lookup k ((drop_superseded_transports_locked key p h).objects p).transports
      ≡ (if superseded key k then none else lookup k (h.objects p).transports)
unfolding drop_superseded_transports_locked
released_table key k p h = ground (arith, lookup-drop_superseded key k (h.objects p).transports)

-- What the call hands out and leaves in the table, where the builder answers `t`.
abbrev pub Answers : String → ℕ → Heap → Option CachedTransport → Option ℕ × Heap → Type 0
Answers key p h none r =
    (r.0 ≡ none)
    × ((k : String)
        → lookup k (r.1.objects p).transports
          ≡ (if superseded key k then none else lookup k (h.objects p).transports))
Answers key p h (some t) r =
    (r.0 ≡ some t.rt)
    × ((k : String)
        → lookup k (r.1.objects p).transports ≡ (
            if str_eq key k
            then some t
            else if superseded key k
            then none
            else lookup k (h.objects p).transports))

store_transport-Answers :
    (key : String) (p : ℕ) (h : Heap) (t : Option CachedTransport)
    → Answers key p h t (store_transport key p (drop_superseded_transports_locked key p h) t)
store_transport-Answers key p h none = (refl, λ k. released_table key k p h)
store_transport-Answers key p h (some t) = (
  refl,
  λ k. ground (
    arith,
    lookup-insert key k t ((drop_superseded_transports_locked key p h).objects p).transports,
    released_table key k p h,
  ),
)

-- What the builder is given: the credential, and the heap after the superseded transports have
-- been released.
abbrev pub built : String → TransportBuilder → ℕ → Heap → Option CachedTransport
built key build p h =
    let h' = drop_superseded_transports_locked key p h in build h' (h'.objects p).credential

-- A key that is not cached is built once. If the builder answers, its round tripper is handed out
-- and cached under the key; if it fails, nothing is. In both cases the session's transports for
-- older versions of the same upstream leave the table, and all others stay.
pub transport_for_builds :
    (key : String) (build : TransportBuilder) (p : ℕ) (h : Heap)
    → lookup key (h.objects p).transports ≡ none
    → Answers key p h (built key build p h) (transport_for key build p h)
unfolding transport_for build_transport
transport_for_builds key build p h e =
    rw (e, transport_for) (store_transport-Answers key p h (built key build p h))

transport_for_cached :
    (key : String) (build : TransportBuilder) (p : ℕ) (h : Heap) (t : CachedTransport)
    → lookup key (h.objects p).transports ≡ some t
    → transport_for key build p h ≡ (some t.rt, h)
unfolding transport_for
transport_for_cached key build p h t e = rw (e, transport_for)

-- What has been handed out is in the table.
abbrev IsCached : String → ℕ → ℕ → Heap → Type 0
IsCached key p rt h =
    (t : CachedTransport) × (lookup key (h.objects p).transports ≡ some t) × (t.rt ≡ rt)

store_transport-IsCached :
    (key : String) (p rt : ℕ) (h : Heap) (t : Option CachedTransport)
    → (store_transport key p h t).0 ≡ some rt
    → IsCached key p rt (store_transport key p h t).1
store_transport-IsCached key p rt h none e = absurd (ground arith)
store_transport-IsCached key p rt h (some t) e =
    (t, ground (arith, lookup-insert key key t (h.objects p).transports, eq_refl key), ground arith)

transport_for-IsCached :
    (key : String) (build : TransportBuilder) (p rt : ℕ) (h : Heap)
    → (transport_for key build p h).0 ≡ some rt
    → IsCached key p rt (transport_for key build p h).1
unfolding transport_for build_transport
transport_for-IsCached key build p rt h e =
    elim (Option-cases (lookup key (h.objects p).transports)) [
      | inr (t, f) ↦ rw (f, transport_for) (t, f, ground arith)
      | inl f ↦
          rw (f, transport_for)
            (store_transport-IsCached key p rt (drop_superseded_transports_locked key p h)
              (built key build p h) (rw (f, transport_for) at e))
    ]

-- A transport that a call hands out is handed out again by the next call for the same key: the
-- second builder does not run and the heap stays as it is.
pub transport_for_again :
    (key : String) (build again : TransportBuilder) (p rt : ℕ) (h : Heap)
    → (transport_for key build p h).0 ≡ some rt
    → transport_for key again p (transport_for key build p h).1
      ≡ (some rt, (transport_for key build p h).1)
transport_for_again key build again p rt h e =
    let (t, cached, is_rt) = transport_for-IsCached key build p rt h e in
    transport_for_cached key again p (transport_for key build p h).1 t cached
    ∙ ap (λ (r : ℕ). (some r, (transport_for key build p h).1)) is_rt

abbrev pub slash : Char
slash = "/"

-- `upstream + "/" + version`.
abbrev pub versioned_key : String → String → String
versioned_key u v = str_append u (String.◌∷◌ slash v)

-- `strings.Cut` finds the first slash.
cut_slash-versioned_key :
    (u v : String) → (cut_slash u).1 ≡ false → cut_slash (versioned_key u v) ≡ (u, true)
unfolding cut_slash
cut_slash-versioned_key String.[] v h = rw append.nil
cut_slash-versioned_key (String.◌∷◌ c u) v h =
    rw append.cons (ground (arith, cut_slash-versioned_key u v))

pub superseded_version :
    (u v w : String)
    → (cut_slash u).1 ≡ false
    → str_eq (versioned_key u w) (versioned_key u v) ≡ false
    → superseded (versioned_key u v) (versioned_key u w) ≡ true
unfolding superseded
superseded_version u v w h ne =
    rw (cut_slash-versioned_key u v h, cut_slash-versioned_key u w h, ne, eq_refl u)

-- Where the transport for a version of an upstream is not cached, a call for it leaves no transport
-- for any other version of that upstream in the session, whether the builder answers or fails.
pub transport_for_one_version :
    (u v w : String) (build : TransportBuilder) (p : ℕ) (h : Heap)
    → (cut_slash u).1 ≡ false
    → str_eq (versioned_key u w) (versioned_key u v) ≡ false
    → lookup (versioned_key u v) (h.objects p).transports ≡ none
    → lookup
        (versioned_key u w)
        ((transport_for (versioned_key u v) build p h).1.objects p).transports
      ≡ none
transport_for_one_version u v w build p h bare ne absent =
    other (built (versioned_key u v) build p h)
      (transport_for_builds (versioned_key u v) build p h absent)
  where
    other :
        (t : Option CachedTransport)
        → Answers (versioned_key u v) p h t (transport_for (versioned_key u v) build p h)
        → lookup
            (versioned_key u w)
            ((transport_for (versioned_key u v) build p h).1.objects p).transports
          ≡ none
    other none a = a.1 (versioned_key u w) ∙ ground (arith, superseded_version u v w bare ne)
    other (some t) a =
        a.1 (versioned_key u w)
        ∙ ground (
          arith,
          superseded_version u v w bare ne,
          eq_iff (versioned_key u v) (versioned_key u w),
          eq_iff (versioned_key u w) (versioned_key u v),
        )
