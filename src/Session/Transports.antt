-- ===== src/Session/Transports.antt =====
-- The transports that a session caches (session.go: transportFor, transportUpstream,
-- dropSupersededTransportsLocked).
use Prim.Native.Char.{code}
use antrea_ui.Base.{
  ℕ, String, Bool, true, false, ◌&&◌, not, Option, none, some, List, [], ◌∷◌, ◌++◌, Table, lookup,
  insert, str_eq, ◌==◌, if◌then◌else◌,
}
use antrea_ui.Session.Types.{Credential, CachedTransport, Heap}
use antrea_ui.Session.Memory.{update}

-- `strings.Cut(key, "/")`: the text before the first slash, and whether there is one.
unfoldable pub cut_slash : String → String × Bool
cut_slash String.[] = (String.[], false)
cut_slash (String.◌∷◌ c s) =
    let rest = cut_slash s in
    if code c == b'/' then (String.[], true) else (String.◌∷◌ c rest.0, rest.1)

unfoldable pub transport_upstream : String → String × Bool
unfolding cut_slash
transport_upstream key = cut_slash key

-- `k` names an older version of the upstream of `key`.
unfoldable pub superseded : String → String → Bool
unfolding transport_upstream
superseded key k =
    let (upstream, versioned) = transport_upstream key in
    let (u, v) = transport_upstream k in
    versioned && (not (str_eq k key) && (v && str_eq u upstream))

-- The loop over the session's transports: those that stay, and the cleanups that are called.
unfoldable pub drop_superseded : String → Table CachedTransport → Table CachedTransport × List ℕ
unfolding superseded
drop_superseded key [] = ([], [])
drop_superseded key ((k, t) ∷ ts) =
    let rest = drop_superseded key ts in
    if superseded key k
    then (rest.0, elim t.cleanup [ none ↦ rest.1 | some c ↦ c ∷ rest.1 ])
    else ((k, t) ∷ rest.0, rest.1)

unfoldable pub drop_superseded_transports_locked : String → ℕ → Heap → Heap
unfolding drop_superseded
drop_superseded_transports_locked key p h =
    let (kept, called) = drop_superseded key (h.objects p).transports in
    record h {
      objects = update h.objects p (record (h.objects p) { transports = kept });
      released = h.released ++ called;
    }

-- A builder reads the credential through the heap; it answers with a round tripper and a cleanup,
-- or with an error, which is passed on.
abbrev pub TransportBuilder : Type 0
TransportBuilder = Heap → Credential → Option CachedTransport

abbrev pub store_transport : String → ℕ → Heap → Option CachedTransport → Option ℕ × Heap
store_transport key p h none = (none, h)
store_transport key p h (some t) = (
  some t.rt,
  record h {
    objects =
        update h.objects p
          (record (h.objects p) { transports = insert key t (h.objects p).transports });
  },
)

unfoldable pub build_transport : String → TransportBuilder → ℕ → Heap → Option ℕ × Heap
unfolding drop_superseded_transports_locked
build_transport key build p h =
    let h' = drop_superseded_transports_locked key p h in
    store_transport key p h' (build h' (h'.objects p).credential)

unfoldable pub transport_for : String → TransportBuilder → ℕ → Heap → Option ℕ × Heap
unfolding build_transport
transport_for key build p h = elim (lookup key (h.objects p).transports) [
  | some t ↦ (some t.rt, h)
  | none ↦ build_transport key build p h
]
