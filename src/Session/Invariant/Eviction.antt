-- ===== src/Session/Invariant/Eviction.antt =====
-- Which sessions the per-user limit drops.
use antrea_ui.Base.{
  ℕ, ◌≤◌, String, ◌≡◌, inl, inr, true, false, none, some, List, [], ◌∷◌, map, arith, str_eq,
  if◌then◌else◌, Bool-cases, str_eq→eq, drop, All, elem, Table, lookup, ◌+◌, ◌-◌, ltb, length,
  sort_by, All-sort_by, ap, ◌∙◌, take, take-append-drop, All-take, elem-sort_by, IsSorted,
  sort_by-IsSorted, IsSorted-take-drop, ◌≢◌, ◌⊎◌,
}
use antrea_ui.Session.Types.{Heap, Store}
use antrea_ui.Session.Store.{owned, staler, to_evict, enforce_per_user_limit_locked, peek}
use antrea_ui.Session.Invariant.{IsWellFormed}
use antrea_ui.Session.Invariant.Caps.{id_of, owned_ids, sessions-evict_each}
use antrea_ui.Session.Invariant.Room.{to_evict-Within}
use antrea_ui.Session.Invariant.Ownership.{
  staler_asym, All-drop, staler_trans, elem_of-Within, All-both, map-append-elem, owned-Found,
  staler-false, lookup-delete_each, lookup-owned_ids, All-pick, Found,
}

Pair : Store → String → String → Type 0
Pair st k j =
    (x : ℕ) × (y : ℕ) × (lookup k st.sessions ≡ some x)
    × (lookup j st.sessions ≡ some y)
    × (staler st.heap y x ≡ false)

-- Of a sorted list, a session up to the cut and one beyond it.
pick_both :
    (st : Store) (n : ℕ) (sorted : List ℕ) (k j : String)
    → All (Found st.heap st.sessions) sorted
    → IsSorted (staler st.heap) sorted
    → elem k (map (id_of st.heap) (take n sorted)) ≡ true
    → elem j (map (id_of st.heap) sorted) ≡ true
    → elem j (map (id_of st.heap) (take n sorted)) ≡ false
    → Pair st k j
unfolding Pair
pick_both st n sorted k j found ordered ek all_j ej =
    let h = st.heap in
    let cut = take n sorted in
    let rest = drop n sorted in
    let in_rest : elem j (map (id_of h) rest) ≡ true = ground (
      arith,
      map-append-elem (id_of h) j cut rest,
      ap (λ (xs : List ℕ). elem j (map (id_of h) xs)) (take-append-drop n sorted),
    ) in
    let picked =
      All-pick (λ p. Found h st.sessions p × All (λ y. staler h y p ≡ false) rest) (id_of h) k cut
        (All-both _ _ cut (All-take _ n sorted found)
          (IsSorted-take-drop (staler h) n sorted ordered))
        ek in
    let other =
      All-pick (λ q. Found h st.sessions q × (staler h q picked.0 ≡ false)) (id_of h) j rest
        (All-both _ _ rest (All-drop _ n sorted found) picked.2.1) in_rest in
    (picked.0, other.0, rw picked.1 at picked.2.0, rw other.1 at other.2.0, other.2.1)

-- One that is dropped, and one of the same user that is not: the first is no fresher.
evicted_before_kept :
    (c : String) (st : Store) (k j : String)
    → IsWellFormed st
    → elem k (map (id_of st.heap) (to_evict c st)) ≡ true
    → elem j (owned_ids st.heap c st.sessions) ≡ true
    → elem j (map (id_of st.heap) (to_evict c st)) ≡ false
    → Pair st k j
unfolding to_evict
evicted_before_kept c st k j w ek oj ej =
    let mine = owned st.heap c st.sessions in
    let less = staler st.heap in
    elim (Bool-cases (ltb (length mine) st.opts.max_sessions_per_user)) [
      | inl few ↦ absurd (ground arith)
      | inr many ↦
          pick_both st (length mine - st.opts.max_sessions_per_user + 1) (sort_by less mine) k j
            (All-sort_by less (Found st.heap st.sessions) mine
              (owned-Found st.opts.max_lifetime st.heap c st.sessions w.entries w.distinct))
            (sort_by-IsSorted less (staler_trans st.heap) (staler_asym st.heap) mine)
            (rw many at ek) (elem-sort_by less (id_of st.heap) j mine ∙ oj) (rw many at ej)
    ]

lookup-enforce :
    (c j : String) (st : Store)
    → lookup j (enforce_per_user_limit_locked c st).sessions ≡ (
        if str_eq c ""
        then lookup j st.sessions
        else if elem j (map (id_of st.heap) (to_evict c st))
        then none
        else lookup j st.sessions)
unfolding enforce_per_user_limit_locked
lookup-enforce c j st = ground (
  arith,
  ap (lookup j) (sessions-evict_each (to_evict c st) st),
  lookup-delete_each (map (id_of st.heap) (to_evict c st)) j st.sessions,
)

owned-cap_key :
    (h : Heap) (c : String) (t : Table ℕ) → All (λ p. (h.objects p).cap_key ≡ c) (owned h c t)
unfolding owned
owned-cap_key h c [] = tt
owned-cap_key h c ((j, p) ∷ t) = elim (Bool-cases (str_eq (h.objects p).cap_key c)) [
  | inl hit ↦ rw hit (str_eq→eq _ _ hit, owned-cap_key h c t)
  | inr miss ↦ rw miss (owned-cap_key h c t)
]

-- A session that the limit drops is one of the identity's own.
dropped-cap_key :
    (c : String) (st : Store) (id : String) (p : ℕ)
    → IsWellFormed st
    → lookup id st.sessions ≡ some p
    → elem id (map (id_of st.heap) (to_evict c st)) ≡ true
    → (st.heap.objects p).cap_key ≡ c
dropped-cap_key c st id p w was dropped =
    let mine = owned st.heap c st.sessions in
    let picked =
      All-pick (λ x. Found st.heap st.sessions x × ((st.heap.objects x).cap_key ≡ c))
        (id_of st.heap) id mine
        (All-both _ _ mine
          (owned-Found st.opts.max_lifetime st.heap c st.sessions w.entries w.distinct)
          (owned-cap_key st.heap c st.sessions))
        (elem_of-Within id _ _ (to_evict-Within c st) dropped) in
    let same : lookup id st.sessions ≡ some picked.0 = rw picked.1 at picked.2.0 in
    let is_p : picked.0 ≡ p = cc in rw is_p at picked.2.1

-- The per-user limit drops sessions of the identity that logs in alone, and none where the login
-- has no identity to bound (the empty cap key).
pub enforce_spares_others :
    (c : String) (st : Store) (id : String) (p : ℕ)
    → IsWellFormed st
    → peek id st ≡ some p
    → (c ≡ "") ⊎ ((st.heap.objects p).cap_key ≢ c)
    → peek id (enforce_per_user_limit_locked c st) ≡ some p
unfolding peek
enforce_spares_others c st id p w was (inl anonymous) = lookup-enforce c id st ∙ rw anonymous was
enforce_spares_others c st id p w was (inr other) =
    elim (Bool-cases (elem id (map (id_of st.heap) (to_evict c st)))) [
      | inl dropped ↦ absurd (other (dropped-cap_key c st id p w was dropped))
      | inr kept ↦ ground (arith, lookup-enforce c id st)
    ]

-- Where the per-user limit drops a session and keeps another of the same identity, the dropped one
-- was last seen no later.
pub enforce_drops_stalest :
    (c : String) (st : Store) (id jd : String) (p q : ℕ)
    → IsWellFormed st
    → peek id st ≡ some p
    → peek id (enforce_per_user_limit_locked c st) ≡ none
    → peek jd (enforce_per_user_limit_locked c st) ≡ some q
    → (st.heap.objects q).cap_key ≡ c
    → (st.heap.objects p).last_seen ≤ (st.heap.objects q).last_seen
unfolding peek Pair
enforce_drops_stalest c st id jd p q w was gone kept mine =
    let ids = map (id_of st.heap) (to_evict c st) in
    let dropped : elem id ids ≡ true = ground (arith, lookup-enforce c id st) in
    let stays : elem jd ids ≡ false =
      ground (arith, lookup-enforce c id st, lookup-enforce c jd st) in
    let found : lookup jd st.sessions ≡ some q =
      ground (arith, lookup-enforce c id st, lookup-enforce c jd st) in
    let (x, y, x_found, y_found, ordered) =
      evicted_before_kept c st id jd w dropped
        (lookup-owned_ids st.opts.max_lifetime st.heap c jd q st.sessions w.entries found mine)
        stays in
    let x_is : x ≡ p = cc in
    let y_is : y ≡ q = cc in staler-false st.heap p q (rw (x_is, y_is) at ordered)
