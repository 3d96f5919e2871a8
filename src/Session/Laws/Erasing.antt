-- ===== src/Session/Laws/Erasing.antt =====
-- A sweep erases what it ends (store.go: doGC).
use antrea_ui.Base.{
  ℕ, zero, suc, ◌≤◌, String, ◌≡◌, refl, ap, inl, inr, false, some, List, [], ◌∷◌, arith, eq_iff,
  length, take, drop, length-drop, take-append-drop, elem, Table, lookup, delete, ◌⊎◌, Bool, true,
  ◌||◌, Option, ◌==◌, Bool-cases, All, elem-append, lookup-delete,
}
use antrea_ui.Session.Types.{Session, Heap, Store, gc_batch_size}
use antrea_ui.Session.Expiry.{alive}
use antrea_ui.Session.Memory.{session_zero, IsErased, material}
use antrea_ui.Session.Memory.Erasure.{
  session_zero-objects, session_zero-keeps_IsErased, session_zero-material,
}
use antrea_ui.Session.Store.{peek}
use antrea_ui.Session.Get.{expired_ids, delete_batch, zero_each, sweep, do_gc}
use antrea_ui.Session.Invariant.{IsWellFormed}
use antrea_ui.Session.Invariant.Ownership.{lookup-delete_each}
use antrea_ui.Session.Laws.Sweeping.{delete_batch-delete_each, lookup-expired_ids}

-- The session at `p` still has the material of `s`, or that material has been erased.
abbrev IsPending : Heap → ℕ → Session → Type 0
IsPending h p s = All (IsErased h) (material s) ⊎ (h.objects p ≡ s)

All-keeps_IsErased :
    (q : ℕ) (h : Heap) (bs : List (Option ℕ))
    → All (IsErased h) bs
    → All (IsErased (session_zero q h)) bs
All-keeps_IsErased q h [] a = tt
All-keeps_IsErased q h (b ∷ bs) a =
    (session_zero-keeps_IsErased q b h a.0, All-keeps_IsErased q h bs a.1)

hit :
    (h : Heap) (p : ℕ) (s : Session)
    → IsPending h p s
    → All (IsErased (session_zero p h)) (material s)
hit h p s (inl a) = All-keeps_IsErased p h (material s) a
hit h p s (inr e) = rw (← e) (session_zero-material p h)

session_zero-IsPending :
    (q : ℕ) (h : Heap) (p : ℕ) (s : Session) → IsPending h p s → IsPending (session_zero q h) p s
session_zero-IsPending q h p s a = elim (Bool-cases (q == p)) [
  | inl same ↦ let q_is : q ≡ p = ground arith in rw q_is (inl (hit h p s a))
  | inr other ↦ elim a [
    | inl e ↦ inl (All-keeps_IsErased q h (material s) e)
    | inr e ↦ inr (ground (arith, session_zero-objects q h p))
  ]
]

zero_each-IsPending :
    (ps : List ℕ) (h : Heap) (p : ℕ) (s : Session)
    → IsPending h p s
    → IsPending (zero_each ps h) p s
unfolding zero_each
zero_each-IsPending [] h p s a = a
zero_each-IsPending (q ∷ ps) h p s a =
    zero_each-IsPending ps (session_zero q h) p s (session_zero-IsPending q h p s a)

abbrev holds : ℕ → List ℕ → Bool
holds p [] = false
holds p (q ∷ qs) = q == p || holds p qs

zero_each-keeps_IsErased :
    (ps : List ℕ) (h : Heap) (bs : List (Option ℕ))
    → All (IsErased h) bs
    → All (IsErased (zero_each ps h)) bs
unfolding zero_each
zero_each-keeps_IsErased [] h bs a = a
zero_each-keeps_IsErased (q ∷ ps) h bs a =
    zero_each-keeps_IsErased ps (session_zero q h) bs (All-keeps_IsErased q h bs a)

zero_each_hit :
    (ps : List ℕ) (h : Heap) (p : ℕ) (s : Session)
    → holds p ps ≡ true
    → IsPending h p s
    → All (IsErased (zero_each ps h)) (material s)
unfolding zero_each
zero_each_hit [] h p s m a = cc
zero_each_hit (q ∷ ps) h p s m a = elim (Bool-cases (q == p)) [
  | inl same ↦
      let q_is : q ≡ p = ground arith in
      zero_each-keeps_IsErased ps (session_zero q h) (material s) (rw q_is (hit h p s a))
  | inr other ↦
      zero_each_hit ps (session_zero q h) p s (ground arith) (session_zero-IsPending q h p s a)
]

delete_batch_holds :
    (ids : List String) (t : Table ℕ) (id : String) (p : ℕ)
    → elem id ids ≡ true
    → lookup id t ≡ some p
    → holds p (delete_batch ids t).0 ≡ true
unfolding delete_batch
delete_batch_holds [] t id p m e = cc
delete_batch_holds (j ∷ ids) t id p m e = ground (
  arith,
  eq_iff id j,
  eq_iff j id,
  lookup-delete j id t,
  delete_batch_holds ids (delete j t) id p,
)

sweep-keeps_IsErased :
    (fuel : ℕ) (ids : List String) (st : Store) (bs : List (Option ℕ))
    → All (IsErased st.heap) bs
    → All (IsErased (sweep fuel ids st).heap) bs
unfolding sweep
sweep-keeps_IsErased zero ids st bs a = a
sweep-keeps_IsErased (suc fuel) [] st bs a = a
sweep-keeps_IsErased (suc fuel) (id ∷ ids) st bs a =
    sweep-keeps_IsErased fuel (drop gc_batch_size (id ∷ ids)) _ bs (
      zero_each-keeps_IsErased (delete_batch (take gc_batch_size (id ∷ ids)) st.sessions).0 st.heap
        bs a)

sweep_hit :
    (fuel : ℕ) (ids : List String) (st : Store) (id : String) (p : ℕ) (s : Session)
    → length ids ≤ fuel
    → elem id ids ≡ true
    → lookup id st.sessions ≡ some p
    → IsPending st.heap p s
    → All (IsErased (sweep fuel ids st).heap) (material s)
unfolding sweep
sweep_hit zero [] st id p s le m e a = cc
sweep_hit zero (j ∷ ids) st id p s le m e a = absurd (omega arith)
sweep_hit (suc fuel) [] st id p s le m e a = cc
sweep_hit (suc fuel) (j ∷ ids) st id p s le m e a =
    let batch = take gc_batch_size (j ∷ ids) in
    let rest = drop gc_batch_size (j ∷ ids) in
    let evicted = (delete_batch batch st.sessions).0 in
    elim (Bool-cases (elem id batch)) [
      | inl now ↦
          sweep-keeps_IsErased fuel rest _ (material s)
            (zero_each_hit evicted st.heap p s (delete_batch_holds batch st.sessions id p now e) a)
      | inr later ↦
          sweep_hit fuel rest _ id p s (omega (arith, length-drop gc_batch_size (j ∷ ids)))
            (ground (
              arith,
              elem-append id batch rest,
              ap (elem id) (take-append-drop gc_batch_size (j ∷ ids)),
            ))
            (ground (
              arith,
              ap (lookup id) (delete_batch-delete_each batch st.sessions),
              lookup-delete_each batch id st.sessions,
            ))
            (zero_each-IsPending evicted st.heap p s a)
    ]

-- Every buffer of the material of a session that the sweep finds dead holds zeros afterwards.
pub do_gc-erases :
    (now : ℕ) (st : Store) (id : String) (p : ℕ)
    → IsWellFormed st
    → peek id st ≡ some p
    → alive st.opts (st.heap.objects p) now ≡ false
    → All (IsErased (do_gc now st).heap) (material (st.heap.objects p))
unfolding peek do_gc
do_gc-erases now st id p w known dead =
    let ids = expired_ids st.opts st.heap now st.sessions in
    sweep_hit (length ids) ids st id p (st.heap.objects p) (omega arith)
      (ground (arith, lookup-expired_ids st.opts st.heap now id p st.sessions w.distinct known))
      known (inr refl)
