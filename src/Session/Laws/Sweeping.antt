-- ===== src/Session/Laws/Sweeping.antt =====
-- The sweep: in batches it removes the sessions that are no longer alive, and only those.
use antrea_ui.Base.{
  ℕ, zero, suc, ◌≤◌, String, ◌≡◌, refl, sym, ap, ◌∙◌, inl, inr, false, not, none, some, List, [],
  ◌∷◌, ◌++◌, arith, eq_iff, if◌then◌else◌, Option-cases, length, take, drop, length-drop,
  take-append-drop, elem, Distinct, Table, lookup, delete, keys, Option,
}
use antrea_ui.Session.Types.{Heap, Options, Store, gc_batch_size}
use antrea_ui.Session.Expiry.{alive}
use antrea_ui.Session.Store.{peek}
use antrea_ui.Session.Get.{expired_ids, delete_batch, sweep, do_gc}
use antrea_ui.Session.Invariant.{IsWellFormed}
use antrea_ui.Session.Invariant.Caps.{delete_each}
use antrea_ui.Session.Invariant.Ownership.{lookup-delete_each}

pub delete_batch-delete_each :
    (ids : List String) (t : Table ℕ) → (delete_batch ids t).1 ≡ delete_each ids t
unfolding delete_batch
delete_batch-delete_each [] t = refl
delete_batch-delete_each (id ∷ ids) t = delete_batch-delete_each ids (delete id t)

delete_each-append :
    (xs ys : List String) (t : Table ℕ)
    → delete_each (xs ++ ys) t ≡ delete_each ys (delete_each xs t)
delete_each-append [] ys t = refl
delete_each-append (x ∷ xs) ys t = delete_each-append xs ys (delete x t)

-- With as much fuel as there are IDs the loop over the batches deletes them all: batching and the
-- early return do not change what leaves the map.
pub sweep-delete_each :
    (fuel : ℕ) (ids : List String) (st : Store)
    → length ids ≤ fuel
    → (sweep fuel ids st).sessions ≡ delete_each ids st.sessions
unfolding sweep
sweep-delete_each zero [] st h = refl
sweep-delete_each zero (id ∷ ids) st h = absurd (omega arith)
sweep-delete_each (suc fuel) [] st h = refl
sweep-delete_each (suc fuel) (id ∷ ids) st h =
    let batch = take gc_batch_size (id ∷ ids) in
    let rest = drop gc_batch_size (id ∷ ids) in
    sweep-delete_each fuel rest _ (omega (arith, length-drop gc_batch_size (id ∷ ids)))
    ∙ ap (delete_each rest) (delete_batch-delete_each batch st.sessions)
    ∙ sym (delete_each-append batch rest st.sessions)
    ∙ ap (λ (xs : List String). delete_each xs st.sessions)
        (take-append-drop gc_batch_size (id ∷ ids))

-- In a map with distinct keys an ID is collected just where its session is not alive.
elem-expired_ids :
    (o : Options) (h : Heap) (now : ℕ) (id : String) (t : Table ℕ)
    → elem id (keys t) ≡ false
    → elem id (expired_ids o h now t) ≡ false
unfolding expired_ids
elem-expired_ids o h now id [] d = refl
elem-expired_ids o h now id ((j, p) ∷ t) d = ground (arith, elem-expired_ids o h now id t)

pub lookup-expired_ids :
    (o : Options) (h : Heap) (now : ℕ) (id : String) (p : ℕ) (t : Table ℕ)
    → Distinct (keys t)
    → lookup id t ≡ some p
    → elem id (expired_ids o h now t) ≡ not (alive o (h.objects p) now)
unfolding expired_ids lookup
lookup-expired_ids o h now id p [] d e = absurd (ground arith)
lookup-expired_ids o h now id p ((j, q) ∷ t) d e =
    ground
      (arith, eq_iff id j, elem-expired_ids o h now id t, lookup-expired_ids o h now id p t d.1)

abbrev pub survivor : Options → Heap → ℕ → Option ℕ → Option ℕ
survivor o h now none = none
survivor o h now (some p) = if alive o (h.objects p) now then some p else none

-- After a sweep an ID names the session that it named before if that is alive at the sweep's clock
-- reading, and nothing otherwise; IDs that named nothing still do.
pub peek-do_gc :
    (now : ℕ) (st : Store) (id : String)
    → IsWellFormed st
    → peek id (do_gc now st) ≡ survivor st.opts st.heap now (peek id st)
unfolding peek do_gc
peek-do_gc now st id w =
    let ids = expired_ids st.opts st.heap now st.sessions in
    ap (lookup id) (sweep-delete_each (length ids) ids st (omega arith))
    ∙ lookup-delete_each ids id st.sessions
    ∙ elim (Option-cases (lookup id st.sessions)) [
      | inl e ↦ ground (arith, e)
      | inr (p, e) ↦
          ground (arith, e, lookup-expired_ids st.opts st.heap now id p st.sessions w.distinct e)
    ]
