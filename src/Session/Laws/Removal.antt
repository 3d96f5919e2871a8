-- ===== src/Session/Laws/Removal.antt =====
-- `Delete`, and a `Get` that ends a session: nothing is left in the map or in memory.
use antrea_ui.Base.{
  ℕ, String, ◌≡◌, ◌≢◌, false, none, some, ◌++◌, arith, str_eq, eq_refl, All, lookup-delete,
  delete_absent,
}
use antrea_ui.Session.Types.{Store}
use antrea_ui.Session.Memory.{session_zero, IsErased, material, cleanups}
use antrea_ui.Session.Memory.Erasure.{
  emptied, session_zero-material, session_zero-objects, session_zero-released,
}
use antrea_ui.Session.Store.{delete_session, peek}

-- From `st` to `su` the session at `p` has been removed and erased.
pub record IsGone (id : String) (p : ℕ) (st su : Store) : Type 0 where
  pub forgotten : peek id su ≡ none
  pub others : (jd : String) → str_eq id jd ≡ false → peek jd su ≡ peek jd st
  pub erased_material : All (IsErased su.heap) (material (st.heap.objects p))
  pub emptied_object : su.heap.objects p ≡ emptied (st.heap.objects p)
  pub other_objects : (q : ℕ) → q ≢ p → su.heap.objects q ≡ st.heap.objects q
  pub released : su.heap.released ≡ st.heap.released ++ cleanups (st.heap.objects p).transports

-- After `Delete` of an ID that names a session the ID is unknown and all other IDs are as they were.
-- Every buffer of the session's credential material holds zeros, the object that requests may still
-- hold has no material and no transport, every other object is as it was, and the cleanup of each
-- cached transport has been called.
pub delete_session-IsGone :
    (id : String) (p : ℕ) (st : Store) → peek id st ≡ some p → IsGone id p st (delete_session id st)
unfolding peek delete_session
delete_session-IsGone id p st was =
    rw (was, delete_session)
      (record {
        forgotten = ground (arith, lookup-delete id id st.sessions, eq_refl id);
        others = λ jd ne. ground (arith, lookup-delete id jd st.sessions);
        erased_material = session_zero-material p st.heap;
        emptied_object = ground (arith, session_zero-objects p st.heap p);
        other_objects = λ q ne. ground (arith, session_zero-objects p st.heap q);
        released = session_zero-released p st.heap;
      })

-- Deleting an unknown ID changes nothing.
pub delete_session_unknown :
    (id : String) (st : Store) → peek id st ≡ none → delete_session id st ≡ st
unfolding peek delete_session
delete_session_unknown id st was =
    rw (was, delete_session) (ground (arith, delete_absent id st.sessions was))

pub heap-delete_session :
    (id : String) (p : ℕ) (st : Store)
    → peek id st ≡ some p
    → (delete_session id st).heap ≡ session_zero p st.heap
unfolding peek delete_session
heap-delete_session id p st was = rw (was, delete_session)
