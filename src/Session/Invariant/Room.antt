-- ===== src/Session/Invariant/Room.antt =====
-- Enforcing the per-user limit leaves room for one more session of that user.
use antrea_ui.Session.Types.{Store}
use antrea_ui.Session.Invariant.{IsWellFormed}
use antrea_ui.Session.Invariant.Caps.{
  id_of, owned_ids, delete_each, Within, length-remove_each, owned_ids-delete_each, Within-self,
  Distinct-owned_ids, sessions-evict_each,
}
use antrea_ui.Session.Store.{owned, staler, to_evict, enforce_per_user_limit_locked}
use antrea_ui.Base.{
  ltb, Bool-cases, take, str_eq, elem, map, Distinct, length, List, String, ℕ, zero, suc, ◌+◌, ◌-◌,
  ◌≤◌, ◌<◌, ◌≡◌, refl, sym, ap, ◌∙◌, inl, inr, true, false, [], ◌∷◌, arith, ltb→lt, length-take,
  Distinct-take, sort_by, length-sort_by, elem-sort_by, Distinct-sort_by,
}

pub map-take {ℓ κ} :
    {A : Type ℓ} {B : Type κ} (f : A → B) (n : ℕ) (xs : List A)
    → map f (take n xs) ≡ take n (map f xs)
map-take f zero xs = refl
map-take f (suc n) [] = refl
map-take f (suc n) (x ∷ xs) = λ i. f x ∷ map-take f n xs i

pub length-map {ℓ κ} :
    {A : Type ℓ} {B : Type κ} (f : A → B) (xs : List A) → length (map f xs) ≡ length xs
length-map f [] = refl
length-map f (x ∷ xs) = omega (arith, length-map f xs)

elem_of-take :
    (n : ℕ) (k : String) (xs : List String) → elem k (take n xs) ≡ true → elem k xs ≡ true
elem_of-take zero k xs h = cc
elem_of-take (suc n) k [] h = h
elem_of-take (suc n) k (x ∷ xs) h = ground (arith, elem_of-take n k xs)

-- The evicted sessions are distinct, are the user's, and enough of them.
pub to_evict-Distinct :
    (c : String) (st : Store) → IsWellFormed st → Distinct (map (id_of st.heap) (to_evict c st))
unfolding to_evict
to_evict-Distinct c st w =
    let mine = owned st.heap c st.sessions in
    elim (Bool-cases (ltb (length mine) st.opts.max_sessions_per_user)) [
      | inl few ↦ rw few tt
      | inr many ↦ rw many (
          rw map-take (
            Distinct-take _ _ (
              Distinct-sort_by (staler st.heap) (id_of st.heap) mine (
                Distinct-owned_ids st.opts.max_lifetime st.heap c st.sessions w.entries
                  w.distinct))))
    ]

pub to_evict-Within :
    (c : String) (st : Store)
    → Within (map (id_of st.heap) (to_evict c st)) (owned_ids st.heap c st.sessions)
unfolding to_evict
to_evict-Within c st =
    let mine = owned st.heap c st.sessions in
    elim (Bool-cases (ltb (length mine) st.opts.max_sessions_per_user)) [
      | inl few ↦ rw few tt
      | inr many ↦ rw many (
          rw map-take (
            Within-self _ _ λ k h.
              sym (elem-sort_by (staler st.heap) (id_of st.heap) k mine)
              ∙ elem_of-take (length mine - st.opts.max_sessions_per_user + 1) k _ h))
    ]

length-to_evict :
    (c : String) (st : Store)
    → IsWellFormed st
    → length (owned st.heap c st.sessions) < length (to_evict c st) + st.opts.max_sessions_per_user
unfolding to_evict
length-to_evict c st w =
    let mine = owned st.heap c st.sessions in
    elim (Bool-cases (ltb (length mine) st.opts.max_sessions_per_user)) [
      | inl few ↦ rw few (omega (arith, ltb→lt _ _ few))
      | inr many ↦ rw many (
          let full : st.opts.max_sessions_per_user ≤ length mine = ground arith in
          omega (
            arith,
            w.sane.share_positive,
            length-take (length mine - st.opts.max_sessions_per_user + 1)
                (sort_by (staler st.heap) mine)
                (rw length-sort_by (omega (arith, w.sane.share_positive))),
          ))
    ]

pub enforce_leaves_room :
    (c : String) (st : Store)
    → IsWellFormed st
    → str_eq c "" ≡ false
    → length (owned st.heap c (enforce_per_user_limit_locked c st).sessions)
      < st.opts.max_sessions_per_user
unfolding enforce_per_user_limit_locked
enforce_leaves_room c st w named =
    rw (named, sessions-evict_each (to_evict c st) st)
      (omega (
        arith,
        length-to_evict c st w,
        length-map (id_of st.heap) (to_evict c st),
        length-map (id_of st.heap) (owned st.heap c st.sessions),
        length-map (id_of st.heap)
            (owned st.heap c (delete_each (map (id_of st.heap) (to_evict c st)) st.sessions)),
        ap length (
            owned_ids-delete_each st.opts.max_lifetime st.heap c
              (map (id_of st.heap) (to_evict c st)) st.sessions w.entries),
        length-remove_each (map (id_of st.heap) (to_evict c st)) (owned_ids st.heap c st.sessions)
            (to_evict-Distinct c st w) (to_evict-Within c st),
      ))
