-- ===== src/Session/Invariant/Caps.antt =====
-- Counting the sessions under one cap key while entries leave the map.
use antrea_ui.Base.{
  ◌∙◌, eq_refl, ℕ, ◌+◌, ◌≤◌, ◌≡◌, refl, ap, inl, inr, String, true, false, List, [], ◌∷◌, map,
  Table, delete, keys, length, Distinct, elem, elem-remove, remove, length-remove-lt, str_eq, arith,
  Bool-cases, All,
}
use antrea_ui.Session.Types.{Heap, Store}
use antrea_ui.Session.Memory.{session_zero}
use antrea_ui.Session.Memory.Erasure.{session_zero-objects}
use antrea_ui.Session.Store.{owned, evict, evict_each}
use antrea_ui.Session.Invariant.{same, without, Entries, Pruned-Entries}

abbrev pub id_of : Heap → ℕ → String
id_of h p = (h.objects p).id

abbrev pub owned_ids : Heap → String → Table ℕ → List String
owned_ids h c t = map (id_of h) (owned h c t)

abbrev pub remove_each : List String → List String → List String
remove_each [] xs = xs
remove_each (k ∷ ks) xs = remove_each ks (remove k xs)

abbrev pub delete_each : List String → Table ℕ → Table ℕ
delete_each [] t = t
delete_each (k ∷ ks) t = delete_each ks (delete k t)

abbrev pub Within : List String → List String → Type 0
Within ks xs = All (λ k. elem k xs ≡ true) ks

Within-remove :
    (k : String) (ks xs : List String) → elem k ks ≡ false → Within ks xs → Within ks (remove k xs)
Within-remove k [] xs d w = tt
Within-remove k (j ∷ ks) xs d w =
    (ground (arith, elem-remove k j xs), Within-remove k ks xs (ground arith) w.1)

-- Removing distinct members shortens a list by as many.
pub length-remove_each :
    (ks xs : List String)
    → Distinct ks
    → Within ks xs
    → length (remove_each ks xs) + length ks ≤ length xs
length-remove_each [] xs d w = omega arith
length-remove_each (k ∷ ks) xs d w = omega (
  arith,
  length-remove-lt k xs w.0,
  length-remove_each ks (remove k xs) d.1 (Within-remove k ks xs d.0 w.1),
)

owned_ids-delete :
    (m : ℕ) (h : Heap) (c k : String) (t : Table ℕ)
    → Entries m h t
    → owned_ids h c (delete k t) ≡ remove k (owned_ids h c t)
unfolding owned delete
owned_ids-delete m h c k [] e = refl
owned_ids-delete m h c k ((j, p) ∷ t) e = ground (arith, e.0.keyed, owned_ids-delete m h c k t e.1)

pub owned_ids-delete_each :
    (m : ℕ) (h : Heap) (c : String) (ks : List String) (t : Table ℕ)
    → Entries m h t
    → owned_ids h c (delete_each ks t) ≡ remove_each ks (owned_ids h c t)
owned_ids-delete_each m h c [] t e = refl
owned_ids-delete_each m h c (k ∷ ks) t e =
    owned_ids-delete_each m h c ks (delete k t) (Pruned-Entries m h (without k same) e)
    ∙ ap (remove_each ks) (owned_ids-delete m h c k t e)

pub elem-owned_ids :
    (m : ℕ) (h : Heap) (c k : String) (t : Table ℕ)
    → Entries m h t
    → elem k (keys t) ≡ false
    → elem k (owned_ids h c t) ≡ false
unfolding owned
elem-owned_ids m h c k [] e d = refl
elem-owned_ids m h c k ((j, p) ∷ t) e d = ground (arith, e.0.keyed, elem-owned_ids m h c k t e.1)

-- The IDs of the sessions under one cap key are distinct.
pub Distinct-owned_ids :
    (m : ℕ) (h : Heap) (c : String) (t : Table ℕ)
    → Entries m h t
    → Distinct (keys t)
    → Distinct (owned_ids h c t)
unfolding owned
Distinct-owned_ids m h c [] e d = tt
Distinct-owned_ids m h c ((j, p) ∷ t) e d = elim (Bool-cases (str_eq (h.objects p).cap_key c)) [
  | inl hit ↦
      rw hit (rw e.0.keyed (elem-owned_ids m h c j t e.1 d.0), Distinct-owned_ids m h c t e.1 d.1)
  | inr miss ↦ rw miss (Distinct-owned_ids m h c t e.1 d.1)
]

pub Within-self :
    (xs ys : List String) → ((k : String) → elem k xs ≡ true → elem k ys ≡ true) → Within xs ys
Within-self [] ys f = tt
Within-self (x ∷ xs) ys f =
    (f x (ground (arith, eq_refl x)), Within-self xs ys (λ k h. f k (ground arith)))

id_of-session_zero : (p q : ℕ) (h : Heap) → id_of (session_zero p h) q ≡ id_of h q
id_of-session_zero p q h = ground (arith, session_zero-objects p h q)

map-id_of : (p : ℕ) (ps : List ℕ) (h : Heap) → map (id_of (session_zero p h)) ps ≡ map (id_of h) ps
map-id_of p [] h = refl
map-id_of p (q ∷ ps) h = cc (id_of-session_zero p q h, map-id_of p ps h)

-- The evicted sessions leave the map, and only they.
pub sessions-evict_each :
    (ps : List ℕ) (st : Store)
    → (evict_each ps st).sessions ≡ delete_each (map (id_of st.heap) ps) st.sessions
unfolding evict_each evict
sessions-evict_each [] st = refl
sessions-evict_each (p ∷ ps) st =
    sessions-evict_each ps (evict p st)
    ∙ ap (λ ks. delete_each ks (delete (id_of st.heap p) st.sessions)) (map-id_of p ps st.heap)
