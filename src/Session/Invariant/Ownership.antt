-- ===== src/Session/Invariant/Ownership.antt =====
-- The sessions under one cap key, and their order by last use.
use antrea_ui.Base.{
  ℕ, zero, suc, ◌≤◌, String, ◌≡◌, refl, sym, inl, inr, true, false, ◌||◌, none, some, List, [], ◌∷◌,
  ◌++◌, map, arith, str_eq, eq_iff, if◌then◌else◌, Bool-cases, str_eq→eq, drop, All, elem, Distinct,
  Table, lookup, delete, keys, lookup-delete,
}
use antrea_ui.Session.Types.{Heap}
use antrea_ui.Session.Store.{owned, staler}
use antrea_ui.Session.Invariant.{Entries}
use antrea_ui.Session.Invariant.Caps.{Within, elem-owned_ids, id_of, owned_ids, delete_each}

pub lookup-delete_each :
    (ks : List String) (j : String) (t : Table ℕ)
    → lookup j (delete_each ks t) ≡ (if elem j ks then none else lookup j t)
lookup-delete_each [] j t = refl
lookup-delete_each (k ∷ ks) j t =
    ground
      (arith, lookup-delete_each ks j (delete k t), lookup-delete k j t, eq_iff k j, eq_iff j k)

pub All-pick {ℓ κ} :
    {A : Type ℓ} (P : A → Type κ) (f : A → String) (k : String) (xs : List A)
    → All P xs
    → elem k (map f xs) ≡ true
    → (x : A) × (f x ≡ k) × P x
All-pick P f k [] h e = absurd (ground arith)
All-pick P f k (x ∷ xs) h e = elim (Bool-cases (str_eq k (f x))) [
  | inl hit ↦ (x, sym (str_eq→eq k (f x) hit), h.0)
  | inr miss ↦ All-pick P f k xs h.1 (ground arith)
]

pub All-drop {ℓ κ} :
    {A : Type ℓ} (P : A → Type κ) (n : ℕ) (xs : List A) → All P xs → All P (drop n xs)
All-drop P zero xs h = h
All-drop P (suc n) [] h = h
All-drop P (suc n) (x ∷ xs) h = All-drop P n xs h.1

pub map-append-elem {ℓ} :
    {A : Type ℓ} (f : A → String) (k : String) (xs ys : List A)
    → elem k (map f (xs ++ ys)) ≡ (elem k (map f xs) || elem k (map f ys))
map-append-elem f k [] ys = refl
map-append-elem f k (x ∷ xs) ys = ground (arith, map-append-elem f k xs ys)

pub elem_of-Within :
    (k : String) (ks xs : List String) → Within ks xs → elem k ks ≡ true → elem k xs ≡ true
elem_of-Within k [] xs w h = cc
elem_of-Within k (j ∷ ks) xs w h = elim (Bool-cases (str_eq k j)) [
  | inl hit ↦ rw (str_eq→eq k j hit) w.0
  | inr miss ↦ elem_of-Within k ks xs w.1 (ground arith)
]

-- The map finds each session under its own ID.
abbrev pub Found : Heap → Table ℕ → ℕ → Type 0
Found h t p = lookup (id_of h p) t ≡ some p

pub Found-cons :
    (h : Heap) (j : String) (q : ℕ) (t : Table ℕ) (ps : List ℕ)
    → elem j (map (id_of h) ps) ≡ false
    → All (Found h t) ps
    → All (Found h ((j, q) ∷ t)) ps
unfolding lookup
Found-cons h j q t [] d a = tt
Found-cons h j q t (p ∷ ps) d a = (
  ground (arith, a.0, eq_iff j (id_of h p), eq_iff (id_of h p) j),
  Found-cons h j q t ps (ground arith) a.1,
)

pub owned-Found :
    (m : ℕ) (h : Heap) (c : String) (t : Table ℕ)
    → Entries m h t
    → Distinct (keys t)
    → All (Found h t) (owned h c t)
unfolding owned lookup
owned-Found m h c [] e d = tt
owned-Found m h c ((j, p) ∷ t) e d =
    let rest =
      Found-cons h j p t (owned h c t) (elem-owned_ids m h c j t e.1 d.0)
        (owned-Found m h c t e.1 d.1) in
    elim (Bool-cases (str_eq (h.objects p).cap_key c)) [
      | inl hit ↦ rw hit (ground (arith, e.0.keyed, eq_iff (id_of h p) j), rest)
      | inr miss ↦ rw miss rest
    ]

pub lookup-owned_ids :
    (m : ℕ) (h : Heap) (c k : String) (p : ℕ) (t : Table ℕ)
    → Entries m h t
    → lookup k t ≡ some p
    → (h.objects p).cap_key ≡ c
    → elem k (owned_ids h c t) ≡ true
unfolding owned lookup
lookup-owned_ids m h c k p [] e f s = absurd (ground arith)
lookup-owned_ids m h c k p ((j, q) ∷ t) e f s =
    ground (
      arith,
      e.0.keyed,
      eq_iff k j,
      eq_iff (h.objects p).cap_key c,
      lookup-owned_ids m h c k p t e.1,
    )

-- `staler` is a strict order in which any two sessions compare.
pub staler_trans :
    (h : Heap) (p q r : ℕ) → staler h q p ≡ false → staler h r q ≡ false → staler h r p ≡ false
unfolding staler
staler_trans h p q r a b = ground arith

pub staler_asym : (h : Heap) (p q : ℕ) → staler h p q ≡ true → staler h q p ≡ false
unfolding staler
staler_asym h p q a = ground arith

pub staler-false :
    (h : Heap) (p q : ℕ)
    → staler h q p ≡ false
    → ((h.objects p).last_seen ≤ (h.objects q).last_seen)
unfolding staler
staler-false h p q a = ground arith

pub All-both {ℓ κ μ} :
    {A : Type ℓ} (P : A → Type κ) (Q : A → Type μ) (xs : List A)
    → All P xs
    → All Q xs
    → All (λ x. P x × Q x) xs
All-both P Q [] p q = tt
All-both P Q (x ∷ xs) p q = ((p.0, q.0), All-both P Q xs p.1 q.1)
