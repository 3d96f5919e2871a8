-- ===== src/Base/Sorting.antt =====
-- Go's `sort.Slice`, by insertion. The texts that name the elements are kept, and so is any
-- property of all elements; the result is in order.
use Prim.Native.Nat.{ℕ, zero, suc}
use Prim.Native.String.{String}
use mathlib.Core.Path.{◌≡◌, refl}
use mathlib.Core.Logic.{inl, inr}
use mathlib.Core.Bool.{Bool, true, false, ◌||◌}
use mathlib.Core.List.{List, [], ◌∷◌, map}
use native.Mathlib.Omega.{arith}
use text.Mathlib.Text.{◌==◌ as str_eq}
use text.Mathlib.TextEquality.{eq_iff}
use antrea_ui.Base.Tests.{if◌then◌else◌, Bool-cases}
use antrea_ui.Base.Lists.{length, take, drop, All, All-mono, elem, Distinct}

module _ {ℓ} {A : Type ℓ} (less : A → A → Bool) where
  unfoldable pub insert_by : A → List A → List A
  insert_by x [] = x ∷ []
  insert_by x (y ∷ ys) = let rest = insert_by x ys in if less x y then x ∷ y ∷ ys else y ∷ rest

  unfoldable pub sort_by : List A → List A
  unfolding insert_by
  sort_by [] = []
  sort_by (x ∷ xs) = insert_by x (sort_by xs)

  length-insert_by : (x : A) (xs : List A) → length (insert_by x xs) ≡ suc (length xs)
  unfolding insert_by
  length-insert_by x [] = refl
  length-insert_by x (y ∷ ys) = ground (arith, length-insert_by x ys)

  pub length-sort_by : (xs : List A) → length (sort_by xs) ≡ length xs
  unfolding sort_by
  length-sort_by [] = refl
  length-sort_by (x ∷ xs) = omega (arith, length-insert_by x (sort_by xs), length-sort_by xs)

  All-insert_by {κ} :
      (P : A → Type κ) (x : A) (xs : List A) → P x → All P xs → All P (insert_by x xs)
  unfolding insert_by
  All-insert_by P x [] h hs = (h, hs)
  All-insert_by P x (y ∷ ys) h hs = elim (Bool-cases (less x y)) [
    | inl e ↦ rw e (h, hs)
    | inr e ↦ rw e (hs.0, All-insert_by P x ys h hs.1)
  ]

  pub All-sort_by {κ} : (P : A → Type κ) (xs : List A) → All P xs → All P (sort_by xs)
  unfolding sort_by
  All-sort_by P [] h = h
  All-sort_by P (x ∷ xs) h = All-insert_by P x (sort_by xs) h.0 (All-sort_by P xs h.1)

  module _ (id : A → String) where
    elem-insert_by :
        (k : String) (x : A) (xs : List A)
        → elem k (map id (insert_by x xs)) ≡ (str_eq k (id x) || elem k (map id xs))
    unfolding insert_by
    elem-insert_by k x [] = refl
    elem-insert_by k x (y ∷ ys) = ground (arith, elem-insert_by k x ys)

    pub elem-sort_by :
        (k : String) (xs : List A) → elem k (map id (sort_by xs)) ≡ elem k (map id xs)
    unfolding sort_by
    elem-sort_by k [] = refl
    elem-sort_by k (x ∷ xs) = ground (arith, elem-insert_by k x (sort_by xs), elem-sort_by k xs)

    Distinct-insert_by :
        (x : A) (xs : List A)
        → elem (id x) (map id xs) ≡ false
        → Distinct (map id xs)
        → Distinct (map id (insert_by x xs))
    unfolding insert_by
    Distinct-insert_by x [] h d = (h, d)
    Distinct-insert_by x (y ∷ ys) h d = ground (
      arith,
      Distinct-insert_by x ys,
      elem-insert_by (id y) x ys,
      eq_iff (id y) (id x),
      eq_iff (id x) (id y),
    )

    pub Distinct-sort_by : (xs : List A) → Distinct (map id xs) → Distinct (map id (sort_by xs))
    unfolding sort_by
    Distinct-sort_by [] d = d
    Distinct-sort_by (x ∷ xs) d =
        Distinct-insert_by x (sort_by xs) (ground (arith, elem-sort_by (id x) xs))
          (Distinct-sort_by xs d.1)

  -- No element is before one that stands ahead of it.
  abbrev pub IsSorted : List A → Type ℓ
  IsSorted [] = Unit
  IsSorted (x ∷ xs) = All (λ y. less y x ≡ false) xs × IsSorted xs

  module _ (trans : (x y z : A) → less y x ≡ false → less z y ≡ false → less z x ≡ false)
      (asym : (x y : A) → less x y ≡ true → less y x ≡ false) where
    insert_by-IsSorted : (x : A) (xs : List A) → IsSorted xs → IsSorted (insert_by x xs)
    unfolding insert_by
    insert_by-IsSorted x [] s = (tt, tt)
    insert_by-IsSorted x (y ∷ ys) s = elim (Bool-cases (less x y)) [
      | inl e ↦ rw e ((asym x y e, All-mono _ _ (λ z h. trans x y z (asym x y e) h) ys s.0), s)
      | inr e ↦ rw e (All-insert_by (λ z. less z y ≡ false) x ys e s.0, insert_by-IsSorted x ys s.1)
    ]

    pub sort_by-IsSorted : (xs : List A) → IsSorted (sort_by xs)
    unfolding sort_by
    sort_by-IsSorted [] = tt
    sort_by-IsSorted (x ∷ xs) = insert_by-IsSorted x (sort_by xs) (sort_by-IsSorted xs)

  -- In a sorted list nothing beyond a position is before anything ahead of it.
  pub IsSorted-take-drop :
      (n : ℕ) (xs : List A)
      → IsSorted xs
      → All (λ x. All (λ y. less y x ≡ false) (drop n xs)) (take n xs)
  IsSorted-take-drop zero xs s = tt
  IsSorted-take-drop (suc n) [] s = tt
  IsSorted-take-drop (suc n) (x ∷ xs) s = (All-drop n xs s.0, IsSorted-take-drop n xs s.1)
    where
      All-drop :
          (m : ℕ) (ys : List A)
          → All (λ y. less y x ≡ false) ys
          → All (λ y. less y x ≡ false) (drop m ys)
      All-drop zero ys h = h
      All-drop (suc m) [] h = h
      All-drop (suc m) (y ∷ ys) h = All-drop m ys h.1
