-- ===== src/Base/Tables.antt =====
-- Go's maps with texts as keys: association lists, whose order stands for the order of an
-- iteration. A theorem over all tables so covers every order in which a map may be visited.
use Prim.Native.Nat.{◌≤◌, ◌<◌}
use Prim.Native.String.{String}
use mathlib.Core.Path.{◌≡◌, refl}
use mathlib.Core.Bool.{false}
use mathlib.Core.Option.{Option, none, some}
use mathlib.Core.List.{List, [], ◌∷◌}
use native.Mathlib.Omega.{arith}
use text.Mathlib.Text.{◌==◌ as str_eq}
use text.Mathlib.TextEquality.{eq_iff}
use text.Mathlib.TextPositions.{eq_refl}
use antrea_ui.Base.Tests.{if◌then◌else◌}
use antrea_ui.Base.Lists.{length, elem, remove, Distinct, elem-remove}

abbrev pub Table {ℓ} : Type ℓ → Type ℓ
Table V = List (String × V)

module _ {ℓ} {V : Type ℓ} where
  unfoldable pub lookup : String → Table V → Option V
  lookup k [] = none
  lookup k ((j, v) ∷ t) = if str_eq k j then some v else lookup k t

  unfoldable pub delete : String → Table V → Table V
  delete k [] = []
  delete k ((j, v) ∷ t) = let rest = delete k t in if str_eq k j then rest else (j, v) ∷ rest

  unfoldable pub insert : String → V → Table V → Table V
  unfolding delete
  insert k v t = (k, v) ∷ delete k t

  abbrev pub keys : Table V → List String
  keys [] = []
  keys ((k, v) ∷ t) = k ∷ keys t

  pub lookup-delete :
      (k j : String) (t : Table V)
      → lookup j (delete k t) ≡ (if str_eq k j then none else lookup j t)
  unfolding lookup delete
  lookup-delete k j [] = ground arith
  lookup-delete k j ((i, v) ∷ t) =
      ground (arith, lookup-delete k j t, eq_iff k i, eq_iff j i, eq_iff k j)

  pub lookup-insert :
      (k j : String) (v : V) (t : Table V)
      → lookup j (insert k v t) ≡ (if str_eq k j then some v else lookup j t)
  unfolding lookup insert
  lookup-insert k j v t = ground (arith, lookup-delete k j t, eq_iff k j, eq_iff j k)

  pub keys-delete : (k : String) (t : Table V) → keys (delete k t) ≡ remove k (keys t)
  unfolding delete
  keys-delete k [] = refl
  keys-delete k ((j, v) ∷ t) = ground (arith, keys-delete k t)

  pub delete-Distinct :
      (k : String) (t : Table V) → Distinct (keys t) → Distinct (keys (delete k t))
  unfolding delete
  delete-Distinct k [] d = tt
  delete-Distinct k ((j, v) ∷ t) d =
      ground (arith, delete-Distinct k t, keys-delete k t, elem-remove k j (keys t))

  pub elem-keys-delete :
      (k j : String) (t : Table V)
      → elem j (keys (delete k t)) ≡ (if str_eq k j then false else elem j (keys t))
  elem-keys-delete k j t = ground (arith, keys-delete k t, elem-remove k j (keys t))

  pub insert-Distinct :
      (k : String) (v : V) (t : Table V) → Distinct (keys t) → Distinct (keys (insert k v t))
  unfolding insert
  insert-Distinct k v t d =
      (ground (arith, elem-keys-delete k k t, eq_refl k), delete-Distinct k t d)

  pub length-delete-le : (k : String) (t : Table V) → length (delete k t) ≤ length t
  unfolding delete
  length-delete-le k [] = omega arith
  length-delete-le k ((j, v) ∷ t) = ground (arith, length-delete-le k t)

  pub length-delete-lt :
      (k : String) (v : V) (t : Table V) → lookup k t ≡ some v → length (delete k t) < length t
  unfolding delete lookup
  length-delete-lt k v [] h = absurd (ground arith)
  length-delete-lt k v ((j, w) ∷ t) h = ground (arith, length-delete-lt k v t, length-delete-le k t)

  pub lookup-eq_none : (k : String) (t : Table V) → elem k (keys t) ≡ false → lookup k t ≡ none
  unfolding lookup
  lookup-eq_none k [] h = refl
  lookup-eq_none k ((j, v) ∷ t) h = ground (arith, lookup-eq_none k t)

  pub delete_absent : (k : String) (t : Table V) → lookup k t ≡ none → delete k t ≡ t
  unfolding lookup delete
  delete_absent k [] h = refl
  delete_absent k ((j, v) ∷ t) h = ground (arith, delete_absent k t)

pub ruleset table_laws = (lookup-delete, lookup-insert)
