-- ===== src/AntreaSvc/Keys.antt =====
-- The cache keys of different CA generations are different (pkg/handlers/antreasvc/client.go:
-- transportKey).
use Prim.Native.String.{◌++◌ as str_append}
use Prim.Native.String.append
use antrea_ui.Base.{ℕ, String, ◌≡◌, ◌≢◌, refl, sym, ap, false, str_eq, eq_iff, Bool-cases, inl, inr}
use antrea_ui.Base.Numerals.{decimal, decimal-injective}
use antrea_ui.Session.Laws.Caching.{versioned_key}
use antrea_ui.AntreaSvc.Provider.{transport_key}

abbrev tail : String → String
tail String.[] = String.[]
tail (String.◌∷◌ c s) = s

cancel : (u s t : String) → str_append u s ≡ str_append u t → s ≡ t
cancel String.[] s t e = simp append.nil at e
cancel (String.◌∷◌ c u) s t e = cancel u s t (ap tail (simp append.cons at e))

with_slash : (u v : String) → str_append (str_append u "/") v ≡ versioned_key u v
with_slash String.[] v = rw (append.nil, append.cons, append.nil, append.nil) refl
with_slash (String.◌∷◌ c u) v = simp (append.cons, with_slash u v)

pub transport_key-versioned_key : (g : ℕ) → transport_key g ≡ versioned_key "antreasvc" (decimal g)
unfolding transport_key
transport_key-versioned_key g = with_slash "antreasvc" (decimal g)

transport_key-injective : (m n : ℕ) → transport_key m ≡ transport_key n → m ≡ n
unfolding transport_key
transport_key-injective m n e =
    decimal-injective m n (cancel "antreasvc/" (decimal m) (decimal n) e)

keys_differ : (m n : ℕ) → m ≢ n → str_eq (transport_key m) (transport_key n) ≡ false
keys_differ m n ne = elim (Bool-cases (str_eq (transport_key m) (transport_key n))) [
  | inl e ↦
      absurd (ne (transport_key-injective m n ((eq_iff (transport_key m) (transport_key n)).0 e)))
  | inr e ↦ e
]

pub versions_differ :
    (m n : ℕ)
    → m ≢ n
    → str_eq (versioned_key "antreasvc" (decimal n)) (versioned_key "antreasvc" (decimal m)) ≡ false
versions_differ m n ne =
    rw (sym (transport_key-versioned_key n), sym (transport_key-versioned_key m))
      (keys_differ n m (λ e. ne (sym e)))
