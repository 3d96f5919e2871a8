-- ===== src/Base/Numerals.antt =====
-- Go's `%d` of a number that is not negative, and that it tells numbers apart.
use Prim.Native.Char.{Char, code}
use antrea_ui.Base.{
  ℕ, String, zero, suc, ◌+◌, ◌-◌, ◌*◌, ◌≤◌, ◌≡◌, refl, List, [], ◌∷◌, arith, ◌==◌, if◌then◌else◌,
  ◌∙◌, sym, ap, Bool-cases, inl, inr,
}

abbrev pub digit_char : ℕ → Char
digit_char zero = "0"
digit_char (suc zero) = "1"
digit_char (suc (suc zero)) = "2"
digit_char (suc (suc (suc zero))) = "3"
digit_char (suc (suc (suc (suc zero)))) = "4"
digit_char (suc (suc (suc (suc (suc zero))))) = "5"
digit_char (suc (suc (suc (suc (suc (suc zero)))))) = "6"
digit_char (suc (suc (suc (suc (suc (suc (suc zero))))))) = "7"
digit_char (suc (suc (suc (suc (suc (suc (suc (suc zero)))))))) = "8"
digit_char _ = "9"

-- The digits, the last one first.
unfoldable pub increment : List ℕ → List ℕ
increment [] = 1 ∷ []
increment (d ∷ ds) = let rest = increment ds in if d == 9 then 0 ∷ rest else suc d ∷ ds

unfoldable pub digits : ℕ → List ℕ
unfolding increment
digits zero = 0 ∷ []
digits (suc n) = increment (digits n)

unfoldable pub digits_text : List ℕ → String → String
digits_text [] s = s
digits_text (d ∷ ds) s = digits_text ds (String.◌∷◌ (digit_char d) s)

unfoldable pub decimal : ℕ → String
unfolding digits digits_text
decimal n = digits_text (digits n) String.[]

abbrev pub value : List ℕ → ℕ
value [] = 0
value (d ∷ ds) = d + 10 * value ds

unfoldable read : ℕ → String → ℕ
read n String.[] = n
read n (String.◌∷◌ c s) = read (n * 10 + (code c - 48)) s

abbrev pub AreDigits : List ℕ → Type 0
AreDigits [] = Unit
AreDigits (d ∷ ds) = (d ≤ 9) × AreDigits ds

increment-AreDigits : (ds : List ℕ) → AreDigits ds → AreDigits (increment ds)
unfolding increment
increment-AreDigits [] h = (omega arith, tt)
increment-AreDigits (d ∷ ds) h = elim (Bool-cases (d == 9)) [
  | inl e ↦ rw e (omega arith, increment-AreDigits ds h.1)
  | inr e ↦ rw e (ground (arith, h.0), h.1)
]

value-increment : (ds : List ℕ) → value (increment ds) ≡ suc (value ds)
unfolding increment
value-increment [] = refl
value-increment (d ∷ ds) = elim (Bool-cases (d == 9)) [
  | inl e ↦ rw e (ground (arith, value-increment ds))
  | inr e ↦ rw e (omega arith)
]

pub digits-AreDigits : (n : ℕ) → AreDigits (digits n)
unfolding digits
digits-AreDigits zero = (omega arith, tt)
digits-AreDigits (suc n) = increment-AreDigits (digits n) (digits-AreDigits n)

pub value-digits : (n : ℕ) → value (digits n) ≡ n
unfolding digits
value-digits zero = refl
value-digits (suc n) = value-increment (digits n) ∙ ap suc (value-digits n)

pub code-digit_char : (d : ℕ) → d ≤ 9 → code (digit_char d) ≡ 48 + d
code-digit_char zero h = refl
code-digit_char (suc zero) h = refl
code-digit_char (suc (suc zero)) h = refl
code-digit_char (suc (suc (suc zero))) h = refl
code-digit_char (suc (suc (suc (suc zero)))) h = refl
code-digit_char (suc (suc (suc (suc (suc zero))))) h = refl
code-digit_char (suc (suc (suc (suc (suc (suc zero)))))) h = refl
code-digit_char (suc (suc (suc (suc (suc (suc (suc zero))))))) h = refl
code-digit_char (suc (suc (suc (suc (suc (suc (suc (suc zero)))))))) h = refl
code-digit_char (suc (suc (suc (suc (suc (suc (suc (suc (suc zero))))))))) h = refl
code-digit_char (suc (suc (suc (suc (suc (suc (suc (suc (suc (suc d)))))))))) h =
    absurd (omega arith)

read-digits_text :
    (ds : List ℕ) (s : String) → AreDigits ds → read 0 (digits_text ds s) ≡ read (value ds) s
unfolding read digits_text
read-digits_text [] s h = refl
read-digits_text (d ∷ ds) s h =
    read-digits_text ds (String.◌∷◌ (digit_char d) s) h.1
    ∙ ap (λ (n : ℕ). read n s) (rw (code-digit_char d h.0) (omega arith))

read-decimal : (n : ℕ) → read 0 (decimal n) ≡ n
unfolding decimal read
read-decimal n = read-digits_text (digits n) String.[] (digits-AreDigits n) ∙ value-digits n

-- Two numbers with the same numeral are the same.
pub decimal-injective : (m n : ℕ) → decimal m ≡ decimal n → m ≡ n
decimal-injective m n e = sym (read-decimal m) ∙ ap (read 0) e ∙ read-decimal n
