-- ===== src/RateLimit/Numerals.antt =====
-- What the server writes as a rate is read back (pkg/server/ratelimit/config.go; the `%d/s` of
-- pkg/server/auth.go and the `%d/h` of pkg/server/api/traceflow.go).
use Prim.Native.Char.{Char, code}
use Prim.Native.String.{◌++◌ as str_append}
use Prim.Native.String.append
use antrea_ui.Base.{
  ℕ, String, ◌+◌, ◌*◌, ◌≤◌, ◌<◌, ◌≡◌, refl, ◌∙◌, ap, true, List, [], ◌∷◌, arith, ◌==◌, Bool-cases,
  inl, inr, zero, suc, sym, false, some, str_eq, str_eq→eq, ◌-◌, ◌^◌, subst, ltb, if◌then◌else◌,
}
use antrea_ui.Base.Numerals.{
  digit_char, increment, digits, digits_text, decimal, value, value-digits, code-digit_char,
  AreDigits, digits-AreDigits,
}
use antrea_ui.RateLimit.Format.{
  Rate, RateError, Checked, is_digit, read_digits, seconds_of, rated, with_unit, rate_from_str,
}

digits_text-append :
    (ds : List ℕ) (s t : String) → str_append (digits_text ds s) t ≡ digits_text ds (str_append s t)
unfolding digits_text
digits_text-append [] s t = refl
digits_text-append (d ∷ ds) s t =
    digits_text-append ds (String.◌∷◌ (digit_char d) s) t
    ∙ ap (digits_text ds) (append.cons (digit_char d) s t)

digit_char-is_digit : (d : ℕ) → d ≤ 9 → is_digit (digit_char d) ≡ true
digit_char-is_digit d h = ground (arith, code-digit_char d h)

read_one :
    (n d : ℕ) (s : String)
    → d ≤ 9
    → read_digits n (String.◌∷◌ (digit_char d) s) ≡ read_digits (n * 10 + d) s
unfolding read_digits
read_one n d s h =
    rw (digit_char-is_digit d h)
      (ap (λ (k : ℕ). read_digits k s) (rw (code-digit_char d h) (omega arith)))

read_digits-digits_text :
    (ds : List ℕ) (s : String)
    → AreDigits ds
    → read_digits 0 (digits_text ds s) ≡ read_digits (value ds) s
unfolding digits_text read_digits
read_digits-digits_text [] s h = refl
read_digits-digits_text (d ∷ ds) s h =
    read_digits-digits_text ds (String.◌∷◌ (digit_char d) s) h.1
    ∙ read_one (value ds) d s h.0
    ∙ ap (λ (k : ℕ). read_digits k s) (omega arith)

-- The last of these digits, which is written first, is not 0.
abbrev HasLead : List ℕ → Type 0
HasLead [] = ⊥
HasLead (d ∷ []) = 0 < d
HasLead (d ∷ e ∷ ds) = HasLead (e ∷ ds)

lead_kept : (d : ℕ) (ds : List ℕ) → HasLead ds → HasLead (d ∷ ds)
lead_kept d [] h = absurd h
lead_kept d (e ∷ ds) h = h

increment-HasLead : (ds : List ℕ) → HasLead ds → HasLead (increment ds)
unfolding increment
increment-HasLead [] h = absurd h
increment-HasLead (d ∷ []) h = elim (Bool-cases (d == 9)) [
  | inl e ↦ rw e (omega arith)
  | inr e ↦ rw e (omega arith)
]
increment-HasLead (d ∷ e ∷ ds) h = elim (Bool-cases (d == 9)) [
  | inl nine ↦ rw nine (lead_kept 0 (increment (e ∷ ds)) (increment-HasLead (e ∷ ds) h))
  | inr less ↦ rw less h
]

digits-HasLead : (n : ℕ) → HasLead (digits (suc n))
unfolding digits increment
digits-HasLead zero = omega arith
digits-HasLead (suc n) = increment-HasLead (digits (suc n)) (digits-HasLead n)

head_of :
    (ds : List ℕ) (s : String)
    → AreDigits ds
    → HasLead ds
    → (k : ℕ) × (t : String) × (digits_text ds s ≡ String.◌∷◌ (digit_char k) t) × (0 < k) × (k ≤ 9)
unfolding digits_text
head_of [] s h lead = absurd lead
head_of (d ∷ []) s h lead = (d, s, refl, lead, h.0)
head_of (d ∷ e ∷ ds) s h lead = head_of (e ∷ ds) (String.◌∷◌ (digit_char d) s) h.1 lead

first_read :
    (c : Char) (t : String)
    → code c == 48 ≡ false
    → is_digit c ≡ true
    → rate_from_str (String.◌∷◌ c t) ≡ with_unit (read_digits (code c - 48) t)
unfolding rate_from_str
first_read c t e e' = rw (e, e') refl

rate_from_str-digit :
    (k : ℕ) (t : String)
    → 0 < k
    → k ≤ 9
    → rate_from_str (String.◌∷◌ (digit_char k) t)
      ≡ with_unit (read_digits 0 (String.◌∷◌ (digit_char k) t))
rate_from_str-digit k t pos_k small =
    let is_k : code (digit_char k) - 48 ≡ 0 * 10 + k = ground (arith, code-digit_char k small) in
    first_read (digit_char k) t (ground (arith, code-digit_char k small))
      (digit_char-is_digit k small)
    ∙ ap (λ (m : ℕ). with_unit (read_digits m t)) is_k
    ∙ ap with_unit (sym (read_one 0 k t small))

rate_from_str-digits_text :
    (ds : List ℕ) (s : String)
    → AreDigits ds
    → HasLead ds
    → rate_from_str (digits_text ds s) ≡ with_unit (read_digits (value ds) s)
rate_from_str-digits_text ds s h lead =
    let (k, t, is, pos_k, small) = head_of ds s h lead in
    ap rate_from_str is
    ∙ rate_from_str-digit k t pos_k small
    ∙ ap (λ (u : String). with_unit (read_digits 0 u)) (sym is)
    ∙ ap with_unit (read_digits-digits_text ds s h)

rate_from_str-number :
    (n : ℕ) (s : String)
    → read_digits n s ≡ (n, s)
    → rate_from_str (digits_text (digits n) s) ≡ with_unit (n, s)
unfolding digits digits_text rate_from_str
rate_from_str-number zero s e = refl
rate_from_str-number (suc n) s e =
    rate_from_str-digits_text (digits (suc n)) s (digits-AreDigits (suc n)) (digits-HasLead n)
    ∙ ap with_unit (ap (λ (k : ℕ). read_digits k s) (value-digits (suc n)) ∙ e)

not_a_digit :
    (n : ℕ) (unit s : String) → unit ≡ s → read_digits n s ≡ (n, s) → read_digits n unit ≡ (n, unit)
not_a_digit n unit s e = subst (λ u. read_digits n u ≡ (n, u)) (sym e)

-- Digits end where a unit begins.
read_unit :
    (n : ℕ) (unit : String) (k : ℕ) → seconds_of unit ≡ some k → read_digits n unit ≡ (n, unit)
unfolding read_digits
read_unit n unit k e = elim (Bool-cases (str_eq unit "/s")) [
  | inl is ↦ not_a_digit n unit "/s" (str_eq→eq unit "/s" is) refl
  | inr no_s ↦ elim (Bool-cases (str_eq unit "/m")) [
    | inl is ↦ not_a_digit n unit "/m" (str_eq→eq unit "/m" is) refl
    | inr no_m ↦ elim (Bool-cases (str_eq unit "/h")) [
      | inl is ↦ not_a_digit n unit "/h" (str_eq→eq unit "/h" is) refl
      | inr no_h ↦ absurd (ground arith)
    ]
  ]
]

-- The rate that a number of at most 64 bits gives over its unit; a larger one is refused.
abbrev pub rate_of : ℕ → ℕ → Checked Rate
rate_of n k =
    if ltb n (2 ^ 64)
    then Checked.fine (record { requests = n; seconds = k })
    else Checked.wrong RateError.number_too_large

-- A number written with `%d` in front of a unit is read back as that number over the seconds of the
-- unit, unless it does not fit 64 bits: then it is refused as too large.
pub rate_from_str-decimal :
    (n : ℕ) (unit : String) (k : ℕ)
    → seconds_of unit ≡ some k
    → rate_from_str (str_append (decimal n) unit) ≡ rate_of n k
unfolding decimal
rate_from_str-decimal n unit k e =
    ap rate_from_str
      (digits_text-append (digits n) String.[] unit ∙ ap (digits_text (digits n)) (append.nil unit))
    ∙ rate_from_str-number n unit (read_unit n unit k e)
    ∙ ap (rated n) e
