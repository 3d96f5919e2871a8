-- ===== src/RateLimit/Format.antt =====
-- pkg/server/ratelimit/config.go: rates such as 10/s, as requests over seconds. The quotient is a
-- floating-point number in the code, whose rounding is not modelled.
use Prim.Native.Char.{Char, code}
use antrea_ui.Base.{
  ℕ, String, Bool, ◌+◌, ◌-◌, ◌*◌, ◌^◌, ◌&&◌, Option, none, some, leb, ltb, ◌==◌, str_eq,
  if◌then◌else◌,
}
use antrea_ui.Base.Int.{ℤ, pos, negsuc}

pub record Rate : Type 0 where
  pub requests : ℕ
  pub seconds : ℕ

pub record LimitConfig : Type 0 where
  pub rate_per_second : Rate
  pub burst_size : ℕ

pub data RateError : Type 0 where
  not_a_rate number_too_large negative_burst : RateError

pub data Checked (A : Type 0) : Type 0 where
  fine : A → Checked A
  wrong : RateError → Checked A

abbrev pub is_digit : Char → Bool
is_digit c = leb 48 (code c) && leb (code c) 57

-- The digits from here on, read after the number `n`, and the text behind them.
unfoldable pub read_digits : ℕ → String → ℕ × String
read_digits n String.[] = (n, String.[])
read_digits n (String.◌∷◌ c s) =
    let rest = read_digits (n * 10 + (code c - 48)) s in
    if is_digit c then rest else (n, String.◌∷◌ c s)

abbrev pub seconds_of : String → Option ℕ
seconds_of unit =
    if str_eq unit "/s"
    then some 1
    else if str_eq unit "/m"
    then some 60
    else if str_eq unit "/h"
    then some 3600
    else none

-- A number that ParseUint takes has 64 bits.
abbrev pub rated : ℕ → Option ℕ → Checked Rate
rated n none = Checked.wrong RateError.not_a_rate
rated n (some seconds) =
    if ltb n (2 ^ 64)
    then Checked.fine (record { requests = n; seconds = seconds })
    else Checked.wrong RateError.number_too_large

abbrev pub with_unit : ℕ × String → Checked Rate
with_unit (n, unit) = rated n (seconds_of unit)

-- A text that `^(0|[1-9]+[0-9]*)\/([smh])$` matches.
unfoldable pub rate_from_str : String → Checked Rate
unfolding read_digits
rate_from_str String.[] = Checked.wrong RateError.not_a_rate
rate_from_str (String.◌∷◌ c s) =
    if code c == 48
    then with_unit (0, s)
    else if is_digit c
    then with_unit (read_digits (code c - 48) s)
    else Checked.wrong RateError.not_a_rate

abbrev pub with_burst : ℤ → Checked Rate → Checked LimitConfig
with_burst burst_size (Checked.wrong e) = Checked.wrong e
with_burst (negsuc n) (Checked.fine r) = Checked.wrong RateError.negative_burst
with_burst (pos n) (Checked.fine r) = Checked.fine (record { rate_per_second = r; burst_size = n })

unfoldable pub new_config : String → ℤ → Checked LimitConfig
unfolding rate_from_str
new_config rate_str burst_size = with_burst burst_size (rate_from_str rate_str)
