-- ===== src/Credentials/Tokens.antt =====
-- JWTExpiry (pkg/k8s/credentials.go): the expiry that a token's claims name. The decoders of base64
-- and of the JSON claims are parameters.
use antrea_ui.Base.{
  ℕ, zero, suc, ◌+◌, ◌-◌, ◌*◌, Bool, true, false, ◌&&◌, ◌||◌, not, Option, none, some, List, [],
  ◌∷◌, ltb, leb, ◌==◌, if◌then◌else◌, Bytes,
}
use antrea_ui.Base.Int.{ℤ, pos, negsuc}
use antrea_ui.Session.Types.{second}

-- `base64.RawURLEncoding`, and the "exp" claim of a payload, 0 where it has none; `none` is an error.
pub record TokenDecoders : Type 0 where
  pub base64_decode : Bytes → Option Bytes
  pub exp_claim : Bytes → Option ℤ

-- `strings.TrimSpace` on ASCII text, which a token is.
abbrev pub is_space : ℕ → Bool
is_space c = c == 32 || (leb 9 c && leb c 13)

unfoldable pub trim_left : Bytes → Bytes
trim_left [] = []
trim_left (c ∷ cs) = let rest = trim_left cs in if is_space c then rest else c ∷ cs

abbrev pub has_bytes : Bytes → Bool
has_bytes [] = false
has_bytes (b ∷ more) = true

unfoldable pub trim_right : Bytes → Bytes
trim_right [] = []
trim_right (c ∷ cs) =
    let rest = trim_right cs in if is_space c && not (has_bytes rest) then [] else c ∷ rest

abbrev pub prepend : ℕ → List Bytes → List Bytes
prepend c [] = (c ∷ []) ∷ []
prepend c (p ∷ ps) = (c ∷ p) ∷ ps

-- `strings.Split` at a byte.
unfoldable pub split : ℕ → Bytes → List Bytes
split k [] = [] ∷ []
split k (c ∷ cs) = let rest = split k cs in if c == k then [] ∷ rest else prepend c rest

-- The second of exactly three parts.
abbrev pub payload_part : List Bytes → Option Bytes
payload_part (a ∷ b ∷ c ∷ []) = some b
payload_part (a ∷ b ∷ c ∷ d ∷ more) = none
payload_part (a ∷ b ∷ []) = none
payload_part (a ∷ []) = none
payload_part [] = none

-- The seconds from Go's zero time to the start of Unix time.
abbrev pub unix_epoch : ℕ
unix_epoch = 62_135_596_800

-- `time.Unix`. A time before the zero time is not one of the model; it is the first nanosecond, which
-- lies as far in the past for every clock.
unfoldable pub unix_time : ℤ → ℕ
unix_time (pos n) = (unix_epoch + n) * second
unix_time (negsuc n) = if ltb n unix_epoch then (unix_epoch - suc n) * second else 1

abbrev pub claimed : Option ℤ → ℕ
claimed none = 0
claimed (some (pos zero)) = 0
claimed (some e) = unix_time e

unfoldable pub jwt_expiry : TokenDecoders → Bytes → ℕ
unfolding trim_left trim_right split unix_time
jwt_expiry d token = elim (payload_part (split b'.' (trim_left (trim_right token)))) [
  | none ↦ 0
  | some part ↦ elim (d.base64_decode part) [
    | none ↦ 0
    | some payload ↦ claimed (d.exp_claim payload)
  ]
]
