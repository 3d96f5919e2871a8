-- ===== src/Password/Store.antt =====
-- pkg/password/store.go: the store of the admin password, over a backend that keeps its hash
-- (pkg/password/readwriter) and a hasher (pkg/password/hasher).
use antrea_ui.Base.{
  Bool, true, false, ◌&&◌, Option, none, some, [], ◌∷◌, ◌==◌, if◌then◌else◌, codes, Bytes,
}

pub data PasswordError : Type 0 where
  backend_failed hashing_failed no_randomness not_initialized invalid_password : PasswordError

-- What `Read` answers: an error, that no password has been set, or the hash and the salt.
pub data Reading : Type 0 where
  failed : PasswordError → Reading
  unset : Reading
  found : Bytes → Bytes → Reading

-- `readwriter.Interface`. `none` stands for the nil error.
pub record ReadWriter : Type 1 where
  pub Backend : Type 0
  pub read : Backend → Reading × Backend
  pub write : Bytes → Bytes → Backend → Option PasswordError × Backend

-- `hasher.Interface`: the hash of a password with a salt, `none` where it reports an error. Argon2id
-- is one.
abbrev pub Hasher : Type 0
Hasher = Bytes → Bytes → Option Bytes

abbrev pub default_password : Bytes
default_password = codes "admin"

abbrev pub same_bytes : Bytes → Bytes → Bool
same_bytes [] [] = true
same_bytes (x ∷ xs) (y ∷ ys) = x == y && same_bytes xs ys
same_bytes [] (y ∷ ys) = false
same_bytes (x ∷ xs) [] = false

module _ (rw : ReadWriter) where
  -- `cached_salt` is `none` before `Init`.
  pub record PasswordStore : Type 0 where
    pub cached_salt : Option Bytes
    pub cached_hash : Bytes
    pub backend : rw.Backend

  abbrev pub password_store : rw.Backend → PasswordStore
  password_store w = record { cached_salt = none; cached_hash = []; backend = w }

  abbrev pub written :
      PasswordStore
      → Bytes
      → Bytes
      → Option PasswordError × rw.Backend
      → Option PasswordError × PasswordStore
  written st hash salt (some e, w) = (some e, record st { backend = w })
  written st hash salt (none, w) =
      (none, record { cached_salt = some salt; cached_hash = hash; backend = w })

  -- `hash` is what the hasher answers.
  unfoldable pub write_hash :
      PasswordStore → Bytes → Option Bytes → Option PasswordError × PasswordStore
  write_hash st salt none = (some PasswordError.hashing_failed, st)
  write_hash st salt (some hash) = written st hash salt (rw.write hash salt st.backend)

  -- `random` is the new salt, `none` where the source of randomness fails.
  unfoldable pub init : Hasher → Option Bytes → PasswordStore → Option PasswordError × PasswordStore
  unfolding write_hash
  init hasher random st =
      let (r, w) = rw.read st.backend in
      elim r [
        | failed e ↦ (some e, record st { backend = w })
        | found hash salt ↦
            (none, record { cached_salt = some salt; cached_hash = hash; backend = w })
        | unset ↦ elim random [
          | none ↦ (some PasswordError.no_randomness, record st { backend = w })
          | some salt ↦ write_hash (record st { backend = w }) salt (hasher default_password salt)
        ]
      ]

  unfoldable pub update_password :
      Hasher → Bytes → PasswordStore → Option PasswordError × PasswordStore
  unfolding write_hash
  update_password hasher password st = elim st.cached_salt [
    | none ↦ (some PasswordError.not_initialized, st)
    | some salt ↦ write_hash st salt (hasher password salt)
  ]

  abbrev pub compare_hash : Bytes → Option Bytes → Option PasswordError
  compare_hash cached none = some PasswordError.hashing_failed
  compare_hash cached (some hash) =
      if same_bytes hash cached then none else some PasswordError.invalid_password

  unfoldable pub compare_password : Hasher → Bytes → PasswordStore → Option PasswordError
  compare_password hasher password st = elim st.cached_salt [
    | none ↦ some PasswordError.not_initialized
    | some salt ↦ compare_hash st.cached_hash (hasher password salt)
  ]
