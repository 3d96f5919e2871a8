-- ===== src/Password/Laws/Starting.antt =====
-- The store of the admin password after `Init` (pkg/password/store.go).
use antrea_ui.Base.{◌≡◌, Option, none, some, Bytes, subst, ap, arith}
use antrea_ui.Password.Store.{
  PasswordError, Reading, failed, unset, found, ReadWriter, Hasher, PasswordStore, default_password,
  written, write_hash, init,
}
use antrea_ui.Password.Laws.Updates.{Holds, cached-Holds}

module _ (io : ReadWriter) (hasher : Hasher) where
  -- The store has a hash and a salt, and compares a password with them.
  pub record IsInitialized (st : PasswordStore io) : Type 0 where
    pub hash : Bytes
    pub salt : Bytes
    pub holds : Holds io hasher hash salt st

  written-IsInitialized :
      (st su : PasswordStore io) (hash salt : Bytes) (o : Option PasswordError × io.Backend)
      → written io st hash salt o ≡ (none, su)
      → IsInitialized su
  written-IsInitialized st su hash salt (some e, w) h = absurd (ground (arith, h))
  written-IsInitialized st su hash salt (none, w) h =
      subst IsInitialized (ap (λ r. r.1) h)
        (record { hash = hash; salt = salt; holds = cached-Holds io hasher hash salt w })

  hashed-IsInitialized :
      (st su : PasswordStore io) (salt : Bytes) (o : Option Bytes)
      → write_hash io st salt o ≡ (none, su)
      → IsInitialized su
  unfolding write_hash
  hashed-IsInitialized st su salt none h = absurd (ground (arith, h))
  hashed-IsInitialized st su salt (some hash) h =
      written-IsInitialized st su hash salt (io.write hash salt st.backend) h

  drawn-IsInitialized :
      (st su : PasswordStore io) (random : Option Bytes)
      → ◌≡◌ {A = Option PasswordError × PasswordStore io}
          (elim random [
            | none ↦ (some PasswordError.no_randomness, st)
            | some salt ↦ write_hash io st salt (hasher default_password salt)
          ])
          (none, su)
      → IsInitialized su
  drawn-IsInitialized st su none h = absurd (ground (arith, h))
  drawn-IsInitialized st su (some salt) h =
      hashed-IsInitialized st su salt (hasher default_password salt) h

  -- Where `Init` reports no error, the store is ready to compare passwords.
  pub init-IsInitialized :
      (random : Option Bytes) (st su : PasswordStore io)
      → init io hasher random st ≡ (none, su)
      → IsInitialized su
  unfolding init
  init-IsInitialized random st su h = by_reading (io.read st.backend) h
    where
      by_reading :
          (r : Reading × io.Backend)
          → ◌≡◌ {A = Option PasswordError × PasswordStore io}
              (elim r.0 [
                | failed e ↦ (some e, record st { backend = r.1 })
                | found hash salt ↦
                    (none, record { cached_salt = some salt; cached_hash = hash; backend = r.1 })
                | unset ↦ elim random [
                  | none ↦ (some PasswordError.no_randomness, record st { backend = r.1 })
                  | some salt ↦
                      write_hash io
                        (record st { backend = r.1 })
                        salt
                        (hasher default_password salt)
                ]
              ])
              (none, su)
          → IsInitialized su
      by_reading (failed e, w) e₁ = absurd (ground (arith, e₁))
      by_reading (found hash salt, w) e₁ =
          subst IsInitialized (ap (λ r. r.1) e₁)
            (record { hash = hash; salt = salt; holds = cached-Holds io hasher hash salt w })
      by_reading (unset, w) e₁ = drawn-IsInitialized (record st { backend = w }) su random e₁
