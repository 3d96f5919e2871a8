-- ===== src/Password/Laws/Updates.antt =====
-- The password that the store holds, after an update and after a restart (pkg/password/store.go).
use antrea_ui.Base.{◌≡◌, refl, ap, ◌↔◌, true, Option, none, some, [], ◌∷◌, arith, Bytes}
use antrea_ui.Password.Store.{
  default_password, written, password_store, unset, PasswordError, update_password, found,
  write_hash, init, compare_password, compare_hash, PasswordStore, Hasher, same_bytes, ReadWriter,
}

pub same_bytes_refl : (a : Bytes) → same_bytes a a ≡ true
same_bytes_refl [] = refl
same_bytes_refl (x ∷ xs) = ground (arith, same_bytes_refl xs)

pub same_bytes→eq : (a b : Bytes) → same_bytes a b ≡ true → a ≡ b
same_bytes→eq [] [] h = refl
same_bytes→eq (x ∷ xs) (y ∷ ys) h = ground (arith, same_bytes→eq xs ys)
same_bytes→eq [] (y ∷ ys) h = absurd (ground arith)
same_bytes→eq (x ∷ xs) [] h = absurd (ground arith)

module _ (io : ReadWriter) (hasher : Hasher) where
  -- The store accepts exactly the passwords with this hash, under this salt.
  pub record Holds (hash salt : Bytes) (st : PasswordStore io) : Type 0 where
    pub salted : st.cached_salt ≡ some salt
    pub accepts :
        (p : Bytes) → (compare_password io hasher p st ≡ none) ↔ (hasher p salt ≡ some hash)

  compare_hash_iff :
      (cached : Bytes) (o : Option Bytes) → (compare_hash io cached o ≡ none) ↔ (o ≡ some cached)
  compare_hash_iff cached none = (λ h. absurd (ground arith), λ h. absurd (ground arith))
  compare_hash_iff cached (some h) =
      (λ e. ground (arith, same_bytes→eq h cached), λ e. ground (arith, same_bytes_refl cached))

  pub cached-Holds :
      (hash salt : Bytes) (w : io.Backend)
      → Holds hash salt (record { cached_salt = some salt; cached_hash = hash; backend = w })
  unfolding compare_password
  cached-Holds hash salt w = record {
    salted = refl;
    accepts = λ p. compare_hash_iff hash (hasher p salt);
  }

  pub data Updated (p : Bytes) (st : PasswordStore io)
      : Option PasswordError × PasswordStore io → Type 0 where
    unchanged :
        (e : PasswordError) (su : PasswordStore io)
        → su.cached_salt ≡ st.cached_salt
        → su.cached_hash ≡ st.cached_hash
        → Updated p st (some e, su)
    stored :
        (hash salt : Bytes) (su : PasswordStore io)
        → st.cached_salt ≡ some salt
        → hasher p salt ≡ some hash
        → io.write hash salt st.backend ≡ (none, su.backend)
        → Holds hash salt su
        → Updated p st (none, su)

  written-Updated :
      (p hash salt : Bytes) (st : PasswordStore io)
      → st.cached_salt ≡ some salt
      → hasher p salt ≡ some hash
      → (o : Option PasswordError × io.Backend) → io.write hash salt st.backend ≡ o
      → Updated p st (written io st hash salt o)
  written-Updated p hash salt st s h (some e, w) b = unchanged e _ refl refl
  written-Updated p hash salt st s h (none, w) b =
      stored hash salt _ s h b (cached-Holds hash salt w)

  write_hash-Updated :
      (p salt : Bytes) (st : PasswordStore io)
      → st.cached_salt ≡ some salt
      → (o : Option Bytes) → hasher p salt ≡ o
      → Updated p st (write_hash io st salt o)
  unfolding write_hash
  write_hash-Updated p salt st s none h = unchanged PasswordError.hashing_failed st refl refl
  write_hash-Updated p salt st s (some hash) h = written-Updated p hash salt st s h _ refl

  salted-Updated :
      (p : Bytes) (st : PasswordStore io) (o : Option Bytes)
      → st.cached_salt ≡ o
      → Updated p st (elim o [
        | none ↦ (some PasswordError.not_initialized, st)
        | some salt ↦ write_hash io st salt (hasher p salt)
      ])
  salted-Updated p st none e = unchanged PasswordError.not_initialized st refl refl
  salted-Updated p st (some salt) e = write_hash-Updated p salt st e _ refl

  pub update_password-Updated :
      (p : Bytes) (st : PasswordStore io) → Updated p st (update_password io hasher p st)
  unfolding update_password
  update_password-Updated p st = salted-Updated p st st.cached_salt refl

  pub record Survives (p : Bytes) (su : PasswordStore io)
      (r : Option PasswordError × PasswordStore io) : Type 0 where
    pub hash : Bytes
    pub salt : Bytes
    pub hashed : hasher p salt ≡ some hash
    pub no_error : r.0 ≡ none
    pub before_restart : Holds hash salt su
    pub after_restart : Holds hash salt r.1

  init_found :
      (hash salt : Bytes) (random : Option Bytes) (w : io.Backend)
      → (io.read w).0 ≡ found hash salt
      → init io hasher random (password_store io w)
        ≡ (none, record { cached_salt = some salt; cached_hash = hash; backend = (io.read w).1 })
  unfolding init
  init_found hash salt random w h = rw (h, init) refl

  pub init_unset :
      (hash salt : Bytes) (w w₁ w₂ : io.Backend)
      → io.read w ≡ (unset, w₁)
      → hasher default_password salt ≡ some hash
      → io.write hash salt w₁ ≡ (none, w₂)
      → init io hasher (some salt) (password_store io w)
        ≡ (none, record { cached_salt = some salt; cached_hash = hash; backend = w₂ })
  unfolding init write_hash
  init_unset hash salt w w₁ w₂ r h u = rw (r, init) (rw h (rw (r, u, write_hash) refl))

  Survives-Updated :
      ((hash salt : Bytes) (w w' : io.Backend)
        → io.write hash salt w ≡ (none, w')
        → (io.read w').0 ≡ found hash salt)
      → (p : Bytes) (st : PasswordStore io) (random : Option Bytes)
      → (r : Option PasswordError × PasswordStore io) → Updated p st r
      → r.0 ≡ none
      → Survives p r.1 (init io hasher random (password_store io r.1.backend))
  Survives-Updated durable p st random r (unchanged e su s c) n = absurd (ground arith)
  Survives-Updated durable p st random r (stored hash salt su s h b held) n =
      rw (init_found hash salt random su.backend (durable hash salt st.backend su.backend b))
        (record {
          hash = hash;
          salt = salt;
          hashed = h;
          no_error = refl;
          before_restart = held;
          after_restart = cached-Holds hash salt (io.read su.backend).1;
        })

  -- A changed password outlives the process. Where the backend reads back what it has written, a
  -- store that starts afresh on it accepts exactly the passwords that the old store accepts after
  -- the update: those with the hash of the new password.
  pub update_password-Survives :
      ((hash salt : Bytes) (w w' : io.Backend)
        → io.write hash salt w ≡ (none, w')
        → (io.read w').0 ≡ found hash salt)
      → (p : Bytes) (st su : PasswordStore io) (random : Option Bytes)
      → update_password io hasher p st ≡ (none, su)
      → Survives p su (init io hasher random (password_store io su.backend))
  update_password-Survives durable p st su random h =
      rw⁻¹ (ap (λ (r : Option PasswordError × PasswordStore io). r.1) h) (
        Survives-Updated durable p st random (update_password io hasher p st)
          (update_password-Updated p st)
          (ap (λ (r : Option PasswordError × PasswordStore io). r.0) h))
