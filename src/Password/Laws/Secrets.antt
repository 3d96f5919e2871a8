-- ===== src/Password/Laws/Secrets.antt =====
-- The Secret that keeps the hash of the admin password (pkg/password/readwriter/k8s.go).
use antrea_ui.Base.{Bytes, ◌≡◌, refl, true, Option, none, some, Table, lookup}
use antrea_ui.Password.Secret.{
  k8s_secret, present, unreachable, secret_data, read_answer, write_answer, read_secret,
  write_secret, read_data, Cluster,
}
use antrea_ui.Password.Store.{password_store, init, unset, default_password, found, Hasher}
use antrea_ui.Password.Laws.Updates.{init_unset}

module _ (k : Cluster) where
  read_data_written :
      (hash salt : Bytes) → read_data k (some (secret_data k hash salt)) ≡ some (hash, salt)
  unfolding read_data lookup
  read_data_written hash salt = rw (k.decode-encode hash, k.decode-encode salt) refl

  -- What `Write` puts in the Secret, `Read` gives back.
  pub read_secret-secret_data :
      (hash salt : Bytes) (w w' : k.World)
      → k.get_secret w ≡ (present (some (secret_data k hash salt)), w')
      → read_secret k w ≡ (found hash salt, w')
  unfolding read_secret read_answer
  read_secret-secret_data hash salt w w' h =
      rw (h, read_secret) (rw (read_data_written hash salt) refl)

  read_unreachable :
      (w w' : k.World) → k.get_secret w ≡ (unreachable, w') → read_secret k w ≡ (unset, w')
  unfolding read_secret read_answer
  read_unreachable w w' h = rw (h, read_secret) refl

  write_present :
      (hash salt : Bytes) (w w₁ w₂ : k.World) (s : Option (Table k.Encoded))
      → k.get_secret w ≡ (present s, w₁)
      → k.update_secret (secret_data k hash salt) w₁ ≡ (true, w₂)
      → write_secret k hash salt w ≡ (none, w₂)
  unfolding write_secret write_answer
  write_present hash salt w w₁ w₂ s h u = rw (h, write_secret) (rw u refl)

  -- `Init` resets a password that has been set. When the first request for the Secret fails, `Read`
  -- says that no password has been set; if the API server then answers again, `Write` puts the hash
  -- of the default password over whatever the Secret holds, no error is reported, and the store
  -- accepts exactly the passwords with that hash.
  pub init_resets :
      (hasher : Hasher) (w w₁ w₂ w₃ : k.World) (s : Option (Table k.Encoded)) (hash salt : Bytes)
      → k.get_secret w ≡ (unreachable, w₁)
      → k.get_secret w₁ ≡ (present s, w₂)
      → hasher default_password salt ≡ some hash
      → k.update_secret (secret_data k hash salt) w₂ ≡ (true, w₃)
      → init (k8s_secret k) hasher (some salt) (password_store (k8s_secret k) w)
        ≡ (none, record { cached_salt = some salt; cached_hash = hash; backend = w₃ })
  init_resets hasher w w₁ w₂ w₃ s hash salt a b h u =
      init_unset (k8s_secret k) hasher hash salt w w₁ w₃ (read_unreachable w w₁ a) h
        (write_present hash salt w₁ w₂ w₃ s b u)
