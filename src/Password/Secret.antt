-- ===== src/Password/Secret.antt =====
-- pkg/password/readwriter: the backends of the password store, in memory (in_memory.go) and in a
-- Kubernetes Secret (k8s.go).
use antrea_ui.Base.{
  ◌≡◌, Bool, true, false, Option, none, some, [], ◌∷◌, Table, lookup, ◌>>=◌, Bytes,
}
use antrea_ui.Password.Store.{PasswordError, Reading, failed, unset, found, ReadWriter}

abbrev pub Memory : Type 0
Memory = Option (Bytes × Bytes)

unfoldable pub read_memory : Memory → Reading × Memory
read_memory none = (unset, none)
read_memory (some (hash, salt)) = (found hash salt, some (hash, salt))

unfoldable pub write_memory : Bytes → Bytes → Memory → Option PasswordError × Memory
write_memory hash salt m = (none, some (hash, salt))

abbrev pub in_memory : ReadWriter
in_memory = record { Backend = Memory; read = read_memory; write = write_memory }

-- What the API server answers to a Get. A Secret is its `data`, whose values are in base64; `none`
-- where the field is missing.
pub data SecretAnswer (Encoded : Type 0) : Type 0 where
  missing unreachable : SecretAnswer Encoded
  present : Option (Table Encoded) → SecretAnswer Encoded

-- The API server and the base64 codec, by their operations; `true` is success. Nothing is assumed of
-- the server, and of the codec that it decodes what it has encoded.
pub record Cluster : Type 1 where
  pub Encoded : Type 0
  pub World : Type 0
  pub get_secret : World → SecretAnswer Encoded × World
  pub create_secret : Table Encoded → World → Bool × World
  pub update_secret : Table Encoded → World → Bool × World
  pub encode : Bytes → Encoded
  pub decode : Encoded → Option Bytes
  pub decode-encode : (b : Bytes) → decode (encode b) ≡ some b

module _ (k : Cluster) where
  -- The inner function of `Read`.
  unfoldable pub read_data : Option (Table k.Encoded) → Option (Bytes × Bytes)
  read_data none = none
  read_data (some fields) = lookup "hash" fields >>= λ hash_text.
      lookup "salt" fields >>= λ salt_text.
      k.decode hash_text >>= λ hash. k.decode salt_text >>= λ salt. some (hash, salt)

  abbrev reading : Option (Bytes × Bytes) → Reading
  reading none = failed PasswordError.backend_failed
  reading (some (hash, salt)) = found hash salt

  -- `readSecret` says `ok == false` both for a missing Secret and for an error, and `Read` tests `ok`
  -- before the error.
  unfoldable pub read_answer : SecretAnswer k.Encoded → Reading
  unfolding read_data
  read_answer missing = unset
  read_answer unreachable = unset
  read_answer (present s) = reading (read_data s)

  unfoldable pub read_secret : k.World → Reading × k.World
  unfolding read_answer
  read_secret w = let (a, w') = k.get_secret w in (read_answer a, w')

  abbrev outcome : Bool × k.World → Option PasswordError × k.World
  outcome (true, w) = (none, w)
  outcome (false, w) = (some PasswordError.backend_failed, w)

  abbrev pub secret_data : Bytes → Bytes → Table k.Encoded
  secret_data hash salt = ("hash", k.encode hash) ∷ ("salt", k.encode salt) ∷ []

  unfoldable pub write_answer :
      Table k.Encoded → SecretAnswer k.Encoded → k.World → Option PasswordError × k.World
  write_answer d unreachable w = (some PasswordError.backend_failed, w)
  write_answer d missing w = outcome (k.create_secret d w)
  write_answer d (present s) w = outcome (k.update_secret d w)

  unfoldable pub write_secret : Bytes → Bytes → k.World → Option PasswordError × k.World
  unfolding write_answer
  write_secret hash salt w =
      let (a, w') = k.get_secret w in write_answer (secret_data hash salt) a w'

  abbrev pub k8s_secret : ReadWriter
  k8s_secret = record { Backend = k.World; read = read_secret; write = write_secret }
