-- ===== src/Password/Tests.antt =====
-- The admin password, with a hasher that appends the salt.
use antrea_ui.Base.{
  ◌≡◌, refl, ap, true, Option, none, some, List, [], ◌∷◌, ◌++◌, codes, Table, Bytes,
}
use antrea_ui.Session.Types.{Mode}
use antrea_ui.Password.Secret.{
  Memory, k8s_secret, in_memory, secret_data, missing, present, write_memory, Cluster, read_memory,
  SecretAnswer, unreachable, read_secret,
}
use antrea_ui.Password.Store.{
  PasswordError, found, write_hash, password_store, update_password, compare_password,
  default_password, PasswordStore, Hasher, init,
}
use antrea_ui.Password.Account.{put_password, UpdatePassword}
use antrea_ui.Password.Laws.Secrets.{read_secret-secret_data, init_resets}
use antrea_ui.Password.Laws.Updates.{update_password-Survives, Survives}

abbrev pub salting : Hasher
salting password salt = some (password ++ salt)

abbrev pub salt : Bytes
salt = 1 ∷ 2 ∷ []

abbrev secret_word : Bytes
secret_word = codes "s3cret"

abbrev empty : PasswordStore in_memory
empty = password_store in_memory none

abbrev pub initialized : PasswordStore in_memory
initialized = (init in_memory salting (some salt) empty).1

abbrev body : UpdatePassword
body = record { current_password = default_password; new_password = secret_word }

default_accepted : compare_password in_memory salting default_password initialized ≡ none
unfolding init compare_password read_memory write_memory write_hash
default_accepted = refl

default_gone :
    compare_password in_memory salting default_password
      (put_password in_memory salting (some Mode.admin) (some body) initialized).1
    ≡ some PasswordError.invalid_password
unfolding init compare_password read_memory write_memory write_hash put_password
default_gone = refl

abbrev changed_store : PasswordStore in_memory
changed_store = (update_password in_memory salting secret_word initialized).1

memory_reads_back :
    (hash salt : Bytes) (w w' : Memory)
    → write_memory hash salt w ≡ (none, w')
    → (read_memory w').0 ≡ found hash salt
unfolding read_memory write_memory
memory_reads_back hash salt w w' h = rw⁻¹ (ap (λ (r : Option PasswordError × Memory). r.1) h) refl

update_password-Survives_example :
    Survives in_memory salting secret_word changed_store
      (init in_memory salting none (password_store in_memory changed_store.backend))
unfolding init update_password read_memory write_memory write_hash
update_password-Survives_example =
    update_password-Survives in_memory salting memory_reads_back secret_word initialized
      changed_store none refl

-- A cluster by its answers to the next Gets. Its codec is the identity.
abbrev pub Replies : Type 0
Replies = List (SecretAnswer Bytes)

abbrev pub next_reply : Replies → SecretAnswer Bytes × Replies
next_reply [] = (missing, [])
next_reply (a ∷ later) = (a, later)

abbrev pub cluster : Cluster
cluster = record {
  Encoded = Bytes;
  World = Replies;
  get_secret = next_reply;
  create_secret = λ fields w. (true, present (some fields) ∷ w);
  update_secret = λ fields w. (true, present (some fields) ∷ w);
  encode = λ b. b;
  decode = λ b. some b;
  decode-encode = λ b. refl;
}

abbrev stored_secret : Option (Table Bytes)
stored_secret = some (secret_data cluster (secret_word ++ salt) salt)

abbrev hiccup : Replies
hiccup = unreachable ∷ present stored_secret ∷ []

abbrev default_hash : Bytes
default_hash = default_password ++ salt

secret_comes_back :
    read_secret cluster (present stored_secret ∷ []) ≡ (found (secret_word ++ salt) salt, [])
secret_comes_back =
    read_secret-secret_data cluster (secret_word ++ salt) salt (present stored_secret ∷ []) [] refl

init_resets_example :
    init (k8s_secret cluster) salting (some salt) (password_store (k8s_secret cluster) hiccup) ≡ (
      none,
      record {
        cached_salt = some salt;
        cached_hash = default_hash;
        backend = present (some (secret_data cluster default_hash salt)) ∷ [];
      },
    )
init_resets_example =
    init_resets cluster salting hiccup (present stored_secret ∷ []) [] _ stored_secret default_hash
      salt refl refl refl refl
