-- ===== src/Password/Account.antt =====
-- pkg/server/api/account.go: the endpoint that changes the admin password.
use antrea_ui.Base.{ℕ, not, Option, none, some, if◌then◌else◌, Bytes}
use antrea_ui.Session.Types.{Mode}
use antrea_ui.Session.Store.{is_admin}
use antrea_ui.Password.Store.{
  PasswordError, ReadWriter, Hasher, PasswordStore, update_password, compare_password,
}

-- The body of the request.
pub record UpdatePassword : Type 0 where
  pub current_password : Bytes
  pub new_password : Bytes

module _ (rw : ReadWriter) (hasher : Hasher) where
  abbrev pub answered : Option PasswordError × PasswordStore rw → ℕ × PasswordStore rw
  answered (none, st) = (200, st)
  answered (some e, st) = (500, st)

  unfoldable pub change_password : UpdatePassword → PasswordStore rw → ℕ × PasswordStore rw
  unfolding compare_password update_password
  change_password body st = elim (compare_password rw hasher body.current_password st) [
    | some e ↦ (400, st)
    | none ↦ answered (update_password rw hasher body.new_password st)
  ]

  -- The mode of the request's identity, if it has one, and its body, if it parses; the answer is the
  -- status code.
  unfoldable pub put_password :
      Option Mode → Option UpdatePassword → PasswordStore rw → ℕ × PasswordStore rw
  unfolding change_password
  put_password none body st = (403, st)
  put_password (some mode) body st =
      if not (is_admin mode)
      then (403, st)
      else elim body [ none ↦ (400, st) | some b ↦ change_password b st ]
