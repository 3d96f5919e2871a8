-- ===== src/Password/Laws/Changes.antt =====
-- The endpoint that changes the admin password (pkg/server/api/account.go).
use antrea_ui.Base.{Bytes, ℕ, ◌≡◌, ◌≢◌, Option, none, some}
use antrea_ui.Password.Store.{
  ReadWriter, ReadWriter, ReadWriter, ReadWriter, ReadWriter, ReadWriter, ReadWriter, PasswordStore,
  compare_password, Hasher, ReadWriter,
}
use antrea_ui.Password.Account.{UpdatePassword}
use antrea_ui.Session.Types.{Mode}
use antrea_ui.Password.Laws.Updates.{Holds}

module _ (io : ReadWriter) (hasher : Hasher) where
  -- What a request to change the admin password does.
  pub data Change (mode : Option Mode) (body : Option UpdatePassword) (st : PasswordStore io)
      : ℕ × PasswordStore io → Type 0 where
    denied : mode ≢ some Mode.admin → Change mode body st (403, st)
    malformed : mode ≡ some Mode.admin → body ≡ none → Change mode body st (400, st)
    wrong_password :
        (b : UpdatePassword)
        → mode ≡ some Mode.admin
        → body ≡ some b
        → compare_password io hasher b.current_password st ≢ none
        → Change mode body st (400, st)
    not_stored :
        (b : UpdatePassword) (su : PasswordStore io)
        → mode ≡ some Mode.admin
        → body ≡ some b
        → compare_password io hasher b.current_password st ≡ none
        → ((q : Bytes) → compare_password io hasher q su ≡ compare_password io hasher q st)
        → Change mode body st (500, su)
    changed :
        (b : UpdatePassword) (su : PasswordStore io) (hash salt : Bytes)
        → mode ≡ some Mode.admin
        → body ≡ some b
        → compare_password io hasher b.current_password st ≡ none
        → hasher b.new_password salt ≡ some hash
        → Holds io hasher hash salt su
        → Change mode body st (200, su)
