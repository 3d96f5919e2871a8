-- ===== src/Login/Laws/Admin.antt =====
-- A login with the admin password (pkg/server/auth.go: Login).
use antrea_ui.Base.{
  String, ◌≡◌, refl, subst, sym, ◌≢◌, inl, inr, Option, none, some, str_eq, Bool-cases, str_eq→eq,
  str_ne, codes,
}
use antrea_ui.Session.Invariant.{IsWellFormed}
use antrea_ui.Password.Store.{ReadWriter, Hasher, PasswordStore, PasswordError, compare_password}
use antrea_ui.Authn.Types.{Request, Config, ServerError}
use antrea_ui.Login.Types.{ServerConfig, Visit, Instant}
use antrea_ui.Login.Creation.{create_session}
use antrea_ui.Login.Flows.{
  not_admin, invalid_admin_password, basic_auth_required, login, admin_spec,
}
use antrea_ui.Login.Laws.Creating.{Creation, create_session-Creation}

module _ (cfg : ServerConfig) (auth : Config) (req : Request) (i : Instant) (back : ReadWriter)
    (hasher : Hasher) (passwords : PasswordStore back) (v : Visit) where
  -- The outcome of a login with the admin password.
  pub data Entry : Option (String × String) → Option ServerError × Visit → Type 0 where
    no_basic_auth : Entry none (some basic_auth_required, v)
    other_user :
        (user password : String)
        → user ≢ "admin"
        → Entry (some (user, password)) (some not_admin, v)
    wrong_password :
        (password : String) (e : PasswordError)
        → compare_password back hasher (codes password) passwords ≡ some e
        → Entry (some ("admin", password)) (some invalid_admin_password, v)
    entered :
        (password : String) (r : Option ServerError × Visit)
        → compare_password back hasher (codes password) passwords ≡ none
        → Creation cfg auth req i.now (admin_spec "admin" cfg.admin_user_name) v i.random r
        → Entry (some ("admin", password)) r

  admin-Entry :
      (password : String) (answer : Option PasswordError)
      → compare_password back hasher (codes password) passwords ≡ answer
      → IsWellFormed v.store
      → Entry (some ("admin", password)) (elim answer [
        | some e ↦ (some invalid_admin_password, v)
        | none ↦
            create_session cfg auth req i.random i.now (admin_spec "admin" cfg.admin_user_name) v
      ])
  admin-Entry password (some e) c w = wrong_password password e c
  admin-Entry password none c w =
      entered password _ c (create_session-Creation cfg auth req i.now _ v i.random w)

  abbrev EntryOf : String → String → Type 0
  EntryOf user password =
      Entry (some (user, password))
        (login cfg auth req i back hasher passwords (some (user, password)) v)

  pub login-Entry :
      (basic : Option (String × String))
      → IsWellFormed v.store
      → Entry basic (login cfg auth req i back hasher passwords basic v)
  unfolding login
  login-Entry none w = no_basic_auth
  login-Entry (some (user, password)) w = elim (Bool-cases (str_eq user "admin")) [
    | inr other ↦ rw other (other_user user password (str_ne user "admin" other))
    | inl admin ↦
        subst (λ u. EntryOf u password) (sym (str_eq→eq user "admin" admin))
          (admin-Entry password (compare_password back hasher (codes password) passwords) refl w)
  ]
