-- ===== src/Auth/Login.antt =====
-- Login and ChangePassword of internal/auth/auth.go. Logging is left out.
use manualbox.Prelude.{ℕ, Bool, Option, none, some, Result, ok, err, if◌then◌else◌}
use manualbox.Prelude.Text.{Text}
use manualbox.Clock.{Instant, millis}
use manualbox.Jobs.Model.{no_rows, driver_error}
use manualbox.Store.{Sha256}
use manualbox.Auth.{
  User, Session, user_from_row, AuthError, no_session, database, CreateCall, create_session,
  commit_password,
}
use manualbox.Auth.Tables.{UserRow, Accounts}
use manualbox.Auth.Passwords.{Argon, hash_password, verify_password}
use manualbox.Auth.Setup.{
  Texts, LoginError, invalid_credentials, no_token, unhashable, failed, validate_password,
  get_user_by_email, get_user_by_id, update_user_password, touch_user_login,
}

-- What one call of Login takes from outside; `draw_fails` when rand.Read makes no token.
pub record LoginCall : Type 0 where
  pub find_fault : Option Text
  pub cpus : ℕ
  pub salt : Option Text
  pub rehash_now : Instant
  pub rehash_fault : Option Text
  pub draw_fails : Bool
  pub session : CreateCall
  pub touch_now : Instant
  pub touch_fault : Option Text

-- The upgrade of a stale hash, whose failure is logged.
unfoldable pub rehash : Argon → LoginCall → Bool → Text → Text → Accounts → Accounts
rehash g c stale id password a =
    if stale
    then elim (hash_password g c.cpus c.salt password) [
      | err e ↦ a
      | ok hash ↦ (update_user_password c.rehash_fault hash (millis c.rehash_now) id a).0
    ]
    else a

-- The end of Login: a failed record of the login is logged.
unfoldable pub finish_login :
    LoginCall
    → UserRow
    → Accounts × Result AuthError (Text × Session)
    → Accounts × Result LoginError (Text × User)
finish_login c u (a, err e) = (a, err (failed e))
finish_login c u (a, ok (token, s)) =
    ((touch_user_login c.touch_fault (millis c.touch_now) u.id a).0, ok (token, user_from_row u))

-- createSession in Login
unfoldable pub issue :
    Sha256
    → ℕ
    → LoginCall
    → UserRow
    → Text
    → Text
    → Accounts
    → Accounts × Result LoginError (Text × User)
unfolding finish_login
issue h ttl c u agent ip a =
    if c.draw_fails
    then (a, err no_token)
    else finish_login c u (create_session h ttl c.session u.id agent ip a)

-- Login, for the user that the email names
unfoldable pub login_user :
    Argon
    → Sha256
    → ℕ
    → LoginCall
    → UserRow
    → Text
    → Text
    → Text
    → Accounts
    → Accounts × Result LoginError (Text × User)
unfolding rehash issue
login_user g h ttl c u password agent ip a = elim (verify_password g u.password_hash password) [
  | err e ↦ (a, err invalid_credentials)
  | ok (matches, stale) ↦
      if matches
      then issue h ttl c u agent ip (rehash g c stale u.id password a)
      else (a, err invalid_credentials)
]

-- Login. The verification of the placeholder hash for an unknown email has no result that is used.
unfoldable pub login :
    Texts
    → Argon
    → Sha256
    → ℕ
    → LoginCall
    → Text
    → Text
    → Text
    → Text
    → Accounts
    → Accounts × Result LoginError (Text × User)
unfolding login_user
login t g h ttl c email password agent ip a =
    elim (get_user_by_email c.find_fault (t.to_lower (t.trim_space email)) a) [
      | err e ↦ elim e [
        | no_rows ↦ (a, err invalid_credentials)
        | driver_error m ↦ (a, err (failed (database (driver_error m))))
      ]
      | ok u ↦ login_user g h ttl c u password agent ip a
    ]

-- What one call of ChangePassword takes from outside.
pub record ChangeCall : Type 0 where
  pub find_fault : Option Text
  pub cpus : ℕ
  pub salt : Option Text
  pub now : Instant
  pub commit_fault : Option Text

abbrev pub as_login_error : Accounts × Option AuthError → Accounts × Option LoginError
as_login_error (a, none) = (a, none)
as_login_error (a, some e) = (a, some (failed e))

-- ChangePassword, from the hash on
unfoldable pub replace_password :
    Argon → ChangeCall → Text → Text → Accounts → Accounts × Option LoginError
replace_password g c id new a = elim (hash_password g c.cpus c.salt new) [
  | err e ↦ (a, some (unhashable e))
  | ok hash ↦ as_login_error (commit_password c.commit_fault hash c.now id a)
]

-- ChangePassword, for the user that the id names
unfoldable pub change_user_password :
    Argon → ChangeCall → UserRow → Text → Text → Text → Accounts → Accounts × Option LoginError
unfolding replace_password
change_user_password g c u id current new a = elim (verify_password g u.password_hash current) [
  | err e ↦ (a, some invalid_credentials)
  | ok (matches, stale) ↦
      if matches then replace_password g c id new a else (a, some invalid_credentials)
]

-- ChangePassword
unfoldable pub change_password :
    Texts → Argon → ChangeCall → Text → Text → Text → Accounts → Accounts × Option LoginError
unfolding change_user_password
change_password t g c id current new a = elim (validate_password t new) [
  | some e ↦ (a, some e)
  | none ↦ elim (get_user_by_id c.find_fault id a) [
    | err e ↦ elim e [
      | no_rows ↦ (a, some (failed no_session))
      | driver_error m ↦ (a, some (failed (database (driver_error m))))
    ]
    | ok u ↦ change_user_password g c u id current new a
  ]
]
