-- ===== src/Auth/Setup.antt =====
-- Setup of internal/auth/auth.go, with the statements on users of internal/db/gen/users.sql.go that
-- it, Login and ChangePassword call. Logging is left out.
use manualbox.Prelude.{
  ◌≡◌, ℕ, Bool, ◌||◌, Option, none, some, [], ◌∷◌, ◌++◌, Result, ok, err, if◌then◌else◌, ltb, ◌==◌,
}
use manualbox.Prelude.Text.{Text, text, text_eq}
use manualbox.Prelude.Lists.{length, find_where, map_where}
use manualbox.Clock.{Instant, Stamp, millis}
use manualbox.Jobs.Model.{DbError, no_rows, driver_error}
use manualbox.Jobs.Table.{Outcome}
use manualbox.Auth.{User, user_from_row, AuthError, database}
use manualbox.Auth.Tables.{UserRow, Accounts, has_user_id}
use manualbox.Auth.Passwords.{Argon, HashError, hash_password}

-- strings.TrimSpace, strings.ToLower, the address that net/mail parses, and the number of runes.
pub record Texts : Type 0 where
  pub trim_space : Text → Text
  pub to_lower : Text → Text
  pub parse_address : Text → Option Text
  pub rune_count : Text → ℕ
  pub rune_count_empty : rune_count [] ≡ 0

-- The errors of Setup, Login and ChangePassword.
pub data LoginError : Type 0 where
  invalid_credentials setup_complete weak_password invalid_email no_token : LoginError
  unhashable : HashError → LoginError
  failed : AuthError → LoginError

abbrev pub min_password_length : ℕ
min_password_length = 10

-- ValidatePassword
unfoldable pub validate_password : Texts → Text → Option LoginError
validate_password t password =
    if ltb (t.rune_count password) min_password_length then some weak_password else none

-- normalizeEmail
unfoldable pub normalize_email : Texts → Text → Result LoginError Text
normalize_email t email =
    if text_eq (t.trim_space email) []
    then err invalid_email
    else elim (t.parse_address (t.trim_space email)) [
      | none ↦ err invalid_email
      | some address ↦ ok address
    ]

-- CountUsers
unfoldable pub count_users : Option Text → Accounts → Outcome ℕ
count_users (some m) a = err (driver_error m)
count_users none a = ok (length a.users)

-- GetUserByEmail
abbrev pub has_email : Text → UserRow → Bool
has_email folded u = text_eq u.email_folded folded

abbrev pub find_user : (UserRow → Bool) → Accounts → Outcome UserRow
find_user p a = elim (find_where p a.users) [ none ↦ err no_rows | some u ↦ ok u ]

unfoldable pub get_user_by_email : Option Text → Text → Accounts → Outcome UserRow
get_user_by_email (some m) folded a = err (driver_error m)
get_user_by_email none folded a = find_user (has_email folded) a

-- GetUserByID
unfoldable pub get_user_by_id : Option Text → Text → Accounts → Outcome UserRow
get_user_by_id (some m) id a = err (driver_error m)
get_user_by_id none id a = find_user (has_user_id id) a

-- CreateUser; `refusal` is the message of the database when a unique column refuses the row.
unfoldable pub create_user : Text → Option Text → UserRow → Accounts → Outcome (Accounts × UserRow)
create_user refusal (some m) u a = err (driver_error m)
create_user refusal none u a =
    elim (find_where (λ x. has_user_id u.id x || has_email u.email_folded x) a.users) [
      | some x ↦ err (driver_error refusal)
      | none ↦ ok (record a { users = a.users ++ u ∷ [] }, u)
    ]

-- UpdateUserPassword
unfoldable pub update_user_password :
    Option Text → Text → Stamp → Text → Accounts → Accounts × Option DbError
update_user_password (some m) hash now id a = (a, some (driver_error m))
update_user_password none hash now id a = (
  record a {
    users =
        map_where (has_user_id id) (λ u. record u { password_hash = hash; updated_at = now })
          a.users;
  },
  none,
)

-- TouchUserLogin
unfoldable pub touch_user_login : Option Text → Stamp → Text → Accounts → Accounts × Option DbError
touch_user_login (some m) now id a = (a, some (driver_error m))
touch_user_login none now id a = (
  record a {
    users =
        map_where (has_user_id id) (λ u. record u { last_login_at = some now; updated_at = now })
          a.users;
  },
  none,
)

-- NeedsSetup
unfoldable pub needs_setup : Option Text → Accounts → Result LoginError Bool
unfolding count_users
needs_setup fault a = elim (count_users fault a) [
  | err e ↦ err (failed (database e))
  | ok n ↦ ok (n == 0)
]

-- What one call of Setup takes from outside. `meanwhile` is what other requests do to the tables
-- between the count and the insertion, which are separate statements.
pub record SetupCall : Type 0 where
  pub id : Text
  pub now : Instant
  pub cpus : ℕ
  pub salt : Option Text
  pub count_fault : Option Text
  pub meanwhile : Accounts → Accounts
  pub create_fault : Option Text
  pub refusal : Text

abbrev pub role_admin : Text
role_admin = text "admin"

abbrev pub first_user : Texts → SetupCall → Text → Text → Text → UserRow
first_user t c email display_name hash = record {
  id = c.id;
  email = email;
  email_folded = t.to_lower email;
  display_name = if text_eq display_name [] then email else display_name;
  password_hash = hash;
  role = role_admin;
  created_at = millis c.now;
  updated_at = millis c.now;
  last_login_at = none;
}

-- Setup, from the hash on
unfoldable pub add_first_user :
    Texts → Argon → SetupCall → Text → Text → Text → Accounts → Accounts × Result LoginError User
add_first_user t g c email password display_name a = elim (hash_password g c.cpus c.salt password) [
  | err e ↦ (a, err (unhashable e))
  | ok hash ↦
      elim (create_user c.refusal c.create_fault (first_user t c email display_name hash) a) [
        | err e ↦ (a, err (failed (database e)))
        | ok (a', u) ↦ (a', ok (user_from_row u))
      ]
]

-- Setup
unfoldable pub setup :
    Texts → Argon → SetupCall → Text → Text → Text → Accounts → Accounts × Result LoginError User
unfolding add_first_user
setup t g c email password display_name a = elim (normalize_email t email) [
  | err e ↦ (a, err e)
  | ok address ↦ elim (validate_password t password) [
    | some e ↦ (a, err e)
    | none ↦ elim (needs_setup c.count_fault a) [
      | err e ↦ (a, err e)
      | ok needed ↦
          if needed
          then add_first_user t g c address password display_name (c.meanwhile a)
          else (a, err setup_complete)
    ]
  ]
]
