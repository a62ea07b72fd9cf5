-- ===== src/Auth/Tables.antt =====
-- The tables users and sessions, and their statements in internal/db/gen/sessions.sql.go.
use manualbox.Prelude.{Bool, ◌&&◌, ◌||◌, Option, none, some, List, [], ◌∷◌, ◌++◌, ok, err, ltb}
use manualbox.Prelude.Text.{Text, text_eq}
use manualbox.Prelude.Lists.{find_where, map_where}
use manualbox.Clock.{Stamp}
use manualbox.Jobs.Model.{no_rows, driver_error}
use manualbox.Jobs.Table.{Outcome}

-- gen.User
pub record UserRow : Type 0 where
  pub id : Text
  pub email : Text
  pub email_folded : Text
  pub display_name : Text
  pub password_hash : Text
  pub role : Text
  pub created_at : Stamp
  pub updated_at : Stamp
  pub last_login_at : Option Stamp

-- gen.Session
pub record SessionRow : Type 0 where
  pub id : Text
  pub user_id : Text
  pub token_hash : Text
  pub user_agent : Text
  pub ip : Text
  pub created_at : Stamp
  pub last_seen_at : Stamp
  pub expires_at : Stamp

-- The two tables.
pub record Accounts : Type 0 where
  pub users : List UserRow
  pub sessions : List SessionRow

abbrev pub has_user_id : Text → UserRow → Bool
has_user_id i u = text_eq u.id i

abbrev pub has_token : Text → SessionRow → Bool
has_token hash s = text_eq s.token_hash hash

-- WHERE sessions.token_hash = ? AND sessions.expires_at > ?
abbrev pub is_live : Text → Stamp → SessionRow → Bool
is_live hash now s = has_token hash s && ltb now s.expires_at

-- CreateSession; `refusal` is the message of the database when a unique column or the reference to
-- the user refuses the row.
unfoldable pub insert_session :
    Text → Option Text → SessionRow → Accounts → Outcome (Accounts × SessionRow)
insert_session refusal (some m) s a = err (driver_error m)
insert_session refusal none s a =
    elim (find_where (λ r. text_eq r.id s.id || has_token s.token_hash r) a.sessions) [
      | some r ↦ err (driver_error refusal)
      | none ↦ elim (find_where (has_user_id s.user_id) a.users) [
        | none ↦ err (driver_error refusal)
        | some u ↦ ok (record a { sessions = a.sessions ++ s ∷ [] }, s)
      ]
    ]

-- GetSessionByToken: token_hash is unique, so the join has at most one row.
unfoldable pub get_session_by_token :
    Option Text → Text → Stamp → Accounts → Outcome (SessionRow × UserRow)
get_session_by_token (some m) hash now a = err (driver_error m)
get_session_by_token none hash now a = elim (find_where (is_live hash now) a.sessions) [
  | none ↦ err no_rows
  | some s ↦ elim (find_where (has_user_id s.user_id) a.users) [
    | none ↦ err no_rows
    | some u ↦ ok (s, u)
  ]
]

-- ExtendSession
unfoldable pub extended : Stamp → Stamp → SessionRow → SessionRow
extended seen expires s = record s { last_seen_at = seen; expires_at = expires }

unfoldable pub extend_session : Stamp → Stamp → Text → Accounts → Accounts
extend_session seen expires i a = record a {
  sessions = map_where (λ s. text_eq s.id i) (extended seen expires) a.sessions;
}
