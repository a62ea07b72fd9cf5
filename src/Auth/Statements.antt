-- ===== src/Auth/Statements.antt =====
-- The statements of internal/db/gen/sessions.sql.go and users.sql.go that no other file has, and
-- histories of the statements that write.
use manualbox.Prelude.{Bool, not, Option, none, some, List, [], ◌∷◌, ok, err, ltb, if◌then◌else◌}
use manualbox.Prelude.Text.{Text, text_eq}
use manualbox.Prelude.Lists.{keep, map_where}
use manualbox.Clock.{Stamp, Instant}
use manualbox.Jobs.Model.{DbError, driver_error}
use manualbox.Jobs.Table.{Outcome}
use manualbox.Auth.Tables.{
  UserRow, SessionRow, Accounts, has_user_id, has_token, insert_session, extend_session,
}
use manualbox.Auth.{sweep_expired_sessions}
use manualbox.Auth.Setup.{create_user, update_user_password, touch_user_login}

-- DELETE FROM sessions, of the rows that pass a test
unfoldable pub delete_sessions :
    (SessionRow → Bool) → Option Text → Accounts → Accounts × Option DbError
delete_sessions p (some m) a = (a, some (driver_error m))
delete_sessions p none a = (record a { sessions = keep (λ s. not (p s)) a.sessions }, none)

-- DeleteSession
unfoldable pub delete_session : Option Text → Text → Accounts → Accounts × Option DbError
unfolding delete_sessions
delete_session fault i a = delete_sessions (λ s. text_eq s.id i) fault a

-- DeleteUserSessions
unfoldable pub delete_user_sessions : Option Text → Text → Accounts → Accounts × Option DbError
unfolding delete_sessions
delete_user_sessions fault i a = delete_sessions (λ s. text_eq s.user_id i) fault a

-- TouchSession
unfoldable pub touch_session : Option Text → Stamp → Text → Accounts → Accounts × Option DbError
touch_session (some m) now i a = (a, some (driver_error m))
touch_session none now i a = (
  record a {
    sessions = map_where (λ s. text_eq s.id i) (λ s. record s { last_seen_at = now }) a.sessions;
  },
  none,
)

-- DeleteUser, which deletes the sessions of the user with it (ON DELETE CASCADE)
unfoldable pub delete_user : Option Text → Text → Accounts → Accounts × Option DbError
delete_user (some m) i a = (a, some (driver_error m))
delete_user none i a = (
  record {
    users = keep (λ u. not (has_user_id i u)) a.users;
    sessions = keep (λ s. not (text_eq s.user_id i)) a.sessions;
  },
  none,
)

module _ {A : Type 0} (before : A → A → Bool) where
  unfoldable pub insert_sorted : A → List A → List A
  insert_sorted x [] = x ∷ []
  insert_sorted x (y ∷ ys) =
      let rest = insert_sorted x ys in if before y x then y ∷ rest else x ∷ y ∷ ys

  unfoldable pub sorted : List A → List A
  unfolding insert_sorted
  sorted [] = []
  sorted (x ∷ xs) = insert_sorted x (sorted xs)

-- ListUserSessions, last_seen_at DESC
unfoldable pub list_user_sessions : Option Text → Text → Accounts → Outcome (List SessionRow)
unfolding sorted
list_user_sessions (some m) i a = err (driver_error m)
list_user_sessions none i a =
    ok (
      sorted (λ r s. ltb s.last_seen_at r.last_seen_at)
        (keep (λ s. text_eq s.user_id i) a.sessions))

-- ListUsers, created_at
unfoldable pub list_users : Option Text → Accounts → Outcome (List UserRow)
unfolding sorted
list_users (some m) a = err (driver_error m)
list_users none a = ok (sorted (λ u v. ltb u.created_at v.created_at) a.users)

-- The statements that write, with the refusal of the database where it can refuse one.
pub data Statement : Type 0 where
  add_user : Text → UserRow → Statement
  set_password : Text → Stamp → Text → Statement
  touch_user : Stamp → Text → Statement
  remove_user : Text → Statement
  add_session : Text → SessionRow → Statement
  extend : Stamp → Stamp → Text → Statement
  touch : Stamp → Text → Statement
  drop_session : Text → Statement
  drop_token : Text → Statement
  drop_user_sessions : Text → Statement
  sweep : Instant → Statement

-- A statement that fails leaves the tables as they were.
abbrev pub after : {A : Type 0} → Accounts → Outcome (Accounts × A) → Accounts
after a (ok (a', x)) = a'
after a (err e) = a

-- `drop_token` is DeleteSessionByToken, and `sweep` the call of SweepExpiredSessions.
unfoldable pub exec : Option Text → Statement → Accounts → Accounts
unfolding delete_sessions
exec fault (add_user refusal u) a = after a (create_user refusal fault u a)
exec fault (set_password hash now i) a = (update_user_password fault hash now i a).0
exec fault (touch_user now i) a = (touch_user_login fault now i a).0
exec fault (remove_user i) a = (delete_user fault i a).0
exec fault (add_session refusal s) a = after a (insert_session refusal fault s a)
exec none (extend seen expires i) a = extend_session seen expires i a
exec (some m) (extend seen expires i) a = a
exec fault (touch now i) a = (touch_session fault now i a).0
exec fault (drop_session i) a = (delete_session fault i a).0
exec fault (drop_token hash) a = (delete_sessions (has_token hash) fault a).0
exec fault (drop_user_sessions i) a = (delete_user_sessions fault i a).0
exec fault (sweep now) a = (sweep_expired_sessions fault now a).0

unfoldable pub run : List (Option Text × Statement) → Accounts → Accounts
run [] a = a
run ((fault, s) ∷ ss) a = run ss (exec fault s a)
