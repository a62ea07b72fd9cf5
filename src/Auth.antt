-- ===== src/Auth.antt =====
-- Sessions of internal/auth/auth.go over the tables users and sessions. The clock, random tokens and
-- the fault of each database call are arguments; the hash of tokens is SHA-256, a parameter.
pub mod Tables
pub mod Lookups
pub mod Sessions
pub mod Passwords
pub mod Hashing
pub mod Setup
pub mod Statements
pub mod Invariant
pub mod Login
pub mod Entry
pub mod Renewal
pub mod Keeping
pub mod Access
use manualbox.Prelude.{
  ℕ, ◌+◌, ◌*◌, Bool, true, false, ◌&&◌, ◌||◌, not, Option, none, some, List, [], ◌∷◌, ◌++◌, Result,
  ok, err, if◌then◌else◌, ltb, leb,
}
use manualbox.Prelude.Text.{Text, text_eq}
use manualbox.Prelude.Lists.{length, take, keep, count_where, find_where, map_where}
use manualbox.Clock.{Instant, Stamp, millis, time, time_ptr, minute}
use manualbox.Jobs.Model.{DbError, no_rows, driver_error}
use manualbox.Jobs.Table.{Outcome}
use manualbox.Store.{Sha256}
use manualbox.Auth.Tables.{
  UserRow, SessionRow, Accounts, has_user_id, has_token, is_live, insert_session,
  get_session_by_token, extended, extend_session,
}

-- User
pub record User : Type 0 where
  pub id : Text
  pub email : Text
  pub display_name : Text
  pub role : Text
  pub created_at : Instant
  pub last_login_at : Option Instant

-- Session
pub record Session : Type 0 where
  pub id : Text
  pub user_id : Text
  pub created_at : Instant
  pub last_seen_at : Instant
  pub expires_at : Instant

-- userFromRow
unfoldable pub user_from_row : UserRow → User
user_from_row r = record {
  id = r.id;
  email = r.email;
  display_name = r.display_name;
  role = r.role;
  created_at = time r.created_at;
  last_login_at = time_ptr r.last_login_at;
}

-- sessionFromRow
unfoldable pub session_from_row : SessionRow → Session
session_from_row r = record {
  id = r.id;
  user_id = r.user_id;
  created_at = time r.created_at;
  last_seen_at = time r.last_seen_at;
  expires_at = time r.expires_at;
}

pub data AuthError : Type 0 where
  no_session : AuthError
  database : DbError → AuthError

-- extendAfter
abbrev pub extend_after : ℕ
extend_after = 24 * (60 * minute)

-- truncate
unfoldable pub truncate : Text → ℕ → Text
truncate s n = if leb (length s) n then s else take n s

-- What one call of createSession takes from outside.
pub record CreateCall : Type 0 where
  pub id : Text
  pub token : Text
  pub now : Instant
  pub fault : Option Text
  pub refusal : Text

-- createSession, after the token is drawn
unfoldable pub create_session :
    Sha256
    → ℕ
    → CreateCall
    → Text
    → Text
    → Text
    → Accounts
    → Accounts × Result AuthError (Text × Session)
unfolding truncate
create_session h ttl c user agent ip a =
    let s : SessionRow = record {
      id = c.id;
      user_id = user;
      token_hash = h.sum c.token;
      user_agent = truncate agent 512;
      ip = ip;
      created_at = millis c.now;
      last_seen_at = millis c.now;
      expires_at = millis (c.now + ttl);
    } in
    elim (insert_session c.refusal c.fault s a) [
      | err e ↦ (a, err (database e))
      | ok (a', r) ↦ (a', ok (c.token, session_from_row r))
    ]

pub record AuthCall : Type 0 where
  pub now : Instant
  pub find_fault : Option Text
  pub extend_fault : Option Text

-- The end of Authenticate; a failed extension is logged.
unfoldable pub slide :
    ℕ → AuthCall → SessionRow → UserRow → Accounts → Accounts × Result AuthError (User × Session)
slide ttl c s u a =
    let sess = session_from_row s in
    if ltb (sess.last_seen_at + extend_after) c.now
    then elim c.extend_fault [
      | some m ↦ (a, ok (user_from_row u, sess))
      | none ↦ (
        extend_session (millis c.now) (millis (c.now + ttl)) sess.id a,
        ok (
          user_from_row u,
          record sess { last_seen_at = c.now; expires_at = time (millis (c.now + ttl)) },
        ),
      )
    ]
    else (a, ok (user_from_row u, sess))

-- Authenticate
unfoldable pub authenticate :
    Sha256 → ℕ → AuthCall → Text → Accounts → Accounts × Result AuthError (User × Session)
authenticate h ttl c token a =
    if text_eq token []
    then (a, err no_session)
    else elim (get_session_by_token c.find_fault (h.sum token) (millis c.now) a) [
      | err e ↦ elim e [
        | no_rows ↦ (a, err no_session)
        | driver_error m ↦ (a, err (database (driver_error m)))
      ]
      | ok (s, u) ↦ slide ttl c s u a
    ]

-- Logout, over DeleteSessionByToken
unfoldable pub logout : Sha256 → Option Text → Text → Accounts → Accounts × Option AuthError
logout h fault token a = if text_eq token [] then (a, none) else elim fault [
  | some m ↦ (a, some (database (driver_error m)))
  | none ↦ (record a { sessions = keep (λ s. not (has_token (h.sum token) s)) a.sessions }, none)
]

-- SweepExpiredSessions, over DeleteExpiredSessions
unfoldable pub sweep_expired_sessions :
    Option Text → Instant → Accounts → Accounts × Result AuthError ℕ
sweep_expired_sessions (some m) now a = (a, err (database (driver_error m)))
sweep_expired_sessions none now a = (
  record a { sessions = keep (λ s. not (leb s.expires_at (millis now))) a.sessions },
  ok (count_where (λ s. leb s.expires_at (millis now)) a.sessions),
)

-- The transaction at the end of ChangePassword: UpdateUserPassword and DeleteUserSessions. It is
-- rolled back if a statement or the commit fails.
unfoldable pub commit_password :
    Option Text → Text → Instant → Text → Accounts → Accounts × Option AuthError
commit_password (some m) hash now i a = (a, some (database (driver_error m)))
commit_password none hash now i a = (
  record {
    users =
        map_where (has_user_id i) (λ u. record u { password_hash = hash; updated_at = millis now })
          a.users;
    sessions = keep (λ s. not (text_eq s.user_id i)) a.sessions;
  },
  none,
)
