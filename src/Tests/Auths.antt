-- ===== src/Tests/Auths.antt =====
-- The theorems on sessions at a small pair of tables.
use manualbox.Prelude.{
  ◌+◌, ◌*◌, ◌≡◌, ◌≢◌, ◌<◌, ◌||◌, refl, false, Option, none, some, List, [], ◌∷◌, ◌⊎◌, ok, err,
  arith,
}
use manualbox.Prelude.Text.{Text, text, text_eq}
use manualbox.Prelude.Lists.{find_where}
use manualbox.Prelude.Distinct.{distinct, meets}
use manualbox.Clock.{millis, second}
use manualbox.Auth.{
  User, Session, no_session, CreateCall, create_session, AuthCall, authenticate, commit_password,
}
use manualbox.Auth.Tables.{UserRow, SessionRow, Accounts, has_user_id, has_token}
use manualbox.Auth.Sessions.{commit_password-authenticate}
use manualbox.Auth.Statements.{Statement, add_user, add_session, sweep, remove_user, run}
use manualbox.Auth.Invariant.{IsSound, run-IsSound}
use manualbox.Tests.Stores.{counting}

abbrev pub owner : UserRow
owner = record {
  id = text "usr_1";
  email = text "a@b.c";
  email_folded = text "a@b.c";
  display_name = text "a";
  password_hash = text "x";
  role = text "admin";
  created_at = 1;
  updated_at = 1;
  last_login_at = none;
}

abbrev pub no_sessions : Accounts
no_sessions = record { users = owner ∷ []; sessions = [] }

abbrev pub login_call : CreateCall
login_call = record {
  id = text "ses_1";
  token = text "t0k3n";
  now = 5 * second;
  fault = none;
  refusal = text "UNIQUE constraint failed";
}

abbrev pub request : AuthCall
request = record { now = 7 * second; find_fault = none; extend_fault = none }

abbrev signed_in : Accounts
signed_in = (create_session counting (60 * second) login_call (text "usr_1") [] [] no_sessions).0

token_is_named : text_eq (text "t0k3n") [] ≡ false
unfolding text_eq
token_is_named = refl

nothing_there :
    find_where
      (λ (r : SessionRow). text_eq r.id (text "ses_1") || has_token (counting.sum (text "t0k3n")) r)
      []
    ≡ none
unfolding find_where
nothing_there = refl

owner_known : find_where (has_user_id (text "usr_1")) (owner ∷ []) ≡ some owner
unfolding find_where text_eq
owner_known = refl

soon_enough : millis (7 * second) < millis (5 * second + 60 * second)
unfolding millis
soon_enough = omega arith

commit_password-authenticate_example :
    ((authenticate counting
        (60 * second)
        request
        (text "t0k3n")
        (commit_password none (text "y") (6 * second) (text "usr_1") signed_in).0).1
      ≡ err no_session)
    ⊎ ((u : User) × (sess : Session) × ((authenticate counting
            (60 * second)
            request
            (text "t0k3n")
            (commit_password none (text "y") (6 * second) (text "usr_1") signed_in).0).1
          ≡ ok (u, sess))
        × (sess.user_id ≢ text "usr_1"))
commit_password-authenticate_example =
    commit_password-authenticate counting (60 * second) request (text "y") (6 * second)
      (text "usr_1") (text "t0k3n") signed_in refl

abbrev live_row : SessionRow
live_row = record {
  id = text "ses_1";
  user_id = text "usr_1";
  token_hash = text "t0k3n";
  user_agent = [];
  ip = [];
  created_at = 5;
  last_seen_at = 5;
  expires_at = 65;
}

no_sessions-IsSound : IsSound no_sessions
unfolding distinct meets text_eq
no_sessions-IsSound = record { users_differ = refl; sessions_differ = refl; linked = tt }

-- A second user is refused for the email of the first, who signs in and is deleted.
abbrev goings : List (Option Text × Statement)
goings =
    (none, add_user (text "UNIQUE constraint failed") (record owner { id = text "usr_2" }))
    ∷ (none, add_session (text "FOREIGN KEY constraint failed") live_row)
    ∷ (some (text "disk full"), sweep (9 * second))
    ∷ (none, remove_user (text "usr_1"))
    ∷ []

run-IsSound_example : IsSound (run goings no_sessions)
run-IsSound_example = run-IsSound goings no_sessions no_sessions-IsSound
