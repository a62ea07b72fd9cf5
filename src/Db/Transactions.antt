-- ===== src/Db/Transactions.antt =====
-- Tx of internal/db/db.go around the two statements of ChangePassword (internal/auth/auth.go).
use manualbox.Prelude.{◌≡◌, refl, Option, none, some}
use manualbox.Prelude.Text.{Text}
use manualbox.Clock.{Instant, millis}
use manualbox.Jobs.Model.{DbError, driver_error}
use manualbox.Auth.{AuthError, database, commit_password}
use manualbox.Auth.Tables.{Accounts}
use manualbox.Auth.Setup.{update_user_password}
use manualbox.Auth.Statements.{delete_user_sessions}
use manualbox.Db.{tx}

abbrev revoked : Accounts × Option DbError → Accounts × Option AuthError
revoked (a, some e) = (a, some (database e))
revoked (a, none) = (a, none)

abbrev then_revoke : Option Text → Text → Accounts × Option DbError → Accounts × Option AuthError
then_revoke fault i (a, some e) = (a, some (database e))
then_revoke fault i (a, none) = revoked (delete_user_sessions fault i a)

-- The body of the transaction in ChangePassword
unfoldable pub change_body :
    Option Text
    → Option Text
    → Text
    → Instant
    → Text
    → Accounts
    → Option (Accounts × Option AuthError)
unfolding delete_user_sessions
change_body fault fault' hash now i a =
    some (then_revoke fault' i (update_user_password fault hash (millis now) i a))

abbrev pub or_fault : Option Text → Option Text → Option Text
or_fault (some m) g = some m
or_fault none g = g

abbrev pub wrap_fault : Text → AuthError
wrap_fault m = database (driver_error m)

abbrev pub returned : Accounts × Option AuthError → Accounts × Option (Option AuthError)
returned (a, e) = (a, some e)

-- The transaction with the update of the hash and the deletion of the sessions is one step: it does
-- what commit_password does with the first of the faults of its begin, its two statements and its
-- commit.
pub tx-commit_password :
    (begin_fault update_fault delete_fault commit_fault : Option Text) (hash : Text) (now : Instant)
    (i : Text) (a : Accounts)
    → tx wrap_fault begin_fault commit_fault (change_body update_fault delete_fault hash now i) a
      ≡ returned (
          commit_password
            (or_fault begin_fault (or_fault update_fault (or_fault delete_fault commit_fault)))
            hash
            now
            i
            a)
unfolding tx change_body update_user_password commit_password
tx-commit_password (some m) f g k hash now i a = refl
tx-commit_password none (some m) g k hash now i a = refl
tx-commit_password none none (some m) k hash now i a = refl
tx-commit_password none none none (some m) hash now i a = refl
tx-commit_password none none none none hash now i a = refl
