-- ===== src/Auth/Renewal.antt =====
-- ChangePassword of internal/auth/auth.go, and VerifyPassword on the hash that it commits.
use manualbox.Prelude.{
  ℕ, ◌≡◌, refl, sym, ap, ◌∙◌, Bool, true, false, Option, none, some, Result, ok, ok-injective,
  err-ok, Bool-cases, Option-cases, Result-cases, inl, inr, arith,
}
use manualbox.Prelude.Text.{Text}
use manualbox.Prelude.Lists.{length, find_where}
use manualbox.Jobs.Model.{DbError, no_rows, driver_error}
use manualbox.Auth.{database, no_session, commit_password}
use manualbox.Auth.Tables.{UserRow, Accounts, has_user_id}
use manualbox.Auth.Passwords.{Argon, hash_password, verify_password, argon_salt_len}
use manualbox.Auth.Setup.{
  Texts, LoginError, invalid_credentials, failed, unhashable, validate_password, get_user_by_id,
  find_user,
}
use manualbox.Auth.Login.{
  ChangeCall, replace_password, change_user_password, change_password, as_login_error,
}
use manualbox.Auth.Entry.{verify_own}

module _ (t : Texts) (g : Argon) where
  -- A call that returns an error does not return none.
  not_done :
      {C : Type 0} {a' : Accounts} {r : Accounts × Option LoginError} (a : Accounts)
      (x : LoginError)
      → r ≡ (a', none)
      → r ≡ (a, some x)
      → C
  not_done {a' = a'} a x q p =
      let bad : ◌≡◌ {A = Option LoginError} (some x) none =
        ap (λ (r : Accounts × Option LoginError). r.1) (sym p ∙ q) in
      cc

  found_user :
      (fault : Option Text) (id : Text) (a : Accounts) (u : UserRow)
      → get_user_by_id fault id a ≡ ok u
      → find_where (has_user_id id) a.users ≡ some u
  unfolding get_user_by_id
  found_user none id a u e = elim (Option-cases (find_where (has_user_id id) a.users)) [
    | inl q ↦ err-ok {e = no_rows} (rw (q, get_user_by_id, find_user) refl) e
    | inr (v, q) ↦
        let same : ◌≡◌ {A = Result DbError UserRow} (ok v) (ok u) =
          sym (rw (q, get_user_by_id, find_user) refl) ∙ e in
        q ∙ ap some (ok-injective same)
  ]
  found_user (some m) id a u e = err-ok refl e

  accepts_own :
      (cpus : ℕ) (salt : Option Text) (password hash : Text)
      → ((s : Text) → salt ≡ some s → length s ≡ argon_salt_len)
      → hash_password g cpus salt password ≡ ok hash
      → verify_password g hash password ≡ ok (true, false)
  accepts_own cpus none password hash full q = unfold hash_password in ground arith
  accepts_own cpus (some s) password hash full q =
      verify_own t g cpus s password hash (full s refl) q

  replace_password-verify :
      (c : ChangeCall) (id new : Text) (a a' : Accounts)
      → ((salt : Text) → c.salt ≡ some salt → length salt ≡ argon_salt_len)
      → replace_password g c id new a ≡ (a', none)
      → (hash : Text) × (verify_password g hash new ≡ ok (true, false))
        × (a' ≡ (commit_password none hash c.now id a).0)
  replace_password-verify c id new a a' full e =
      elim (Result-cases (hash_password g c.cpus c.salt new)) [
        | inl (x, q) ↦
            not_done a (unhashable x) e (unfold replace_password in rw (q, replace_password) refl)
        | inr (hash, q) ↦
            let done : replace_password g c id new a
                ≡ as_login_error (commit_password c.commit_fault hash c.now id a) =
              unfold replace_password in rw (q, replace_password) refl in
            let end = λ (f : Option Text). as_login_error (commit_password f hash c.now id a) in
            elim (Option-cases c.commit_fault) [
              | inr (m, r) ↦
                  let rolled_back : as_login_error (commit_password (some m) hash c.now id a)
                      ≡ (a, some (failed (database (driver_error m)))) =
                    unfold commit_password in refl in
                  not_done a (failed (database (driver_error m))) e
                    (done ∙ (ap end r ∙ rolled_back))
              | inl r ↦
                  let b = (commit_password none hash c.now id a).0 in
                  let committed : as_login_error (commit_password none hash c.now id a)
                      ≡ (b, none) =
                    unfold commit_password in refl in
                  let there = sym (done ∙ (ap end r ∙ committed)) ∙ e in
                  (
                    hash,
                    accepts_own c.cpus c.salt new hash full q,
                    sym (ap (λ (x : Accounts × Option LoginError). x.0) there),
                  )
            ]
      ]

  change_user_password-verify :
      (c : ChangeCall) (u : UserRow) (id current new : Text) (a a' : Accounts)
      → ((salt : Text) → c.salt ≡ some salt → length salt ≡ argon_salt_len)
      → find_where (has_user_id id) a.users ≡ some u
      → change_user_password g c u id current new a ≡ (a', none)
      → (u : UserRow) × (hash : Text) × (stale : Bool) × (find_where (has_user_id id) a.users
          ≡ some u)
        × (verify_password g u.password_hash current ≡ ok (true, stale))
        × (verify_password g hash new ≡ ok (true, false))
        × (a' ≡ (commit_password none hash c.now id a).0)
  change_user_password-verify c u id current new a a' full known e =
      elim (Result-cases (verify_password g u.password_hash current)) [
        | inl (x, q) ↦
            not_done a invalid_credentials e
              (unfold change_user_password in rw (q, change_user_password) refl)
        | inr ((matches, stale), q) ↦ elim (Bool-cases matches) [
          | inr m ↦
              not_done a invalid_credentials e
                (unfold change_user_password in rw (q, change_user_password) (rw m refl))
          | inl m ↦
              let go : change_user_password g c u id current new a ≡ replace_password g c id new a =
                unfold change_user_password in rw (q, change_user_password) (rw m refl) in
              let (hash, accepts, left) = replace_password-verify c id new a a' full (sym go ∙ e) in
              (u, hash, stale, known, q ∙ ap (λ (b : Bool). ok (b, stale)) m, accepts, left)
        ]
      ]

  -- A call of ChangePassword that returns no error was given the current password of the user, and
  -- commits a hash that VerifyPassword accepts for the new password, without being stale; the salt
  -- has 16 bytes.
  pub change_password-verify :
      (c : ChangeCall) (id current new : Text) (a a' : Accounts)
      → ((salt : Text) → c.salt ≡ some salt → length salt ≡ argon_salt_len)
      → change_password t g c id current new a ≡ (a', none)
      → (u : UserRow) × (hash : Text) × (stale : Bool) × (find_where (has_user_id id) a.users
          ≡ some u)
        × (verify_password g u.password_hash current ≡ ok (true, stale))
        × (verify_password g hash new ≡ ok (true, false))
        × (a' ≡ (commit_password none hash c.now id a).0)
  change_password-verify c id current new a a' full e =
      elim (Option-cases (validate_password t new)) [
        | inr (x, q) ↦ not_done a x e (unfold change_password in rw (q, change_password) refl)
        | inl q ↦ elim (Result-cases (get_user_by_id c.find_fault id a)) [
          | inl (no_rows, r) ↦
              not_done a (failed no_session) e
                (unfold change_password in rw (q, change_password) (rw r refl))
          | inl (driver_error m, r) ↦
              not_done a (failed (database (driver_error m))) e
                (unfold change_password in rw (q, change_password) (rw r refl))
          | inr (u, r) ↦
              let to_user : change_password t g c id current new a
                  ≡ change_user_password g c u id current new a =
                unfold change_password in rw (q, change_password) (rw r refl) in
              change_user_password-verify c u id current new a a' full
                (found_user c.find_fault id a u r) (sym to_user ∙ e)
        ]
      ]
