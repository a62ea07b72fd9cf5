-- ===== src/Auth/Keeping.antt =====
-- The steps of Login of internal/auth/auth.go that write to users keep the sessions and the identity
-- of the user.
use manualbox.Prelude.{ℕ, ◌≡◌, refl, Bool, true, false, Option, none, some, Result-cases, inl, inr}
use manualbox.Prelude.Text.{Text}
use manualbox.Prelude.Lists.{find_where, find_where-map_where}
use manualbox.Clock.{millis}
use manualbox.Auth.Tables.{UserRow, Accounts, has_user_id}
use manualbox.Auth.Passwords.{Argon, hash_password}
use manualbox.Auth.Setup.{update_user_password, touch_user_login}
use manualbox.Auth.Login.{LoginCall, rehash}

-- A user as Login may leave it: the hash renewed, the login recorded.
abbrev pub SameUser : UserRow → UserRow → Type 0
SameUser u v = (v.id ≡ u.id) × (v.email ≡ u.email) × (v.role ≡ u.role)

-- The tables after a step that keeps the sessions and keeps who has an id.
abbrev pub Keeps : Text → UserRow → Accounts → Accounts → Type 0
Keeps id u a b =
    (b.sessions ≡ a.sessions)
    × ((v : UserRow) × (find_where (has_user_id id) b.users ≡ some v) × SameUser u v)

module _ (g : Argon) where
  update_user_password-Keeps :
      (fault : Option Text) (hash : Text) (now : ℕ) (id : Text) (u : UserRow) (a : Accounts)
      → find_where (has_user_id id) a.users ≡ some u
      → Keeps id u a (update_user_password fault hash now id a).0
  unfolding update_user_password
  update_user_password-Keeps (some m) hash now id u a e = (refl, (u, e, (refl, refl, refl)))
  update_user_password-Keeps none hash now id u a e =
      let renew : UserRow → UserRow = λ x. record x { password_hash = hash; updated_at = now } in
      (
        refl,
        (
          renew u,
          find_where-map_where (has_user_id id) renew a.users u (λ y q. q) e,
          (refl, refl, refl),
        ),
      )

  pub touch_user_login-Keeps :
      (fault : Option Text) (now : ℕ) (id : Text) (u : UserRow) (a : Accounts)
      → find_where (has_user_id id) a.users ≡ some u
      → Keeps id u a (touch_user_login fault now id a).0
  unfolding touch_user_login
  touch_user_login-Keeps (some m) now id u a e = (refl, (u, e, (refl, refl, refl)))
  touch_user_login-Keeps none now id u a e =
      let touch : UserRow → UserRow =
        λ x. record x { last_login_at = some now; updated_at = now } in
      (
        refl,
        (
          touch u,
          find_where-map_where (has_user_id id) touch a.users u (λ y q. q) e,
          (refl, refl, refl),
        ),
      )

  pub rehash-Keeps :
      (c : LoginCall) (stale : Bool) (id password : Text) (u : UserRow) (a : Accounts)
      → find_where (has_user_id id) a.users ≡ some u
      → Keeps id u a (rehash g c stale id password a)
  unfolding rehash
  rehash-Keeps c false id password u a e = (refl, (u, e, (refl, refl, refl)))
  rehash-Keeps c true id password u a e =
      elim (Result-cases (hash_password g c.cpus c.salt password)) [
        | inl (x, q) ↦ rw (q, rehash) (refl, (u, e, (refl, refl, refl)))
        | inr (hash, q) ↦
            rw (q, rehash)
              (update_user_password-Keeps c.rehash_fault hash (millis c.rehash_now) id u a e)
      ]
