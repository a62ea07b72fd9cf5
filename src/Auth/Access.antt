-- ===== src/Auth/Access.antt =====
-- Login of internal/auth/auth.go, and Authenticate with the token that it returns.
use manualbox.Prelude.{
  ℕ, ◌+◌, ◌≡◌, ◌<◌, refl, ap, ◌∙◌, Bool, true, false, ◌||◌, Option, none, some, List, [], ◌∷◌, ◌++◌,
  Result, ok, err, Option-cases, ◌⊎◌, inl, inr, arith, if◌then◌else◌,
}
use manualbox.Prelude.Text.{Text, text_eq, text_eq_refl}
use manualbox.Prelude.Lists.{find_where, find_where-append, find_where-weaken}
use manualbox.Clock.{millis}
use manualbox.Store.{Sha256}
use manualbox.Auth.{
  User, Session, user_from_row, session_from_row, AuthError, truncate, CreateCall, create_session,
  AuthCall, authenticate,
}
use manualbox.Auth.Tables.{UserRow, SessionRow, Accounts, has_user_id, has_token, is_live}
use manualbox.Auth.Lookups.{get_found, insert_session_ok, authenticate_found, slide_user}
use manualbox.Auth.Passwords.{Argon, HashError, verify_password}
use manualbox.Auth.Setup.{
  Texts, invalid_credentials, no_token, has_email, get_user_by_email, touch_user_login,
}
use manualbox.Auth.Login.{LoginCall, rehash, finish_login, issue, login_user, login}
use manualbox.Auth.Keeping.{SameUser, touch_user_login-Keeps, rehash-Keeps}

-- The row that createSession inserts.
abbrev session_row : Sha256 → ℕ → CreateCall → Text → Text → Text → SessionRow
session_row h ttl c user agent ip = record {
  id = c.id;
  user_id = user;
  token_hash = h.sum c.token;
  user_agent = truncate agent 512;
  ip = ip;
  created_at = millis c.now;
  last_seen_at = millis c.now;
  expires_at = millis (c.now + ttl);
}

module _ (h : Sha256) (ttl : ℕ) where
  -- Tables in which the last session is new, for a known user.
  new_session-authenticate :
      (c : CreateCall) (later : AuthCall) (user agent ip : Text) (old : List SessionRow)
      (a : Accounts) (v : UserRow)
      → later.find_fault ≡ none
      → text_eq c.token [] ≡ false
      → find_where (λ r. text_eq r.id c.id || has_token (h.sum c.token) r) old ≡ none
      → millis later.now < millis (c.now + ttl)
      → a.sessions ≡ old ++ session_row h ttl c user agent ip ∷ []
      → find_where (has_user_id user) a.users ≡ some v
      → (found : Session) × ((authenticate h ttl later c.token a).1 ≡ ok (user_from_row v, found))
        × (found.id ≡ c.id)
        × (found.user_id ≡ user)
  new_session-authenticate c later user agent ip old a v calm named fresh soon last known =
      let s = session_row h ttl c user agent ip in
      let test = is_live (h.sum c.token) (millis later.now) in
      let others : find_where test old ≡ none =
        find_where-weaken (λ r. text_eq r.id c.id || has_token (h.sum c.token) r) test old
          (λ r live. ground arith) fresh in
      let live : test s ≡ true = ground (arith, text_eq_refl (h.sum c.token), soon) in
      let there : find_where test a.sessions ≡ some s =
        ap (find_where test) last ∙ find_where-append test old s others live in
      let looked =
        get_found later.find_fault (h.sum c.token) (millis later.now) a s v calm there known in
      let (found, e, i, j) = slide_user h ttl later s v a in
      (
        found,
        ap (λ (x : Accounts × Result AuthError (User × Session)). x.1)
              (authenticate_found h ttl later c.token a s v named looked)
            ∙ e,
        i,
        j,
      )

  -- createSession, for a known user and a new session.
  create_session_ok :
      (c : CreateCall) (user agent ip : Text) (a : Accounts) (v : UserRow)
      → c.fault ≡ none
      → find_where (λ r. text_eq r.id c.id || has_token (h.sum c.token) r) a.sessions ≡ none
      → find_where (has_user_id user) a.users ≡ some v
      → create_session h ttl c user agent ip a ≡ (
        record a { sessions = a.sessions ++ session_row h ttl c user agent ip ∷ [] },
        ok (c.token, session_from_row (session_row h ttl c user agent ip)),
      )
  unfolding create_session
  create_session_ok c user agent ip a v calm fresh known =
      rw
        (
          insert_session_ok c.refusal c.fault (session_row h ttl c user agent ip) a v calm fresh
              known,
          create_session,
        )
        refl

-- Nothing that Login needs fails, and the new session has an id and a nonempty token of its own.
pub record IsGranted (h : Sha256) (c : LoginCall) (a : Accounts) : Type 0 where
  pub drawn : c.draw_fails ≡ false
  pub calm : c.session.fault ≡ none
  pub named : text_eq c.session.token [] ≡ false
  pub fresh :
      find_where (λ r. text_eq r.id c.session.id || has_token (h.sum c.session.token) r) a.sessions
      ≡ none

module _ (g : Argon) (h : Sha256) (ttl : ℕ) (c : LoginCall) where
  issue-authenticate :
      (later : AuthCall) (u v : UserRow) (agent ip : Text) (a : Accounts)
      → IsGranted h c a
      → later.find_fault ≡ none
      → millis later.now < millis (c.session.now + ttl)
      → find_where (has_user_id u.id) a.users ≡ some v
      → (a' : Accounts) × (w : UserRow) × (found : Session) × (issue h ttl c u agent ip a
          ≡ (a', ok (c.session.token, user_from_row u)))
        × ((authenticate h ttl later c.session.token a').1 ≡ ok (user_from_row w, found))
        × SameUser v w
        × (found.id ≡ c.session.id)
        × (found.user_id ≡ u.id)
  unfolding issue finish_login
  issue-authenticate later u v agent ip a ok' calm soon known =
      let s = session_row h ttl c.session u.id agent ip in
      let a1 : Accounts = record a { sessions = a.sessions ++ s ∷ [] } in
      let made = create_session_ok h ttl c.session u.id agent ip a v ok'.calm ok'.fresh known in
      let a2 = (touch_user_login c.touch_fault (millis c.touch_now) u.id a1).0 in
      let (kept, (w, there, same)) =
        touch_user_login-Keeps g c.touch_fault (millis c.touch_now) u.id v a1 known in
      let (found, e, i, j) =
        new_session-authenticate h ttl c.session later u.id agent ip a.sessions a2 w calm ok'.named
          ok'.fresh soon kept there in
      (
        a2,
        w,
        found,
        ap
              (λ (b : Bool).
                if b
                then (a, err no_token)
                else finish_login c u (create_session h ttl c.session u.id agent ip a))
              ok'.drawn
            ∙ ap (finish_login c u) made,
        e,
        same,
        i,
        j,
      )

module _ (t : Texts) (g : Argon) (h : Sha256) (ttl : ℕ) (c : LoginCall) where
  -- The user whose folded email Login looks up.
  abbrev pub named_user : Text → Accounts → Option UserRow
  named_user email a = find_where (has_email (t.to_lower (t.trim_space email))) a.users

  login_found :
      (email password agent ip : Text) (a : Accounts) (u : UserRow)
      → c.find_fault ≡ none
      → named_user email a ≡ some u
      → login t g h ttl c email password agent ip a ≡ login_user g h ttl c u password agent ip a
  unfolding login get_user_by_email
  login_found email password agent ip a u calm e = rw (calm, login, get_user_by_email) (rw e refl)

  -- Without a fault of the lookup, Login with an unknown email, a wrong password or a stored hash
  -- that cannot be read changes nothing and gives one and the same error.
  pub login_refused :
      (email password agent ip : Text) (a : Accounts)
      → c.find_fault ≡ none
      → ((u : UserRow)
          → named_user email a ≡ some u
          → ((e : HashError) × (verify_password g u.password_hash password ≡ err e))
            ⊎ ((stale : Bool) × (verify_password g u.password_hash password ≡ ok (false, stale))))
      → login t g h ttl c email password agent ip a ≡ (a, err invalid_credentials)
  unfolding login get_user_by_email
  login_refused email password agent ip a calm bad = elim (Option-cases (named_user email a)) [
    | inl e ↦ rw (calm, login, get_user_by_email) (rw e refl)
    | inr (u, e) ↦ login_found email password agent ip a u calm e ∙ elim (bad u e) [
      | inl (x, q) ↦ unfold login_user in rw (q, login_user) refl
      | inr (stale, q) ↦ unfold login_user in rw (q, login_user) refl
    ]
  ]

  -- Login with the password of the user whom the email names, when the lookup and the insertion of
  -- the session meet no fault, a token is drawn and id and token of the session are new, returns the
  -- token and the user; until a `ttl` after the session was made, in milliseconds, Authenticate then
  -- accepts that token, if its lookup meets no fault, for a user with the same id, email and role and
  -- for the new session. A renewal of the hash and the record of the login may fail.
  pub login-authenticate :
      (later : AuthCall) (email password agent ip : Text) (a : Accounts) (u : UserRow)
      (stale : Bool)
      → c.find_fault ≡ none
      → named_user email a ≡ some u
      → find_where (has_user_id u.id) a.users ≡ some u
      → verify_password g u.password_hash password ≡ ok (true, stale)
      → IsGranted h c a
      → later.find_fault ≡ none
      → millis later.now < millis (c.session.now + ttl)
      → (a' : Accounts) × (w : UserRow) × (found : Session) × (login t g h ttl c email password
            agent ip a
          ≡ (a', ok (c.session.token, user_from_row u)))
        × ((authenticate h ttl later c.session.token a').1 ≡ ok (user_from_row w, found))
        × SameUser u w
        × (found.id ≡ c.session.id)
        × (found.user_id ≡ u.id)
  login-authenticate later email password agent ip a u stale calm e known q granted calm' soon =
      let b = rehash g c stale u.id password a in
      let (kept, (v, there, same)) = rehash-Keeps g c stale u.id password u a known in
      let granted' : IsGranted h c b = record {
        drawn = granted.drawn;
        calm = granted.calm;
        named = granted.named;
        fresh =
            ap (find_where (λ r. text_eq r.id c.session.id || has_token (h.sum c.session.token) r))
              kept
            ∙ granted.fresh;
      } in
      let (a', w, found, made, seen, same', i, j) =
        issue-authenticate g h ttl c later u v agent ip b granted' calm' soon there in
      let to_issue : login_user g h ttl c u password agent ip a ≡ issue h ttl c u agent ip b =
        unfold login_user in rw (q, login_user) refl in
      (
        a',
        w,
        found,
        login_found email password agent ip a u calm e ∙ (to_issue ∙ made),
        seen,
        (same'.0 ∙ same.0, same'.1 ∙ same.1, same'.2 ∙ same.2),
        i,
        j,
      )
