-- ===== src/Api/Guards.antt =====
-- requireUser of internal/api/middleware.go and the handlers of internal/api/handlers.go over the
-- operations that they call.
use manualbox.Prelude.{
  ℕ, ◌≡◌, ◌≢◌, refl, sym, ap, ◌∙◌, Bool, false, Option, none, some, [], ok, err, Bool-cases, ◌⊎◌,
  inl, inr, arith,
}
use manualbox.Prelude.Text.{Text, text, text_eq}
use manualbox.Prelude.Lists.{length}
use manualbox.Store.{Sha256}
use manualbox.Auth.{AuthError, no_session, AuthCall, authenticate, logout}
use manualbox.Auth.Tables.{UserRow, Accounts}
use manualbox.Auth.Sessions.{logout-authenticate}
use manualbox.Auth.Passwords.{Argon, HashError, verify_password}
use manualbox.Auth.Setup.{
  Texts, LoginError, invalid_credentials, setup_complete, weak_password, invalid_email, no_token,
  unhashable, failed, SetupCall,
}
use manualbox.Auth.Login.{LoginCall}
use manualbox.Auth.Access.{named_user, login_refused}
use manualbox.Auth.Entry.{setup_refused}
use manualbox.Config.{Config}
use manualbox.Api.{
  Request, Web, untouched, cleared, nothing, Response, write_error, header_get, session_token_from,
  request_is_https, Handler, unauthenticated, admit, require_user,
}
use manualbox.Api.Handlers.{
  setup_error, SetupBody, set_up, handle_setup, logged_in, handle_login, logged_out, handle_logout,
}

module _ (w : Web) (cfg : Config) (h : Sha256) (ttl : ℕ) (r : Request) where
  pub admit_none :
      {X : Type 0} (stop : Accounts × Response → X) (c : AuthCall) (next : Handler X) (a : Accounts)
      → authenticate h ttl c (session_token_from w r) a ≡ (a, err no_session)
      → require_user stop w cfg h ttl c r next a ≡ stop (a, unauthenticated w cfg r)
  unfolding require_user admit
  admit_none stop c next a e = ap (admit stop w cfg r next) e

  -- After handleLogout without a fault of the database, which answers 204 and clears the cookie, the
  -- same request is stopped by requireUser before any handler, at every time at which its lookup
  -- meets no fault: with 401 and nothing changed.
  pub logout-require_user :
      {X : Type 0} (t : Texts) (g : Argon) (stop : Accounts × Response → X) (c : AuthCall)
      (next : Handler X) (a : Accounts)
      → c.find_fault ≡ none
      → (a' : Accounts) × (handle_logout w cfg t g h ttl none r a ≡ (
        a',
        record { status = 204; body = nothing; cookie = cleared (request_is_https w cfg r) },
      ))
        × (require_user stop w cfg h ttl c r next a' ≡ stop (a', unauthenticated w cfg r))
  unfolding handle_logout logged_out
  logout-require_user t g stop c next a calm =
      let (a', e, users, gone) = logout-authenticate h ttl c (session_token_from w r) a calm in
      let out : Accounts × Option AuthError → Accounts × Response = logged_out w cfg t g h ttl r in
      let named : handle_logout w cfg t g h ttl none r a ≡ out (a', none) =
        elim (Bool-cases (text_eq (session_token_from w r) [])) [
          | inl q ↦
              let left : logout h none (session_token_from w r) a ≡ (a, none) =
                unfold logout in rw (q, logout) refl in
              rw (q, handle_logout) (ap out (sym left ∙ e))
          | inr q ↦ rw (q, handle_logout) (ap out e)
        ] in
      (a', named, admit_none stop c next a' gone)

setup_error-status : (e : LoginError) → (setup_error e).status ≢ 201
unfolding setup_error
setup_error-status setup_complete = λ q. omega (arith, q)
setup_error-status weak_password = λ q. omega (arith, q)
setup_error-status invalid_email = λ q. omega (arith, q)
setup_error-status invalid_credentials = λ q. omega (arith, q)
setup_error-status no_token = λ q. omega (arith, q)
setup_error-status (unhashable x) = λ q. omega (arith, q)
setup_error-status (failed x) = λ q. omega (arith, q)

setup_error-cookie : (e : LoginError) → (setup_error e).cookie ≡ untouched
unfolding setup_error
setup_error-cookie setup_complete = refl
setup_error-cookie weak_password = refl
setup_error-cookie invalid_email = refl
setup_error-cookie invalid_credentials = refl
setup_error-cookie no_token = refl
setup_error-cookie (unhashable x) = refl
setup_error-cookie (failed x) = refl

module _ (w : Web) (cfg : Config) (t : Texts) (g : Argon) (h : Sha256) (ttl : ℕ) (r : Request) where
  -- On an instance that has a user, handleSetup changes nothing, issues no cookie and does not answer
  -- 201, whatever it is given and whatever fails.
  pub handle_setup-refused :
      (c : SetupCall) (l : LoginCall) (body : Option SetupBody) (a : Accounts)
      → length a.users ≢ 0
      → (answer : Response) × (handle_setup w cfg t g h ttl c l r body a ≡ (a, answer))
        × (answer.status ≢ 201)
        × (answer.cookie ≡ untouched)
  unfolding handle_setup set_up
  handle_setup-refused c l none a known =
      (write_error 400 (text "invalid_body"), refl, (λ e. omega (arith, e)), refl)
  handle_setup-refused c l (some b) a known =
      let (e, q) = setup_refused t g c b.email b.password b.display_name a known in
      (
        setup_error e,
        ap (set_up w cfg t g h ttl l r b) q,
        setup_error-status e,
        setup_error-cookie e,
      )

  -- Without a fault of the lookup, handleLogin answers an unknown email, a wrong password and a
  -- stored hash that cannot be read alike, with 401 and no cookie, and changes nothing.
  pub handle_login-refused :
      (l : LoginCall) (email password : Text) (a : Accounts)
      → l.find_fault ≡ none
      → ((u : UserRow)
          → named_user t g h ttl l email a ≡ some u
          → ((e : HashError) × (verify_password g u.password_hash password ≡ err e))
            ⊎ ((stale : Bool) × (verify_password g u.password_hash password ≡ ok (false, stale))))
      → handle_login w cfg t g h ttl l r (some (email, password)) a
        ≡ (a, write_error 401 (text "invalid_credentials"))
  unfolding handle_login logged_in
  handle_login-refused l email password a calm bad =
      let agent = header_get (text "User-Agent") r.headers in
      ap (logged_in w cfg t g h ttl (request_is_https w cfg r))
        (login_refused t g h ttl l email password agent r.remote_addr a calm bad)
