-- ===== src/Api/Handlers.antt =====
-- The handlers of internal/api/handlers.go for setup, login, sessions, passwords and jobs. A body of
-- the request is what decodeJSON makes of it, or none.
use manualbox.Prelude.{
  ℕ, Bool, true, false, ◌||◌, Option, none, some, [], Result, ok, err, if◌then◌else◌,
}
use manualbox.Prelude.Int.{ℤ, pos, ltb_ℤ}
use manualbox.Prelude.Text.{Text, text, text_eq}
use manualbox.Store.{Sha256}
use manualbox.Jobs.Model.{
  State, queued, running, succeeded, failed, cancelled, JobsError, not_found,
}
use manualbox.Jobs.Table.{Driver}
use manualbox.Jobs.Queue.{Queue, get, list, CancelCall, cancel}
use manualbox.Auth.{User, Session, AuthError, logout}
use manualbox.Auth.Tables.{Accounts}
use manualbox.Auth.Passwords.{Argon}
use manualbox.Auth.Setup.{
  Texts, LoginError, invalid_credentials, setup_complete, weak_password, invalid_email, needs_setup,
  SetupCall, setup,
}
use manualbox.Auth.Login.{LoginCall, login, ChangeCall, change_password}
use manualbox.Config.{Config}
use manualbox.Api.{
  Request, Web, untouched, issued, cleared, nothing, needs_setup_body, user_body, me_body, job_body,
  jobs_body, Response, write_error, internal_error, header_get, session_token_from,
  request_is_https,
}

-- handleSetupStatus
unfoldable pub handle_setup_status : Option Text → Accounts → Response
handle_setup_status fault a = elim (needs_setup fault a) [
  | err e ↦ internal_error
  | ok needs ↦ record { status = 200; body = needs_setup_body needs; cookie = untouched }
]

-- The switch of handleSetup on the error of Setup.
unfoldable pub setup_error : LoginError → Response
setup_error setup_complete = write_error 409 (text "setup_complete")
setup_error weak_password = write_error 422 (text "weak_password")
setup_error invalid_email = write_error 422 (text "invalid_email")
setup_error e = internal_error

-- setupRequest
pub record SetupBody : Type 0 where
  pub email : Text
  pub password : Text
  pub display_name : Text

-- The end of handleSetup: a login that fails leaves the answer without a cookie.
unfoldable pub signed_up :
    Bool → User → Accounts × Result LoginError (Text × User) → Accounts × Response
signed_up secure u (a, err e) = (a, record { status = 201; body = user_body u; cookie = untouched })
signed_up secure u (a, ok (token, x)) =
    (a, record { status = 201; body = user_body u; cookie = issued token secure })

module _ (w : Web) (cfg : Config) (t : Texts) (g : Argon) (h : Sha256) (ttl : ℕ) where
  -- handleSetup, from the result of Setup on
  unfoldable pub set_up :
      LoginCall → Request → SetupBody → Accounts × Result LoginError User → Accounts × Response
  unfolding setup_error signed_up
  set_up l r b (a, err e) = (a, setup_error e)
  set_up l r b (a, ok u) =
      let agent = header_get (text "User-Agent") r.headers in
      signed_up (request_is_https w cfg r) u
        (login t g h ttl l b.email b.password agent r.remote_addr a)

  -- handleSetup
  unfoldable pub handle_setup :
      SetupCall → LoginCall → Request → Option SetupBody → Accounts → Accounts × Response
  unfolding set_up
  handle_setup c l r none a = (a, write_error 400 (text "invalid_body"))
  handle_setup c l r (some b) a = set_up l r b (setup t g c b.email b.password b.display_name a)

  -- handleLogin, from the result of Login on
  unfoldable pub logged_in : Bool → Accounts × Result LoginError (Text × User) → Accounts × Response
  logged_in secure (a, err invalid_credentials) = (a, write_error 401 (text "invalid_credentials"))
  logged_in secure (a, err e) = (a, internal_error)
  logged_in secure (a, ok (token, u)) =
      (a, record { status = 200; body = user_body u; cookie = issued token secure })

  -- handleLogin; the body is an email and a password
  unfoldable pub handle_login :
      LoginCall → Request → Option (Text × Text) → Accounts → Accounts × Response
  unfolding logged_in
  handle_login l r none a = (a, write_error 400 (text "invalid_body"))
  handle_login l r (some (email, password)) a =
      let agent = header_get (text "User-Agent") r.headers in
      logged_in (request_is_https w cfg r) (login t g h ttl l email password agent r.remote_addr a)

  -- handleLogout, from the result of Logout on
  unfoldable pub logged_out : Request → Accounts × Option AuthError → Accounts × Response
  logged_out r (a, some e) = (a, internal_error)
  logged_out r (a, none) =
      (a, record { status = 204; body = nothing; cookie = cleared (request_is_https w cfg r) })

  -- handleLogout
  unfoldable pub handle_logout : Option Text → Request → Accounts → Accounts × Response
  unfolding logged_out
  handle_logout fault r a =
      if text_eq (session_token_from w r) []
      then logged_out r (a, none)
      else logged_out r (logout h fault (session_token_from w r) a)

  -- handleMe, below requireUser
  abbrev pub handle_me : User → Session → Accounts → Accounts × Response
  handle_me u s a = (a, record { status = 200; body = me_body u s; cookie = untouched })

  -- The switch of handleChangePassword on the error of ChangePassword.
  unfoldable pub change_error : LoginError → Response
  change_error invalid_credentials = write_error 401 (text "invalid_credentials")
  change_error weak_password = write_error 422 (text "weak_password")
  change_error e = internal_error

  unfoldable pub password_changed : Request → Accounts × Option LoginError → Accounts × Response
  unfolding change_error
  password_changed r (a, some e) = (a, change_error e)
  password_changed r (a, none) =
      (a, record { status = 204; body = nothing; cookie = cleared (request_is_https w cfg r) })

  -- handleChangePassword, below requireUser; the body is the current and the new password
  unfoldable pub handle_change_password :
      ChangeCall → Request → Option (Text × Text) → User → Session → Accounts → Accounts × Response
  unfolding password_changed
  handle_change_password c r none u s a = (a, write_error 400 (text "invalid_body"))
  handle_change_password c r (some (current, new)) u s a =
      password_changed r (change_password t g c u.id current new a)

-- The states that handleListJobs takes; the empty text is every state.
unfoldable pub state_of : Text → Option (Option State)
state_of s =
    if text_eq s []
    then some none
    else if text_eq s (text "queued")
    then some (some queued)
    else if text_eq s (text "running")
    then some (some running)
    else if text_eq s (text "succeeded")
    then some (some succeeded)
    else if text_eq s (text "failed")
    then some (some failed)
    else if text_eq s (text "cancelled")
    then some (some cancelled)
    else none

-- The limit of handleListJobs: 50 when none is given, otherwise a number from 1 to 500
unfoldable pub limit_from : Web → Text → Option ℤ
limit_from w raw = if text_eq raw [] then some (pos 50) else elim (w.atoi raw) [
  | none ↦ none
  | some n ↦ if ltb_ℤ n (pos 1) || ltb_ℤ (pos 500) n then none else some n
]

-- handleListJobs, given the two values of the query
unfoldable pub handle_list_jobs : Web → Option Text → Text → Text → Queue → Response
unfolding state_of limit_from
handle_list_jobs w fault state limit q = elim (state_of state) [
  | none ↦ write_error 400 (text "invalid_state")
  | some s ↦ elim (limit_from w limit) [
    | none ↦ write_error 400 (text "invalid_limit")
    | some n ↦ elim (list fault s n q) [
      | err e ↦ internal_error
      | ok js ↦ record { status = 200; body = jobs_body js; cookie = untouched }
    ]
  ]
]

abbrev pub is_not_found : JobsError → Bool
is_not_found (not_found i) = true
is_not_found _ = false

-- handleGetJob
unfoldable pub handle_get_job : Option Text → Text → Queue → Response
handle_get_job fault i q = elim (get fault i q) [
  | err e ↦ if is_not_found e then write_error 404 (text "not_found") else internal_error
  | ok j ↦ record { status = 200; body = job_body j; cookie = untouched }
]

-- The switch of handleCancelJob on the error of Cancel.
unfoldable pub cancel_response : Option JobsError → Response
cancel_response none = record { status = 204; body = nothing; cookie = untouched }
cancel_response (some e) =
    if is_not_found e
    then write_error 404 (text "not_found")
    else write_error 409 (text "not_cancellable")

-- handleCancelJob; `none` is a panic of Cancel
unfoldable pub handle_cancel_job : Driver → CancelCall → Text → Queue → Option (Queue × Response)
unfolding cancel_response
handle_cancel_job d c i q = elim (cancel d c i q) [
  | none ↦ none
  | some (q', e) ↦ some (q', cancel_response e)
]
