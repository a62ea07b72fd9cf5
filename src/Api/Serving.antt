-- ===== src/Api/Serving.antt =====
-- What the server of internal/api/api.go does with a request, from realIP to the handler. Logging,
-- compression, the timeout and the request id change no answer; a panic, which recoverPanics answers,
-- is `none`.
use manualbox.Prelude.{ℕ, Option, none, some, if◌then◌else◌}
use manualbox.Prelude.Text.{Text, text}
use manualbox.Store.{Sha256}
use manualbox.Jobs.Table.{Driver}
use manualbox.Jobs.Queue.{Queue, CancelCall}
use manualbox.Auth.{User, Session, AuthCall}
use manualbox.Auth.Tables.{Accounts}
use manualbox.Auth.Passwords.{Argon}
use manualbox.Auth.Setup.{Texts, SetupCall}
use manualbox.Auth.Login.{LoginCall, ChangeCall}
use manualbox.Config.{Config}
use manualbox.Extern.{Shell}
use manualbox.Frontend.{
  Paths, Files, Page, not_built, not_found, file_server, index_page, index_missing, serve_page,
}
use manualbox.Api.{
  Request, Web, untouched, health_body, no_user_body, instance_body, stream_body, page_body,
  Response, write_error, real_ip, check_origin, require_user,
}
use manualbox.Api.Capabilities.{instance_of}
use manualbox.Api.Streaming.{open_stream, write_snapshot}
use manualbox.Api.Handlers.{
  handle_setup_status, SetupBody, handle_setup, handle_login, handle_logout, handle_me,
  handle_change_password, handle_list_jobs, handle_get_job, handle_cancel_job,
}
use manualbox.Api.Routes.{
  Endpoint, at_health, at_setup_status, at_setup, at_login, at_logout, at_me, at_password,
  at_instance, at_jobs, at_events, at_job, at_cancel, Route, routes, Match, to_route, no_endpoint,
  no_method, Dispatch, inside, outside, Chi,
}

-- What the handlers act on.
pub record App : Type 0 where
  pub accounts : Accounts
  pub queue : Queue

-- What a request brings besides its header, and what the calls for it take from outside. A body is
-- what decodeJSON makes of it.
pub record Inputs : Type 0 where
  pub schema_version : Option ℕ
  pub needs_fault : Option Text
  pub setup_body : Option SetupBody
  pub setup_call : SetupCall
  pub login_body : Option (Text × Text)
  pub login_call : LoginCall
  pub logout_fault : Option Text
  pub auth_call : AuthCall
  pub password_body : Option (Text × Text)
  pub change_call : ChangeCall
  pub shell : Shell
  pub state : Text
  pub limit : Text
  pub list_fault : Option Text
  pub snapshot_fault : Option Text
  pub get_fault : Option Text
  pub cancel_call : CancelCall

-- handleHealth
unfoldable pub handle_health : Text → Option ℕ → Response
handle_health version none = write_error 503 (text "database_unavailable")
handle_health version (some schema) = record {
  status = 200;
  body = health_body version schema;
  cookie = untouched;
}

-- handleJobEvents up to its loop, on a connection that can flush: the subscription and the snapshot
unfoldable pub start_events : Option Text → Queue → Queue × Response
start_events fault q =
    let (b, s) = open_stream q.broker in
    (
      record q { broker = b },
      record {
        status = 200;
        body = stream_body (write_snapshot fault (record q { broker = b }) s).sent;
        cookie = untouched;
      },
    )

abbrev pub Reply : Type 0
Reply = Option (App × Response)

abbrev pub on_accounts : App → Accounts × Response → Reply
on_accounts app (a, answer) = some (record app { accounts = a }, answer)

abbrev pub on_queue : App → Queue × Response → Reply
on_queue app (q, answer) = some (record app { queue = q }, answer)

abbrev pub on_option : App → Option (Queue × Response) → Reply
on_option app none = none
on_option app (some x) = on_queue app x

-- The server, New, with its collaborators; `file_status` is what http.FileServer answers for a path.
pub record Server : Type 0 where
  pub web : Web
  pub config : Config
  pub texts : Texts
  pub argon : Argon
  pub sha256 : Sha256
  pub session_ttl : ℕ
  pub driver : Driver
  pub version : Text
  pub chi : Chi
  pub paths : Paths
  pub dist : Option Files
  pub file_status : Text → ℕ

abbrev pub page_status : (Text → ℕ) → Page → ℕ
page_status f not_found = 404
page_status f index_missing = 500
page_status f (file_server path cache) = f path
page_status f (index_page index) = 200
page_status f not_built = 200

module _ (s : Server) (r : Request) (x : Inputs) where
  open s use {web, config, texts, argon, sha256, session_ttl}

  -- The handler of an endpoint, for the user that requireUser left in the context. Without one,
  -- handleMe writes null and handleChangePassword dereferences nil.
  unfoldable pub handle : Endpoint → Text → Option (User × Session) → App → Reply
  unfolding handle_health start_events
  handle at_health i who app = some (app, handle_health s.version x.schema_version)
  handle at_setup_status i who app = some (app, handle_setup_status x.needs_fault app.accounts)
  handle at_setup i who app = on_accounts app (
      handle_setup web config texts argon sha256 session_ttl x.setup_call x.login_call r
        x.setup_body app.accounts)
  handle at_login i who app = on_accounts app (
      handle_login web config texts argon sha256 session_ttl x.login_call r x.login_body
        app.accounts)
  handle at_logout i who app =
      on_accounts app
        (handle_logout web config texts argon sha256 session_ttl x.logout_fault r app.accounts)
  handle at_me i none app =
      some (app, record { status = 200; body = no_user_body; cookie = untouched })
  handle at_me i (some (u, v)) app =
      on_accounts app (handle_me web config texts argon sha256 session_ttl u v app.accounts)
  handle at_password i none app = elim x.password_body [
    | none ↦ some (app, write_error 400 (text "invalid_body"))
    | some _ ↦ none
  ]
  handle at_password i (some (u, v)) app = on_accounts app (
      handle_change_password web config texts argon sha256 session_ttl x.change_call r
        x.password_body u v app.accounts)
  handle at_instance i who app = some (
    app,
    record {
      status = 200;
      body = instance_body (instance_of config s.version x.shell);
      cookie = untouched;
    },
  )
  handle at_jobs i who app = some (app, handle_list_jobs web x.list_fault x.state x.limit app.queue)
  handle at_events i who app = on_queue app (start_events x.snapshot_fault app.queue)
  handle at_job i who app = some (app, handle_get_job x.get_fault i app.queue)
  handle at_cancel i who app = on_option app (handle_cancel_job s.driver x.cancel_call i app.queue)

  -- A route, below requireUser if it is in the group.
  unfoldable pub answer_route : Route → Text → App → Reply
  unfolding handle
  answer_route rt i app =
      if rt.guarded
      then require_user (on_accounts app) web config sha256 session_ttl x.auth_call r
          (λ u v a. handle rt.endpoint i (some (u, v)) (record app { accounts = a })) app.accounts
      else handle rt.endpoint i none app

  -- Below checkOrigin
  unfoldable pub answer_api : Match → App → Reply
  unfolding answer_route
  answer_api (to_route rt i) app = answer_route rt i app
  answer_api no_endpoint app = some (app, write_error 404 (text "not_found"))
  answer_api no_method app = some (app, write_error 405 (text "method_not_allowed"))

  abbrev unless_stopped : Option Response → Match → App → Reply
  unless_stopped (some stop) m app = some (app, stop)
  unless_stopped none m app = answer_api m app

  unfoldable pub answer : Text → Dispatch → App → Reply
  unfolding answer_api
  answer path outside app =
      let page = serve_page s.paths s.dist path in
      some (
        app,
        record {
          status = page_status s.file_status page;
          body = page_body page;
          cookie = untouched;
        },
      )
  answer path (inside m) app = unless_stopped (check_origin web config r) m app

-- Handler: a request from realIP on
unfoldable pub serve : Server → Text → Request → Inputs → App → Reply
unfolding answer
serve s path r x app =
    answer s (real_ip s.web s.config r) x path (s.chi.dispatch routes r.method path) app
