-- ===== src/Api/Safety.antt =====
-- What requests may change: the endpoints of internal/api/api.go by method and by origin.
use mathlib.Core.Path.{subst}
use manualbox.Prelude.{
  ◌≡◌, refl, ap, ◌∙◌, true, false, Option, none, some, [], err, ok, Result, inl, inr, ◌⊎◌,
  Bool-cases, Option-cases, Result-cases, ltb, ◌+◌, ℕ,
}
use manualbox.Prelude.Text.{Text, text, text_eq}
use manualbox.Clock.{millis}
use manualbox.Store.{Sha256}
use manualbox.Jobs.Model.{no_rows, driver_error}
use manualbox.Auth.{
  User, Session, AuthError, no_session, database, AuthCall, session_from_row, extend_after, slide,
  authenticate,
}
use manualbox.Auth.Tables.{SessionRow, UserRow, Accounts, get_session_by_token, extend_session}
use manualbox.Config.{Config}
use manualbox.Api.{
  Request, Web, Response, write_error, real_ip, check_origin, is_safe_method, origin_allowed,
  header_get, Handler, admit, require_user, session_token_from,
}
use manualbox.Api.Routes.{
  Endpoint, at_health, at_setup_status, at_setup, at_login, at_logout, at_me, at_password,
  at_instance, at_jobs, at_events, at_job, at_cancel, Route, routes, Match, to_route, no_endpoint,
  no_method, Dispatch, inside, outside,
}
use manualbox.Api.Serving.{
  App, Inputs, Reply, on_accounts, start_events, Server, handle, answer_route, answer_api, answer,
  serve,
}
use manualbox.Api.Access.{is_reading, placed, real_ip-check_origin}

slide-users :
    (ttl : ℕ) (c : AuthCall) (s : SessionRow) (u : UserRow) (a : Accounts)
    → (slide ttl c s u a).0.users ≡ a.users
unfolding slide extend_session
slide-users ttl c s u a =
    elim (Bool-cases (ltb ((session_from_row s).last_seen_at + extend_after) c.now)) [
      | inr e ↦ rw e refl
      | inl e ↦ elim (Option-cases c.extend_fault) [
        | inl q ↦ rw e (rw (q, slide) refl)
        | inr (m, q) ↦ rw e (rw (q, slide) refl)
      ]
    ]

pub authenticate-users :
    (h : Sha256) (ttl : ℕ) (c : AuthCall) (token : Text) (a : Accounts)
    → (authenticate h ttl c token a).0.users ≡ a.users
unfolding authenticate
authenticate-users h ttl c token a = elim (Bool-cases (text_eq token [])) [
  | inl e ↦ rw e refl
  | inr e ↦ elim (Result-cases (get_session_by_token c.find_fault (h.sum token) (millis c.now) a)) [
    | inr ((s, u), q) ↦ rw e (rw (q, authenticate) (slide-users ttl c s u a))
    | inl (no_rows, q) ↦ rw e (rw (q, authenticate) refl)
    | inl (driver_error m, q) ↦ rw e (rw (q, authenticate) refl)
  ]
]

-- A reply that leaves the users and the jobs as they are, if there is one.
abbrev Keeps : App → Reply → Type 0
Keeps app none = Unit {0}
Keeps app (some (app', y)) =
    (app'.accounts.users ≡ app.accounts.users) × (app'.queue.table ≡ app.queue.table)

admit-Keeps :
    (w : Web) (cfg : Config) (r : Request) (app : App) (next : Handler Reply)
    (x : Accounts × Result AuthError (User × Session))
    → x.0.users ≡ app.accounts.users
    → ((u : User) (v : Session) (a : Accounts)
        → a.users ≡ app.accounts.users
        → Keeps app (next u v a))
    → Keeps app (admit (on_accounts app) w cfg r next x)
unfolding admit
admit-Keeps w cfg r app next (a, err no_session) e k = (e, refl)
admit-Keeps w cfg r app next (a, err (database q)) e k = (e, refl)
admit-Keeps w cfg r app next (a, ok (u, v)) e k = k u v a e

module _ (s : Server) (r : Request) (x : Inputs) where
  handle-Keeps :
      (e : Endpoint) (i : Text) (who : Option (User × Session)) (app : App)
      → is_reading e ≡ true
      → Keeps app (handle s r x e i who app)
  unfolding handle start_events
  handle-Keeps at_health i who app h = (refl, refl)
  handle-Keeps at_setup_status i who app h = (refl, refl)
  handle-Keeps at_me i none app h = (refl, refl)
  handle-Keeps at_me i (some (u, v)) app h = (refl, refl)
  handle-Keeps at_instance i who app h = (refl, refl)
  handle-Keeps at_jobs i who app h = (refl, refl)
  handle-Keeps at_events i who app h = (refl, refl)
  handle-Keeps at_job i who app h = (refl, refl)
  handle-Keeps at_setup i who app h = cc
  handle-Keeps at_login i who app h = cc
  handle-Keeps at_logout i who app h = cc
  handle-Keeps at_password i who app h = cc
  handle-Keeps at_cancel i who app h = cc

  Keeps-from :
      (app app' : App) (y : Reply)
      → app'.accounts.users ≡ app.accounts.users
      → app'.queue ≡ app.queue
      → Keeps app' y
      → Keeps app y
  Keeps-from app app' none e q k = tt
  Keeps-from app app' (some (b, y)) e q k = (k.0 ∙ e, k.1 ∙ ap (λ z. z.table) q)

  answer_route-Keeps :
      (rt : Route) (i : Text) (app : App)
      → is_reading rt.endpoint ≡ true
      → Keeps app (answer_route s r x rt i app)
  unfolding answer_route require_user
  answer_route-Keeps rt i app h = elim (Bool-cases rt.guarded) [
    | inr e ↦ rw (e, answer_route) (handle-Keeps rt.endpoint i none app h)
    | inl e ↦
        rw (e, answer_route)
          (admit-Keeps s.web s.config r app _ _
            (authenticate-users s.sha256 s.session_ttl x.auth_call (session_token_from s.web r)
              app.accounts)
            (λ u v a same.
              Keeps-from app (record app { accounts = a }) _ same refl
                (handle-Keeps rt.endpoint i (some (u, v)) (record app { accounts = a }) h)))
  ]

  answer_api-Keeps :
      (m : Match) (app : App)
      → ((rt : Route) (i : Text) → m ≡ to_route rt i → is_reading rt.endpoint ≡ true)
      → Keeps app (answer_api s r x m app)
  unfolding answer_api
  answer_api-Keeps (to_route rt i) app h = answer_route-Keeps rt i app (h rt i refl)
  answer_api-Keeps no_endpoint app h = (refl, refl)
  answer_api-Keeps no_method app h = (refl, refl)

-- A request with an Origin that is neither the server's host nor that of the base URL.
abbrev pub CrossSite : Web → Config → Request → Type 0
CrossSite w cfg r =
    let origin = header_get (text "Origin") r.headers in
    (text_eq origin [] ≡ false) × (origin_allowed w cfg origin r ≡ false)

CrossSite-stopped :
    (w : Web) (cfg : Config) (r : Request)
    → is_safe_method r.method ≡ false
    → CrossSite w cfg r
    → check_origin w cfg r ≡ some (write_error 403 (text "cross_origin_blocked"))
unfolding check_origin
CrossSite-stopped w cfg r e (there, foreign) = rw (e, check_origin) (rw (there, foreign) refl)

module _ (s : Server) (path : Text) (r : Request) (x : Inputs) (app : App) where
  answer-Keeps :
      (dis : Dispatch)
      → s.chi.dispatch routes r.method path ≡ dis
      → (is_safe_method r.method ≡ true) ⊎ CrossSite s.web s.config r
      → Keeps app (answer s (real_ip s.web s.config r) x path dis app)
  unfolding answer
  answer-Keeps outside e h = (refl, refl)
  answer-Keeps (inside m) e h = elim (Option-cases (check_origin s.web s.config r)) [
    | inr (stop, q) ↦ rw (real_ip-check_origin s.web s.config r, q) (refl, refl)
    | inl q ↦
        rw (real_ip-check_origin s.web s.config r, q)
          (answer_api-Keeps s (real_ip s.web s.config r) x m app (λ rt i same.
            let (here, met) = s.chi.dispatch_sound routes r.method path i rt (e ∙ ap inside same) in
            (placed here).1 ∙ ap is_safe_method met ∙ safe_by q h))
  ]
    where
      safe_by :
          check_origin s.web s.config r ≡ none
          → (is_safe_method r.method ≡ true) ⊎ CrossSite s.web s.config r
          → is_safe_method r.method ≡ true
      safe_by q (inl e) = e
      safe_by q (inr c) = elim (Bool-cases (is_safe_method r.method)) [
        | inl e ↦ e
        | inr e ↦ let stop = CrossSite-stopped s.web s.config r e c in cc
      ]

  -- A request of the method GET, HEAD or OPTIONS, and any request whose Origin is neither the server's
  -- host nor that of the base URL, leaves the users and the table of jobs as they are, whatever it
  -- asks for and whoever is signed in.
  pub serve_keeps :
      (app' : App) (y : Response)
      → (is_safe_method r.method ≡ true) ⊎ CrossSite s.web s.config r
      → serve s path r x app ≡ some (app', y)
      → (app'.accounts.users ≡ app.accounts.users) × (app'.queue.table ≡ app.queue.table)
  unfolding serve
  serve_keeps app' y h e =
      subst (Keeps app) e (answer-Keeps (s.chi.dispatch routes r.method path) refl h)
