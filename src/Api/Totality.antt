-- ===== src/Api/Totality.antt =====
-- Every request of internal/api gets an answer: no handler panics.
use manualbox.Prelude.{
  ◌≡◌, refl, sym, ap, ◌∙◌, Bool, true, false, Option, none, some, err, ok, Result, inl, inr, ◌==◌,
  Bool-cases, Option-cases, Result-cases, ℕ,
}
use manualbox.Prelude.Text.{Text}
use manualbox.Clock.{millis}
use manualbox.Jobs.Model.{event_for, JobsError, already_finished, wrapped}
use manualbox.Jobs.Table.{Driver}
use manualbox.Jobs.Statements.{cancel_job}
use manualbox.Jobs.Broker.Safety.{IsSafe, subscribe-IsSafe}
use manualbox.Jobs.Broker.Delivery.{publish_total}
use manualbox.Jobs.Queue.{Queue, get, CancelCall, after_cancel, cancel, publish_event}
use manualbox.Auth.{User, Session, AuthError, no_session, database}
use manualbox.Auth.Tables.{Accounts}
use manualbox.Config.{Config}
use manualbox.Api.{Request, Web, Response, real_ip, check_origin, Handler, admit, require_user}
use manualbox.Api.Handlers.{handle_cancel_job}
use manualbox.Api.Streaming.{open_stream}
use manualbox.Api.Routes.{
  Endpoint, at_health, at_setup_status, at_setup, at_login, at_logout, at_me, at_password,
  at_instance, at_jobs, at_events, at_job, at_cancel, Route, routes, Match, to_route, no_endpoint,
  no_method, Dispatch, inside, outside,
}
use manualbox.Api.Serving.{
  App, Inputs, Reply, on_accounts, start_events, Server, handle, answer_route, answer_api, answer,
  serve,
}
use manualbox.Api.Access.{is_private, placed, real_ip-check_origin}

after_cancel_total :
    (c : CancelCall) (i : Text) (n : ℕ) (q : Queue)
    → IsSafe q.broker
    → (q' : Queue) × (e : Option JobsError) × (after_cancel c i n q ≡ some (q', e))
      × IsSafe q'.broker
unfolding after_cancel
after_cancel_total c i n q safe = elim (Bool-cases (n == 0)) [
  | inl z ↦ elim (Result-cases (get c.get_fault i q)) [
    | inl (e, g) ↦ (q, some e, rw z (rw (g, after_cancel) refl), safe)
    | inr (j, g) ↦ (q, some (already_finished i), rw z (rw (g, after_cancel) refl), safe)
  ]
  | inr z ↦ elim (Result-cases (get c.get_fault i q)) [
    | inl (e, g) ↦ (q, none, rw z (rw (g, after_cancel) refl), safe)
    | inr (j, g) ↦
        let (b, sent, safe', _, _) = publish_total (event_for j) q.broker safe in
        (
          record q { broker = b },
          none,
          rw z (rw (g, after_cancel) (rw (sent, publish_event) refl)),
          safe',
        )
  ]
]

pub cancel_total :
    (d : Driver) (c : CancelCall) (i : Text) (q : Queue)
    → IsSafe q.broker
    → (q' : Queue) × (e : Option JobsError) × (cancel d c i q ≡ some (q', e)) × IsSafe q'.broker
unfolding cancel
cancel_total d c i q safe =
    elim (Result-cases (cancel_job d c.cancel_fault (millis c.now) i q.table)) [
      | inl (e, g) ↦ (q, some (wrapped e), rw (g, cancel) refl, safe)
      | inr ((t, n), g) ↦
          let (q', e, done, safe') = after_cancel_total c i n (record q { table = t }) safe in
          (q', e, rw (g, cancel) done, safe')
    ]

-- A reply, with the broker in order.
abbrev Replies : Reply → Type 0
Replies none = ⊥
Replies (some (app, y)) = IsSafe app.queue.broker

abbrev has_user : Option (User × Session) → Bool
has_user none = false
has_user (some _) = true

module _ (s : Server) (r : Request) (x : Inputs) where
  handle-Replies :
      (e : Endpoint) (i : Text) (who : Option (User × Session)) (app : App)
      → has_user who ≡ is_private e
      → IsSafe app.queue.broker
      → Replies (handle s r x e i who app)
  unfolding handle start_events open_stream handle_cancel_job
  handle-Replies at_health i who app h safe = safe
  handle-Replies at_setup_status i who app h safe = safe
  handle-Replies at_setup i who app h safe = safe
  handle-Replies at_login i who app h safe = safe
  handle-Replies at_logout i who app h safe = safe
  handle-Replies at_me i none app h safe = safe
  handle-Replies at_me i (some (u, v)) app h safe = safe
  handle-Replies at_password i none app h safe = cc
  handle-Replies at_password i (some (u, v)) app h safe = safe
  handle-Replies at_instance i who app h safe = safe
  handle-Replies at_jobs i who app h safe = safe
  handle-Replies at_events i who app h safe = subscribe-IsSafe app.queue.broker safe
  handle-Replies at_job i who app h safe = safe
  handle-Replies at_cancel i who app h safe =
      let (q', e, done, safe') = cancel_total s.driver x.cancel_call i app.queue safe in
      rw (done, handle_cancel_job) safe'

  admit-Replies :
      (w : Web) (cfg : Config) (app : App) (next : Handler Reply)
      (res : Accounts × Result AuthError (User × Session))
      → IsSafe app.queue.broker
      → ((u : User) (v : Session) (a : Accounts) → Replies (next u v a))
      → Replies (admit (on_accounts app) w cfg r next res)
  unfolding admit
  admit-Replies w cfg app next (a, err no_session) safe k = safe
  admit-Replies w cfg app next (a, err (database q)) safe k = safe
  admit-Replies w cfg app next (a, ok (u, v)) safe k = k u v a

  answer_api-Replies :
      (m : Match) (app : App)
      → ((rt : Route) (i : Text) → m ≡ to_route rt i → rt.guarded ≡ is_private rt.endpoint)
      → IsSafe app.queue.broker
      → Replies (answer_api s r x m app)
  unfolding answer_api answer_route require_user
  answer_api-Replies no_endpoint app h safe = safe
  answer_api-Replies no_method app h safe = safe
  answer_api-Replies (to_route rt i) app h safe = elim (Bool-cases rt.guarded) [
    | inr e ↦
        rw (e, answer_route) (handle-Replies rt.endpoint i none app (sym e ∙ h rt i refl) safe)
    | inl e ↦
        rw (e, answer_route)
          (admit-Replies s.web s.config app _ _ safe (λ u v a.
            handle-Replies rt.endpoint i (some (u, v)) (record app { accounts = a })
              (sym e ∙ h rt i refl) safe))
  ]

module _ (s : Server) (path : Text) (r : Request) (x : Inputs) (app : App) where
  answer-Replies :
      (dis : Dispatch)
      → s.chi.dispatch routes r.method path ≡ dis
      → IsSafe app.queue.broker
      → Replies (answer s (real_ip s.web s.config r) x path dis app)
  unfolding answer
  answer-Replies outside e safe = safe
  answer-Replies (inside m) e safe = elim (Option-cases (check_origin s.web s.config r)) [
    | inr (stop, q) ↦ rw (real_ip-check_origin s.web s.config r, q) safe
    | inl q ↦
        rw (real_ip-check_origin s.web s.config r, q)
          (answer_api-Replies s (real_ip s.web s.config r) x m app
            (λ rt i same.
              (placed (s.chi.dispatch_sound routes r.method path i rt (e ∙ ap inside same)).0).0)
            safe)
  ]

  replied :
      (y : Reply)
      → Replies y
      → (app' : App) × (z : Response) × (y ≡ some (app', z)) × IsSafe app'.queue.broker
  replied none h = absurd h
  replied (some (app', z)) h = (app', z, refl, h)

  -- On a broker in order every request gets an answer and leaves the broker in order: whichever calls
  -- fail, no handler panics.
  pub serve_total :
      IsSafe app.queue.broker
      → (app' : App) × (y : Response) × (serve s path r x app ≡ some (app', y))
        × IsSafe app'.queue.broker
  unfolding serve
  serve_total safe =
      replied (serve s path r x app)
        (answer-Replies (s.chi.dispatch routes r.method path) refl safe)
