-- ===== src/Api/Access.antt =====
-- Who gets through to which handler: the routes of internal/api/api.go, checkOrigin and requireUser.
use mathlib.Core.List.{Memᴰ}
use manualbox.Prelude.{
  ◌&&◌, not, ◌≡◌, refl, ap, ◌∙◌, Bool, true, false, none, some, [], err, inl, inr, Bool-cases,
  Option-cases,
}
use manualbox.Prelude.Text.{Text, text_eq}
use manualbox.Prelude.Lists.{All, All-Mem}
use manualbox.Auth.{no_session, authenticate}
use manualbox.Config.{Config}
use manualbox.Api.{
  Request, Web, Response, real_ip, check_origin, is_safe_method, session_token_from,
  forwarded_client_ip, request_is_https, unauthenticated, origin_allowed,
}
use manualbox.Api.Guards.{admit_none}
use manualbox.Api.Routes.{
  Endpoint, at_health, at_setup_status, at_setup, at_login, at_logout, at_password, at_cancel,
  Route, routes, Match, to_route, inside,
}
use manualbox.Api.Serving.{
  App, Inputs, on_accounts, Server, answer_route, answer_api, answer, serve,
}

-- What a signed-out visitor may reach: health, setup, login and logout.
abbrev pub is_private : Endpoint → Bool
is_private at_health = false
is_private at_setup_status = false
is_private at_setup = false
is_private at_login = false
is_private at_logout = false
is_private _ = true

-- The endpoints that only read.
abbrev pub is_reading : Endpoint → Bool
is_reading at_setup = false
is_reading at_login = false
is_reading at_logout = false
is_reading at_password = false
is_reading at_cancel = false
is_reading _ = true

-- A request of a safe method asks for a reading endpoint, and requireUser stands before the private
-- ones.
abbrev pub IsPlaced : Route → Type 0
IsPlaced rt =
    (rt.guarded ≡ is_private rt.endpoint) × (is_reading rt.endpoint ≡ is_safe_method rt.method)

pub routes-IsPlaced : All IsPlaced routes
unfolding routes text_eq
routes-IsPlaced = (
  (refl, refl),
  (
    (refl, refl),
    (
      (refl, refl),
      (
        (refl, refl),
        (
          (refl, refl),
          (
            (refl, refl),
            (
              (refl, refl),
              ((refl, refl), ((refl, refl), ((refl, refl), ((refl, refl), ((refl, refl), tt))))),
            ),
          ),
        ),
      ),
    ),
  ),
)

pub placed : {rt : Route} → Memᴰ rt routes → IsPlaced rt
placed {rt} m = All-Mem IsPlaced rt routes m routes-IsPlaced

-- realIP changes only the address, which nothing below reads.
module _ (w : Web) (cfg : Config) (r : Request) where
  real_ip_lem : (ip : Text) × (real_ip w cfg r ≡ record r { remote_addr = ip })
  unfolding real_ip
  real_ip_lem =
      let ip = forwarded_client_ip w r.headers in
      elim (Bool-cases (cfg.server.trust_proxy && not (text_eq ip []))) [
        | inl e ↦ (ip, rw e refl)
        | inr e ↦ (r.remote_addr, rw e refl)
      ]

  pub real_ip-token : session_token_from w (real_ip w cfg r) ≡ session_token_from w r
  unfolding session_token_from
  real_ip-token = ap (session_token_from w) real_ip_lem.1

  pub real_ip-check_origin : check_origin w cfg (real_ip w cfg r) ≡ check_origin w cfg r
  unfolding check_origin origin_allowed
  real_ip-check_origin = ap (check_origin w cfg) real_ip_lem.1

  pub real_ip-unauthenticated : unauthenticated w cfg (real_ip w cfg r) ≡ unauthenticated w cfg r
  unfolding unauthenticated session_token_from request_is_https
  real_ip-unauthenticated = ap (unauthenticated w cfg) real_ip_lem.1

module _ (s : Server) (path : Text) (r : Request) (x : Inputs) (app : App) where
  abbrev through : Request
  through = real_ip s.web s.config r

  serve_inside :
      (m : Match)
      → s.chi.dispatch routes r.method path ≡ inside m
      → serve s path r x app ≡ answer s through x path (inside m) app
  unfolding serve
  serve_inside m e = rw e refl

  -- A request for a private endpoint whose token has no session changes nothing and is stopped before
  -- the handler: by checkOrigin, or else with 401.
  pub serve-unauthenticated :
      (rt : Route) (i : Text)
      → s.chi.dispatch routes r.method path ≡ inside (to_route rt i)
      → is_private rt.endpoint ≡ true
      → authenticate s.sha256 s.session_ttl x.auth_call (session_token_from s.web r) app.accounts
        ≡ (app.accounts, err no_session)
      → serve s path r x app
        ≡ some (
          app,
          elim (check_origin s.web s.config r) [
            | none ↦ unauthenticated s.web s.config r
            | some stop ↦ stop
          ],
        )
  unfolding answer answer_api answer_route
  serve-unauthenticated rt i e private signed_out =
      let (here, _) = s.chi.dispatch_sound routes r.method path i rt e in
      let guarded : rt.guarded ≡ true = (placed here).0 ∙ private in
      let still : authenticate s.sha256 s.session_ttl x.auth_call (session_token_from s.web through)
            app.accounts
          ≡ (app.accounts, err no_session) =
        ap (λ (token : Text). authenticate s.sha256 s.session_ttl x.auth_call token app.accounts)
          (real_ip-token s.web s.config r)
        ∙ signed_out in
      let stopped : answer_route s through x rt i app
          ≡ some (app, unauthenticated s.web s.config r) =
        rw (guarded, answer_route)
          (admit_none s.web s.config s.sha256 s.session_ttl through (on_accounts app) x.auth_call _
              app.accounts still
            ∙ ap (λ (y : Response). on_accounts app (app.accounts, y))
                (real_ip-unauthenticated s.web s.config r)) in
      serve_inside (to_route rt i) e ∙ elim (Option-cases (check_origin s.web s.config r)) [
        | inl q ↦ rw (real_ip-check_origin s.web s.config r, q) stopped
        | inr (stop, q) ↦ rw (real_ip-check_origin s.web s.config r, q) refl
      ]
