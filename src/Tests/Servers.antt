-- ===== src/Tests/Servers.antt =====
-- The server at concrete requests.
use mathlib.Core.List.{Memᴰ}
use manualbox.Prelude.{
  ◌*◌, ◌≡◌, refl, true, false, ◌&&◌, none, some, List, [], ◌∷◌, inl, inr, err, Bool-cases, sym,
  arith,
}
use manualbox.Prelude.Text.{Text, text, text_eq, text_eq_iff}
use manualbox.Prelude.Lists.{find_where}
use manualbox.Clock.{second}
use manualbox.Auth.{no_session, authenticate}
use manualbox.Auth.Tables.{get_session_by_token}
use manualbox.Jobs.Broker.Safety.{IsSafe}
use manualbox.Api.{
  Request, Response, write_error, check_origin, unauthenticated, session_token_from, origin_allowed,
  header_get, real_ip, forwarded_client_ip,
}
use manualbox.Api.Routes.{
  at_me, Route, to_route, Dispatch, inside, outside, Chi, get_method, routes,
}
use manualbox.Api.Serving.{App, Inputs, Server, serve, answer}
use manualbox.Api.Access.{serve-unauthenticated}
use manualbox.Api.Safety.{CrossSite, serve_keeps}
use manualbox.Api.Totality.{serve_total}
use manualbox.Tests.{sqlite, full_queue, watched-IsSafe}
use manualbox.Tests.Apis.{web, behind_proxy, visit}
use manualbox.Tests.Auths.{request}
use manualbox.Tests.Logins.{shifts, plain_texts, setup_call, first_login, household, change_call}
use manualbox.Tests.Services.{bare_shell, plain_paths}
use manualbox.Tests.Stores.{counting}

-- The first route with the method and the pattern.
abbrev first_match : List Route → Text → Text → Dispatch
first_match [] m p = outside
first_match (x ∷ xs) m p =
    let rest = first_match xs m p in
    elim (text_eq x.method m && text_eq x.pattern p) [ true ↦ inside (to_route x p) | false ↦ rest ]

first_match_sound :
    (rs : List Route) (m p i : Text) (x : Route)
    → first_match rs m p ≡ inside (to_route x i)
    → Memᴰ x rs × (x.method ≡ m)
first_match_sound [] m p i x h = cc
first_match_sound (y ∷ ys) m p i x h =
    elim (Bool-cases (text_eq y.method m && text_eq y.pattern p)) [
      | inl e ↦
          let same : y ≡ x = ground (arith, h, e) in
          (Memᴰ.head (sym same), rw (sym same) ((text_eq_iff y.method m).0 (ground arith)))
      | inr e ↦
          let (here, met) = first_match_sound ys m p i x (ground (arith, h, e)) in
          (Memᴰ.tail here, met)
    ]

abbrev first_chi : Chi
first_chi = record { dispatch = first_match; dispatch_sound = first_match_sound }

abbrev box : Server
box = record {
  web = web;
  config = behind_proxy;
  texts = plain_texts;
  argon = shifts;
  sha256 = counting;
  session_ttl = 60 * second;
  driver = sqlite;
  version = text "1.0";
  chi = first_chi;
  paths = plain_paths;
  dist = none;
  file_status = λ path. 200;
}

abbrev inputs : Inputs
inputs = record {
  schema_version = some 3;
  needs_fault = none;
  setup_body = none;
  setup_call = setup_call;
  login_body = some (text "a@b.c", text "guess");
  login_call = first_login;
  logout_fault = none;
  auth_call = request;
  password_body = none;
  change_call = change_call;
  shell = bare_shell;
  state = [];
  limit = [];
  list_fault = none;
  snapshot_fault = none;
  get_fault = none;
  cancel_call = record { now = 9 * second; cancel_fault = none; get_fault = none };
}

abbrev app : App
app = record { accounts = household; queue = full_queue }

abbrev look : Request
look = record visit { method = get_method }

me_route :
    box.chi.dispatch routes get_method (text "/auth/me")
    ≡ inside (
        to_route
          (record {
            method = get_method;
            pattern = text "/auth/me";
            guarded = true;
            endpoint = at_me;
          })
          (text "/auth/me"))
unfolding routes text_eq
me_route = refl

signed_out :
    authenticate counting (60 * second) request (session_token_from web look) household
    ≡ (household, err no_session)
unfolding authenticate session_token_from text_eq get_session_by_token find_where
signed_out = refl

serve-unauthenticated_example :
    serve box (text "/auth/me") look inputs app
    ≡ some (
      app,
      elim (check_origin web behind_proxy look) [
        | none ↦ unauthenticated web behind_proxy look
        | some stop ↦ stop
      ],
    )
serve-unauthenticated_example =
    serve-unauthenticated box (text "/auth/me") look inputs app
      (record { method = get_method; pattern = text "/auth/me"; guarded = true; endpoint = at_me })
      (text "/auth/me") me_route refl signed_out

serve_total_example :
    (app' : App) × (y : Response) × (serve box (text "/auth/me") look inputs app ≡ some (app', y))
    × IsSafe app'.queue.broker
serve_total_example = serve_total box (text "/auth/me") look inputs app watched-IsSafe

-- A page of another origin posts a login.
abbrev foreign_login : Request
foreign_login = record visit { headers = (text "Origin", text "evil") ∷ [] }

is_foreign : CrossSite web behind_proxy foreign_login
unfolding text_eq header_get origin_allowed
is_foreign = (refl, refl)

foreign_stopped :
    serve box (text "/auth/login") foreign_login inputs app
    ≡ some (app, write_error 403 (text "cross_origin_blocked"))
unfolding serve answer text_eq header_get origin_allowed check_origin real_ip forwarded_client_ip
    routes
foreign_stopped = refl

serve_keeps_example : (app.accounts.users ≡ household.users) × (app.queue.table ≡ full_queue.table)
serve_keeps_example =
    serve_keeps box (text "/auth/login") foreign_login inputs app app
      (write_error 403 (text "cross_origin_blocked")) (inr is_foreign) foreign_stopped
