-- ===== src/Api/Routes.antt =====
-- routes of internal/api/api.go: the table of endpoints. chi's choice of a route is a parameter.
use mathlib.Core.List.{Memᴰ}
use manualbox.Prelude.{◌≡◌, Bool, true, false, List, [], ◌∷◌}
use manualbox.Prelude.Text.{Text, text}
use manualbox.Frontend.{}
use manualbox.Api.{}
use manualbox.Api.Handlers.{}

-- The handlers that are mounted.
pub data Endpoint : Type 0 where
  at_health at_setup_status at_setup at_login at_logout : Endpoint
  at_me at_password at_instance at_jobs at_events at_job at_cancel : Endpoint

-- A line of `routes`; `guarded` below requireUser.
pub record Route : Type 0 where
  pub method : Text
  pub pattern : Text
  pub guarded : Bool
  pub endpoint : Endpoint

abbrev open_route : Text → Text → Endpoint → Route
open_route method pattern e = record {
  method = method;
  pattern = pattern;
  guarded = false;
  endpoint = e;
}

abbrev user_route : Text → Text → Endpoint → Route
user_route method pattern e = record (open_route method pattern e) { guarded = true }

abbrev pub get_method : Text
get_method = text "GET"

abbrev pub post_method : Text
post_method = text "POST"

-- The endpoints below /api/v1
unfoldable pub routes : List Route
routes =
    open_route get_method (text "/health") at_health
    ∷ open_route get_method (text "/setup") at_setup_status
    ∷ open_route post_method (text "/setup") at_setup
    ∷ open_route post_method (text "/auth/login") at_login
    ∷ open_route post_method (text "/auth/logout") at_logout
    ∷ user_route get_method (text "/auth/me") at_me
    ∷ user_route post_method (text "/auth/password") at_password
    ∷ user_route get_method (text "/instance") at_instance
    ∷ user_route get_method (text "/jobs") at_jobs
    ∷ user_route get_method (text "/jobs/events") at_events
    ∷ user_route get_method (text "/jobs/{jobID}") at_job
    ∷ user_route post_method (text "/jobs/{jobID}/cancel") at_cancel
    ∷ []

-- Where chi takes a request below /api/v1: to a route, with the URL parameter, to no pattern, or to
-- one without the method.
pub data Match : Type 0 where
  to_route : Route → Text → Match
  no_endpoint no_method : Match

pub data Dispatch : Type 0 where
  inside : Match → Dispatch
  outside : Dispatch

-- chi's choice for a method and a path: only a route of the table, and only for its method.
pub record Chi : Type 0 where
  pub dispatch : List Route → Text → Text → Dispatch
  pub dispatch_sound :
      (rs : List Route) (method path i : Text) (x : Route)
      → dispatch rs method path ≡ inside (to_route x i)
      → Memᴰ x rs × (x.method ≡ method)
