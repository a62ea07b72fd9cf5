-- ===== src/Api.antt =====
-- internal/api/middleware.go and api.go: the request, the address of the client, the check of the
-- origin and the session of a request. Routing, JSON and the writing of responses are library calls;
-- a response is its status, its error code and what it does to the cookie.
pub mod Handlers
pub mod Capabilities
pub mod Addresses
pub mod Guards
pub mod Streaming
pub mod Routes
pub mod Serving
pub mod Access
pub mod Safety
pub mod Totality
use manualbox.Prelude.{
  ℕ, Bool, true, false, not, ◌&&◌, ◌||◌, Option, none, some, List, [], ◌∷◌, ◌++◌, Result, ok, err,
  if◌then◌else◌, ◌==◌,
}
use manualbox.Prelude.Int.{ℤ}
use manualbox.Prelude.Text.{Text, text, text_eq, has_prefix}
use manualbox.Prelude.Lists.{drop}
use manualbox.Store.{Sha256}
use manualbox.Jobs.Model.{Job, Event}
use manualbox.Auth.{User, Session, AuthError, no_session, database, AuthCall, authenticate}
use manualbox.Auth.Tables.{Accounts}
use manualbox.Auth.Passwords.{split_at}
use manualbox.Config.{Config}
use manualbox.Frontend.{Page}
use manualbox.Api.Capabilities.{Instance}

-- What the handlers read of an http.Request. `headers` are the lines of the header, with canonical
-- names; `session_cookie` is the value that r.Cookie finds.
pub record Request : Type 0 where
  pub method : Text
  pub headers : List (Text × Text)
  pub session_cookie : Option Text
  pub host : Text
  pub remote_addr : Text
  pub is_tls : Bool

-- strings.TrimSpace and EqualFold, the host that url.Parse finds, and strconv.Atoi.
pub record Web : Type 0 where
  pub trim_space : Text → Text
  pub equal_fold : Text → Text → Bool
  pub url_host : Text → Option Text
  pub atoi : Text → Option ℤ

-- setSessionCookie and clearSessionCookie; `secure` is the flag Secure.
pub data Cookie : Type 0 where
  untouched : Cookie
  issued : Text → Bool → Cookie
  cleared : Bool → Cookie

pub data Body : Type 0 where
  nothing : Body
  error_code : Text → Body
  needs_setup_body : Bool → Body
  user_body : User → Body
  me_body : User → Session → Body
  no_user_body : Body
  job_body : Job → Body
  jobs_body : List Job → Body
  health_body : Text → ℕ → Body
  instance_body : Instance → Body
  stream_body : List Event → Body
  page_body : Page → Body

pub record Response : Type 0 where
  pub status : ℕ
  pub body : Body
  pub cookie : Cookie

-- writeError and internalError
abbrev pub write_error : ℕ → Text → Response
write_error status code = record { status = status; body = error_code code; cookie = untouched }

abbrev pub internal_error : Response
internal_error = write_error 500 (text "internal_error")

-- Header.Get: the first line of a name
unfoldable pub header_get : Text → List (Text × Text) → Text
header_get name [] = []
header_get name ((n, v) ∷ hs) = if text_eq n name then v else header_get name hs

-- parts[len(parts)-1]
unfoldable pub last_part : List Text → Text
last_part [] = []
last_part (p ∷ []) = p
last_part (p ∷ q ∷ ps) = last_part (q ∷ ps)

abbrev pub x_forwarded_for : Text
x_forwarded_for = text "X-Forwarded-For"

-- forwardedClientIP
unfoldable pub forwarded_client_ip : Web → List (Text × Text) → Text
unfolding header_get last_part
forwarded_client_ip w hs =
    let xff = header_get x_forwarded_for hs in
    let candidate = w.trim_space (last_part (split_at 44 xff)) in
    let real = w.trim_space (header_get (text "X-Real-Ip") hs) in
    if text_eq xff [] then real else if text_eq candidate [] then real else candidate

-- realIP
unfoldable pub real_ip : Web → Config → Request → Request
unfolding forwarded_client_ip
real_ip w cfg r =
    let ip = forwarded_client_ip w r.headers in
    if cfg.server.trust_proxy && not (text_eq ip []) then record r { remote_addr = ip } else r

-- originAllowed
unfoldable pub origin_allowed : Web → Config → Text → Request → Bool
origin_allowed w cfg origin r = elim (w.url_host origin) [
  | none ↦ false
  | some host ↦
      if text_eq host []
      then false
      else w.equal_fold host r.host || elim (w.url_host cfg.server.base_url) [
        | none ↦ false
        | some base ↦ not (text_eq base []) && w.equal_fold host base
      ]
]

abbrev pub is_safe_method : Text → Bool
is_safe_method m = text_eq m (text "GET") || (text_eq m (text "HEAD") || text_eq m (text "OPTIONS"))

-- checkOrigin: the response that stops the request, or none when the next handler runs
unfoldable pub check_origin : Web → Config → Request → Option Response
unfolding origin_allowed header_get
check_origin w cfg r =
    let origin = header_get (text "Origin") r.headers in
    if is_safe_method r.method
    then none
    else if text_eq origin []
    then none
    else if origin_allowed w cfg origin r
    then none
    else some (write_error 403 (text "cross_origin_blocked"))

-- strings.CutPrefix
unfoldable pub cut_prefix : Text → Text → Option Text
cut_prefix [] t = some t
cut_prefix (p ∷ ps) [] = none
cut_prefix (p ∷ ps) (b ∷ bs) = let rest = cut_prefix ps bs in if p == b then rest else none

-- The bearer header of sessionTokenFrom
unfoldable pub bearer_token : Web → List (Text × Text) → Text
unfolding header_get cut_prefix
bearer_token w hs =
    let h = header_get (text "Authorization") hs in
    if text_eq h []
    then []
    else elim (cut_prefix (text "Bearer ") h) [ none ↦ [] | some token ↦ w.trim_space token ]

-- sessionTokenFrom
unfoldable pub session_token_from : Web → Request → Text
unfolding bearer_token
session_token_from w r = elim r.session_cookie [
  | none ↦ bearer_token w r.headers
  | some value ↦ if text_eq value [] then bearer_token w r.headers else value
]

-- requestIsHTTPS
unfoldable pub request_is_https : Web → Config → Request → Bool
unfolding header_get
request_is_https w cfg r =
    r.is_tls
    || ((cfg.server.trust_proxy
          && w.equal_fold (header_get (text "X-Forwarded-Proto") r.headers) (text "https"))
        || has_prefix cfg.server.base_url (text "https://"))

-- The response of requireUser to a request without a session; an empty token clears no cookie.
unfoldable pub unauthenticated : Web → Config → Request → Response
unfolding request_is_https session_token_from
unauthenticated w cfg r = record {
  status = 401;
  body = error_code (text "unauthenticated");
  cookie =
      if text_eq (session_token_from w r) [] then untouched else cleared (request_is_https w cfg r);
}

-- What requireUser runs for a session: it acts on the accounts, and may act on more.
abbrev pub Handler : Type 0 → Type 0
Handler X = User → Session → Accounts → X

-- requireUser, for the result of Authenticate; `stop` ends a request before its handler
unfoldable pub admit :
    {X : Type 0}
    → (Accounts × Response → X)
    → Web
    → Config
    → Request
    → Handler X
    → Accounts × Result AuthError (User × Session)
    → X
unfolding unauthenticated
admit stop w cfg r next (a, err no_session) = stop (a, unauthenticated w cfg r)
admit stop w cfg r next (a, err (database e)) = stop (a, internal_error)
admit stop w cfg r next (a, ok (user, session)) = next user session a

-- requireUser
unfoldable pub require_user :
    {X : Type 0}
    → (Accounts × Response → X)
    → Web
    → Config
    → Sha256
    → ℕ
    → AuthCall
    → Request
    → Handler X
    → Accounts
    → X
unfolding admit
require_user stop w cfg h ttl c r next a =
    admit stop w cfg r next (authenticate h ttl c (session_token_from w r) a)
