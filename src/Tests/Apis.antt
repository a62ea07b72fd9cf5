-- ===== src/Tests/Apis.antt =====
-- Requests on a small instance.
use manualbox.Prelude.{◌*◌, ◌≡◌, refl, true, false, none, some, List, [], ◌∷◌, ◌++◌, arith, ◌==◌}
use manualbox.Prelude.Text.{Text, text, text_eq}
use manualbox.Prelude.Lists.{All}
use manualbox.Clock.{second}
use manualbox.Auth.Tables.{Accounts}
use manualbox.Config.{Config, default_config}
use manualbox.Api.{
  Request, Web, cleared, nothing, Response, header_get, x_forwarded_for, real_ip, request_is_https,
  Handler, unauthenticated, require_user,
}
use manualbox.Api.Handlers.{SetupBody, handle_logout, handle_me}
use manualbox.Api.Addresses.{real_ip-forwarded}
use manualbox.Api.Guards.{logout-require_user}
use manualbox.Api.Streaming.{
  open_stream, write_snapshot, turns_for, take_turns, take_turns-publish_all,
}
use manualbox.Jobs.Model.{Event}
use manualbox.Jobs.Broker.{Broker, new_broker}
use manualbox.Jobs.Broker.Safety.{new_broker-IsSafe}
use manualbox.Jobs.Broker.Runs.{publish_all}
use manualbox.Tests.{full_queue}
use manualbox.Tests.Brokers.{an_event, next_event}
use manualbox.Tests.Stores.{counting}
use manualbox.Tests.Auths.{request}
use manualbox.Tests.Logins.{shifts, plain_texts, first_password, household, mail}

abbrev pub web : Web
web = record { trim_space = λ t. t; equal_fold = text_eq; url_host = λ u. some u; atoi = λ t. none }

abbrev pub behind_proxy : Config
behind_proxy = record default_config {
  server = record default_config.server { trust_proxy = true };
}

abbrev forged : Text
forged = text "1.1.1.1" ++ text ",10.0.0.7"

abbrev pub visit : Request
visit = record {
  method = text "POST";
  headers = (x_forwarded_for, forged) ∷ [];
  session_cookie = some (text "t0k3n");
  host = text "box";
  remote_addr = text "10.0.0.1:80";
  is_tls = false;
}

one_line : header_get x_forwarded_for visit.headers ≡ text "1.1.1.1" ++ 44 ∷ text "10.0.0.7"
unfolding header_get text_eq
one_line = refl

no_comma : All (λ b. (b == 44) ≡ false) (text "10.0.0.7")
no_comma = (refl, (refl, (refl, (refl, (refl, (refl, (refl, (refl, tt))))))))

an_entry : text_eq (text "10.0.0.7") [] ≡ false
unfolding text_eq
an_entry = refl

real_ip-forwarded_example : (real_ip web behind_proxy visit).remote_addr ≡ text "10.0.0.7"
real_ip-forwarded_example =
    real_ip-forwarded web behind_proxy visit (text "1.1.1.1") (text "10.0.0.7") one_line no_comma
      an_entry

abbrev me : Handler (Accounts × Response)
me = handle_me web behind_proxy plain_texts shifts counting (60 * second)

logout-require_user_example :
    (a' : Accounts) × (handle_logout web behind_proxy plain_texts shifts counting
        (60 * second)
        none
        visit
        household
      ≡ (
        a',
        record {
          status = 204;
          body = nothing;
          cookie = cleared (request_is_https web behind_proxy visit);
        },
      ))
    × (require_user (λ x. x) web behind_proxy counting (60 * second) request visit me a'
        ≡ (a', unauthenticated web behind_proxy visit))
logout-require_user_example =
    logout-require_user web behind_proxy counting (60 * second) visit plain_texts shifts (λ x. x)
      request me household refl

abbrev form : SetupBody
form = record { email = mail; password = first_password; display_name = [] }

-- Two changes between the subscription and the snapshot.
abbrev changes : List Event
changes = an_event ∷ next_event ∷ []

take_turns-publish_all_example :
    (b' : Broker) × (publish_all changes (open_stream new_broker).0 ≡ some b')
    × (((take_turns
            (turns_for changes)
            (write_snapshot none full_queue (open_stream new_broker).1, b')).0.sent
          ≡ (write_snapshot none full_queue (open_stream new_broker).1).sent ++ changes)
        × ((take_turns
              (turns_for changes)
              (write_snapshot none full_queue (open_stream new_broker).1, b')).0.is_over
            ≡ false))
unfolding new_broker
take_turns-publish_all_example =
    take_turns-publish_all new_broker none full_queue changes new_broker-IsSafe refl (omega arith)
