-- ===== src/Tests.antt =====
-- Sample data for the tests and the examples: a driver, rows of the table jobs, and queues.
pub mod Codecs
pub mod Keyrings
pub mod Tables
pub mod Queues
pub mod Workers
pub mod Brokers
pub mod Stores
pub mod Ids
pub mod Auths
pub mod Apis
pub mod Configs
pub mod Logins
pub mod Services
pub mod Servers
pub mod Pools
use manualbox.Prelude.{ℕ, ◌≡◌, refl, true, false, Bool, none, some, List, [], ◌∷◌}
use manualbox.Prelude.Int.{pos}
use manualbox.Prelude.Text.{Text, text, text_eq, contains, to_lower}
use manualbox.Jobs.Progress.{zero_float}
use manualbox.Jobs.Model.{Row, Job, from_row, queued, running, driver_error}
use manualbox.Jobs.Table.{
  Table, Driver, is_unique_violation, ClaimParams, EnqueueParams, indexes_ok, clashes, clash,
  same_key,
}
use manualbox.Jobs.Broker.{Broker, new_broker, subscribe}
use manualbox.Jobs.Broker.Safety.{IsSafe, new_broker-IsSafe, subscribe-IsSafe}
use manualbox.Jobs.Queue.{Queue}
use manualbox.Jobs.Worker.{Call, Working}

abbrev pub unique_text : Text
unique_text = text "constraint failed: UNIQUE constraint failed: jobs.dedupe_key (2067)"

abbrev pub check_text : Text
check_text = text "constraint failed: CHECK constraint failed: progress (275)"

pub unique_text_recognised : is_unique_violation (driver_error unique_text) ≡ true
unfolding is_unique_violation contains to_lower
unique_text_recognised = refl

pub check_text_not : is_unique_violation (driver_error check_text) ≡ false
unfolding is_unique_violation contains to_lower
check_text_not = refl

abbrev pub sqlite : Driver
sqlite = record {
  unique_message = unique_text;
  check_message = check_text;
  unique_is_recognised = unique_text_recognised;
  check_is_not = check_text_not;
}

-- Two queued jobs, the second the more urgent, and one that runs.
abbrev pub waiting_row : Row
waiting_row = record {
  id = text "a";
  kind = text "ingest";
  payload = text "{}";
  state = queued;
  priority = pos 0;
  progress = zero_float;
  progress_note = [];
  attempts = 0;
  max_attempts = 3;
  last_error = [];
  tokens_in = pos 0;
  tokens_out = pos 0;
  cost_micros = pos 0;
  run_after = 5;
  lease_until = none;
  worker = [];
  dedupe_key = some (text "k");
  created_at = 5;
  updated_at = 5;
  started_at = none;
  finished_at = none;
}

abbrev pub urgent_row : Row
urgent_row = record waiting_row { id = text "b"; priority = pos 2; dedupe_key = none }

abbrev pub running_row : Row
running_row = record waiting_row {
  id = text "c";
  state = running;
  attempts = 1;
  lease_until = some 20;
  worker = text "w";
  dedupe_key = some (text "m");
  started_at = some 6;
}

abbrev pub jobs : Table
jobs = waiting_row ∷ urgent_row ∷ running_row ∷ []

pub jobs_unique : indexes_ok jobs ≡ true
unfolding indexes_ok clashes clash same_key text_eq
jobs_unique = refl

abbrev pub claim_at_ten : ClaimParams
claim_at_ten = record {
  worker = text "w";
  lease_until = 30;
  started_at = 10;
  updated_at = 10;
  run_after = 10;
}

-- A broker with one subscriber.
abbrev pub watched : Broker
watched = (subscribe new_broker).0

pub watched-IsSafe : IsSafe watched
watched-IsSafe = subscribe-IsSafe new_broker new_broker-IsSafe

abbrev pub full_queue : Queue
full_queue = record { table = jobs; broker = watched }

abbrev pub working : Working
working = record { queue = full_queue; job = from_row running_row }

abbrev pub calm_call : Call
calm_call = record { now = 15000000; fault = none }

abbrev pub first_params : EnqueueParams
first_params = record {
  id = text "a";
  kind = text "ingest";
  payload = text "{}";
  priority = pos 0;
  max_attempts = 3;
  dedupe_key = none;
  run_after = 5;
  created_at = 5;
  updated_at = 5;
}
