-- ===== src/Jobs/Model.antt =====
-- The data of internal/jobs/jobs.go, the event of broker.go, and the row of internal/db/gen.
use manualbox.Prelude.{ℕ, ◌≡◌, ◌↔◌, Bool, true, false, Option, arith}
use manualbox.Prelude.Int.{ℤ}
use manualbox.Prelude.Text.{Text}
use manualbox.Clock.{Instant, Stamp, time, time_ptr}
use manualbox.Jobs.Progress.{Float64}

pub data State : Type 0 where
  queued running succeeded failed cancelled : State

-- State.Terminal
abbrev pub terminal : State → Bool
terminal succeeded = true
terminal failed = true
terminal cancelled = true
terminal _ = false

-- state IN ('queued', 'running')
abbrev pub pending : State → Bool
pending queued = true
pending running = true
pending _ = false

abbrev pub is_queued : State → Bool
is_queued queued = true
is_queued _ = false

abbrev pub is_running : State → Bool
is_running running = true
is_running _ = false

-- The text of a state in the database and in requests is the constructor's; this is `=` on it.
abbrev pub state_eq : State → State → Bool
state_eq queued s = is_queued s
state_eq running s = is_running s
state_eq succeeded succeeded = true
state_eq failed failed = true
state_eq cancelled cancelled = true
state_eq _ _ = false

pub state_eq_iff : (s t : State) → (state_eq s t ≡ true) ↔ (s ≡ t)
state_eq_iff s t = ground arith

-- gen.Job, a row of the table jobs. Columns that Go reads as int64 and that are never negative
-- are ℕ.
pub record Row : Type 0 where
  pub id : Text
  pub kind : Text
  pub payload : Text
  pub state : State
  pub priority : ℤ
  pub progress : Float64
  pub progress_note : Text
  pub attempts : ℕ
  pub max_attempts : ℕ
  pub last_error : Text
  pub tokens_in : ℤ
  pub tokens_out : ℤ
  pub cost_micros : ℤ
  pub run_after : Stamp
  pub lease_until : Option Stamp
  pub worker : Text
  pub dedupe_key : Option Text
  pub created_at : Stamp
  pub updated_at : Stamp
  pub started_at : Option Stamp
  pub finished_at : Option Stamp

-- Job
pub record Job : Type 0 where
  pub id : Text
  pub kind : Text
  pub payload : Text
  pub state : State
  pub priority : ℤ
  pub progress : Float64
  pub progress_note : Text
  pub attempts : ℕ
  pub max_attempts : ℕ
  pub last_error : Text
  pub tokens_in : ℤ
  pub tokens_out : ℤ
  pub cost_micros : ℤ
  pub created_at : Instant
  pub updated_at : Instant
  pub started_at : Option Instant
  pub finished_at : Option Instant

-- fromRow
unfoldable pub from_row : Row → Job
from_row r = record {
  id = r.id;
  kind = r.kind;
  payload = r.payload;
  state = r.state;
  priority = r.priority;
  progress = r.progress;
  progress_note = r.progress_note;
  attempts = r.attempts;
  max_attempts = r.max_attempts;
  last_error = r.last_error;
  tokens_in = r.tokens_in;
  tokens_out = r.tokens_out;
  cost_micros = r.cost_micros;
  created_at = time r.created_at;
  updated_at = time r.updated_at;
  started_at = time_ptr r.started_at;
  finished_at = time_ptr r.finished_at;
}

-- Event
pub record Event : Type 0 where
  pub job_id : Text
  pub kind : Text
  pub state : State
  pub progress : Float64
  pub note : Text
  pub error : Text
  pub at_time : Instant

-- eventFor
unfoldable pub event_for : Job → Event
event_for j = record {
  job_id = j.id;
  kind = j.kind;
  state = j.state;
  progress = j.progress;
  note = j.progress_note;
  error = j.last_error;
  at_time = j.updated_at;
}

-- What a database call can return in place of a result: sql.ErrNoRows, or an error of the driver
-- with its message.
pub data DbError : Type 0 where
  no_rows : DbError
  driver_error : Text → DbError

-- The errors of this package. `wrapped` is a message around an error of the database.
pub data JobsError : Type 0 where
  kind_required : JobsError
  bad_payload : Text → JobsError
  already_queued : JobsError
  not_found : Text → JobsError
  already_finished : Text → JobsError
  wrapped : DbError → JobsError
