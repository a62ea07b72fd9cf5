-- ===== src/Jobs/Queue.antt =====
-- internal/jobs/queue.go. A queue is the table and the broker; each reading of the clock, each
-- random id and the fault of each database call is an argument. `none` is a panic of the broker.
pub mod Enqueueing
pub mod Cancelling
pub mod Purging
use manualbox.Prelude.{
  ℕ, Bool, true, false, ◌&&◌, not, Option, none, some, List, [], ◌∷◌, map, Result, ok, err,
  if◌then◌else◌, leb, ◌==◌,
}
use manualbox.Prelude.Int.{ℤ, pos, negsuc, pos_part}
use manualbox.Prelude.Text.{Text, text, text_eq}
use manualbox.Clock.{Instant, Stamp, millis}
use manualbox.Jobs.Model.{
  State, Row, Job, from_row, Event, event_for, DbError, no_rows, driver_error, JobsError,
  kind_required, bad_payload, already_queued, not_found, already_finished, wrapped,
}
use manualbox.Jobs.Table.{Table, Driver, Outcome, is_unique_violation, EnqueueParams, enqueue_job}
use manualbox.Jobs.Statements.{cancel_job, delete_finished_jobs_before}
use manualbox.Jobs.Reads.{
  get_job, get_pending_job_by_dedupe_key, list_jobs, list_jobs_by_state, list_active_jobs,
  count_jobs_by_state,
}
use manualbox.Jobs.Broker.{Broker, publish}

-- Queue
pub record Queue : Type 0 where
  pub table : Table
  pub broker : Broker

-- defaultMaxAttempts
abbrev pub default_max_attempts : ℕ
default_max_attempts = 3

-- EnqueueOptions: an empty key and an absent time are Go's zero values.
pub record EnqueueOptions : Type 0 where
  pub priority : ℤ
  pub max_attempts : ℤ
  pub dedupe_key : Text
  pub run_after : Option Instant

-- What one call of Enqueue takes from outside: the new id, two readings of the clock, and faults.
pub record EnqueueCall : Type 0 where
  pub id : Text
  pub run_now : Instant
  pub row_now : Instant
  pub insert_fault : Option Text
  pub find_fault : Option Text

-- (*Job, error)
pub record Answer : Type 0 where
  pub job : Option Job
  pub error : Option JobsError

abbrev pub refused : JobsError → Answer
refused e = record { job = none; error = some e }

abbrev pub accepted : Job → Answer
accepted j = record { job = some j; error = none }

abbrev pub publish_event : {A : Type 0} → Event → Queue → A → Option (Queue × A)
publish_event ev q a = elim (publish ev q.broker) [
  | none ↦ none
  | some b ↦ some (record q { broker = b }, a)
]

-- The payload is nil, or what json.Marshal makes of it.
unfoldable pub encode : Option (Result Text Text) → Result Text Text
encode none = ok (text "{}")
encode (some r) = r

-- if opts.MaxAttempts <= 0
unfoldable pub attempts_of : ℤ → ℕ
attempts_of (negsuc n) = default_max_attempts
attempts_of (pos n) = if n == 0 then default_max_attempts else n

unfoldable pub key_of : Text → Option Text
key_of k = if text_eq k [] then none else some k

unfoldable pub run_after_of : Option Instant → Instant → Instant
run_after_of none now = now
run_after_of (some t) now = t

unfoldable pub enqueue_params : EnqueueCall → Text → Text → EnqueueOptions → EnqueueParams
unfolding attempts_of key_of run_after_of
enqueue_params c kind raw opts = record {
  id = c.id;
  kind = kind;
  payload = raw;
  priority = opts.priority;
  max_attempts = attempts_of opts.max_attempts;
  dedupe_key = key_of opts.dedupe_key;
  run_after = millis (run_after_of opts.run_after c.run_now);
  created_at = millis c.row_now;
  updated_at = millis c.row_now;
}

-- The error path of Enqueue, findPending in it.
unfoldable pub on_insert_error : EnqueueCall → Text → DbError → Table → Answer
on_insert_error c key e t =
    if not (text_eq key []) && is_unique_violation e
    then elim (get_pending_job_by_dedupe_key c.find_fault key t) [
      | ok r ↦ record { job = some (from_row r); error = some already_queued }
      | err _ ↦ refused (wrapped e)
    ]
    else refused (wrapped e)

-- Enqueue
unfoldable pub enqueue :
    Driver
    → EnqueueCall
    → Text
    → Option (Result Text Text)
    → EnqueueOptions
    → Queue
    → Option (Queue × Answer)
enqueue d c kind payload opts q =
    if text_eq kind [] then some (q, refused kind_required) else elim (encode payload) [
      | err e ↦ some (q, refused (bad_payload e))
      | ok raw ↦ elim (enqueue_job d c.insert_fault (enqueue_params c kind raw opts) q.table) [
        | err e ↦ some (q, on_insert_error c opts.dedupe_key e q.table)
        | ok (t, r) ↦
            publish_event (event_for (from_row r)) (record q { table = t }) (accepted (from_row r))
      ]
    ]

-- Get
unfoldable pub get : Option Text → Text → Queue → Result JobsError Job
get fault i q = elim (get_job fault i q.table) [
  | ok r ↦ ok (from_row r)
  | err e ↦ elim e [ no_rows ↦ err (not_found i) | driver_error m ↦ err (wrapped (driver_error m)) ]
]

jobs_of : Outcome Table → Result JobsError (List Job)
jobs_of (ok rows) = ok (map from_row rows)
jobs_of (err e) = err (wrapped e)

-- if limit <= 0 { limit = 50 }
unfoldable pub limit_of : ℤ → ℕ
limit_of (negsuc n) = 50
limit_of (pos n) = if n == 0 then 50 else n

-- List; no state lists every state.
unfoldable pub list : Option Text → Option State → ℤ → Queue → Result JobsError (List Job)
unfolding jobs_of limit_of
list fault none limit q = jobs_of (list_jobs fault (limit_of limit) q.table)
list fault (some s) limit q = jobs_of (list_jobs_by_state fault s (limit_of limit) q.table)

-- Active
unfoldable pub active : Option Text → Queue → Result JobsError (List Job)
unfolding jobs_of
active fault q = jobs_of (list_active_jobs fault q.table)

-- What one call of Cancel takes from outside.
pub record CancelCall : Type 0 where
  pub now : Instant
  pub cancel_fault : Option Text
  pub get_fault : Option Text

-- The rest of Cancel after a statement that changed `n` rows.
unfoldable pub after_cancel : CancelCall → Text → ℕ → Queue → Option (Queue × Option JobsError)
unfolding get
after_cancel c i n q =
    if n == 0
    then elim (get c.get_fault i q) [
      | err e ↦ some (q, some e)
      | ok _ ↦ some (q, some (already_finished i))
    ]
    else elim (get c.get_fault i q) [
      | err _ ↦ some (q, none)
      | ok job ↦ publish_event (event_for job) q none
    ]

-- Cancel
unfoldable pub cancel : Driver → CancelCall → Text → Queue → Option (Queue × Option JobsError)
unfolding after_cancel
cancel d c i q = elim (cancel_job d c.cancel_fault (millis c.now) i q.table) [
  | err e ↦ some (q, some (wrapped e))
  | ok (t, n) ↦ after_cancel c i n (record q { table = t })
]

-- Stats
unfoldable pub stats : Option Text → Queue → Result JobsError (List (State × ℕ))
stats fault q = elim (count_jobs_by_state fault q.table) [
  | ok groups ↦ ok groups
  | err e ↦ err (wrapped e)
]

-- PurgeFinishedBefore
unfoldable pub purge_finished_before :
    Driver → Option Text → Instant → Queue → Queue × Result JobsError ℕ
purge_finished_before d fault cutoff q =
    elim (delete_finished_jobs_before d fault (millis cutoff) q.table) [
      | err e ↦ (q, err (wrapped e))
      | ok (t, n) ↦ (record q { table = t }, ok n)
    ]
