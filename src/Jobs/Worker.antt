-- ===== src/Jobs/Worker.antt =====
-- internal/jobs/worker.go: what a pool does with the queue for a job: claim and reclaim, the
-- Reporter's methods, and the methods that record an outcome. `none` is a panic.
pub mod Running
pub mod Execution
pub mod Outcomes
pub mod Cancellation
pub mod Crashes
pub mod Loops
pub mod Effects
pub mod Handing
pub mod Exclusion
use manualbox.Prelude.{
  ℕ, suc, ◌+◌, ◌-◌, ◌*◌, ◌/◌, Bool, true, false, ◌&&◌, ◌||◌, not, Option, none, some, List, [], ◌∷◌,
  ◌++◌, Result, ok, err, if◌then◌else◌, ltb, leb, ◌==◌,
}
use manualbox.Prelude.Int.{ℤ, pos, negsuc, ◌+ℤ◌}
use manualbox.Prelude.Text.{Text, text, text_eq}
use manualbox.Clock.{Instant, Stamp, millis, time, second, minute}
use manualbox.Jobs.Progress.{Float64, clamp, one_float}
use manualbox.Jobs.Model.{
  State, queued, running, succeeded, failed, Row, Job, from_row, Event, event_for, DbError, no_rows,
  driver_error, JobsError, wrapped,
}
use manualbox.Jobs.Table.{Table, Driver, Outcome, ClaimParams, claim_next_job}
use manualbox.Jobs.Statements.{
  update_job_progress, extend_lease, record_job_usage, complete_job, release_job, retry_job,
  fail_job, reclaim_expired_leases,
}
use manualbox.Jobs.Broker.{publish}
use manualbox.Jobs.Queue.{Queue, publish_event}
use manualbox.Jobs.Backoff.{exponential_backoff}

-- config.Jobs, as far as a pool reads it; durations in nanoseconds
pub record PoolConfig : Type 0 where
  pub workers : ℤ
  pub poll_interval : ℤ
  pub lease_duration : ℤ
  pub max_attempts : ℤ

-- Pool. `handlers` holds the kinds that have a handler.
pub record Pool : Type 0 where
  pub handlers : List Text
  pub workers : ℕ
  pub poll : ℕ
  pub lease : ℕ
  pub renew_interval : ℕ

-- if x <= 0 { x = fallback }
unfoldable pub positive_or : ℕ → ℤ → ℕ
positive_or fallback (negsuc n) = fallback
positive_or fallback (pos n) = if n == 0 then fallback else n

-- NewPool
unfoldable pub new_pool : PoolConfig → Pool
unfolding positive_or
new_pool cfg =
    let lease = positive_or (15 * minute) cfg.lease_duration in
    record {
      handlers = [];
      workers = positive_or 2 cfg.workers;
      poll = positive_or (2 * second) cfg.poll_interval;
      lease = lease;
      renew_interval = lease / 3;
    }

-- handlerFor
unfoldable pub has_handler : Text → List Text → Bool
has_handler kind [] = false
has_handler kind (k ∷ ks) = text_eq k kind || has_handler kind ks

-- Register; a kind registered twice has one handler, the later one.
unfoldable pub register : Text → Pool → Pool
unfolding has_handler
register kind p =
    if has_handler kind p.handlers then p else record p { handlers = kind ∷ p.handlers }

-- claim; no job is no error.
unfoldable pub claim :
    Driver → Option Text → Text → Instant → Pool → Queue → Queue × Result DbError (Option Job)
claim d fault worker now p q =
    let a : ClaimParams = record {
      worker = worker;
      lease_until = millis (now + p.lease);
      started_at = millis now;
      updated_at = millis now;
      run_after = millis now;
    } in
    elim (claim_next_job d fault a q.table) [
      | ok (t, r) ↦ (record q { table = t }, ok (some (from_row r)))
      | err e ↦ elim e [ no_rows ↦ (q, ok none) | driver_error m ↦ (q, err (driver_error m)) ]
    ]

-- reclaim
unfoldable pub reclaim : Driver → Option Text → Instant → Queue → Queue × Result DbError ℕ
reclaim d fault now q = elim (reclaim_expired_leases d fault (millis now) q.table) [
  | ok (t, n) ↦ (record q { table = t }, ok n)
  | err e ↦ (q, err e)
]

-- The time and the fault of one database call.
pub record Call : Type 0 where
  pub now : Instant
  pub fault : Option Text

-- The state while a handler runs: the queue, and the worker's copy of the job.
pub record Working : Type 0 where
  pub queue : Queue
  pub job : Job

-- The end of a method that records an outcome: a failed statement is logged and the copy kept, else
-- the changed copy is published.
unfoldable pub record_outcome : Outcome (Table × Unit {0}) → Job → Working → Option (Working × Bool)
record_outcome (err e) job w = some (w, false)
record_outcome (ok (t, _)) job w =
    elim (publish_event (event_for job) (record { table = t; broker = w.queue.broker }) true) [
      | none ↦ none
      | some (q, done) ↦ some (record { queue = q; job = job }, done)
    ]

-- finishSucceeded
unfoldable pub finish_succeeded : Driver → Call → Working → Option (Working × Bool)
unfolding record_outcome
finish_succeeded d c w =
    record_outcome
      (complete_job d c.fault w.job.progress_note (millis c.now) w.job.id w.queue.table)
      (record (w.job) { state = succeeded; progress = one_float }) w

-- finishFailed
unfoldable pub finish_failed : Driver → Call → Text → Working → Option (Working × Bool)
unfolding record_outcome
finish_failed d c cause w =
    record_outcome (fail_job d c.fault cause (millis c.now) w.job.id w.queue.table)
      (record (w.job) { state = failed; last_error = cause }) w

-- retry
unfoldable pub retry : Driver → Call → Text → ℕ → Working → Option (Working × Bool)
unfolding record_outcome
retry d c cause delay w =
    record_outcome
      (retry_job d c.fault cause (millis (c.now + delay)) (millis c.now) w.job.id w.queue.table)
      (record (w.job) { state = queued; last_error = cause }) w

-- release
unfoldable pub release : Driver → Call → Working → Option (Working × Bool)
unfolding record_outcome
release d c w =
    record_outcome (release_job d c.fault (millis c.now) w.job.id w.queue.table)
      (record (w.job) { state = queued }) w

-- The end of reporter.Progress: the error of the statement, or the changed copy, published.
unfoldable pub record_progress :
    Outcome (Table × Unit {0}) → Job → Working → Option (Working × Option JobsError)
record_progress (err e) job w = some (w, some (wrapped e))
record_progress (ok (t, _)) job w =
    elim (publish_event {A = Unit {0}} (event_for job)
      (record { table = t; broker = w.queue.broker }) tt) [
        | none ↦ none
        | some (q, _) ↦ some (record { queue = q; job = job }, none)
      ]

-- reporter.Progress, with the error that it returns
unfoldable pub report_progress :
    Driver → Call → Float64 → Text → Working → Option (Working × Option JobsError)
unfolding record_progress
report_progress d c fraction note w =
    let now = millis c.now in
    record_progress (update_job_progress d c.fault (clamp fraction) note now w.job.id w.queue.table)
      (record (w.job) { progress = clamp fraction; progress_note = note; updated_at = time now }) w

-- The end of reporter.Usage, which publishes nothing.
unfoldable pub record_usage :
    Outcome (Table × Unit {0}) → Job → Working → Working × Option JobsError
record_usage (err e) job w = (w, some (wrapped e))
record_usage (ok (t, _)) job w =
    (record { queue = record { table = t; broker = w.queue.broker }; job = job }, none)

-- reporter.Usage
unfoldable pub report_usage : Driver → Call → ℤ → ℤ → ℤ → Working → Working × Option JobsError
unfolding record_usage
report_usage d c i o m w =
    record_usage (record_job_usage d c.fault i o m (millis c.now) w.job.id w.queue.table)
      (record (w.job) {
        tokens_in = w.job.tokens_in +ℤ i;
        tokens_out = w.job.tokens_out +ℤ o;
        cost_micros = w.job.cost_micros +ℤ m;
      })
      w

unfoldable pub keep_lease : Outcome (Table × Unit {0}) → Working → Working
keep_lease (err e) w = w
keep_lease (ok (t, _)) w = record {
  queue = record { table = t; broker = w.queue.broker };
  job = w.job;
}

-- renewLease up to its loop: time.NewTicker panics on an interval that is not positive. The panic is
-- one of a goroutine of its own, which nothing recovers, and ends the process.
unfoldable pub start_renewal : Pool → Option (Unit {0})
start_renewal p = if p.renew_interval == 0 then none else some tt

-- One tick of renewLease; a failure is logged.
unfoldable pub renew_lease : Driver → Call → Instant → Pool → Working → Working
unfolding keep_lease
renew_lease d c now p w =
    keep_lease
      (extend_lease d c.fault (millis (c.now + p.lease)) (millis now) w.job.id w.queue.table) w
