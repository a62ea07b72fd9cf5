-- ===== src/Jobs/Statements.antt =====
-- The statements of internal/db/gen/jobs.sql.go that change rows already in the table.
use manualbox.Prelude.{
  ℕ, ◌-◌, ◌^◌, Bool, false, not, ◌&&◌, ◌||◌, Option, none, some, [], ◌∷◌, err, if◌then◌else◌, ltb,
  leb,
}
use manualbox.Prelude.Int.{ℤ, pos_part, neg_part, ◌+ℤ◌}
use manualbox.Prelude.Text.{Text, text}
use manualbox.Prelude.Lists.{keep, count_where}
use manualbox.Clock.{Stamp}
use manualbox.Jobs.Progress.{Float64, one_float, fits_column}
use manualbox.Jobs.Model.{
  queued, succeeded, failed, cancelled, terminal, pending, is_running, Row, driver_error,
}
use manualbox.Jobs.Table.{Table, Driver, Outcome, has_id, update_where, commit}

-- A row that is running under the id.
unfoldable pub runs : Text → Row → Bool
runs i r = has_id i r && is_running r.state

-- UpdateJobProgress. No row, no check: the statement then succeeds and writes nothing.
unfoldable pub with_progress : Float64 → Text → Stamp → Row → Row
with_progress f note now r = record r { progress = f; progress_note = note; updated_at = now }

unfoldable pub any_row : (Row → Bool) → Table → Bool
any_row p [] = false
any_row p (r ∷ t) = p r || any_row p t

unfoldable pub update_job_progress :
    Driver → Option Text → Float64 → Text → Stamp → Text → Table → Outcome (Table × Unit {0})
unfolding any_row commit
update_job_progress d (some m) f note now i t = err (driver_error m)
update_job_progress d none f note now i t =
    if any_row (runs i) t && not (fits_column f)
    then err (driver_error d.check_message)
    else commit d none (update_where (runs i) (with_progress f note now) t) tt

-- ExtendLease
unfoldable pub with_lease : Stamp → Stamp → Row → Row
with_lease until now r = record r { lease_until = some until; updated_at = now }

unfoldable pub extend_lease :
    Driver → Option Text → Stamp → Stamp → Text → Table → Outcome (Table × Unit {0})
unfolding commit
extend_lease d fault until now i t =
    commit d fault (update_where (runs i) (with_lease until now) t) tt

-- The range of int64, which is SQLite's INTEGER.
unfoldable pub in_int64 : ℤ → Bool
in_int64 z = ltb (pos_part z) (2 ^ 63) && leb (neg_part z) (2 ^ 63)

-- RecordJobUsage. A sum that leaves the range becomes REAL, which a STRICT table refuses.
unfoldable pub with_usage : ℤ → ℤ → ℤ → Stamp → Row → Row
with_usage i o c now r = record r {
  tokens_in = r.tokens_in +ℤ i;
  tokens_out = r.tokens_out +ℤ o;
  cost_micros = r.cost_micros +ℤ c;
  updated_at = now;
}

unfoldable pub usage_overflows : ℤ → ℤ → ℤ → Row → Bool
usage_overflows i o c r =
    not
      (in_int64 (r.tokens_in +ℤ i) && in_int64 (r.tokens_out +ℤ o) && in_int64 (r.cost_micros +ℤ c))

unfoldable pub record_job_usage :
    Driver → Option Text → ℤ → ℤ → ℤ → Stamp → Text → Table → Outcome (Table × Unit {0})
unfolding any_row commit
record_job_usage d (some m) i o c now job t = err (driver_error m)
record_job_usage d none i o c now job t =
    if any_row (λ r. has_id job r && usage_overflows i o c r) t
    then err (driver_error d.check_message)
    else commit d none (update_where (has_id job) (with_usage i o c now) t) tt

-- CompleteJob
unfoldable pub completed : Text → Stamp → Row → Row
completed note now r = record r {
  state = succeeded;
  progress = one_float;
  progress_note = note;
  lease_until = none;
  worker = [];
  finished_at = some now;
  updated_at = now;
}

unfoldable pub complete_job :
    Driver → Option Text → Text → Stamp → Text → Table → Outcome (Table × Unit {0})
unfolding commit
complete_job d fault note now i t =
    commit d fault (update_where (has_id i) (completed note now) t) tt

-- ReleaseJob: max(attempts - 1, 0) is subtraction on ℕ.
unfoldable pub released : Stamp → Row → Row
released now r = record r {
  state = queued;
  attempts = r.attempts - 1;
  run_after = now;
  lease_until = none;
  worker = [];
  updated_at = now;
}

unfoldable pub release_job :
    Driver → Option Text → Stamp → Text → Table → Outcome (Table × Unit {0})
unfolding commit
release_job d fault now i t = commit d fault (update_where (runs i) (released now) t) tt

-- RetryJob
unfoldable pub retried : Text → Stamp → Stamp → Row → Row
retried e after now r = record r {
  state = queued;
  last_error = e;
  run_after = after;
  lease_until = none;
  worker = [];
  updated_at = now;
}

unfoldable pub retry_job :
    Driver → Option Text → Text → Stamp → Stamp → Text → Table → Outcome (Table × Unit {0})
unfolding commit
retry_job d fault e after now i t =
    commit d fault (update_where (has_id i) (retried e after now) t) tt

-- FailJob
unfoldable pub failed_with : Text → Stamp → Row → Row
failed_with e now r = record r {
  state = failed;
  last_error = e;
  lease_until = none;
  worker = [];
  finished_at = some now;
  updated_at = now;
}

unfoldable pub fail_job :
    Driver → Option Text → Text → Stamp → Text → Table → Outcome (Table × Unit {0})
unfolding commit
fail_job d fault e now i t = commit d fault (update_where (has_id i) (failed_with e now) t) tt

-- CancelJob, with the number of rows it changed
unfoldable pub cancellable : Text → Row → Bool
cancellable i r = has_id i r && pending r.state

unfoldable pub cancelled_at : Stamp → Row → Row
cancelled_at now r = record r {
  state = cancelled;
  lease_until = none;
  worker = [];
  finished_at = some now;
  updated_at = now;
}

unfoldable pub cancel_job : Driver → Option Text → Stamp → Text → Table → Outcome (Table × ℕ)
unfolding commit
cancel_job d fault now i t =
    commit d fault (update_where (cancellable i) (cancelled_at now) t)
      (count_where (cancellable i) t)

-- ReclaimExpiredLeases
abbrev pub before : Option Stamp → Stamp → Bool
before none now = false
before (some u) now = ltb u now

unfoldable pub expired : Stamp → Row → Bool
expired now r = is_running r.state && before r.lease_until now

unfoldable pub reclaimed : Stamp → Row → Row
reclaimed now r = record r {
  state = queued;
  lease_until = none;
  worker = [];
  last_error = text "worker lease expired; job reclaimed";
  updated_at = now;
}

unfoldable pub reclaim_expired_leases : Driver → Option Text → Stamp → Table → Outcome (Table × ℕ)
unfolding commit
reclaim_expired_leases d fault now t =
    commit d fault (update_where (expired now) (reclaimed now) t) (count_where (expired now) t)

-- DeleteFinishedJobsBefore
unfoldable pub purgeable : Stamp → Row → Bool
purgeable cutoff r = terminal r.state && before r.finished_at cutoff

unfoldable pub delete_finished_jobs_before :
    Driver → Option Text → Stamp → Table → Outcome (Table × ℕ)
unfolding commit
delete_finished_jobs_before d fault cutoff t =
    commit d fault (keep (λ r. not (purgeable cutoff r)) t) (count_where (purgeable cutoff) t)
