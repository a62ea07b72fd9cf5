-- ===== src/Jobs/Invariant.antt =====
-- The invariant of the table jobs.
pub mod Histories
pub mod Rows
use manualbox.Prelude.{
  ℕ, ◌≡◌, ◌≢◌, refl, Bool, true, false, ◌&&◌, ◌||◌, not, Option, none, some, List, [], ◌∷◌, ◌++◌,
  arith, Result, ok, err, if◌then◌else◌, Bool-cases, ◌⊎◌, inl, inr,
}
use manualbox.Prelude.Int.{ℤ, pos, ◌+ℤ◌}
use manualbox.Prelude.Text.{Text}
use manualbox.Prelude.Lists.{All, All-append, All-keep}
use manualbox.Clock.{Stamp}
use manualbox.Jobs.Progress.{Float64, fits_column, one_float}
use manualbox.Jobs.Model.{running, terminal, is_running, Row, DbError}
use manualbox.Jobs.Table.{
  Table, Driver, Outcome, has_id, update_where, pending_key, indexes_ok, commit, EnqueueParams,
  new_row, enqueue_job, runnable, best, ClaimParams, claimed, claim_next_job,
}
use manualbox.Jobs.Table.Order.{best_cases}
use manualbox.Jobs.Table.Indexes.{
  IsGentle, indexes_ok-update_where, indexes_ok-keep, All-update_where,
}
use manualbox.Jobs.Statements.{
  runs, with_progress, any_row, update_job_progress, with_lease, extend_lease, in_int64, with_usage,
  usage_overflows, record_job_usage, completed, complete_job, released, release_job, retried,
  retry_job, failed_with, fail_job, cancellable, cancelled_at, cancel_job, expired, reclaimed,
  reclaim_expired_leases, purgeable, delete_finished_jobs_before,
}

-- A running row holds a lease and has started; any other has no lease and no worker; a finished
-- row has its time; the progress and the usage are in the range of their columns.
pub record RowOk (r : Row) : Type 0 where
  pub leased : is_running r.state ≡ true → (r.lease_until ≢ none) × (r.started_at ≢ none)
  pub unleased : is_running r.state ≡ false → (r.lease_until ≡ none) × (r.worker ≡ [])
  pub finished : terminal r.state ≡ true → r.finished_at ≢ none
  pub progress_fits : fits_column r.progress ≡ true
  pub usage_fits :
      (in_int64 r.tokens_in ≡ true)
      × (in_int64 r.tokens_out ≡ true)
      × (in_int64 r.cost_micros ≡ true)

-- Ids and pending dedupe keys are unique, and every row is in order.
pub record TableOk (t : Table) : Type 0 where
  pub unique : indexes_ok t ≡ true
  pub rows : All RowOk t
