-- ===== src/Jobs/Invariant/Rows.antt =====
-- What each statement of internal/db/gen/jobs.sql.go writes into a row, against the invariant.
use manualbox.Prelude.{◌≡◌, true, false, arith}
use manualbox.Prelude.Int.{ℤ}
use manualbox.Prelude.Text.{Text}
use manualbox.Clock.{Stamp}
use manualbox.Jobs.Progress.{Float64, fits_column}
use manualbox.Jobs.Model.{Row}
use manualbox.Jobs.Table.{EnqueueParams, new_row, ClaimParams, claimed}
use manualbox.Jobs.Statements.{
  runs, with_progress, with_lease, in_int64, with_usage, usage_overflows, completed, released,
  retried, failed_with, cancelled_at, reclaimed,
}
use manualbox.Jobs.Invariant.{RowOk}

pub new_row-RowOk : (a : EnqueueParams) → RowOk (new_row a)
unfolding new_row fits_column in_int64
new_row-RowOk a = ground arith

pub claimed-RowOk : (a : ClaimParams) (r : Row) → RowOk r → RowOk (claimed a r)
unfolding claimed
claimed-RowOk a r v = ground arith

pub with_progress-RowOk :
    (f : Float64) (n : Text) (now : Stamp) (r : Row)
    → fits_column f ≡ true
    → RowOk r
    → RowOk (with_progress f n now r)
unfolding with_progress
with_progress-RowOk f n now r h v = ground arith

pub with_lease-RowOk :
    (until now : Stamp) (i : Text) (r : Row)
    → runs i r ≡ true
    → RowOk r
    → RowOk (with_lease until now r)
unfolding with_lease runs
with_lease-RowOk until now i r h v = ground arith

pub with_usage-RowOk :
    (i o c : ℤ) (now : Stamp) (r : Row)
    → usage_overflows i o c r ≡ false
    → RowOk r
    → RowOk (with_usage i o c now r)
unfolding with_usage usage_overflows
with_usage-RowOk i o c now r h v = ground arith

pub completed-RowOk : (n : Text) (now : Stamp) (r : Row) → RowOk r → RowOk (completed n now r)
unfolding completed fits_column
completed-RowOk n now r v = ground arith

pub released-RowOk : (now : Stamp) (r : Row) → RowOk r → RowOk (released now r)
unfolding released
released-RowOk now r v = ground arith

pub retried-RowOk :
    (e : Text) (after now : Stamp) (r : Row) → RowOk r → RowOk (retried e after now r)
unfolding retried
retried-RowOk e after now r v = ground arith

pub failed_with-RowOk : (e : Text) (now : Stamp) (r : Row) → RowOk r → RowOk (failed_with e now r)
unfolding failed_with
failed_with-RowOk e now r v = ground arith

pub cancelled_at-RowOk : (now : Stamp) (r : Row) → RowOk r → RowOk (cancelled_at now r)
unfolding cancelled_at
cancelled_at-RowOk now r v = ground arith

pub reclaimed-RowOk : (now : Stamp) (r : Row) → RowOk r → RowOk (reclaimed now r)
unfolding reclaimed
reclaimed-RowOk now r v = ground arith
