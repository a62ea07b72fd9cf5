-- ===== src/Jobs/Worker/Cancellation.antt =====
-- Cancel of internal/jobs/queue.go while a handler of internal/jobs/worker.go runs.
use manualbox.Prelude.{◌≡◌, refl, ◌∙◌, Bool, true, false, none, some, [], ◌∷◌, arith, ok, inr}
use manualbox.Prelude.Text.{Text}
use manualbox.Prelude.Lists.{All, count_where}
use manualbox.Clock.{Stamp}
use manualbox.Jobs.Progress.{Float64}
use manualbox.Jobs.Model.{Row, pending, is_running}
use manualbox.Jobs.Table.{Table, Driver, has_id, update_where, find_row, indexes_ok}
use manualbox.Jobs.Table.Indexes.{update_where_none, commit_ok, indexes_ok-update_where}
use manualbox.Jobs.Table.Lookups.{only_with_id, none_with_id, find_row-update_id}
use manualbox.Jobs.Statements.{
  any_row, runs, update_job_progress, with_progress, completed, complete_job, cancellable,
  cancelled_at, cancel_job, extend_lease, with_lease,
}
use manualbox.Jobs.Queue.Cancelling.{cancel_job_lem}

any_row_none : (p : Row → Bool) (t : Table) → All (λ s. p s ≡ false) t → any_row p t ≡ false
unfolding any_row
any_row_none p [] h = refl
any_row_none p (s ∷ t) h = rw h.0 (any_row_none p t h.1)

-- No running row has the id of a cancelled one.
none_runs :
    (i : Text) (r : Row) (t : Table)
    → indexes_ok t ≡ true
    → find_row (has_id i) t ≡ some r
    → is_running r.state ≡ false
    → All (λ s. runs i s ≡ false) t
none_runs i r t h found over =
    unfold runs in none_with_id (λ s. is_running s.state) i r t over (only_with_id t i r h found)

-- A progress report on a job that is not running is accepted and changes nothing.
progress_ignored :
    (d : Driver) (f : Float64) (note : Text) (now : Stamp) (i : Text) (t : Table)
    → indexes_ok t ≡ true
    → All (λ s. runs i s ≡ false) t
    → update_job_progress d none f note now i t ≡ ok (t, tt)
unfolding update_job_progress
progress_ignored d f note now i t h out =
    rw (any_row_none (runs i) t out)
      (rw (update_where_none (runs i) (with_progress f note now) t out) (commit_ok d t tt h))

lease_ignored :
    (d : Driver) (until now : Stamp) (i : Text) (t : Table)
    → indexes_ok t ≡ true
    → All (λ s. runs i s ≡ false) t
    → extend_lease d none until now i t ≡ ok (t, tt)
unfolding extend_lease
lease_ignored d until now i t h out =
    rw (update_where_none (runs i) (with_lease until now) t out) (commit_ok d t tt h)

-- CompleteJob changes the row under the id whatever its state.
completes_anyway :
    (d : Driver) (note : Text) (now : Stamp) (i : Text) (r : Row) (t : Table)
    → indexes_ok t ≡ true
    → find_row (has_id i) t ≡ some r
    → (t' : Table) × (complete_job d none note now i t ≡ ok (t', tt))
      × (find_row (has_id i) t' ≡ some (completed note now r))
unfolding complete_job
completes_anyway d note now i r t h found =
    let t' : Table = update_where (has_id i) (completed note now) t in
    (
      t',
      commit_ok d t' tt (
          indexes_ok-update_where (has_id i) (completed note now)
            (λ s _. unfold completed in (refl, inr refl)) t h),
      find_row-update_id i (completed note now) t (λ s. unfold completed in refl) ∙ rw found,
    )

cancelled_stopped : (now : Stamp) (r : Row) → is_running (cancelled_at now r).state ≡ false
unfolding cancelled_at
cancelled_stopped now r = refl

-- On a table with unique ids and keys and without faults, a running job that is cancelled is not
-- stopped by its own reports. After the cancellation the worker's progress reports and lease
-- renewals return no error, whatever they carry, and change nothing; and when the handler then
-- returns, completing the job takes the row, which is cancelled, and makes it succeeded.
pub cancel_is_overwritten :
    (d : Driver) (at : Stamp) (i : Text) (t : Table) (r : Row)
    → indexes_ok t ≡ true
    → find_row (has_id i) t ≡ some r
    → is_running r.state ≡ true
    → (t' : Table) × (cancel_job d none at i t ≡ ok (t', count_where (cancellable i) t))
      × (find_row (has_id i) t' ≡ some (cancelled_at at r))
      × ((f : Float64) (note : Text) (now : Stamp)
          → update_job_progress d none f note now i t' ≡ ok (t', tt))
      × ((until now : Stamp) → extend_lease d none until now i t' ≡ ok (t', tt))
      × ((note : Text) (now : Stamp)
          → (t'' : Table) × (complete_job d none note now i t' ≡ ok (t'', tt))
            × (find_row (has_id i) t'' ≡ some (completed note now (cancelled_at at r))))
cancel_is_overwritten d at i t r h found live =
    let pends : pending r.state ≡ true = ground arith in
    let (t', done, _, fits, gone, _) = cancel_job_lem d none at i t r refl h found pends in
    let out : All (λ s. runs i s ≡ false) t' =
      none_runs i (cancelled_at at r) t' fits gone (cancelled_stopped at r) in
    (
      t',
      done,
      gone,
      λ f note now. progress_ignored d f note now i t' fits out,
      λ until now. lease_ignored d until now i t' fits out,
      λ note now. completes_anyway d note now i (cancelled_at at r) t' fits gone,
    )
