-- ===== src/Tests/Workers.antt =====
-- The theorems on Pool, ExponentialBackoff, Progress and the clock at concrete calls.
use manualbox.Prelude.{
  ℕ, ◌≡◌, ◌+◌, ◌-◌, ◌*◌, ◌≤◌, ◌<◌, refl, Bool, true, false, ◌&&◌, Option, none, some, List, [], ◌∷◌,
  ◌⊎◌, ok, arith,
}
use manualbox.Prelude.Int.{pos}
use manualbox.Prelude.Text.{Text, text, text_eq}
use manualbox.Prelude.Lists.{count_where}
use manualbox.Clock.{Stamp, millis, millisecond, minute}
use manualbox.Jobs.Progress.{Float64, nan}
use manualbox.Jobs.Model.{from_row}
use manualbox.Jobs.Table.{Table, has_id, find_row}
use manualbox.Jobs.Statements.{
  completed, released, failed_with, retried, cancellable, cancelled_at, cancel_job,
  update_job_progress, extend_lease, complete_job,
}
use manualbox.Jobs.Broker.Safety.{IsSafe}
use manualbox.Jobs.Backoff.{nominal_delay, exponential_backoff, exponential_backoff_bounds}
use manualbox.Jobs.Worker.{Pool, new_pool, register, has_handler, Working}
use manualbox.Jobs.Worker.Running.{
  HandlerError, panicked, Report, progresses, uses, renews, settle, execute,
}
use manualbox.Jobs.Worker.Execution.{IsFair, execute_outcome}
use manualbox.Jobs.Worker.Outcomes.{Leaves, settle_outcome}
use manualbox.Jobs.Worker.Cancellation.{cancel_is_overwritten}
use manualbox.Tests.{sqlite, running_row, jobs, jobs_unique, watched-IsSafe, working, calm_call}

-- A source of random numbers that always gives the greatest one.
abbrev greatest : ℕ → ℕ
greatest n = n - 1

greatest-IsFair : IsFair greatest
greatest-IsFair n h = omega arith

running_row_found : find_row (has_id (text "c")) jobs ≡ some running_row
unfolding find_row text_eq
running_row_found = refl

abbrev failure : HandlerError
failure = record { message = text "no model"; is_cancellation = false }

settle_outcome_example :
    (w' : Working) × (settle sqlite calm_call greatest false (some failure) working
      ≡ some (w', true))
    × ((◌≡◌ {A = Option HandlerError} (some failure) none
          × Leaves (text "c") (completed [] (millis 15000000) running_row) jobs w'.queue.table)
        ⊎ ((x : HandlerError) × (some failure ≡ some x)
            × (((false && x.is_cancellation ≡ true)
                  × Leaves (text "c") (released (millis 15000000) running_row) jobs w'.queue.table)
                ⊎ ((false && x.is_cancellation ≡ false)
                    × (((3 ≤ 1)
                          × Leaves
                              (text "c")
                              (failed_with x.message (millis 15000000) running_row)
                              jobs
                              w'.queue.table)
                        ⊎ ((1 < 3)
                            × (delay : ℕ) × (3 * nominal_delay 0 < 4 * delay)
                            × (delay ≤ nominal_delay 0)
                            × Leaves
                                (text "c")
                                (retried x.message
                                  (millis (15000000 + delay))
                                  (millis 15000000)
                                  running_row)
                                jobs
                                w'.queue.table))))))
unfolding from_row
settle_outcome_example =
    settle_outcome sqlite calm_call greatest false (some failure) working running_row
      greatest-IsFair watched-IsSafe refl jobs_unique running_row_found refl

abbrev pool : Pool
pool = register (text "ingest") (
    new_pool (record {
      workers = pos 0;
      poll_interval = pos 0;
      lease_duration = pos 0;
      max_attempts = pos 0;
    }))

abbrev reports : List Report
reports =
    progresses calm_call nan (text "reading")
    ∷ renews calm_call 16000000
    ∷ uses calm_call (pos 10) (pos 5) (pos 1)
    ∷ []

execute_outcome_example :
    ((has_handler (text "ingest") pool.handlers ≡ true)
      × (pool.renew_interval ≡ 0)
      × (execute sqlite pool calm_call greatest false reports (panicked (text "boom")) working
          ≡ none))
    ⊎ (((has_handler (text "ingest") pool.handlers ≡ false) ⊎ (0 < pool.renew_interval))
        × (w' : Working) × (b : Bool) × (execute sqlite pool calm_call greatest false reports
              (panicked (text "boom"))
              working
            ≡ some (w', b))
        × IsSafe w'.queue.broker)
unfolding from_row
execute_outcome_example =
    execute_outcome sqlite pool calm_call greatest false reports (panicked (text "boom")) working
      greatest-IsFair watched-IsSafe

cancel_is_overwritten_example :
    (t' : Table) × (cancel_job sqlite none 15 (text "c") jobs
      ≡ ok (t', count_where (cancellable (text "c")) jobs))
    × (find_row (has_id (text "c")) t' ≡ some (cancelled_at 15 running_row))
    × ((f : Float64) (note : Text) (now : Stamp)
        → update_job_progress sqlite none f note now (text "c") t' ≡ ok (t', tt))
    × ((until now : Stamp) → extend_lease sqlite none until now (text "c") t' ≡ ok (t', tt))
    × ((note : Text) (now : Stamp)
        → (t'' : Table) × (complete_job sqlite none note now (text "c") t' ≡ ok (t'', tt))
          × (find_row (has_id (text "c")) t''
              ≡ some (completed note now (cancelled_at 15 running_row))))
cancel_is_overwritten_example =
    cancel_is_overwritten sqlite 15 (text "c") jobs running_row jobs_unique running_row_found refl

exponential_backoff_bounds_example :
    (delay : ℕ) × (exponential_backoff greatest 200 ≡ some delay)
    × (3 * nominal_delay 199 < 4 * delay)
    × (delay ≤ nominal_delay 199)
    × (3750 * millisecond < delay)
    × (delay ≤ 10 * minute)
exponential_backoff_bounds_example = exponential_backoff_bounds greatest 200 greatest-IsFair
