-- ===== src/Tests/Tables.antt =====
-- The theorems on the table jobs at concrete rows.
use mathlib.Core.List.{Memᴰ}
use manualbox.Prelude.{
  ℕ, ◌≡◌, ◌≢◌, ◌+◌, refl, true, Option, none, some, List, [], ◌∷◌, ◌⊎◌, ok, err, arith,
}
use manualbox.Prelude.Text.{Text, text, text_eq, text_ltb}
use manualbox.Prelude.Lists.{count_where}
use manualbox.Jobs.Model.{is_running, Row, no_rows}
use manualbox.Jobs.Table.{
  Table, has_id, update_where, find_row, clash, clashes, same_key, indexes_ok, commit, runnable,
  precedes, first_of_two, best, claimed, claim_next_job,
}
use manualbox.Jobs.Table.Order.{NoneOf, Picked}
use manualbox.Jobs.Statements.{
  runs, with_lease, extend_lease, completed, complete_job, cancellable, cancelled_at, cancel_job,
  expired, reclaimed, reclaim_expired_leases,
}
use manualbox.Jobs.Invariant.{TableOk}
use manualbox.Jobs.Invariant.Histories.{
  Statement, enqueue, claim, extend, complete, cancel, reclaim, exec, run, run-TableOk,
}
use manualbox.Jobs.Claim.{claim_outcome}
use manualbox.Jobs.Holding.{keeps_hold, Keeping}
use manualbox.Jobs.Holding.Claims.{claim-run_claim}
use manualbox.Jobs.Leases.{Reclaiming, reclaim_outcome, reclaim-claim}
use manualbox.Tests.{
  sqlite, waiting_row, urgent_row, running_row, jobs, jobs_unique, claim_at_ten, first_params,
}

claim_outcome_example :
    ((claim_next_job sqlite none claim_at_ten jobs ≡ err no_rows) × NoneOf (runnable 10) jobs)
    ⊎ ((r : Row) × (t' : Table) × Picked (runnable 10) r jobs
        × (claim_next_job sqlite none claim_at_ten jobs ≡ ok (t', claimed claim_at_ten r))
        × (indexes_ok t' ≡ true)
        × (find_row (has_id r.id) t' ≡ some (claimed claim_at_ten r))
        × ((i : Text) → i ≢ r.id → find_row (has_id i) t' ≡ find_row (has_id i) jobs))
claim_outcome_example = claim_outcome sqlite claim_at_ten jobs jobs_unique

abbrev after_one : Table
after_one = waiting_row ∷ claimed claim_at_ten urgent_row ∷ running_row ∷ []

first_claim :
    claim_next_job sqlite none claim_at_ten jobs ≡ ok (after_one, claimed claim_at_ten urgent_row)
unfolding claim_next_job best first_of_two precedes runnable update_where commit indexes_ok clashes
    clash same_key text_eq text_ltb claimed
first_claim = refl

-- Between the claims the job is reported on, renewed and cancelled, and leases are reclaimed.
abbrev meanwhile : List (Option Text × Statement)
meanwhile =
    (none, extend 50 11 (text "b"))
    ∷ (some (text "disk full"), complete (text "done") 12 (text "b"))
    ∷ (none, reclaim 20)
    ∷ (none, cancel 12 (text "b"))
    ∷ []

meanwhile-Keeping : Keeping 20 (text "b") meanwhile
unfolding keeps_hold text_eq
meanwhile-Keeping = (refl, (refl, (refl, (refl, tt))))

abbrev after_two : Table
after_two =
    update_where (has_id waiting_row.id) (claimed claim_at_ten) (run sqlite meanwhile after_one)

second_claim :
    claim_next_job sqlite none claim_at_ten (run sqlite meanwhile after_one)
    ≡ ok (after_two, claimed claim_at_ten waiting_row)
unfolding claim_next_job best first_of_two precedes runnable update_where commit indexes_ok clashes
    clash same_key text_eq text_ltb claimed run exec extend_lease complete_job cancel_job
    reclaim_expired_leases runs with_lease completed cancellable cancelled_at expired reclaimed
second_claim = refl

claim-run_claim_example :
    (claimed claim_at_ten urgent_row).id ≢ (claimed claim_at_ten waiting_row).id
unfolding claimed
claim-run_claim_example =
    claim-run_claim sqlite none none claim_at_ten claim_at_ten 20 meanwhile jobs after_one after_two
      (claimed claim_at_ten urgent_row) (claimed claim_at_ten waiting_row) (omega arith) first_claim
      meanwhile-Keeping second_claim

abbrev history : List (Option Text × Statement)
history =
    (none, enqueue first_params)
    ∷ (some (text "disk full"), reclaim 7)
    ∷ (none, claim claim_at_ten)
    ∷ (none, reclaim 40)
    ∷ []

run-TableOk_example : TableOk (run sqlite history [])
run-TableOk_example = run-TableOk sqlite history

reclaim_outcome_example :
    (t' : Table) × (n : ℕ) × (reclaim_expired_leases sqlite none 25 jobs ≡ ok (t', n))
    × (indexes_ok t' ≡ true)
    × ((i : Text) → Reclaiming 25 (find_row (has_id i) jobs) (find_row (has_id i) t'))
    × (count_where (λ r. is_running r.state) t' + n ≡ count_where (λ r. is_running r.state) jobs)
    × (reclaim_expired_leases sqlite none 25 t' ≡ ok (t', 0))
reclaim_outcome_example = reclaim_outcome sqlite 25 jobs jobs_unique

expired-running_row : expired 25 running_row ≡ true
unfolding expired
expired-running_row = refl

reclaim-claim_example :
    (t' : Table) × (reclaim_expired_leases sqlite none 25 jobs
      ≡ ok (t', count_where (expired 25) jobs))
    × (find_row (has_id (text "c")) t' ≡ some (reclaimed 25 running_row))
    × (runnable 10 (reclaimed 25 running_row) ≡ true)
    × (claim_next_job sqlite none claim_at_ten t' ≢ err no_rows)
reclaim-claim_example =
    reclaim-claim sqlite 25 claim_at_ten jobs running_row jobs_unique
      (Memᴰ.tail (Memᴰ.tail (Memᴰ.head refl))) expired-running_row (omega arith)
