-- ===== src/Tests/Pools.antt =====
-- Two workers that claim one after the other, and a worker that crashes.
use manualbox.Prelude.{
  ◌≡◌, refl, false, ◌&&◌, none, some, ℕ, ◌+◌, ◌*◌, ◌≤◌, true, List, [], ◌∷◌, arith,
}
use manualbox.Prelude.Text.{text, text_eq, text_ltb}
use manualbox.Prelude.Lists.{All}
use manualbox.Clock.{Instant, millisecond, minute, millis}
use manualbox.Jobs.Model.{Row, is_queued, from_row}
use manualbox.Jobs.Table.{
  update_where, clash, clashes, same_key, indexes_ok, commit, runnable, precedes, first_of_two,
  best, claimed, claim_next_job,
}
use manualbox.Jobs.Statements.{reclaim_expired_leases}
use manualbox.Jobs.Worker
use manualbox.Jobs.Worker.{Pool}
use manualbox.Jobs.Worker.Loops.{
  System, set_phase, holder, after_claim, start_pool, moved, Step, Reach,
}
use manualbox.Jobs.Worker.Handing.{Claimed}
use manualbox.Jobs.Worker.Exclusion.{Reach-exclusive}
use manualbox.Jobs.Queue.{Queue}
use manualbox.Jobs.Worker.Crashes.{Round, crash_rounds, IsForward, crash_rounds_unbounded}
use manualbox.Tests.{sqlite, full_queue, waiting_row}

abbrev pair : Pool
pair = record { handlers = []; workers = 2; poll = 5; lease = minute; renew_interval = 20 }

abbrev at_start : System
at_start = start_pool sqlite pair (some (text "busy")) millisecond full_queue

abbrev claim_of : System → Claimed
claim_of s = Worker.claim sqlite none (text "w") (10 * millisecond) pair s.queue

abbrev after_claim_by : ℕ → System → System
after_claim_by i s = moved s i (claim_of s).0 (after_claim s.cancelled (claim_of s).1)

abbrev both_busy : System
both_busy = after_claim_by 1 (after_claim_by 0 at_start)

both_reached : Reach sqlite pair at_start both_busy
unfolding start_pool set_phase
both_reached =
    Reach.next
      (Reach.next Reach.here (
        Step.claims 0 (text "w") none (10 * millisecond) (claim_of at_start).0 (claim_of at_start).1
          refl refl))
      (Step.claims 1 (text "w") none (10 * millisecond) (claim_of (after_claim_by 0 at_start)).0
        (claim_of (after_claim_by 0 at_start)).1 refl refl)

second_has : holder (both_busy.phases 1) ≡ some (text "a")
unfolding start_pool set_phase after_claim Worker.claim Worker.reclaim claim_next_job best
    first_of_two precedes runnable update_where commit indexes_ok clashes clash same_key text_eq
    text_ltb claimed from_row millis reclaim_expired_leases
second_has = refl

Reach-exclusive_example :
    ((k : ℕ) → holder (both_busy.phases k) ≡ some (text "a") → 1 ≡ k)
    × All (λ r. (text_eq r.id (text "a") && is_queued r.state) ≡ false) both_busy.queue.table
Reach-exclusive_example =
    Reach-exclusive sqlite pair (some (text "busy")) millisecond full_queue both_busy both_reached 1
      (text "a") second_has

-- Five crashes take a job of three attempts to five.
abbrev crash : ℕ → Round
crash n = record {
  worker = text "w";
  claimed_at = n * minute;
  reclaimed_at = (n + 1) * minute + millisecond;
}

abbrev crashes : List Round
crashes = crash 1 ∷ crash 3 ∷ crash 5 ∷ crash 7 ∷ crash 9 ∷ []

abbrev one_job : Queue
one_job = record full_queue { table = waiting_row ∷ [] }

crashes-IsForward : IsForward pair minute crashes
unfolding millis
crashes-IsForward = (
  omega arith,
  omega arith,
  (
    omega arith,
    omega arith,
    (omega arith, omega arith, (omega arith, omega arith, (omega arith, omega arith, tt))),
  ),
)

runnable-waiting_row : runnable (millis minute) waiting_row ≡ true
unfolding runnable millis
runnable-waiting_row = refl

crash_rounds_unbounded_example :
    (r' : Row) × ((crash_rounds sqlite pair crashes one_job).table ≡ r' ∷ [])
    × ((at : Instant) → minute ≤ at → runnable (millis at) r' ≡ true)
    × (r'.attempts ≡ 0 + 5)
    × (r'.max_attempts ≡ 3)
crash_rounds_unbounded_example =
    crash_rounds_unbounded sqlite pair minute crashes one_job waiting_row refl runnable-waiting_row
      crashes-IsForward (omega arith)
