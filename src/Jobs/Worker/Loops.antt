-- ===== src/Jobs/Worker/Loops.antt =====
-- Run, worker, reclaimLoop and sleepCtx of internal/jobs/worker.go: the workers of a pool, the
-- reclaimer and everyone else, one call on the queue at a time, in any order. A timer may fire at any
-- time, and a context may be cancelled at any time. A renewal of the lease happens only while the handler
-- runs. The panic of the tickers on a renewal interval of zero is left out, so runs go on after it.
use manualbox.Prelude.{
  ℕ, ◌≡◌, ◌≢◌, Bool, true, false, ◌&&◌, Option, none, some, Result, ok, err, if◌then◌else◌, ltb,
  ◌==◌,
}
use manualbox.Prelude.Text.{Text, text_eq}
use manualbox.Prelude.Lists.{All}
use manualbox.Clock.{Instant, millis}
use manualbox.Jobs.Model.{Job, event_for, DbError}
use manualbox.Jobs.Table.{Driver}
use manualbox.Jobs.Statements.{expired}
use manualbox.Jobs.Invariant.Histories.{Statement, enqueue, cancel, purge, exec}
use manualbox.Jobs.Broker.{Broker}
use manualbox.Jobs.Queue.{Queue, publish_event}
use manualbox.Jobs.Worker.{Call, Pool, Working, claim, reclaim, finish_failed, has_handler}
use manualbox.Jobs.Worker.Running.{HandlerEnd, run_handler, Report, report, settle, no_handler}

-- Where a worker stands: at the top of its loop, in sleepCtx, with a job just claimed, while the
-- handler of its job runs, or returned.
pub data Phase : Type 0 where
  looping napping stopped : Phase
  starting handling : Job → Phase

-- The shared state; `cancelled` is that of the context of Run.
pub record System : Type 0 where
  pub queue : Queue
  pub phases : ℕ → Phase
  pub cancelled : Bool

unfoldable pub set_phase : (ℕ → Phase) → ℕ → Phase → ℕ → Phase
set_phase f i ph k = if k == i then ph else f k

-- The id of the job that a worker has.
abbrev pub holder : Phase → Option Text
holder (starting j) = some j.id
holder (handling j) = some j.id
holder _ = none

-- The switch of worker on what claim returned.
unfoldable pub after_claim : Bool → Result DbError (Option Job) → Phase
after_claim cancelled (err e) = if cancelled then stopped else napping
after_claim cancelled (ok none) = napping
after_claim cancelled (ok (some j)) = starting j

-- Run, up to the start of its goroutines
unfoldable pub start_pool : Driver → Pool → Option Text → Instant → Queue → System
start_pool d p fault now q = record {
  queue = (reclaim d fault now q).0;
  phases = λ i. if ltb i p.workers then looping else stopped;
  cancelled = false;
}

abbrev pub working_on : System → Job → Working
working_on s j = record { queue = s.queue; job = j }

abbrev pub moved : System → ℕ → Queue → Phase → System
moved s i q ph = record s { queue = q; phases = set_phase s.phases i ph }

-- What other parts of the program do with the table: Enqueue with a new id, Cancel and the purge.
abbrev pub IsOutside : System → Statement → Type 0
IsOutside s (enqueue a) = (i : ℕ) → holder (s.phases i) ≢ some a.id
IsOutside s (cancel now i) = Unit {0}
IsOutside s (purge cutoff) = Unit {0}
IsOutside s _ = ⊥

-- No worker has a job whose lease has ended, which is what renewLease is for.
abbrev pub IsRenewed : Instant → System → Type 0
IsRenewed now s =
    (i : ℕ) (x : Text)
    → holder (s.phases i) ≡ some x
    → All (λ r. (text_eq r.id x && expired (millis now) r) ≡ false) s.queue.table

pub data Step (d : Driver) (p : Pool) (s : System) : System → Type 0 where
  cancels : Step d p s (record s { cancelled = true })
  reclaims :
      (fault : Option Text) (now : Instant)
      → IsRenewed now s
      → Step d p s (record s { queue = (reclaim d fault now s.queue).0 })
  outsides :
      (fault : Option Text) (st : Statement) (b : Broker)
      → IsOutside s st
      → Step d p s
          (record s { queue = record { table = exec d fault st s.queue.table; broker = b } })
  stops :
      (i : ℕ)
      → s.cancelled ≡ true
      → holder (s.phases i) ≡ none
      → Step d p s (moved s i s.queue stopped)
  wakes : (i : ℕ) → s.phases i ≡ napping → Step d p s (moved s i s.queue looping)
  claims :
      (i : ℕ) (worker : Text) (fault : Option Text) (now : Instant) (q : Queue)
      (got : Result DbError (Option Job))
      → s.phases i ≡ looping
      → claim d fault worker now p s.queue ≡ (q, got)
      → Step d p s (moved s i q (after_claim s.cancelled got))
  starts :
      (i : ℕ) (j : Job) (q : Queue)
      → s.phases i ≡ starting j
      → has_handler j.kind p.handlers ≡ true
      → publish_event {A = Unit {0}} (event_for j) s.queue tt ≡ some (q, tt)
      → Step d p s (moved s i q (handling j))
  refuses :
      (i : ℕ) (j : Job) (c : Call) (w : Working) (b : Bool)
      → s.phases i ≡ starting j
      → has_handler j.kind p.handlers ≡ false
      → finish_failed d c (no_handler j.kind) (working_on s j) ≡ some (w, b)
      → Step d p s (moved s i w.queue looping)
  reports :
      (i : ℕ) (j : Job) (r : Report) (w : Working)
      → s.phases i ≡ handling j
      → report d p r (working_on s j) ≡ some w
      → Step d p s (moved s i w.queue (handling w.job))
  finishes :
      (i : ℕ) (j : Job) (c : Call) (source : ℕ → ℕ) (end : HandlerEnd) (w : Working) (b : Bool)
      → s.phases i ≡ handling j
      → settle d c source s.cancelled (run_handler end) (working_on s j) ≡ some (w, b)
      → Step d p s (moved s i w.queue looping)

-- What the pool can come to from its start.
pub data Reach (d : Driver) (p : Pool) (start : System) : System → Type 0 where
  here : Reach d p start start
  next : {s t : System} → Reach d p start s → Step d p s t → Reach d p start t
