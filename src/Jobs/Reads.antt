-- ===== src/Jobs/Reads.antt =====
-- The statements of internal/db/gen/jobs.sql.go that only read. Rows that ORDER BY leaves equal
-- keep the table's order, one of the orders that SQL allows.
pub mod Listing
use manualbox.Prelude.{
  ℕ, Bool, not, ◌&&◌, ◌||◌, Option, none, some, List, [], ◌∷◌, ok, err, if◌then◌else◌, ltb, ◌==◌,
}
use manualbox.Prelude.Int.{ltb_ℤ}
use manualbox.Prelude.Text.{Text}
use manualbox.Prelude.Lists.{take, keep, count_where}
use manualbox.Jobs.Model.{
  State, queued, running, succeeded, failed, cancelled, pending, state_eq, Row, no_rows,
  driver_error,
}
use manualbox.Jobs.Table.{Table, Outcome, has_id, find_row, same_key}

unfoldable pub one_row : Option Text → Option Row → Outcome Row
one_row (some m) o = err (driver_error m)
one_row none none = err no_rows
one_row none (some r) = ok r

unfoldable pub many_rows : {A : Type 0} → Option Text → A → Outcome A
many_rows (some m) a = err (driver_error m)
many_rows none a = ok a

-- GetJob
unfoldable pub get_job : Option Text → Text → Table → Outcome Row
unfolding one_row
get_job fault i t = one_row fault (find_row (has_id i) t)

-- dedupe_key = ? AND state IN ('queued', 'running')
unfoldable pub holds_key : Text → Row → Bool
holds_key k r = same_key r.dedupe_key (some k) && pending r.state

-- GetPendingJobByDedupeKey
unfoldable pub get_pending_job_by_dedupe_key : Option Text → Text → Table → Outcome Row
unfolding one_row
get_pending_job_by_dedupe_key fault k t = one_row fault (find_row (holds_key k) t)

-- ORDER BY, for a test that tells when one row comes before another.
unfoldable pub insert_row : (Row → Row → Bool) → Row → Table → Table
insert_row precedes r [] = r ∷ []
insert_row precedes r (s ∷ t) =
    let rest = insert_row precedes r t in if precedes s r then s ∷ rest else r ∷ s ∷ t

unfoldable pub order_by : (Row → Row → Bool) → Table → Table
unfolding insert_row
order_by precedes [] = []
order_by precedes (r ∷ t) = insert_row precedes r (order_by precedes t)

-- created_at DESC
unfoldable pub newer : Row → Row → Bool
newer r s = ltb s.created_at r.created_at

-- priority DESC, created_at
unfoldable pub more_urgent : Row → Row → Bool
more_urgent r s =
    ltb_ℤ s.priority r.priority
    || (not (ltb_ℤ r.priority s.priority) && ltb r.created_at s.created_at)

-- ListJobs
unfoldable pub list_jobs : Option Text → ℕ → Table → Outcome Table
unfolding many_rows order_by newer
list_jobs fault limit t = many_rows fault (take limit (order_by newer t))

-- ListJobsByState
unfoldable pub list_jobs_by_state : Option Text → State → ℕ → Table → Outcome Table
unfolding many_rows order_by newer
list_jobs_by_state fault s limit t =
    many_rows fault (take limit (order_by newer (keep (λ r. state_eq s r.state) t)))

-- ListActiveJobs
unfoldable pub list_active_jobs : Option Text → Table → Outcome Table
unfolding many_rows order_by more_urgent
list_active_jobs fault t = many_rows fault (order_by more_urgent (keep (λ r. pending r.state) t))

-- CountJobsByState: a group for each state that has rows.
unfoldable pub all_states : List State
all_states = queued ∷ running ∷ succeeded ∷ failed ∷ cancelled ∷ []

unfoldable pub groups : List State → Table → List (State × ℕ)
groups [] t = []
groups (s ∷ ss) t =
    let rest = groups ss t in
    let n = count_where (λ r. state_eq s r.state) t in if n == 0 then rest else (s, n) ∷ rest

unfoldable pub count_jobs_by_state : Option Text → Table → Outcome (List (State × ℕ))
unfolding many_rows groups all_states
count_jobs_by_state fault t = many_rows fault (groups all_states t)
