-- ===== src/Jobs/Table.antt =====
-- The table jobs and its statements, internal/db/gen/jobs.sql.go. A table is the list of its rows.
-- A statement runs whole or fails and changes nothing: with `fault` a message, the driver fails
-- before it; otherwise the schema's unique indexes and checks decide.
pub mod Order
pub mod Indexes
pub mod Lookups
pub mod Appends
use manualbox.Prelude.{
  ℕ, suc, ◌+◌, ◌-◌, ◌^◌, ◌≡◌, Bool, true, false, not, ◌&&◌, ◌||◌, Option, none, some, List, [], ◌∷◌,
  ◌++◌, Result, ok, err, if◌then◌else◌, ltb, leb,
}
use manualbox.Prelude.Int.{ℤ, pos, negsuc, ltb_ℤ, ◌+ℤ◌}
use manualbox.Prelude.Text.{Text, text, text_eq, text_ltb, contains, to_lower}
use manualbox.Prelude.Lists.{take, keep, count_where}
use manualbox.Clock.{Stamp}
use manualbox.Jobs.Progress.{Float64, zero_float, one_float, fits_column}
use manualbox.Jobs.Model.{
  State, queued, running, succeeded, failed, cancelled, terminal, pending, is_queued, is_running,
  state_eq, Row, DbError, no_rows, driver_error,
}

abbrev pub Table : Type 0
Table = List Row

-- isUniqueViolation, queue.go
unfoldable pub is_unique_violation : DbError → Bool
is_unique_violation no_rows = false
is_unique_violation (driver_error m) = contains (to_lower m) (text "unique constraint failed")

-- The SQLite driver: the message of a uniqueness failure, which the code tells from the others,
-- and that of a failed check.
pub record Driver : Type 0 where
  pub unique_message : Text
  pub check_message : Text
  pub unique_is_recognised : is_unique_violation (driver_error unique_message) ≡ true
  pub check_is_not : is_unique_violation (driver_error check_message) ≡ false

abbrev pub Outcome : Type 0 → Type 0
Outcome = Result DbError

-- WHERE id = ?
abbrev pub has_id : Text → Row → Bool
has_id i r = text_eq r.id i

unfoldable pub update_where : (Row → Bool) → (Row → Row) → Table → Table
update_where p f [] = []
update_where p f (r ∷ t) = (if p r then f r else r) ∷ update_where p f t

unfoldable pub find_row : (Row → Bool) → Table → Option Row
find_row p [] = none
find_row p (r ∷ t) = if p r then some r else find_row p t

-- The entry of a row in the partial unique index jobs_dedupe_idx.
abbrev index_key : State → Option Text → Option Text
index_key queued k = k
index_key running k = k
index_key _ k = none

abbrev pub pending_key : Row → Option Text
pending_key r = index_key r.state r.dedupe_key

unfoldable pub same_key : Option Text → Option Text → Bool
same_key none o = false
same_key (some k) none = false
same_key (some k) (some l) = text_eq k l

-- Two rows that the primary key or the dedupe index forbids to stand together.
unfoldable pub clash : Row → Row → Bool
clash r s = text_eq r.id s.id || same_key (pending_key r) (pending_key s)

unfoldable pub clashes : Row → Table → Bool
clashes r [] = false
clashes r (s ∷ t) = clash r s || clashes r t

unfoldable pub indexes_ok : Table → Bool
indexes_ok [] = true
indexes_ok (r ∷ t) = not (clashes r t) && indexes_ok t

-- The end of a statement that leaves the table `t` and returns `a`.
unfoldable pub commit : {A : Type 0} → Driver → Option Text → Table → A → Outcome (Table × A)
commit d (some m) t a = err (driver_error m)
commit d none t a = if indexes_ok t then ok (t, a) else err (driver_error d.unique_message)

-- EnqueueJobParams
pub record EnqueueParams : Type 0 where
  pub id : Text
  pub kind : Text
  pub payload : Text
  pub priority : ℤ
  pub max_attempts : ℕ
  pub dedupe_key : Option Text
  pub run_after : Stamp
  pub created_at : Stamp
  pub updated_at : Stamp

unfoldable pub new_row : EnqueueParams → Row
new_row a = record {
  id = a.id;
  kind = a.kind;
  payload = a.payload;
  state = queued;
  priority = a.priority;
  progress = zero_float;
  progress_note = [];
  attempts = 0;
  max_attempts = a.max_attempts;
  last_error = [];
  tokens_in = pos 0;
  tokens_out = pos 0;
  cost_micros = pos 0;
  run_after = a.run_after;
  lease_until = none;
  worker = [];
  dedupe_key = a.dedupe_key;
  created_at = a.created_at;
  updated_at = a.updated_at;
  started_at = none;
  finished_at = none;
}

-- EnqueueJob. The new row is the last of the list.
unfoldable pub enqueue_job : Driver → Option Text → EnqueueParams → Table → Outcome (Table × Row)
unfolding new_row commit
enqueue_job d fault a t = commit d fault (t ++ (new_row a ∷ [])) (new_row a)

-- state = 'queued' AND run_after <= ?
unfoldable pub runnable : Stamp → Row → Bool
runnable now r = is_queued r.state && leb r.run_after now

-- ORDER BY priority DESC, id: `r` comes before `s`.
unfoldable pub precedes : Row → Row → Bool
precedes r s =
    ltb_ℤ s.priority r.priority || (not (ltb_ℤ r.priority s.priority) && text_ltb r.id s.id)

unfoldable pub first_of_two : Row → Option Row → Row
unfolding precedes
first_of_two r none = r
first_of_two r (some s) = if precedes s r then s else r

-- ... ORDER BY priority DESC, id LIMIT 1
unfoldable pub best : (Row → Bool) → Table → Option Row
unfolding first_of_two
best p [] = none
best p (r ∷ t) = let rest = best p t in if p r then some (first_of_two r rest) else rest

unfoldable pub coalesce : {A : Type 0} → Option A → A → A
coalesce none a = a
coalesce (some b) a = b

-- ClaimNextJobParams
pub record ClaimParams : Type 0 where
  pub worker : Text
  pub lease_until : Stamp
  pub started_at : Stamp
  pub updated_at : Stamp
  pub run_after : Stamp

unfoldable pub claimed : ClaimParams → Row → Row
unfolding coalesce
claimed a r = record r {
  state = running;
  attempts = r.attempts + 1;
  lease_until = some a.lease_until;
  worker = a.worker;
  updated_at = a.updated_at;
  started_at = some (coalesce r.started_at a.started_at);
}

-- ClaimNextJob, RETURNING the row as updated
unfoldable pub claim_next_job : Driver → Option Text → ClaimParams → Table → Outcome (Table × Row)
unfolding runnable commit
claim_next_job d (some m) a t = err (driver_error m)
claim_next_job d none a t = elim (best (runnable a.run_after) t) [
  | none ↦ err no_rows
  | some r ↦ commit d none (update_where (has_id r.id) (claimed a) t) (claimed a r)
]
