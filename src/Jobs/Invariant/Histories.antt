-- ===== src/Jobs/Invariant/Histories.antt =====
-- Histories of the statements of internal/db/gen/jobs.sql.go, against the invariant.
use manualbox.Prelude.{
  ◌≡◌, refl, Bool, true, false, ◌&&◌, not, Option, none, some, List, [], ◌∷◌, ◌++◌, arith, ok, err,
  Bool-cases, inl, inr,
}
use manualbox.Prelude.Int.{ℤ}
use manualbox.Prelude.Text.{Text}
use manualbox.Prelude.Lists.{All, All-append, All-keep}
use manualbox.Clock.{Stamp}
use manualbox.Jobs.Progress.{Float64, fits_column}
use manualbox.Jobs.Model.{Row}
use manualbox.Jobs.Table.{
  Table, Driver, Outcome, has_id, update_where, indexes_ok, commit, EnqueueParams, new_row,
  enqueue_job, runnable, ClaimParams, claimed, claim_next_job,
}
use manualbox.Jobs.Table.Order.{best_cases}
use manualbox.Jobs.Table.Indexes.{All-update_where, update_where_none}
use manualbox.Jobs.Statements.{
  runs, with_progress, any_row, update_job_progress, with_lease, extend_lease, with_usage,
  usage_overflows, record_job_usage, completed, complete_job, released, release_job, retried,
  retry_job, failed_with, fail_job, cancellable, cancelled_at, cancel_job, expired, reclaimed,
  reclaim_expired_leases, purgeable, delete_finished_jobs_before,
}
use manualbox.Jobs.Invariant.{RowOk, TableOk}
use manualbox.Jobs.Invariant.Rows.{
  new_row-RowOk, claimed-RowOk, with_progress-RowOk, with_lease-RowOk, with_usage-RowOk,
  completed-RowOk, released-RowOk, retried-RowOk, failed_with-RowOk, cancelled_at-RowOk,
  reclaimed-RowOk,
}

-- The statements on the table, with the arguments that the Go code passes.
pub data Statement : Type 0 where
  enqueue : EnqueueParams → Statement
  claim : ClaimParams → Statement
  progress : Float64 → Text → Stamp → Text → Statement
  extend : Stamp → Stamp → Text → Statement
  usage : ℤ → ℤ → ℤ → Stamp → Text → Statement
  complete : Text → Stamp → Text → Statement
  release : Stamp → Text → Statement
  retry : Text → Stamp → Stamp → Text → Statement
  fail : Text → Stamp → Text → Statement
  cancel : Stamp → Text → Statement
  reclaim : Stamp → Statement
  purge : Stamp → Statement

-- A statement that fails leaves the table as it was.
abbrev pub after : {A : Type 0} → Table → Outcome (Table × A) → Table
after t (ok (t', a)) = t'
after t (err e) = t

unfoldable pub exec : Driver → Option Text → Statement → Table → Table
exec d fault (enqueue a) t = after t (enqueue_job d fault a t)
exec d fault (claim a) t = after t (claim_next_job d fault a t)
exec d fault (progress f n now i) t = after t (update_job_progress d fault f n now i t)
exec d fault (extend until now i) t = after t (extend_lease d fault until now i t)
exec d fault (usage a b c now i) t = after t (record_job_usage d fault a b c now i t)
exec d fault (complete n now i) t = after t (complete_job d fault n now i t)
exec d fault (release now i) t = after t (release_job d fault now i t)
exec d fault (retry e later now i) t = after t (retry_job d fault e later now i t)
exec d fault (fail e now i) t = after t (fail_job d fault e now i t)
exec d fault (cancel now i) t = after t (cancel_job d fault now i t)
exec d fault (reclaim now) t = after t (reclaim_expired_leases d fault now t)
exec d fault (purge cutoff) t = after t (delete_finished_jobs_before d fault cutoff t)

-- A history: statements that the processes issue one after the other, each with its fault if any.
unfoldable pub run : Driver → List (Option Text × Statement) → Table → Table
run d [] t = t
run d ((fault, s) ∷ ss) t = run d ss (exec d fault s t)

commit-TableOk :
    {A : Type 0} (d : Driver) (fault : Option Text) (t t' : Table) (a : A)
    → TableOk t
    → All RowOk t'
    → TableOk (after t (commit d fault t' a))
unfolding commit
commit-TableOk d (some m) t t' a v h = v
commit-TableOk d none t t' a v h = elim (Bool-cases (indexes_ok t')) [
  | inl e ↦ rw e (record { unique = e; rows = h })
  | inr e ↦ rw e v
]

commit-update_where :
    {A : Type 0} (d : Driver) (fault : Option Text) (p : Row → Bool) (f : Row → Row) (t : Table)
    (a : A)
    → ((r : Row) → p r ≡ true → RowOk r → RowOk (f r))
    → TableOk t
    → TableOk (after t (commit d fault (update_where p f t) a))
commit-update_where d fault p f t a k v =
    commit-TableOk d fault t (update_where p f t) a v (All-update_where RowOk p f t k v.rows)

any_row-false : (p : Row → Bool) (t : Table) → any_row p t ≡ false → All (λ r. p r ≡ false) t
unfolding any_row
any_row-false p [] h = tt
any_row-false p (r ∷ t) h = (ground arith, any_row-false p t (ground arith))

usage_rows :
    (a b c : ℤ) (now : Stamp) (i : Text) (t : Table)
    → All (λ r. (has_id i r && usage_overflows a b c r) ≡ false) t
    → All RowOk t
    → All RowOk (update_where (has_id i) (with_usage a b c now) t)
unfolding update_where
usage_rows a b c now i [] h v = tt
usage_rows a b c now i (r ∷ t) h v = elim (Bool-cases (has_id i r)) [
  | inl e ↦
      rw e
        (with_usage-RowOk a b c now r (ground (arith, h.0)) v.0, usage_rows a b c now i t h.1 v.1)
  | inr e ↦ rw e (v.0, usage_rows a b c now i t h.1 v.1)
]

progress-TableOk :
    (d : Driver) (fault : Option Text) (f : Float64) (n : Text) (now : Stamp) (i : Text) (t : Table)
    → TableOk t
    → TableOk (exec d fault (progress f n now i) t)
unfolding exec update_job_progress
progress-TableOk d (some m) f n now i t v = v
progress-TableOk d none f n now i t v = elim (Bool-cases (fits_column f)) [
  | inl e ↦ elim (Bool-cases (any_row (runs i) t && not (fits_column f))) [
    | inl e' ↦ rw e' v
    | inr e' ↦ rw e' (
        commit-update_where d none (runs i) (with_progress f n now) t tt
          (λ r _ w. with_progress-RowOk f n now r e w) v)
  ]
  | inr e ↦ elim (Bool-cases (any_row (runs i) t)) [
    | inl e' ↦ rw (e, e') v
    | inr e' ↦
        rw (e, e')
          (commit-TableOk d none t (update_where (runs i) (with_progress f n now) t) tt v (
            rw (update_where_none (runs i) (with_progress f n now) t (any_row-false (runs i) t e'))
              v.rows))
  ]
]

usage-TableOk :
    (d : Driver) (fault : Option Text) (a b c : ℤ) (now : Stamp) (i : Text) (t : Table)
    → TableOk t
    → TableOk (exec d fault (usage a b c now i) t)
unfolding exec record_job_usage
usage-TableOk d (some m) a b c now i t v = v
usage-TableOk d none a b c now i t v =
    elim (Bool-cases (any_row (λ r. has_id i r && usage_overflows a b c r) t)) [
      | inl e ↦ rw e v
      | inr e ↦
          rw e
            (commit-TableOk d none t _ tt v (usage_rows a b c now i t (any_row-false _ t e) v.rows))
    ]

claim-TableOk :
    (d : Driver) (fault : Option Text) (a : ClaimParams) (t : Table)
    → TableOk t
    → TableOk (exec d fault (claim a) t)
unfolding exec claim_next_job
claim-TableOk d (some m) a t v = v
claim-TableOk d none a t v = elim (best_cases (runnable a.run_after) t) [
  | inl (e, _) ↦ rw (e, claim_next_job) v
  | inr (r, e, _) ↦
      rw (e, claim_next_job)
        (commit-update_where d none (has_id r.id) (claimed a) t (claimed a r)
          (λ s _ w. claimed-RowOk a s w) v)
]

-- Each statement keeps the table in order, with whatever arguments, also where it fails.
pub exec-TableOk :
    (d : Driver) (fault : Option Text) (s : Statement) (t : Table)
    → TableOk t
    → TableOk (exec d fault s t)
unfolding exec enqueue_job extend_lease complete_job release_job retry_job fail_job cancel_job
    reclaim_expired_leases delete_finished_jobs_before
exec-TableOk d fault (enqueue a) t v =
    commit-TableOk d fault t (t ++ (new_row a ∷ [])) (new_row a) v
      (All-append RowOk t (new_row a ∷ []) v.rows (new_row-RowOk a, tt))
exec-TableOk d fault (claim a) t v = claim-TableOk d fault a t v
exec-TableOk d fault (progress f n now i) t v = progress-TableOk d fault f n now i t v
exec-TableOk d fault (extend until now i) t v =
    commit-update_where d fault (runs i) (with_lease until now) t tt
      (λ r e w. with_lease-RowOk until now i r e w) v
exec-TableOk d fault (usage a b c now i) t v = usage-TableOk d fault a b c now i t v
exec-TableOk d fault (complete n now i) t v =
    commit-update_where d fault (has_id i) (completed n now) t tt
      (λ r _ w. completed-RowOk n now r w) v
exec-TableOk d fault (release now i) t v =
    commit-update_where d fault (runs i) (released now) t tt (λ r _ w. released-RowOk now r w) v
exec-TableOk d fault (retry e later now i) t v =
    commit-update_where d fault (has_id i) (retried e later now) t tt
      (λ r _ w. retried-RowOk e later now r w) v
exec-TableOk d fault (fail e now i) t v =
    commit-update_where d fault (has_id i) (failed_with e now) t tt
      (λ r _ w. failed_with-RowOk e now r w) v
exec-TableOk d fault (cancel now i) t v =
    commit-update_where d fault (cancellable i) (cancelled_at now) t _
      (λ r _ w. cancelled_at-RowOk now r w) v
exec-TableOk d fault (reclaim now) t v =
    commit-update_where d fault (expired now) (reclaimed now) t _ (λ r _ w. reclaimed-RowOk now r w)
      v
exec-TableOk d fault (purge cutoff) t v =
    commit-TableOk d fault t _ _ v (All-keep RowOk (λ r. not (purgeable cutoff r)) t v.rows)

run_from-TableOk :
    (d : Driver) (ss : List (Option Text × Statement)) (t : Table)
    → TableOk t
    → TableOk (run d ss t)
unfolding run
run_from-TableOk d [] t v = v
run_from-TableOk d ((fault, s) ∷ ss) t v =
    run_from-TableOk d ss (exec d fault s t) (exec-TableOk d fault s t v)

-- After any statements on an empty table, in any order and with any failures among them, the table
-- is in order.
pub run-TableOk : (d : Driver) (ss : List (Option Text × Statement)) → TableOk (run d ss [])
run-TableOk d ss =
    run_from-TableOk d ss [] (record { unique = unfold indexes_ok in refl; rows = tt })
