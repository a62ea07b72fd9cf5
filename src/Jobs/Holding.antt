-- ===== src/Jobs/Holding.antt =====
-- A claimed job among the statements of all workers, internal/db/gen/jobs.sql.go: who may hold it.
pub mod Claims
use mathlib.Core.List.{Memᴰ}
use manualbox.Prelude.{
  ◌≤◌, ◌≡◌, ◌≢◌, refl, sym, ap, ◌∙◌, Bool, true, false, not, ◌&&◌, ◌||◌, Option, none, some, List,
  [], ◌∷◌, ◌++◌, arith, ok, err, ok-injective, Bool-cases, inl, inr, leb,
}
use manualbox.Prelude.Int.{ℤ}
use manualbox.Prelude.Text.{Text, text_eq, text_eq_iff, text_eq_refl}
use manualbox.Prelude.Lists.{All, All-Mem, All-append, All-keep}
use manualbox.Clock.{Stamp}
use manualbox.Jobs.Progress.{Float64, fits_column}
use manualbox.Jobs.Model.{is_queued, is_running, Row, DbError, no_rows}
use manualbox.Jobs.Table.{
  Table, Driver, has_id, update_where, indexes_ok, commit, EnqueueParams, new_row, enqueue_job,
  runnable, ClaimParams, claimed, claim_next_job,
}
use manualbox.Jobs.Table.Order.{best_cases}
use manualbox.Jobs.Table.Indexes.{All-update_where}
use manualbox.Jobs.Statements.{
  runs, with_progress, any_row, update_job_progress, with_lease, extend_lease, with_usage,
  usage_overflows, record_job_usage, completed, complete_job, released, release_job, retried,
  retry_job, failed_with, fail_job, cancellable, cancelled_at, cancel_job, expired, reclaimed,
  reclaim_expired_leases, purgeable, delete_finished_jobs_before,
}
use manualbox.Jobs.Invariant.Histories.{
  Statement, enqueue, claim, progress, extend, usage, complete, release, retry, fail, cancel,
  reclaim, purge, after, exec, run,
}

-- A statement that does not give the job `i` up before `until`: it is no release or retry of it and
-- no insertion under its id, it renews its lease to no earlier time, and reclaims at no later one.
unfoldable pub keeps_hold : Stamp → Text → Statement → Bool
keeps_hold until i (enqueue a) = not (text_eq a.id i)
keeps_hold until i (extend u now j) = not (text_eq j i) || leb until u
keeps_hold until i (release now j) = not (text_eq j i)
keeps_hold until i (retry e later now j) = not (text_eq j i)
keeps_hold until i (reclaim now) = leb now until
keeps_hold until i _ = true

abbrev lasts : Stamp → Option Stamp → Bool
lasts until none = false
lasts until (some u) = leb until u

-- A row that is not the job `i`, or is held: not queued and, if it runs, leased until `until`.
unfoldable pub is_held : Stamp → Text → Row → Bool
is_held until i r =
    not (text_eq r.id i)
    || (not (is_queued r.state) && (not (is_running r.state) || lasts until r.lease_until))

abbrev pub Held : Stamp → Text → Table → Type 0
Held until i t = All (λ r. is_held until i r ≡ true) t

pub commit-Held :
    {A : Type 0} (d : Driver) (fault : Option Text) (until : Stamp) (i : Text) (t t' : Table)
    (a : A)
    → Held until i t
    → Held until i t'
    → Held until i (after t (commit d fault t' a))
unfolding commit
commit-Held d (some m) until i t t' a v h = v
commit-Held d none until i t t' a v h = elim (Bool-cases (indexes_ok t')) [
  | inl e ↦ rw e h
  | inr e ↦ rw e v
]

commit-update-Held :
    {A : Type 0} (d : Driver) (fault : Option Text) (until : Stamp) (i : Text) (p : Row → Bool)
    (f : Row → Row) (t : Table) (a : A)
    → ((r : Row) → p r ≡ true → is_held until i r ≡ true → is_held until i (f r) ≡ true)
    → Held until i t
    → Held until i (after t (commit d fault (update_where p f t) a))
commit-update-Held d fault until i p f t a k v =
    commit-Held d fault until i t (update_where p f t) a v
      (All-update_where (λ r. is_held until i r ≡ true) p f t k v)

is_held_apart :
    (until : Stamp) (i j : Text) (f : Row → Row) (r : Row)
    → ((s : Row) → (f s).id ≡ s.id)
    → not (text_eq j i) ≡ true
    → has_id j r ≡ true
    → is_held until i (f r) ≡ true
unfolding is_held
is_held_apart until i j f r k apart e =
    let same : r.id ≡ j = (text_eq_iff r.id j).0 e in rw (k r, same) (ground arith)

-- A claim takes a queued row, which is not the job held.
claim-Held :
    (d : Driver) (fault : Option Text) (a : ClaimParams) (until : Stamp) (i : Text) (t : Table)
    → Held until i t
    → Held until i (exec d fault (claim a) t)
unfolding exec claim_next_job is_held runnable
claim-Held d (some m) a until i t v = v
claim-Held d none a until i t v = elim (best_cases (runnable a.run_after) t) [
  | inl (e, _) ↦ rw (e, claim_next_job) v
  | inr (r, e, (passes, here, _)) ↦
      let guarded : is_held until i r ≡ true = All-Mem (λ s. is_held until i s ≡ true) r t here v in
      let apart : not (text_eq r.id i) ≡ true = ground arith in
      rw (e, claim_next_job)
        (commit-update-Held d none until i (has_id r.id) (claimed a) t (claimed a r)
          (λ s h _. is_held_apart until i r.id (claimed a) s (unfold claimed in λ u. refl) apart h)
          v)
]

progress-Held :
    (d : Driver) (fault : Option Text) (until : Stamp) (i : Text) (f : Float64) (n : Text)
    (now : Stamp) (j : Text) (t : Table)
    → Held until i t
    → Held until i (exec d fault (progress f n now j) t)
unfolding exec update_job_progress is_held with_progress
progress-Held d (some m) until i f n now j t v = v
progress-Held d none until i f n now j t v =
    elim (Bool-cases (any_row (runs j) t && not (fits_column f))) [
      | inl e ↦ rw e v
      | inr e ↦
          rw e
            (commit-update-Held d none until i (runs j) (with_progress f n now) t tt (λ r _ h. h) v)
    ]

usage-Held :
    (d : Driver) (fault : Option Text) (until : Stamp) (i : Text) (x y z : ℤ) (now : Stamp)
    (j : Text) (t : Table)
    → Held until i t
    → Held until i (exec d fault (usage x y z now j) t)
unfolding exec record_job_usage is_held with_usage
usage-Held d (some m) until i x y z now j t v = v
usage-Held d none until i x y z now j t v =
    elim (Bool-cases (any_row (λ r. has_id j r && usage_overflows x y z r) t)) [
      | inl e ↦ rw e v
      | inr e ↦
          rw e (
            commit-update-Held d none until i (has_id j) (with_usage x y z now) t tt (λ r _ h. h) v)
    ]

with_lease-is_held :
    (until u now : Stamp) (i j : Text) (r : Row)
    → keeps_hold until i (extend u now j) ≡ true
    → runs j r ≡ true
    → is_held until i r ≡ true
    → is_held until i (with_lease u now r) ≡ true
unfolding keeps_hold runs is_held with_lease
with_lease-is_held until u now i j r k e h = elim (Bool-cases (text_eq j i)) [
  | inl same ↦ ground arith
  | inr apart ↦
      is_held_apart until i j (with_lease u now) r (λ s. refl) (ground arith) (ground arith)
]

reclaimed-is_held :
    (until now : Stamp) (i : Text) (r : Row)
    → leb now until ≡ true
    → expired now r ≡ true
    → is_held until i r ≡ true
    → is_held until i (reclaimed now r) ≡ true
unfolding expired is_held reclaimed
reclaimed-is_held until now i r k e h = ground arith

enqueue_job-Held :
    (d : Driver) (fault : Option Text) (a : EnqueueParams) (until : Stamp) (i : Text) (t : Table)
    → not (text_eq a.id i) ≡ true
    → Held until i t
    → Held until i (after t (enqueue_job d fault a t))
unfolding enqueue_job new_row is_held
enqueue_job-Held d fault a until i t k v =
    commit-Held d fault until i t (t ++ (new_row a ∷ [])) (new_row a) v
      (All-append (λ r. is_held until i r ≡ true) t (new_row a ∷ []) v (ground arith, tt))

pub exec-Held :
    (d : Driver) (fault : Option Text) (s : Statement) (until : Stamp) (i : Text) (t : Table)
    → keeps_hold until i s ≡ true
    → Held until i t
    → Held until i (exec d fault s t)
unfolding exec keeps_hold is_held extend_lease complete_job completed release_job released retry_job
    retried fail_job failed_with cancel_job cancelled_at reclaim_expired_leases
    delete_finished_jobs_before runs
exec-Held d fault (enqueue a) until i t k v = enqueue_job-Held d fault a until i t k v
exec-Held d fault (claim a) until i t k v = claim-Held d fault a until i t v
exec-Held d fault (progress f n now j) until i t k v = progress-Held d fault until i f n now j t v
exec-Held d fault (extend u now j) until i t k v =
    commit-update-Held d fault until i (runs j) (with_lease u now) t tt
      (λ r e h. with_lease-is_held until u now i j r k e h) v
exec-Held d fault (usage x y z now j) until i t k v = usage-Held d fault until i x y z now j t v
exec-Held d fault (complete n now j) until i t k v =
    commit-update-Held d fault until i (has_id j) (completed n now) t tt (λ r _ _. ground arith) v
exec-Held d fault (release now j) until i t k v =
    commit-update-Held d fault until i (runs j) (released now) t tt
      (λ r e _. is_held_apart until i j (released now) r (λ s. refl) k (ground arith)) v
exec-Held d fault (retry e later now j) until i t k v =
    commit-update-Held d fault until i (has_id j) (retried e later now) t tt
      (λ r h _. is_held_apart until i j (retried e later now) r (λ s. refl) k h) v
exec-Held d fault (fail e now j) until i t k v =
    commit-update-Held d fault until i (has_id j) (failed_with e now) t tt (λ r _ _. ground arith) v
exec-Held d fault (cancel now j) until i t k v =
    commit-update-Held d fault until i (cancellable j) (cancelled_at now) t _
      (λ r _ _. ground arith) v
exec-Held d fault (reclaim now) until i t k v =
    commit-update-Held d fault until i (expired now) (reclaimed now) t _
      (λ r e h. reclaimed-is_held until now i r k e h) v
exec-Held d fault (purge cutoff) until i t k v =
    commit-Held d fault until i t _ _ v
      (All-keep (λ r. is_held until i r ≡ true) (λ r. not (purgeable cutoff r)) t v)

abbrev pub Keeping : Stamp → Text → List (Option Text × Statement) → Type 0
Keeping until i ss = All (λ x. keeps_hold until i x.1 ≡ true) ss

-- Statements that keep the job's hold keep it held.
pub run-Held :
    (d : Driver) (ss : List (Option Text × Statement)) (until : Stamp) (i : Text) (t : Table)
    → Keeping until i ss
    → Held until i t
    → Held until i (run d ss t)
unfolding run
run-Held d [] until i t k v = v
run-Held d ((fault, s) ∷ ss) until i t k v =
    run-Held d ss until i (exec d fault s t) k.1 (exec-Held d fault s until i t k.0 v)
