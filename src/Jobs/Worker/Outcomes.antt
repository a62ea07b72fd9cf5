-- ===== src/Jobs/Worker/Outcomes.antt =====
-- The outcomes that execute of internal/jobs/worker.go records.
use manualbox.Prelude.{
  ℕ, ◌+◌, ◌-◌, ◌*◌, ◌≤◌, ◌<◌, ◌≡◌, ◌≢◌, refl, ◌∙◌, Bool, true, false, ◌&&◌, Option, none, some,
  arith, ok, leb, leb→le, Bool-cases, ◌⊎◌, inl, inr,
}
use manualbox.Prelude.Text.{Text}
use manualbox.Clock.{millis}
use manualbox.Jobs.Progress.{one_float}
use manualbox.Jobs.Model.{Row, Job, is_running, queued, succeeded, failed}
use manualbox.Jobs.Table.{
  Table, Driver, Outcome, has_id, update_where, find_row, indexes_ok, commit,
}
use manualbox.Jobs.Table.Indexes.{indexes_ok-update_where, IsGentle, KeepsId, commit_ok}
use manualbox.Jobs.Table.Lookups.{
  changed_id, find_row-update_where, find_row-update_apart, find_row-update_other, find_row-some,
  indexes_ok-update_id, find_row-update_id,
}
use manualbox.Jobs.Statements.{
  completed, complete_job, released, release_job, retried, retry_job, failed_with, fail_job, runs,
}
use manualbox.Jobs.Broker.Safety.{IsSafe}
use manualbox.Jobs.Backoff.{exponential_backoff_bounds, nominal_delay}
use manualbox.Jobs.Worker.{
  Call, Working, record_outcome, finish_succeeded, finish_failed, retry, release,
}
use manualbox.Jobs.Worker.Running.{HandlerError, settle}
use manualbox.Jobs.Worker.Execution.{IsFair, InOrder, record_outcome_ok}

-- A statement that leaves in the table `r'` under the id, and every other row as it was.
abbrev pub Leaves : Text → Row → Table → Table → Type 0
Leaves i r' t t' =
    (indexes_ok t' ≡ true)
    × (find_row (has_id i) t' ≡ some r')
    × ((j : Text) → j ≢ i → find_row (has_id j) t' ≡ find_row (has_id j) t)

-- An unguarded update of a running row.
update_running :
    (d : Driver) (fault : Option Text) (f : Row → Row) (i : Text) (r : Row) (t : Table)
    → KeepsId f
    → IsGentle (λ s. has_id i s && is_running s.state) f
    → fault ≡ none
    → indexes_ok t ≡ true
    → find_row (has_id i) t ≡ some r
    → is_running r.state ≡ true
    → (t' : Table) × (commit d fault (update_where (has_id i) f t) tt ≡ ok (t', tt))
      × Leaves i (f r) t t'
update_running d fault f i r t k g calm h found runs =
    let fits : indexes_ok (update_where (has_id i) f t) ≡ true =
      indexes_ok-update_id (λ s. is_running s.state) f i r t g h found runs in
    (
      update_where (has_id i) f t,
      rw calm (commit_ok d (update_where (has_id i) f t) tt fits),
      (fits, find_row-update_id i f t k ∙ rw found, λ j ne. find_row-update_other j i f t k ne),
    )

runs-IsGentle : (now : ℕ) (i : Text) → IsGentle (runs i) (released now)
unfolding runs released
runs-IsGentle now i r h = (refl, inl (ground arith))

runs_own : (i : Text) (r : Row) → runs i r ≡ true → has_id i r ≡ true
unfolding runs
runs_own i r h = ground arith

released_id : (now : ℕ) → KeepsId (released now)
unfolding released
released_id now r = refl

release_lem :
    (d : Driver) (fault : Option Text) (now : ℕ) (i : Text) (r : Row) (t : Table)
    → fault ≡ none
    → indexes_ok t ≡ true
    → find_row (has_id i) t ≡ some r
    → is_running r.state ≡ true
    → (t' : Table) × (release_job d fault now i t ≡ ok (t', tt)) × Leaves i (released now r) t t'
unfolding release_job
release_lem d fault now i r t calm h found live =
    let t' : Table = update_where (runs i) (released now) t in
    let fits : indexes_ok t' ≡ true =
      indexes_ok-update_where (runs i) (released now) (runs-IsGentle now i) t h in
    let own : has_id i r ≡ true = (find_row-some (has_id i) t r found).0 in
    let can : runs i r ≡ true = unfold runs in rw (own, live) in
    (
      t',
      rw calm (commit_ok d t' tt fits),
      (
        fits,
        find_row-update_where (runs i) (released now) i t
              (changed_id (runs i) (released now) (released_id now))
            ∙ rw found (rw can),
        λ j ne.
            find_row-update_apart i j (runs i) (released now) t (released_id now) (runs_own i) ne,
      ),
    )

complete_lem :
    (d : Driver) (fault : Option Text) (note : Text) (now : ℕ) (i : Text) (r : Row) (t : Table)
    → fault ≡ none
    → indexes_ok t ≡ true
    → find_row (has_id i) t ≡ some r
    → is_running r.state ≡ true
    → (t' : Table) × (complete_job d fault note now i t ≡ ok (t', tt))
      × Leaves i (completed note now r) t t'
unfolding complete_job
complete_lem d fault note now i r t =
    update_running d fault (completed note now) i r t (λ s. unfold completed in refl)
      (λ s _. unfold completed in (refl, inr refl))

fail_lem :
    (d : Driver) (fault : Option Text) (e : Text) (now : ℕ) (i : Text) (r : Row) (t : Table)
    → fault ≡ none
    → indexes_ok t ≡ true
    → find_row (has_id i) t ≡ some r
    → is_running r.state ≡ true
    → (t' : Table) × (fail_job d fault e now i t ≡ ok (t', tt))
      × Leaves i (failed_with e now r) t t'
unfolding fail_job
fail_lem d fault e now i r t =
    update_running d fault (failed_with e now) i r t (λ s. unfold failed_with in refl)
      (λ s _. unfold failed_with in (refl, inr refl))

retried-IsGentle :
    (e : Text) (after now : ℕ) (i : Text)
    → IsGentle (λ s. has_id i s && is_running s.state) (retried e after now)
unfolding retried
retried-IsGentle e after now i s h = (refl, inl (ground arith))

retry_lem :
    (d : Driver) (fault : Option Text) (e : Text) (after now : ℕ) (i : Text) (r : Row) (t : Table)
    → fault ≡ none
    → indexes_ok t ≡ true
    → find_row (has_id i) t ≡ some r
    → is_running r.state ≡ true
    → (t' : Table) × (retry_job d fault e after now i t ≡ ok (t', tt))
      × Leaves i (retried e after now r) t t'
unfolding retry_job
retry_lem d fault e after now i r t =
    update_running d fault (retried e after now) i r t (λ s. unfold retried in refl)
      (retried-IsGentle e after now i)

recorded :
    (o : Outcome (Table × Unit {0})) (t t' : Table) (i : Text) (r' : Row) (job : Job) (w : Working)
    → InOrder w
    → o ≡ ok (t', tt)
    → Leaves i r' t t'
    → (w' : Working) × (record_outcome o job w ≡ some (w', true)) × Leaves i r' t w'.queue.table
recorded o t t' i r' job w v e l =
    let (w', done, same, _, _, _) = record_outcome_ok t' tt job w v in (w', rw e done, rw same l)

-- What execute records for a job that is running in a table with unique ids and keys, on a broker
-- in order, when the statement meets no fault and the source of random numbers respects its bound.
-- No error: the job succeeds with full progress. A cancellation while the pool's context is
-- cancelled: it is queued again, due at once, with the attempt given back. Another error with no
-- attempt left: it fails with the error. Else it is queued again with the error, due after a delay
-- of more than three quarters of the nominal one and of at most all of it. Each time that row
-- alone changes.
pub settle_outcome :
    (d : Driver) (c : Call) (source : ℕ → ℕ) (done : Bool) (e : Option HandlerError) (w : Working)
    (r : Row)
    → IsFair source
    → IsSafe w.queue.broker
    → c.fault ≡ none
    → indexes_ok w.queue.table ≡ true
    → find_row (has_id w.job.id) w.queue.table ≡ some r
    → is_running r.state ≡ true
    → (w' : Working) × (settle d c source done e w ≡ some (w', true))
      × (((e ≡ none)
            × Leaves w.job.id
                (completed w.job.progress_note (millis c.now) r)
                w.queue.table
                w'.queue.table)
          ⊎ ((x : HandlerError) × (e ≡ some x)
              × (((done && x.is_cancellation ≡ true)
                    × Leaves w.job.id (released (millis c.now) r) w.queue.table w'.queue.table)
                  ⊎ ((done && x.is_cancellation ≡ false)
                      × (((w.job.max_attempts ≤ w.job.attempts)
                            × Leaves w.job.id
                                (failed_with x.message (millis c.now) r)
                                w.queue.table
                                w'.queue.table)
                          ⊎ ((w.job.attempts < w.job.max_attempts)
                              × (delay : ℕ) × (3 * nominal_delay (w.job.attempts - 1) < 4 * delay)
                              × (delay ≤ nominal_delay (w.job.attempts - 1))
                              × Leaves w.job.id
                                  (retried x.message (millis (c.now + delay)) (millis c.now) r)
                                  w.queue.table
                                  w'.queue.table))))))
unfolding settle finish_succeeded finish_failed retry release
settle_outcome d c source done none w r fair v calm h found live =
    let (t', ran, left) =
      complete_lem d c.fault w.job.progress_note (millis c.now) w.job.id r w.queue.table calm h
        found live in
    let (w', kept, out) =
      recorded _ w.queue.table t' w.job.id _
        (record (w.job) { state = succeeded; progress = one_float }) w v ran left in
    (w', kept, inl (refl, out))
settle_outcome d c source done (some x) w r fair v calm h found live =
    elim (Bool-cases (done && x.is_cancellation)) [
      | inl stop ↦
          let (t', ran, left) =
            release_lem d c.fault (millis c.now) w.job.id r w.queue.table calm h found live in
          let (w', kept, out) =
            recorded _ w.queue.table t' w.job.id _ (record (w.job) { state = queued }) w v ran
              left in
          (w', rw stop kept, inr (x, refl, inl (stop, out)))
      | inr on ↦ elim (Bool-cases (leb w.job.max_attempts w.job.attempts)) [
        | inl last ↦
            let (t', ran, left) =
              fail_lem d c.fault x.message (millis c.now) w.job.id r w.queue.table calm h found
                live in
            let (w', kept, out) =
              recorded _ w.queue.table t' w.job.id _
                (record (w.job) { state = failed; last_error = x.message }) w v ran left in
            (
              w',
              rw (on, last) kept,
              inr (x, refl, inr (on, inl (leb→le w.job.max_attempts w.job.attempts last, out))),
            )
        | inr more ↦
            let (delay, back, low, high, _, _) =
              exponential_backoff_bounds source w.job.attempts fair in
            let (t', ran, left) =
              retry_lem d c.fault x.message (millis (c.now + delay)) (millis c.now) w.job.id r
                w.queue.table calm h found live in
            let (w', kept, out) =
              recorded _ w.queue.table t' w.job.id _
                (record (w.job) { state = queued; last_error = x.message }) w v ran left in
            (
              w',
              rw (on, more) (rw back kept),
              inr (x, refl, inr (on, inr (ground arith, delay, low, high, out))),
            )
      ]
    ]
