-- ===== src/Jobs/Worker/Effects.antt =====
-- What the methods of internal/jobs/worker.go on a claimed job do to the table: one statement, which
-- gives up no other job.
use manualbox.Prelude.{
  ℕ, ◌+◌, ◌≡◌, ◌≢◌, refl, sym, ◌∙◌, Bool, true, not, ◌&&◌, Option, none, some, ok, err, leb,
  Bool-cases, Option-cases, inl, inr, arith,
}
use manualbox.Prelude.Text.{Text, text_eq, text_eq_iff}
use manualbox.Clock.{Stamp, millis}
use manualbox.Jobs.Progress.{clamp}
use manualbox.Jobs.Model.{Job, Event}
use manualbox.Jobs.Table.{Table, Driver, Outcome}
use manualbox.Jobs.Invariant.Histories.{
  Statement, progress, extend, usage, complete, release, retry, fail, after, exec,
}
use manualbox.Jobs.Holding.{keeps_hold}
use manualbox.Jobs.Queue.{Queue, publish_event}
use manualbox.Jobs.Backoff.{exponential_backoff}
use manualbox.Jobs.Worker
use manualbox.Jobs.Worker.{
  Call, Pool, Working, record_outcome, finish_succeeded, finish_failed, record_progress,
  report_progress, record_usage, report_usage, keep_lease, renew_lease,
}
use manualbox.Jobs.Worker.Running.{
  HandlerError, Report, progresses, uses, renews, report, without_error, settle,
}

pub publish_event-table :
    {A : Type 0} (q q' : Queue) (ev : Event) (a b : A)
    → publish_event ev q a ≡ some (q', b)
    → q'.table ≡ q.table
publish_event-table q q' ev a b e = ground arith

record_outcome-table :
    (o : Outcome (Table × Unit {0})) (j : Job) (w w' : Working) (b : Bool)
    → record_outcome o j w ≡ some (w', b)
    → w'.queue.table ≡ after w.queue.table o
unfolding record_outcome
record_outcome-table (err m) j w w' b e = ground arith
record_outcome-table (ok (t, u)) j w w' b e = ground arith

-- The table and the id after a report.
record_progress-table :
    (o : Outcome (Table × Unit {0})) (j : Job) (w w' : Working)
    → j.id ≡ w.job.id
    → without_error (record_progress o j w) ≡ some w'
    → (w'.queue.table ≡ after w.queue.table o) × (w'.job.id ≡ w.job.id)
unfolding record_progress
record_progress-table (err m) j w w' s e = ground arith
record_progress-table (ok (t, u)) j w w' s e = ground arith

record_usage-table :
    (o : Outcome (Table × Unit {0})) (j : Job) (w : Working)
    → j.id ≡ w.job.id
    → ((record_usage o j w).0.queue.table ≡ after w.queue.table o)
      × ((record_usage o j w).0.job.id ≡ w.job.id)
unfolding record_usage
record_usage-table (err m) j w s = (refl, refl)
record_usage-table (ok (t, u)) j w s = (refl, s)

keep_lease-table :
    (o : Outcome (Table × Unit {0})) (w : Working)
    → ((keep_lease o w).queue.table ≡ after w.queue.table o) × ((keep_lease o w).job.id ≡ w.job.id)
unfolding keep_lease
keep_lease-table (err m) w = (refl, refl)
keep_lease-table (ok (t, u)) w = (refl, refl)

-- A statement that took `t` to `t'`, and gives up at most the job `i`, or none.
abbrev pub Does : Driver → Table → Table → (Text → Type 0) → Type 0
Does d t t' P =
    (fault : Option Text) × (st : Statement) × (t' ≡ exec d fault st t)
    × ((x : Text) → P x → keeps_hold 0 x st ≡ true)

pub some-injective : {A : Type 0} {a b : A} → some a ≡ some b → a ≡ b
some-injective e = cc

extend_keeps : (u now : Stamp) (j x : Text) → keeps_hold 0 x (extend u now j) ≡ true
unfolding keeps_hold
extend_keeps u now j x = ground arith

apart_keeps : (i x : Text) → x ≢ i → not (text_eq i x) ≡ true
apart_keeps i x ne = ground (arith, text_eq_iff i x)

-- A report or a renewal is a statement that gives up no job, and the worker's copy keeps its id.
pub report_lem :
    (d : Driver) (p : Pool) (r : Report) (w w' : Working)
    → report d p r w ≡ some w'
    → Does d w.queue.table w'.queue.table (λ x. Unit {0}) × (w'.job.id ≡ w.job.id)
unfolding report report_progress report_usage renew_lease exec keeps_hold
report_lem d p (progresses c f note) w w' e =
    let (t, i) = record_progress-table _ _ w w' refl e in
    ((c.fault, progress (clamp f) note (millis c.now) w.job.id, t, λ x _. refl), i)
report_lem d p (uses c i o m) w w' e =
    let same : (report_usage d c i o m w).0 ≡ w' = some-injective e in
    let (t, k) = record_usage-table _ _ w refl in
    rw (sym same) ((c.fault, usage i o m (millis c.now) w.job.id, t, λ x _. refl), k)
report_lem d p (renews c now) w w' e =
    let same : renew_lease d c now p w ≡ w' = some-injective e in
    let (t, k) = keep_lease-table _ w in
    rw (sym same) (
      (
        c.fault,
        extend (millis (c.now + p.lease)) (millis now) w.job.id,
        t,
        λ x _. extend_keeps (millis (c.now + p.lease)) (millis now) w.job.id x,
      ),
      k,
    )

-- What settle records is one statement, which gives up no job but the worker's.
pub settle_lem :
    (d : Driver) (c : Call) (source : ℕ → ℕ) (done : Bool) (res : Option HandlerError)
    (w w' : Working) (b : Bool)
    → settle d c source done res w ≡ some (w', b)
    → Does d w.queue.table w'.queue.table (λ x. x ≢ w.job.id)
unfolding settle finish_succeeded finish_failed Worker.retry Worker.release exec keeps_hold
settle_lem d c source done none w w' b e = (
  c.fault,
  complete w.job.progress_note (millis c.now) w.job.id,
  record_outcome-table _ _ w w' b e,
  λ x _. refl,
)
settle_lem d c source done (some q) w w' b e = elim (Bool-cases (done && q.is_cancellation)) [
  | inl z ↦
      let e' : Worker.release d c w ≡ some (w', b) = sym (rw (z, settle) refl) ∙ e in
      (
        c.fault,
        release (millis c.now) w.job.id,
        record_outcome-table _ _ w w' b e',
        λ x ne. apart_keeps w.job.id x ne,
      )
  | inr z ↦ elim (Bool-cases (leb w.job.max_attempts w.job.attempts)) [
    | inl y ↦
        let e' : finish_failed d c q.message w ≡ some (w', b) =
          sym (rw (z, settle) (rw y refl)) ∙ e in
        (
          c.fault,
          fail q.message (millis c.now) w.job.id,
          record_outcome-table _ _ w w' b e',
          λ x _. refl,
        )
    | inr y ↦ elim (Option-cases (exponential_backoff source w.job.attempts)) [
      | inl k ↦
          let bad : ◌≡◌ {A = Option (Working × Bool)} none (some (w', b)) =
            sym (rw (z, settle) (rw (y, k) refl)) ∙ e in
          cc
      | inr (delay, k) ↦
          let e' : Worker.retry d c q.message delay w ≡ some (w', b) =
            sym (rw (z, settle) (rw (y, k) refl)) ∙ e in
          (
            c.fault,
            retry q.message (millis (c.now + delay)) (millis c.now) w.job.id,
            record_outcome-table _ _ w w' b e',
            λ x ne. apart_keeps w.job.id x ne,
          )
    ]
  ]
]

-- So is what execute records for a kind without a handler.
pub finish_failed_lem :
    (d : Driver) (c : Call) (cause : Text) (w w' : Working) (b : Bool)
    → finish_failed d c cause w ≡ some (w', b)
    → Does d w.queue.table w'.queue.table (λ x. x ≢ w.job.id)
unfolding finish_failed exec keeps_hold
finish_failed_lem d c cause w w' b e =
    (c.fault, fail cause (millis c.now) w.job.id, record_outcome-table _ _ w w' b e, λ x _. refl)
