-- ===== src/Jobs/Worker/Execution.antt =====
-- The whole of execute of internal/jobs/worker.go, its panics and failures included.
use manualbox.Prelude.{
  ℕ, ◌<◌, ◌≡◌, refl, ap, Bool, true, false, ◌&&◌, Option, none, some, List, [], ◌∷◌, ok, err, leb,
  Bool-cases, inl, inr, ◌⊎◌, ◌==◌, arith,
}
use manualbox.Prelude.Text.{Text}
use manualbox.Jobs.Model.{Job, event_for, JobsError, wrapped}
use manualbox.Jobs.Table.{Table, Driver, Outcome}
use manualbox.Jobs.Broker.{publish}
use manualbox.Jobs.Broker.Safety.{IsSafe}
use manualbox.Jobs.Broker.Delivery.{publish_total}
use manualbox.Jobs.Queue.{publish_event}
use manualbox.Jobs.Backoff.{exponential_backoff_bounds}
use manualbox.Jobs.Worker.{
  Pool, Call, Working, record_outcome, finish_succeeded, finish_failed, retry, release,
  report_progress, report_usage, start_renewal, renew_lease, record_progress, record_usage,
  keep_lease, has_handler,
}
use manualbox.Jobs.Worker.Running.{
  HandlerError, HandlerEnd, run_handler, no_handler, Report, without_error, progresses, uses,
  renews, report, run_reports, settle, execute,
}

-- A source of random numbers respects the bound that it is asked for.
abbrev pub IsFair : (ℕ → ℕ) → Type 0
IsFair source = (n : ℕ) → 0 < n → source n < n

abbrev pub InOrder : Working → Type 0
InOrder w = IsSafe w.queue.broker

-- An outcome that the database took is kept and published.
pub record_outcome_ok :
    (t : Table) (u : Unit {0}) (job : Job) (w : Working)
    → InOrder w
    → (w' : Working) × (record_outcome (ok (t, u)) job w ≡ some (w', true))
      × (w'.queue.table ≡ t)
      × (w'.job ≡ job)
      × (publish (event_for job) w.queue.broker ≡ some w'.queue.broker)
      × InOrder w'
unfolding record_outcome
record_outcome_ok t u job w v =
    let (b, sent, v', _, _) = publish_total (event_for job) w.queue.broker v in
    (
      record { queue = record { table = t; broker = b }; job = job },
      rw (sent, record_outcome),
      refl,
      refl,
      sent,
      v',
    )

record_outcome_total :
    (o : Outcome (Table × Unit {0})) (job : Job) (w : Working)
    → InOrder w
    → (w' : Working) × (b : Bool) × (record_outcome o job w ≡ some (w', b)) × InOrder w'
record_outcome_total (err e) job w v = (w, false, unfold record_outcome in refl, v)
record_outcome_total (ok (t, u)) job w v =
    let (w', e, _, _, _, v') = record_outcome_ok t u job w v in (w', true, e, v')

finish_failed_total :
    (d : Driver) (c : Call) (cause : Text) (w : Working)
    → InOrder w
    → (w' : Working) × (b : Bool) × (finish_failed d c cause w ≡ some (w', b)) × InOrder w'
unfolding finish_failed
finish_failed_total d c cause w v = record_outcome_total _ _ w v

settle_total :
    (d : Driver) (c : Call) (source : ℕ → ℕ) (done : Bool) (e : Option HandlerError) (w : Working)
    → IsFair source
    → InOrder w
    → (w' : Working) × (b : Bool) × (settle d c source done e w ≡ some (w', b)) × InOrder w'
unfolding settle finish_succeeded finish_failed retry release
settle_total d c source done none w fair v = record_outcome_total _ _ w v
settle_total d c source done (some e) w fair v = elim (Bool-cases (done && e.is_cancellation)) [
  | inl h ↦ rw h (record_outcome_total _ _ w v)
  | inr h ↦ elim (Bool-cases (leb w.job.max_attempts w.job.attempts)) [
    | inl k ↦ rw (h, k) (record_outcome_total _ _ w v)
    | inr k ↦
        let (delay, back, _, _, _, _) = exponential_backoff_bounds source w.job.attempts fair in
        rw (h, k) (rw back (record_outcome_total _ _ w v))
  ]
]

record_progress_total :
    (o : Outcome (Table × Unit {0})) (job : Job) (w : Working)
    → InOrder w
    → (w' : Working) × (e : Option JobsError) × (record_progress o job w ≡ some (w', e))
      × InOrder w'
unfolding record_progress
record_progress_total (err x) job w v = (w, some (wrapped x), refl, v)
record_progress_total (ok (t, u)) job w v =
    let (b, sent, v', _, _) = publish_total (event_for job) w.queue.broker v in
    (
      record { queue = record { table = t; broker = b }; job = job },
      none,
      rw (sent, record_progress),
      v',
    )

record_usage-InOrder :
    (o : Outcome (Table × Unit {0})) (job : Job) (w : Working)
    → InOrder w
    → InOrder (record_usage o job w).0
unfolding record_usage
record_usage-InOrder (err x) job w v = v
record_usage-InOrder (ok (t, u)) job w v = v

keep_lease-InOrder :
    (o : Outcome (Table × Unit {0})) (w : Working) → InOrder w → InOrder (keep_lease o w)
unfolding keep_lease
keep_lease-InOrder (err x) w v = v
keep_lease-InOrder (ok (t, u)) w v = v

report_total :
    (d : Driver) (p : Pool) (r : Report) (w : Working)
    → InOrder w
    → (w' : Working) × (report d p r w ≡ some w') × InOrder w'
unfolding report report_progress report_usage renew_lease
report_total d p (progresses c f note) w v =
    let (w', e, done, v') = record_progress_total _ _ w v in (w', ap without_error done, v')
report_total d p (uses c i o m) w v = (_, refl, record_usage-InOrder _ _ w v)
report_total d p (renews c now) w v = (_, refl, keep_lease-InOrder _ w v)

run_reports_total :
    (d : Driver) (p : Pool) (rs : List Report) (w : Working)
    → InOrder w
    → (w' : Working) × (run_reports d p rs w ≡ some w') × InOrder w'
unfolding run_reports
run_reports_total d p [] w v = (w, refl, v)
run_reports_total d p (r ∷ rs) w v =
    let (w', e, v') = report_total d p r w v in
    let (w'', e', v'') = run_reports_total d p rs w' v' in (w'', rw (e, run_reports) e', v'')

-- On a broker in order and with a source of random numbers that respects its bound: whatever the
-- handler does, reports and returns, and whichever database calls fail, execute returns and the
-- broker stays in order, with one exception. A job of a kind that has a handler, in a pool whose
-- renewal interval is zero, ends in a panic, that of time.NewTicker; no panic of the handler does.
pub execute_outcome :
    (d : Driver) (p : Pool) (c : Call) (source : ℕ → ℕ) (done : Bool) (reports : List Report)
    (end : HandlerEnd) (w : Working)
    → IsFair source
    → IsSafe w.queue.broker
    → ((has_handler w.job.kind p.handlers ≡ true)
        × (p.renew_interval ≡ 0)
        × (execute d p c source done reports end w ≡ none))
      ⊎ (((has_handler w.job.kind p.handlers ≡ false) ⊎ (0 < p.renew_interval))
          × (w' : Working) × (b : Bool) × (execute d p c source done reports end w ≡ some (w', b))
          × IsSafe w'.queue.broker)
unfolding execute start_renewal
execute_outcome d p c source done reports end w fair v =
    elim (Bool-cases (has_handler w.job.kind p.handlers)) [
      | inr e ↦
          let (w', b, told, v') = finish_failed_total d c (no_handler w.job.kind) w v in
          inr (inl e, w', b, rw (e, execute) told, v')
      | inl e ↦
          let (b, sent, v', _, _) = publish_total (event_for w.job) w.queue.broker v in
          let w₁ : Working = record {
            queue = record { table = w.queue.table; broker = b };
            job = w.job;
          } in
          let (w₂, ran, v₂) = run_reports_total d p reports w₁ v' in
          let (w₃, ok_, settled, v₃) = settle_total d c source done (run_handler end) w₂ fair v₂ in
          elim (Bool-cases (p.renew_interval == 0)) [
            | inl k ↦ inl (e, ground arith, rw (e, execute) (rw (sent, publish_event) (rw k refl)))
            | inr k ↦
                let ticks : 0 < p.renew_interval = ground arith in
                inr (
                  inr ticks,
                  w₃,
                  ok_,
                  rw (e, execute) (rw (sent, publish_event) (rw k (rw ran settled))),
                  v₃,
                )
          ]
    ]
