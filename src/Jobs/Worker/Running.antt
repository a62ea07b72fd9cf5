-- ===== src/Jobs/Worker/Running.antt =====
-- internal/jobs/worker.go: running one claimed job. What a handler does is a list of calls on its
-- Reporter, between which the lease is renewed, and a result. `none` is a panic outside it, of execute
-- or of the goroutine that it starts.
use manualbox.Prelude.{
  ℕ, Bool, false, ◌&&◌, Option, none, some, List, [], ◌∷◌, ◌++◌, if◌then◌else◌, leb,
}
use manualbox.Prelude.Int.{ℤ}
use manualbox.Prelude.Text.{Text, text}
use manualbox.Clock.{Instant}
use manualbox.Jobs.Progress.{Float64}
use manualbox.Jobs.Model.{event_for, JobsError}
use manualbox.Jobs.Table.{Driver}
use manualbox.Jobs.Queue.{publish_event}
use manualbox.Jobs.Backoff.{exponential_backoff}
use manualbox.Jobs.Worker.{
  Call, Pool, Working, finish_failed, finish_succeeded, has_handler, release, start_renewal,
  renew_lease, report_progress, report_usage, retry,
}

-- The error that a handler returns; whether it is the cancellation of the pool's context.
pub record HandlerError : Type 0 where
  pub message : Text
  pub is_cancellation : Bool

pub data HandlerEnd : Type 0 where
  returned : Option HandlerError → HandlerEnd
  panicked : Text → HandlerEnd

-- runHandler
unfoldable pub run_handler : HandlerEnd → Option HandlerError
run_handler (returned e) = e
run_handler (panicked v) =
    some (record { message = text "handler panicked: " ++ v; is_cancellation = false })

-- What happens while a handler runs: its own reports, and the ticks of renewLease.
pub data Report : Type 0 where
  progresses : Call → Float64 → Text → Report
  uses : Call → ℤ → ℤ → ℤ → Report
  renews : Call → Instant → Report

abbrev pub without_error : Option (Working × Option JobsError) → Option Working
without_error none = none
without_error (some (w, e)) = some w

unfoldable pub report : Driver → Pool → Report → Working → Option Working
report d p (progresses c f note) w = without_error (report_progress d c f note w)
report d p (uses c i o m) w = some (report_usage d c i o m w).0
report d p (renews c now) w = some (renew_lease d c now p w)

unfoldable pub run_reports : Driver → Pool → List Report → Working → Option Working
run_reports d p [] w = some w
run_reports d p (r ∷ rs) w = elim (report d p r w) [ none ↦ none | some w' ↦ run_reports d p rs w' ]

-- The switch at the end of execute. `done` is whether the pool's context is cancelled.
unfoldable pub settle :
    Driver → Call → (ℕ → ℕ) → Bool → Option HandlerError → Working → Option (Working × Bool)
settle d c source done none w = finish_succeeded d c w
settle d c source done (some e) w =
    if done && e.is_cancellation
    then release d c w
    else if leb w.job.max_attempts w.job.attempts
    then finish_failed d c e.message w
    else elim (exponential_backoff source w.job.attempts) [
      | none ↦ none
      | some delay ↦ retry d c e.message delay w
    ]

unfoldable pub no_handler : Text → Text
no_handler kind = text "no handler registered for job kind: " ++ kind

-- execute
unfoldable pub execute :
    Driver
    → Pool
    → Call
    → (ℕ → ℕ)
    → Bool
    → List Report
    → HandlerEnd
    → Working
    → Option (Working × Bool)
execute d p c source done reports end w =
    if has_handler w.job.kind p.handlers
    then elim (publish_event {A = Unit {0}} (event_for w.job) w.queue tt) [
      | none ↦ none
      | some (q, _) ↦ elim (start_renewal p) [
        | none ↦ none
        | some _ ↦ elim (run_reports d p reports (record { queue = q; job = w.job })) [
          | none ↦ none
          | some w' ↦ settle d c source done (run_handler end) w'
        ]
      ]
    ]
    else finish_failed d c (no_handler w.job.kind) w
