-- ===== src/Tests/Queues.antt =====
-- The theorems on Queue at a queue of three jobs with one subscriber.
use manualbox.Prelude.{◌≡◌, ◌≢◌, refl, true, false, none, some, [], ◌∷◌, ◌++◌, ◌⊎◌, inr, ok}
use manualbox.Prelude.Int.{pos}
use manualbox.Prelude.Text.{Text, text, text_eq}
use manualbox.Clock.{millis}
use manualbox.Jobs.Model.{
  Row, from_row, event_for, pending, already_queued, not_found, already_finished,
}
use manualbox.Jobs.Table.{has_id, find_row, indexes_ok, new_row, same_key}
use manualbox.Jobs.Statements.{cancelled_at}
use manualbox.Jobs.Reads.{holds_key}
use manualbox.Jobs.Broker.{Broker, publish}
use manualbox.Jobs.Broker.Safety.{IsSafe}
use manualbox.Jobs.Queue.{
  Queue, EnqueueOptions, EnqueueCall, accepted, encode, enqueue_params, enqueue, CancelCall, cancel,
}
use manualbox.Jobs.Queue.Enqueueing.{KeyFree, enqueue_fresh, enqueue_duplicate}
use manualbox.Jobs.Queue.Cancelling.{cancel_outcome}
use manualbox.Tests.{sqlite, waiting_row, jobs, jobs_unique, watched-IsSafe, full_queue}

abbrev new_call : EnqueueCall
new_call = record {
  id = text "d";
  run_now = 9000000;
  row_now = 9000000;
  insert_fault = none;
  find_fault = none;
}

abbrev keyed : Text → EnqueueOptions
keyed k = record { priority = pos 1; max_attempts = pos 0; dedupe_key = k; run_after = none }

kind_is_named : text_eq (text "ingest") [] ≡ false
unfolding text_eq
kind_is_named = refl

no_payload_encoded : encode none ≡ ok (text "{}")
unfolding encode
no_payload_encoded = refl

new_id : find_row (has_id (text "d")) jobs ≡ none
unfolding find_row text_eq
new_id = refl

key_free : KeyFree (text "n") jobs
unfolding find_row holds_key text_eq same_key
key_free = inr refl

abbrev new_job : Row
new_job = new_row (enqueue_params new_call (text "ingest") (text "{}") (keyed (text "n")))

enqueue_fresh_example :
    (b : Broker) × (enqueue sqlite new_call (text "ingest") none (keyed (text "n")) full_queue
      ≡ some (record { table = jobs ++ new_job ∷ []; broker = b }, accepted (from_row new_job)))
    × (publish (event_for (from_row new_job)) full_queue.broker ≡ some b)
    × IsSafe b
    × (indexes_ok (jobs ++ new_job ∷ []) ≡ true)
enqueue_fresh_example =
    enqueue_fresh sqlite new_call (text "ingest") (text "{}") none (keyed (text "n")) full_queue
      watched-IsSafe jobs_unique refl kind_is_named no_payload_encoded new_id key_free

key_is_named : text_eq (text "k") [] ≡ false
unfolding text_eq
key_is_named = refl

key_held : find_row (holds_key (text "k")) jobs ≡ some waiting_row
unfolding find_row holds_key text_eq same_key
key_held = refl

enqueue_duplicate_example :
    enqueue sqlite new_call (text "ingest") none (keyed (text "k")) full_queue
    ≡ some (full_queue, record { job = some (from_row waiting_row); error = some already_queued })
enqueue_duplicate_example =
    enqueue_duplicate sqlite new_call (text "ingest") (text "{}") none (keyed (text "k")) full_queue
      waiting_row refl refl kind_is_named no_payload_encoded key_is_named key_held

abbrev cancel_call : CancelCall
cancel_call = record { now = 15000000; cancel_fault = none; get_fault = none }

cancel_outcome_example :
    ((find_row (has_id (text "c")) jobs ≡ none)
      × (cancel sqlite cancel_call (text "c") full_queue
          ≡ some (full_queue, some (not_found (text "c")))))
    ⊎ ((r : Row) × (find_row (has_id (text "c")) jobs ≡ some r)
        × (pending r.state ≡ false)
        × (cancel sqlite cancel_call (text "c") full_queue
            ≡ some (full_queue, some (already_finished (text "c")))))
    ⊎ ((r : Row) × (q' : Queue) × (find_row (has_id (text "c")) jobs ≡ some r)
        × (pending r.state ≡ true)
        × (cancel sqlite cancel_call (text "c") full_queue ≡ some (q', none))
        × (find_row (has_id (text "c")) q'.table ≡ some (cancelled_at (millis 15000000) r))
        × ((j : Text) → j ≢ text "c" → find_row (has_id j) q'.table ≡ find_row (has_id j) jobs)
        × (publish (event_for (from_row (cancelled_at (millis 15000000) r))) full_queue.broker
            ≡ some q'.broker)
        × IsSafe q'.broker)
cancel_outcome_example =
    cancel_outcome sqlite cancel_call (text "c") full_queue watched-IsSafe jobs_unique refl refl
