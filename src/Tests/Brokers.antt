-- ===== src/Tests/Brokers.antt =====
-- The theorems on Broker at small histories.
use manualbox.Prelude.{◌≡◌, ◌≤◌, ◌+◌, refl, true, some, List, [], ◌∷◌, arith}
use manualbox.Prelude.Text.{text}
use manualbox.Prelude.Lists.{length}
use manualbox.Jobs.Progress.{zero_float}
use manualbox.Jobs.Model.{Event, queued, running}
use manualbox.Jobs.Broker.{event_buffer, Broker, new_broker, Subscription, subscribe}
use manualbox.Jobs.Broker.Safety.{IsSafe}
use manualbox.Jobs.Broker.Delivery.{listens}
use manualbox.Jobs.Broker.Runs.{
  Call, subscribes, closes, unsubscribes, publishes, receives, run, run_total,
}
use manualbox.Tests.{watched}

abbrev pub an_event : Event
an_event = record {
  job_id = text "a";
  kind = text "ingest";
  state = queued;
  progress = zero_float;
  note = [];
  error = [];
  at_time = 0;
}

abbrev pub next_event : Event
next_event = record an_event { state = running }

abbrev first_sub : Subscription
first_sub = record { chan = 0; fid = some 0 }

-- Both the cancel function and Close close the one channel, and a publication follows.
abbrev history : List Call
history =
    subscribes
    ∷ publishes an_event
    ∷ receives 0
    ∷ unsubscribes first_sub
    ∷ closes
    ∷ unsubscribes first_sub
    ∷ publishes next_event
    ∷ subscribes
    ∷ []

run_total_example : (b : Broker) × (run history new_broker ≡ some b) × IsSafe b
run_total_example = run_total history

first_listens : listens 0 watched.subs ≡ true
unfolding subscribe new_broker
first_listens = refl

room : length (watched.chans 0).buffer + length (an_event ∷ next_event ∷ []) ≤ event_buffer
unfolding subscribe new_broker
room = omega arith
