-- ===== src/Api/Streaming.antt =====
-- handleJobEvents of internal/api/handlers.go: the stream of job events, step by step, over the broker
-- of internal/jobs/broker.go. What it writes is the list of events; headers, keepalives and the
-- flushing of the connection are left out.
use manualbox.Prelude.{
  ◌+◌, ◌≤◌, ◌≡◌, refl, sym, ap, ◌∙◌, Bool, true, false, Option, some, List, [], ◌∷◌, ◌++◌, map, ok,
  err, Result-cases, inl, inr, if◌then◌else◌, arith,
}
use mathlib.Core.List.{append-nil, append_assoc}
use manualbox.Prelude.Text.{Text}
use manualbox.Prelude.Lists.{length}
use manualbox.Jobs.Model.{Event, event_for}
use manualbox.Jobs.Broker.{
  event_buffer, Broker, Subscription, subscribe, unsubscribe, Received, received, ended, waiting,
  receive,
}
use manualbox.Jobs.Broker.Safety.{IsSafe, subscribe-IsSafe}
use manualbox.Jobs.Broker.Runs.{publish_all, publish_all-delivers, receive_next, subscribe_open}
use manualbox.Jobs.Queue.{Queue, active}

-- One stream: its subscription, what it has written, and whether the handler has returned.
pub record Stream : Type 0 where
  pub sub : Subscription
  pub sent : List Event
  pub is_over : Bool

-- The subscription, which comes before the snapshot.
unfoldable pub open_stream : Broker → Broker × Stream
open_stream b = let (b', u) = subscribe b in (b', record { sub = u; sent = []; is_over = false })

-- The snapshot of the active jobs; without one the stream goes on.
unfoldable pub write_snapshot : Option Text → Queue → Stream → Stream
write_snapshot fault q s = elim (active fault q) [
  | err e ↦ s
  | ok js ↦ record s { sent = s.sent ++ map event_for js }
]

-- The arms of the select: the end of the request, the channel, and a keepalive, which may fail.
pub data Turn : Type 0 where
  request_done channel_ready : Turn
  keepalive : Bool → Turn

unfoldable pub write_event : Stream → Received → Stream
write_event s (received ev) = record s { sent = s.sent ++ ev ∷ [] }
write_event s ended = record s { is_over = true }
write_event s waiting = s

unfoldable pub take_turn : Turn → Stream × Broker → Stream × Broker
unfolding write_event
take_turn request_done (s, b) = (record s { is_over = true }, b)
take_turn channel_ready (s, b) = let (b', got) = receive s.sub.chan b in (write_event s got, b')
take_turn (keepalive fails) (s, b) = (if fails then record s { is_over = true } else s, b)

-- The loop: no turn after the handler has returned.
unfoldable pub take_turns : List Turn → Stream × Broker → Stream × Broker
unfolding take_turn
take_turns [] x = x
take_turns (t ∷ ts) x = if x.0.is_over then x else take_turns ts (take_turn t x)

-- The deferred call of the function that Subscribe returned.
unfoldable pub close_stream : Stream × Broker → Option Broker
close_stream (s, b) = unsubscribe s.sub b

-- A turn of the channel for each of a number of events.
abbrev pub turns_for : List Event → List Turn
turns_for [] = []
turns_for (ev ∷ evs) = channel_ready ∷ turns_for evs

take_turns-receive :
    (evs : List Event) (s : Stream) (b : Broker)
    → s.is_over ≡ false
    → (b.chans s.sub.chan).buffer ≡ evs
    → ((take_turns (turns_for evs) (s, b)).0.sent ≡ s.sent ++ evs)
      × ((take_turns (turns_for evs) (s, b)).0.is_over ≡ false)
unfolding take_turns take_turn write_event
take_turns-receive [] s b going e = (sym (append-nil s.sent), going)
take_turns-receive (ev ∷ evs) s b going e =
    let (got, left) = receive_next s.sub.chan b ev evs e in
    let s1 : Stream = record s { sent = s.sent ++ ev ∷ [] } in
    let b1 = (receive s.sub.chan b).0 in
    let step : take_turns (turns_for (ev ∷ evs)) (s, b) ≡ take_turns (turns_for evs) (s1, b1) =
      ap
        (λ (over : Bool).
          if over
          then (s, b)
          else take_turns (turns_for evs) (write_event s (receive s.sub.chan b).1, b1))
        going
      ∙ ap (λ (g : Received). take_turns (turns_for evs) (write_event s g, b1)) got in
    let (all, still) = take_turns-receive evs s1 b1 going left in
    (
      ap (λ (x : Stream × Broker). x.0.sent) step ∙ (all ∙ append_assoc s.sent (ev ∷ []) evs),
      ap (λ (x : Stream × Broker). x.0.is_over) step ∙ still,
    )

write_snapshot-sub :
    (fault : Option Text) (q : Queue) (s : Stream)
    → ((write_snapshot fault q s).sub ≡ s.sub) × ((write_snapshot fault q s).is_over ≡ s.is_over)
unfolding write_snapshot
write_snapshot-sub fault q s = elim (Result-cases (active fault q)) [
  | inl (x, e) ↦ rw (e, write_snapshot) (refl, refl)
  | inr (js, e) ↦ rw (e, write_snapshot) (refl, refl)
]

-- A stream that is opened on a broker in order and not closed, and then reads its channel once for
-- each event, writes the snapshot and behind it every event published since the subscription, in
-- order, whatever the snapshot is, if those events fit in the channel; no event between the
-- subscription and the snapshot is missed, and the stream goes on.
pub take_turns-publish_all :
    (b : Broker) (fault : Option Text) (q : Queue) (evs : List Event)
    → IsSafe b
    → b.closed ≡ false
    → length evs ≤ event_buffer
    → (b' : Broker) × (publish_all evs (open_stream b).0 ≡ some b')
      × (let s = write_snapshot fault q (open_stream b).1 in
          ((take_turns (turns_for evs) (s, b')).0.sent ≡ s.sent ++ evs)
          × ((take_turns (turns_for evs) (s, b')).0.is_over ≡ false))
unfolding open_stream
take_turns-publish_all b fault q evs v going room =
    let b1 = (subscribe b).0 in
    let c = (subscribe b).1.chan in
    let (l, empty) = subscribe_open b going in
    let fits : length (b1.chans c).buffer + length evs ≤ event_buffer =
      omega (arith, ap length empty, room) in
    let (b', e, got) = publish_all-delivers evs b1 c (subscribe-IsSafe b v) l fits in
    let s0 = (open_stream b).1 in
    let (same, still) = write_snapshot-sub fault q s0 in
    let there : (b'.chans (write_snapshot fault q s0).sub.chan).buffer ≡ evs =
      ap (λ (u : Subscription). (b'.chans u.chan).buffer) same
      ∙ (got ∙ ap (λ (xs : List Event). xs ++ evs) empty) in
    (b', e, take_turns-receive evs (write_snapshot fault q s0) b' still there)
