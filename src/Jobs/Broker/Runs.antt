-- ===== src/Jobs/Broker/Runs.antt =====
-- Histories of the broker of internal/jobs/broker.go: sequences of calls.
use manualbox.Prelude.{
  ℕ, ◌==◌, ◌+◌, ◌≤◌, ◌≡◌, refl, true, false, Option, none, some, List, [], ◌∷◌, ◌++◌, sym, ◌∙◌, ap,
  arith,
}
use mathlib.Core.List.{append-nil, append_assoc}
use manualbox.Prelude.Lists.{length, length-append}
use manualbox.Jobs.Model.{Event}
use manualbox.Jobs.Broker.{
  event_buffer, Chan, Broker, update, new_broker, Subscription, subscribe, unsubscribe, publish,
  close, receive, receive_from, received, rest_of, Sub,
}
use manualbox.Jobs.Broker.Safety.{
  IsSafe, Live-SameClosed, bounded-update, new_broker-IsSafe, subscribe-IsSafe,
}
use manualbox.Jobs.Broker.Delivery.{listens, publish_total}
use manualbox.Jobs.Broker.Closing.{unsubscribe_total, close_total}

-- The calls that goroutines make on a broker, each under its lock, and receives on a channel.
pub data Call : Type 0 where
  subscribes closes : Call
  unsubscribes : Subscription → Call
  publishes : Event → Call
  receives : ℕ → Call

unfoldable pub step : Call → Broker → Option Broker
step subscribes b = some (subscribe b).0
step closes b = close b
step (unsubscribes u) b = unsubscribe u b
step (publishes ev) b = publish ev b
step (receives c) b = some (receive c b).0

-- The calls of a history, one after the other, as the lock orders them.
unfoldable pub run : List Call → Broker → Option Broker
unfolding step
run [] b = some b
run (c ∷ cs) b = elim (step c b) [ none ↦ none | some b' ↦ run cs b' ]

length-rest_of-le : (evs : List Event) → length (rest_of evs) ≤ length evs
length-rest_of-le [] = omega arith
length-rest_of-le (ev ∷ evs) = omega arith

receive-IsSafe : (c : ℕ) (b : Broker) → IsSafe b → IsSafe (receive c b).0
unfolding receive
receive-IsSafe c b v =
    let left : Chan = record (b.chans c) { buffer = rest_of (b.chans c).buffer } in
    record {
      live =
          Live-SameClosed b.next b.next_chan b.chans (update b.chans c left) b.subs
            (λ j. ground arith) v.live;
      closed_empty = v.closed_empty;
      bounded =
          bounded-update b.chans c left v.bounded
            (omega (arith, v.bounded c, length-rest_of-le (b.chans c).buffer));
    }

step_total : (c : Call) (b : Broker) → IsSafe b → (b' : Broker) × (step c b ≡ some b') × IsSafe b'
unfolding step
step_total subscribes b v = ((subscribe b).0, refl, subscribe-IsSafe b v)
step_total closes b v = let (b', e, v', _, _, _) = close_total b v in (b', e, v')
step_total (unsubscribes u) b v = let (b', e, v', _) = unsubscribe_total u b v in (b', e, v')
step_total (publishes ev) b v = let (b', e, v', _, _) = publish_total ev b v in (b', e, v')
step_total (receives c) b v = ((receive c b).0, refl, receive-IsSafe c b v)

run_from_total :
    (cs : List Call) (b : Broker) → IsSafe b → (b' : Broker) × (run cs b ≡ some b') × IsSafe b'
unfolding run
run_from_total [] b v = (b, refl, v)
run_from_total (c ∷ cs) b v =
    let (b', e, v') = step_total c b v in
    let (b'', e', v'') = run_from_total cs b' v' in (b'', rw (e, run) e', v'')

-- Whatever calls are made on a new broker, in whatever order, none panics: no send reaches a closed
-- channel and no channel is closed twice. Every subscription left has an open channel of its own,
-- and no channel holds more than its capacity.
pub run_total : (cs : List Call) → (b : Broker) × (run cs new_broker ≡ some b) × IsSafe b
run_total cs = run_from_total cs new_broker new_broker-IsSafe

unfoldable pub publish_all : List Event → Broker → Option Broker
publish_all [] b = some b
publish_all (ev ∷ evs) b = elim (publish ev b) [ none ↦ none | some b' ↦ publish_all evs b' ]

-- On a broker in order, a subscriber with room left for all of a sequence of events gets every one
-- of them, in the order of publishing, behind what it had not yet received.
pub publish_all-delivers :
    (evs : List Event) (b : Broker) (c : ℕ)
    → IsSafe b
    → listens c b.subs ≡ true
    → length (b.chans c).buffer + length evs ≤ event_buffer
    → (b' : Broker) × (publish_all evs b ≡ some b')
      × ((b'.chans c).buffer ≡ (b.chans c).buffer ++ evs)
unfolding publish_all
publish_all-delivers [] b c v l room = (b, refl, sym (append-nil (b.chans c).buffer))
publish_all-delivers (ev ∷ evs) b c v l room =
    let (b', e, v', each, subs) = publish_total ev b v in
    let kept : (b'.chans c).buffer ≡ (b.chans c).buffer ++ ev ∷ [] = ground (arith, each c) in
    let (b'', e', got) =
      publish_all-delivers evs b' c v' (ap (listens c) subs ∙ l)
        (omega (arith, ap length kept, length-append (b.chans c).buffer (ev ∷ []))) in
    (
      b'',
      rw (e, publish_all) e',
      got
          ∙ ap (λ (xs : List Event). xs ++ evs) kept
          ∙ append_assoc (b.chans c).buffer (ev ∷ []) evs,
    )

-- A receive takes the oldest event.
pub receive_next :
    (c : ℕ) (b : Broker) (ev : Event) (evs : List Event)
    → (b.chans c).buffer ≡ ev ∷ evs
    → ((receive c b).1 ≡ received ev) × (((receive c b).0.chans c).buffer ≡ evs)
unfolding receive receive_from
receive_next c b ev evs e =
    let self : (c == c) ≡ true = ground arith in
    (
      ap (λ (xs : List Event). receive_from xs (b.chans c).is_closed) e,
      ground (arith, self, ap rest_of e),
    )

listens_last :
    (f c : ℕ) (ss : List Sub) → listens c (ss ++ record { fid = f; chan = c } ∷ []) ≡ true
listens_last f c [] = ground arith
listens_last f c (s ∷ ss) = ground (arith, listens_last f c ss)

-- A new subscription of an open broker listens on its channel, which is empty.
pub subscribe_open :
    (b : Broker)
    → b.closed ≡ false
    → (listens (subscribe b).1.chan (subscribe b).0.subs ≡ true)
      × (((subscribe b).0.chans (subscribe b).1.chan).buffer ≡ [])
unfolding subscribe
subscribe_open b going =
    let self : (b.next_chan == b.next_chan) ≡ true = ground arith in
    rw (going, subscribe) (listens_last b.next b.next_chan b.subs, rw self refl)
