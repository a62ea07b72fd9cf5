-- ===== src/Jobs/Broker.antt =====
-- internal/jobs/broker.go. A channel is shared by the broker and its receiver, so channels stand
-- in a store of their own. `none` is a panic: a send on a closed channel, or a second close.
pub mod Safety
pub mod Delivery
pub mod Closing
pub mod Runs
use manualbox.Prelude.{
  ℕ, suc, ◌+◌, ◌≡◌, Bool, true, false, Option, none, some, List, [], ◌∷◌, ◌++◌, if◌then◌else◌, ltb,
  ◌==◌,
}
use manualbox.Prelude.Lists.{length}
use manualbox.Jobs.Model.{Event}

-- eventBuffer
abbrev pub event_buffer : ℕ
event_buffer = 32

-- A Go channel of capacity eventBuffer, the oldest event first.
pub record Chan : Type 0 where
  pub buffer : List Event
  pub is_closed : Bool

abbrev pub fresh_chan : Chan
fresh_chan = record { buffer = []; is_closed = false }

-- A subscription that stands in the map: its number and its channel.
pub record Sub : Type 0 where
  pub fid : ℕ
  pub chan : ℕ

pub record Broker : Type 0 where
  pub next : ℕ
  pub subs : List Sub
  pub closed : Bool
  pub chans : ℕ → Chan
  pub next_chan : ℕ

abbrev pub update : (ℕ → Chan) → ℕ → Chan → ℕ → Chan
update h c v j = if j == c then v else h j

-- NewBroker
unfoldable pub new_broker : Broker
new_broker = record { next = 0; subs = []; closed = false; chans = λ c. fresh_chan; next_chan = 0 }

-- What Subscribe returns: the channel, and the number that the cancel function deletes, if any.
pub record Subscription : Type 0 where
  pub chan : ℕ
  pub fid : Option ℕ

unfoldable pub subscribe : Broker → Broker × Subscription
subscribe b =
    if b.closed
    then (
      record b {
        chans = update b.chans b.next_chan (record { buffer = []; is_closed = true });
        next_chan = suc b.next_chan;
      },
      record { chan = b.next_chan; fid = none },
    )
    else (
      record b {
        next = suc b.next;
        subs = b.subs ++ (record { fid = b.next; chan = b.next_chan } ∷ []);
        chans = update b.chans b.next_chan fresh_chan;
        next_chan = suc b.next_chan;
      },
      record { chan = b.next_chan; fid = some b.next },
    )

-- close(ch)
unfoldable pub close_chan : Chan → Option Chan
close_chan ch = if ch.is_closed then none else some (record ch { is_closed = true })

unfoldable pub close_at : ℕ → (ℕ → Chan) → Option (ℕ → Chan)
unfolding close_chan
close_at c h = elim (close_chan (h c)) [ none ↦ none | some ch ↦ some (update h c ch) ]

unfoldable pub find_sub : ℕ → List Sub → Option Sub
find_sub f [] = none
find_sub f (s ∷ ss) = if s.fid == f then some s else find_sub f ss

unfoldable pub delete_sub : ℕ → List Sub → List Sub
delete_sub f [] = []
delete_sub f (s ∷ ss) = let rest = delete_sub f ss in if s.fid == f then rest else s ∷ rest

-- The function that Subscribe returns.
unfoldable pub unsubscribe : Subscription → Broker → Option Broker
unsubscribe u b = elim u.fid [
  | none ↦ some b
  | some f ↦ elim (find_sub f b.subs) [
    | none ↦ some b
    | some s ↦ elim (close_at s.chan b.chans) [
      | none ↦ none
      | some h ↦ some (record b { subs = delete_sub f b.subs; chans = h })
    ]
  ]
]

-- select { case ch <- ev: default: }
unfoldable pub send : Event → Chan → Option Chan
send ev ch =
    if ch.is_closed
    then none
    else if ltb (length ch.buffer) event_buffer
    then some (record ch { buffer = ch.buffer ++ (ev ∷ []) })
    else some ch

unfoldable pub publish_to : Event → List Sub → (ℕ → Chan) → Option (ℕ → Chan)
unfolding send
publish_to ev [] h = some h
publish_to ev (s ∷ ss) h = elim (send ev (h s.chan)) [
  | none ↦ none
  | some ch ↦ publish_to ev ss (update h s.chan ch)
]

-- Publish. Go iterates over the map in any order; each channel is sent to once.
unfoldable pub publish : Event → Broker → Option Broker
unfolding publish_to
publish ev b = elim (publish_to ev b.subs b.chans) [
  | none ↦ none
  | some h ↦ some (record b { chans = h })
]

-- Subscribers
unfoldable pub subscribers : Broker → ℕ
subscribers b = length b.subs

unfoldable pub close_all : List Sub → (ℕ → Chan) → Option (ℕ → Chan)
unfolding close_at
close_all [] h = some h
close_all (s ∷ ss) h = elim (close_at s.chan h) [ none ↦ none | some h' ↦ close_all ss h' ]

-- Close
unfoldable pub close : Broker → Option Broker
unfolding close_all
close b = if b.closed then some b else elim (close_all b.subs b.chans) [
  | none ↦ none
  | some h ↦ some (record b { closed = true; subs = []; chans = h })
]

-- What a receiver gets from `<-ch`: an event, the end of a closed channel, or nothing yet.
pub data Received : Type 0 where
  received : Event → Received
  ended waiting : Received

receive_from : List Event → Bool → Received
receive_from (ev ∷ evs) c = received ev
receive_from [] true = ended
receive_from [] false = waiting

abbrev pub rest_of : List Event → List Event
rest_of [] = []
rest_of (ev ∷ evs) = evs

unfoldable pub receive : ℕ → Broker → Broker × Received
unfolding receive_from
receive c b =
    let ch = b.chans c in
    (
      record b { chans = update b.chans c (record ch { buffer = rest_of ch.buffer }) },
      receive_from ch.buffer ch.is_closed,
    )
