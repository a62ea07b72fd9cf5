-- ===== src/Jobs/Broker/Delivery.antt =====
-- Publish of internal/jobs/broker.go, seen by each channel.
use manualbox.Prelude.{
  ℕ, ◌≤◌, ◌≡◌, inl, inr, refl, Bool, false, some, List, [], ◌∷◌, ◌++◌, ◌||◌, if◌then◌else◌, ltb,
  ◌==◌, arith, Bool-cases, ==_iff, sym, ◌∙◌,
}
use manualbox.Prelude.Lists.{length, length-append}
use manualbox.Jobs.Model.{Event}
use manualbox.Jobs.Broker.{event_buffer, Chan, Sub, Broker, update, send, publish_to, publish}
use manualbox.Jobs.Broker.Safety.{NoChan, Live, IsSafe, Live-update, Live-SameClosed}

-- Whether a channel belongs to one of the subscriptions.
abbrev pub listens : ℕ → List Sub → Bool
listens c [] = false
listens c (s ∷ ss) = s.chan == c || listens c ss

-- What an open channel holds after a send that may not block.
abbrev pub offer : Event → Chan → Chan
offer ev ch =
    if ltb (length ch.buffer) event_buffer
    then record ch { buffer = ch.buffer ++ (ev ∷ []) }
    else ch

send_open : (ev : Event) (ch : Chan) → ch.is_closed ≡ false → send ev ch ≡ some (offer ev ch)
unfolding send
send_open ev ch o = ground arith

offer_bounded :
    (ev : Event) (ch : Chan)
    → length ch.buffer ≤ event_buffer
    → length (offer ev ch).buffer ≤ event_buffer
offer_bounded ev ch b = ground (arith, length-append ch.buffer (ev ∷ []))

pub NoChan→listens : (c : ℕ) (ss : List Sub) → NoChan c ss → listens c ss ≡ false
NoChan→listens c [] a = refl
NoChan→listens c (s ∷ ss) a = ground (arith, NoChan→listens c ss a.1)

-- Every listening channel is offered the event, once, and no other channel changes.
publish_to_lem :
    (ev : Event) (n m : ℕ) (ss : List Sub) (h : ℕ → Chan)
    → Live n m h ss
    → (h' : ℕ → Chan) × (publish_to ev ss h ≡ some h')
      × ((c : ℕ) → h' c ≡ (if listens c ss then offer ev (h c) else h c))
unfolding publish_to
publish_to_lem ev n m [] h l = (h, refl, λ c. refl)
publish_to_lem ev n m (s ∷ ss) h l =
    let after : ℕ → Chan = update h s.chan (offer ev (h s.chan)) in
    let (h', e, each) =
      publish_to_lem ev n m ss after (Live-update n m s.chan h (offer ev (h s.chan)) ss l.4 l.5) in
    (h', rw (send_open ev (h s.chan) l.2, publish_to) e, λ c. each c ∙ offered c)
  where
    offered :
        (c : ℕ)
        → (if listens c ss
            then offer ev (update h s.chan (offer ev (h s.chan)) c)
            else update h s.chan (offer ev (h s.chan)) c)
          ≡ (if s.chan == c || listens c ss then offer ev (h c) else h c)
    offered c = elim (Bool-cases (s.chan == c)) [
      | inl e ↦ rw (sym ((==_iff s.chan c).0 e)) (rw (NoChan→listens s.chan ss l.4) (ground arith))
      | inr e ↦ ground arith
    ]

-- On a broker in order Publish does not panic and keeps it in order and its subscriptions as they
-- are: every channel of a subscription is offered the event, which it takes at its end if it has
-- room and drops if it is full, and every other channel is what it was.
pub publish_total :
    (ev : Event) (b : Broker)
    → IsSafe b
    → (b' : Broker) × (publish ev b ≡ some b')
      × IsSafe b'
      × ((c : ℕ) → b'.chans c ≡ (if listens c b.subs then offer ev (b.chans c) else b.chans c))
      × (b'.subs ≡ b.subs)
unfolding publish
publish_total ev b v =
    let (h', e, each) = publish_to_lem ev b.next b.next_chan b.subs b.chans v.live in
    (
      record b { chans = h' },
      rw (e, publish),
      record {
        live =
            Live-SameClosed b.next b.next_chan b.chans h' b.subs (λ c. ground (arith, each c))
              v.live;
        closed_empty = v.closed_empty;
        bounded = λ c. ground (arith, each c, v.bounded c, offer_bounded ev (b.chans c));
      },
      each,
      refl,
    )
