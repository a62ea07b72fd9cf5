-- ===== src/Jobs/Broker/Safety.antt =====
-- The invariant of the broker of internal/jobs/broker.go, and Subscribe.
use manualbox.Prelude.{
  ℕ, suc, ◌≤◌, ◌<◌, ◌≡◌, ◌≢◌, inl, inr, refl, ap, true, false, List, [], ◌∷◌, ◌++◌, arith,
  Bool-cases, ◌∙◌,
}
use manualbox.Prelude.Lists.{length}
use manualbox.Jobs.Broker.{
  event_buffer, Chan, fresh_chan, Sub, Broker, update, new_broker, subscribe,
}

-- No subscription of the list uses the channel, or the number.
abbrev pub NoChan : ℕ → List Sub → Type 0
NoChan c [] = Unit
NoChan c (s ∷ ss) = (s.chan ≢ c) × NoChan c ss

abbrev pub NoFid : ℕ → List Sub → Type 0
NoFid f [] = Unit
NoFid f (s ∷ ss) = (s.fid ≢ f) × NoFid f ss

-- The subscriptions have numbers below `n` and channels below `m`, all different and open.
abbrev pub Live : ℕ → ℕ → (ℕ → Chan) → List Sub → Type 0
Live n m h [] = Unit
Live n m h (s ∷ ss) =
    (s.fid < n)
    × (s.chan < m)
    × ((h s.chan).is_closed ≡ false)
    × NoFid s.fid ss
    × NoChan s.chan ss
    × Live n m h ss

pub record IsSafe (b : Broker) : Type 0 where
  pub live : Live b.next b.next_chan b.chans b.subs
  pub closed_empty : b.closed ≡ true → b.subs ≡ []
  pub bounded : (c : ℕ) → length (b.chans c).buffer ≤ event_buffer

-- A write to a channel that no subscription uses.
pub Live-update :
    (n m c : ℕ) (h : ℕ → Chan) (v : Chan) (ss : List Sub)
    → NoChan c ss
    → Live n m h ss
    → Live n m (update h c v) ss
Live-update n m c h v [] a l = tt
Live-update n m c h v (s ∷ ss) a l =
    (l.0, l.1, ground arith, l.3, l.4, Live-update n m c h v ss a.1 l.5)

-- A write that leaves a channel open.
pub Live-write :
    (n m c : ℕ) (h : ℕ → Chan) (v : Chan) (ss : List Sub)
    → v.is_closed ≡ false
    → Live n m h ss
    → Live n m (update h c v) ss
Live-write n m c h v [] a l = tt
Live-write n m c h v (s ∷ ss) a l =
    (l.0, l.1, ground arith, l.3, l.4, Live-write n m c h v ss a l.5)

pub bounded-update :
    (h : ℕ → Chan) (c : ℕ) (v : Chan)
    → ((j : ℕ) → length (h j).buffer ≤ event_buffer)
    → length v.buffer ≤ event_buffer
    → (j : ℕ) → length (update h c v j).buffer ≤ event_buffer
bounded-update h c v b e j = ground (arith, b j)

NoChan-above : (n m : ℕ) (h : ℕ → Chan) (ss : List Sub) → Live n m h ss → NoChan m ss
NoChan-above n m h [] l = tt
NoChan-above n m h (s ∷ ss) l = (omega (arith, l.1), NoChan-above n m h ss l.5)

NoChan-append :
    (c : ℕ) (ss : List Sub) (s : Sub) → NoChan c ss → s.chan ≢ c → NoChan c (ss ++ s ∷ [])
NoChan-append c [] s a e = (e, tt)
NoChan-append c (t ∷ ss) s a e = (a.0, NoChan-append c ss s a.1 e)

NoFid-append : (f : ℕ) (ss : List Sub) (s : Sub) → NoFid f ss → s.fid ≢ f → NoFid f (ss ++ s ∷ [])
NoFid-append f [] s a e = (e, tt)
NoFid-append f (t ∷ ss) s a e = (a.0, NoFid-append f ss s a.1 e)

Live-append :
    (n m : ℕ) (h : ℕ → Chan) (ss : List Sub)
    → Live n m h ss
    → (h m).is_closed ≡ false
    → Live (suc n) (suc m) h (ss ++ record { fid = n; chan = m } ∷ [])
Live-append n m h [] l e = (omega arith, omega arith, e, tt, tt, tt)
Live-append n m h (s ∷ ss) l e = (
  omega (arith, l.0),
  omega (arith, l.1),
  l.2,
  NoFid-append s.fid ss _ l.3 (omega (arith, l.0)),
  NoChan-append s.chan ss _ l.4 (omega (arith, l.1)),
  Live-append n m h ss l.5 e,
)

Live-suc_chan : (n m : ℕ) (h : ℕ → Chan) (ss : List Sub) → Live n m h ss → Live n (suc m) h ss
Live-suc_chan n m h [] l = tt
Live-suc_chan n m h (s ∷ ss) l =
    (l.0, omega (arith, l.1), l.2, l.3, l.4, Live-suc_chan n m h ss l.5)

update_self : (h : ℕ → Chan) (c : ℕ) (v : Chan) → update h c v c ≡ v
update_self h c v = ground arith

pub new_broker-IsSafe : IsSafe new_broker
unfolding new_broker
new_broker-IsSafe = record { live = tt; closed_empty = λ _. refl; bounded = λ c. omega arith }

pub subscribe-IsSafe : (b : Broker) → IsSafe b → IsSafe (subscribe b).0
unfolding subscribe
subscribe-IsSafe b v = elim (Bool-cases b.closed) [
  | inl e ↦ rw e (record {
    live =
        Live-update b.next (suc b.next_chan) b.next_chan b.chans _ b.subs
          (NoChan-above b.next b.next_chan b.chans b.subs v.live)
          (Live-suc_chan b.next b.next_chan b.chans b.subs v.live);
    closed_empty = λ _. v.closed_empty e;
    bounded =
        bounded-update b.chans b.next_chan (record { buffer = []; is_closed = true }) v.bounded
          (omega arith);
  })
  | inr e ↦ rw e (record {
    live =
        Live-append b.next b.next_chan (update b.chans b.next_chan fresh_chan) b.subs
          (Live-update b.next b.next_chan b.next_chan b.chans fresh_chan b.subs
            (NoChan-above b.next b.next_chan b.chans b.subs v.live) v.live)
          (ap (λ (ch : Chan). ch.is_closed) (update_self b.chans b.next_chan fresh_chan));
    closed_empty = λ h. cc;
    bounded = bounded-update b.chans b.next_chan fresh_chan v.bounded (omega arith);
  })
]

abbrev pub SameClosed : (ℕ → Chan) → (ℕ → Chan) → Type 0
SameClosed h h' = (c : ℕ) → (h' c).is_closed ≡ (h c).is_closed

pub Live-SameClosed :
    (n m : ℕ) (h h' : ℕ → Chan) (ss : List Sub) → SameClosed h h' → Live n m h ss → Live n m h' ss
Live-SameClosed n m h h' [] e l = tt
Live-SameClosed n m h h' (s ∷ ss) e l =
    (l.0, l.1, e s.chan ∙ l.2, l.3, l.4, Live-SameClosed n m h h' ss e l.5)
