-- ===== src/Jobs/Broker/Closing.antt =====
-- The ends of subscriptions in internal/jobs/broker.go: Subscribe's cancel function, and Close.
use manualbox.Prelude.{
  ℕ, ◌≡◌, ◌≢◌, inl, inr, refl, true, false, none, some, List, [], ◌∷◌, ◌||◌, if◌then◌else◌, ◌==◌,
  arith, Bool-cases, Option-cases, ==_iff, sym, ◌∙◌,
}
use manualbox.Jobs.Broker.{
  Chan, Sub, Broker, update, Subscription, close_chan, close_at, find_sub, delete_sub, unsubscribe,
  close_all, close,
}
use manualbox.Jobs.Broker.Safety.{NoChan, NoFid, Live, IsSafe, Live-update, bounded-update}
use manualbox.Jobs.Broker.Delivery.{listens, NoChan→listens}

-- close(ch) on every subscribed channel.
close_all_lem :
    (n m : ℕ) (ss : List Sub) (h : ℕ → Chan)
    → Live n m h ss
    → (h' : ℕ → Chan) × (close_all ss h ≡ some h')
      × ((c : ℕ) → h' c ≡ (if listens c ss then record (h c) { is_closed = true } else h c))
unfolding close_all close_at close_chan
close_all_lem n m [] h l = (h, refl, λ c. refl)
close_all_lem n m (s ∷ ss) h l =
    let shut : Chan = record (h s.chan) { is_closed = true } in
    let (h', e, each) =
      close_all_lem n m ss (update h s.chan shut) (Live-update n m s.chan h shut ss l.4 l.5) in
    (h', rw (l.2, close_all) e, λ c. each c ∙ closed c)
  where
    closed :
        (c : ℕ)
        → (if listens c ss
            then record (update h s.chan (record (h s.chan) { is_closed = true }) c) {
              is_closed = true;
            }
            else update h s.chan (record (h s.chan) { is_closed = true }) c)
          ≡ (if s.chan == c || listens c ss then record (h c) { is_closed = true } else h c)
    closed c = elim (Bool-cases (s.chan == c)) [
      | inl e ↦ rw (sym ((==_iff s.chan c).0 e)) (rw (NoChan→listens s.chan ss l.4) (ground arith))
      | inr e ↦ ground arith
    ]

-- On a broker in order Close does not panic and keeps it in order: it is closed, no subscription
-- is left, the channel of each is closed and keeps what it holds, and every other channel is what
-- it was.
pub close_total :
    (b : Broker)
    → IsSafe b
    → (b' : Broker) × (close b ≡ some b')
      × IsSafe b'
      × (b'.closed ≡ true)
      × (b'.subs ≡ [])
      × ((c : ℕ)
          → b'.chans c
            ≡ (if listens c b.subs then record (b.chans c) { is_closed = true } else b.chans c))
unfolding close
close_total b v = elim (Bool-cases b.closed) [
  | inl e ↦ (b, rw e, v, e, v.closed_empty e, λ c. rw (v.closed_empty e))
  | inr e ↦
      let (h', eq, each) = close_all_lem b.next b.next_chan b.subs b.chans v.live in
      (
        record b { closed = true; subs = []; chans = h' },
        rw (e, eq, close),
        record {
          live = tt;
          closed_empty = λ _. refl;
          bounded = λ c. ground (arith, each c, v.bounded c);
        },
        refl,
        refl,
        each,
      )
]

NoChan-delete_sub : (c f : ℕ) (ss : List Sub) → NoChan c ss → NoChan c (delete_sub f ss)
unfolding delete_sub
NoChan-delete_sub c f [] a = tt
NoChan-delete_sub c f (s ∷ ss) a = ground (arith, NoChan-delete_sub c f ss a.1)

NoFid-delete_sub : (g f : ℕ) (ss : List Sub) → NoFid g ss → NoFid g (delete_sub f ss)
unfolding delete_sub
NoFid-delete_sub g f [] a = tt
NoFid-delete_sub g f (s ∷ ss) a = ground (arith, NoFid-delete_sub g f ss a.1)

delete_sub_empty : (f : ℕ) (ss : List Sub) → ss ≡ [] → delete_sub f ss ≡ []
unfolding delete_sub
delete_sub_empty f [] e = refl
delete_sub_empty f (s ∷ ss) e = cc

find-delete_sub_self : (f : ℕ) (ss : List Sub) → find_sub f (delete_sub f ss) ≡ none
unfolding find_sub delete_sub
find-delete_sub_self f [] = refl
find-delete_sub_self f (s ∷ ss) = ground (arith, find-delete_sub_self f ss)

Live-delete_sub :
    (n m f : ℕ) (h : ℕ → Chan) (ss : List Sub) → Live n m h ss → Live n m h (delete_sub f ss)
unfolding delete_sub
Live-delete_sub n m f h [] l = tt
Live-delete_sub n m f h (s ∷ ss) l = elim (Bool-cases (s.fid == f)) [
  | inl e ↦ rw e (Live-delete_sub n m f h ss l.5)
  | inr e ↦ rw e (
    l.0,
    l.1,
    l.2,
    NoFid-delete_sub s.fid f ss l.3,
    NoChan-delete_sub s.chan f ss l.4,
    Live-delete_sub n m f h ss l.5,
  )
]

find_sub-chan :
    (c f : ℕ) (ss : List Sub) (s : Sub) → NoChan c ss → find_sub f ss ≡ some s → c ≢ s.chan
unfolding find_sub
find_sub-chan c f [] s a e = cc
find_sub-chan c f (t ∷ ss) s a e = ground (arith, find_sub-chan c f ss s a.1)

-- The subscription found under a number is open, and the others do not use its channel.
find-delete_sub :
    (n m f : ℕ) (h : ℕ → Chan) (ss : List Sub) (s : Sub)
    → Live n m h ss
    → find_sub f ss ≡ some s
    → ((h s.chan).is_closed ≡ false) × NoChan s.chan (delete_sub f ss)
unfolding find_sub delete_sub
find-delete_sub n m f h [] s l e = cc
find-delete_sub n m f h (t ∷ ss) s l e = elim (Bool-cases (t.fid == f)) [
  | inl hit ↦ ground (arith, hit, NoChan-delete_sub t.chan f ss l.4, l.2)
  | inr miss ↦
      ground (arith, miss, find-delete_sub n m f h ss s l.5, find_sub-chan t.chan f ss s l.4)
]

-- On a broker in order the cancel function never panics and keeps it in order; called again it
-- changes nothing.
pub unsubscribe_total :
    (u : Subscription) (b : Broker)
    → IsSafe b
    → (b' : Broker) × (unsubscribe u b ≡ some b') × IsSafe b' × (unsubscribe u b' ≡ some b')
unfolding unsubscribe close_at close_chan
unsubscribe_total u b v = elim (Option-cases u.fid) [
  | inl e ↦ (b, rw (e, unsubscribe), v, rw (e, unsubscribe))
  | inr (f, e) ↦ elim (Option-cases (find_sub f b.subs)) [
    | inl gone ↦ (b, ground arith, v, ground arith)
    | inr (s, found) ↦
        let (opened, apart) = find-delete_sub b.next b.next_chan f b.chans b.subs s v.live found in
        let shut : Chan = record (b.chans s.chan) { is_closed = true } in
        (
          record b { subs = delete_sub f b.subs; chans = update b.chans s.chan shut },
          ground arith,
          record {
            live =
                Live-update b.next b.next_chan s.chan b.chans shut (delete_sub f b.subs) apart
                  (Live-delete_sub b.next b.next_chan f b.chans b.subs v.live);
            closed_empty = λ c. delete_sub_empty f b.subs (v.closed_empty c);
            bounded = bounded-update b.chans s.chan shut v.bounded (v.bounded s.chan);
          },
          ground (arith, find-delete_sub_self f b.subs),
        )
  ]
]
