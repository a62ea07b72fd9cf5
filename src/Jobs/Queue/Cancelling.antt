-- ===== src/Jobs/Queue/Cancelling.antt =====
-- Cancel of internal/jobs/queue.go on its branches.
use manualbox.Prelude.{
  ◌≡◌, ◌≢◌, refl, ◌∙◌, Bool, true, false, Option, none, some, [], ◌∷◌, arith, ok, err, ◌==◌,
  Bool-cases, Option-cases, ◌⊎◌, inl, inr,
}
use manualbox.Prelude.Text.{Text}
use manualbox.Prelude.Lists.{All, count_where}
use manualbox.Clock.{Stamp, millis}
use manualbox.Jobs.Model.{Row, from_row, event_for, pending, not_found, already_finished}
use manualbox.Jobs.Table.{Table, Driver, has_id, update_where, find_row, indexes_ok}
use manualbox.Jobs.Table.Indexes.{
  KeepsId, IsGentle, indexes_ok-update_where, update_where_none, commit_ok,
}
use manualbox.Jobs.Table.Lookups.{
  find_row-update_where, find_row-update_apart, only_with_id, none_with_id, changed_id,
  find_row-some,
}
use manualbox.Jobs.Statements.{cancellable, cancelled_at, cancel_job}
use manualbox.Jobs.Reads.{get_job}
use manualbox.Jobs.Broker.{publish}
use manualbox.Jobs.Broker.Safety.{IsSafe}
use manualbox.Jobs.Broker.Delivery.{publish_total}
use manualbox.Jobs.Queue.{Queue, CancelCall, publish_event, get, after_cancel, cancel}

cancelled_at-IsGentle : (i : Text) (now : Stamp) → IsGentle (cancellable i) (cancelled_at now)
unfolding cancelled_at
cancelled_at-IsGentle i now r h = (refl, inr refl)

cancelled_at_id : (now : Stamp) → KeepsId (cancelled_at now)
unfolding cancelled_at
cancelled_at_id now r = refl

cancellable_id : (i : Text) (r : Row) → cancellable i r ≡ true → has_id i r ≡ true
unfolding cancellable
cancellable_id i r h = ground arith

count_where_none : (p : Row → Bool) (t : Table) → All (λ s. p s ≡ false) t → count_where p t ≡ 0
unfolding count_where
count_where_none p [] h = refl
count_where_none p (s ∷ t) h = rw h.0 (count_where_none p t h.1)

count_where_found :
    (p q : Row → Bool) (t : Table) (r : Row)
    → find_row q t ≡ some r
    → p r ≡ true
    → (count_where p t == 0) ≡ false
unfolding count_where find_row
count_where_found p q [] r e h = cc
count_where_found p q (s ∷ t) r e h = elim (Bool-cases (q s)) [
  | inl hit ↦ let same : s ≡ r = ground arith in rw (same, h) (ground arith)
  | inr miss ↦ ground (arith, count_where_found p q t r (ground arith) h)
]

not_cancellable_unknown :
    (i : Text) (t : Table) → find_row (has_id i) t ≡ none → All (λ s. cancellable i s ≡ false) t
unfolding cancellable find_row
not_cancellable_unknown i [] h = tt
not_cancellable_unknown i (s ∷ t) h = (ground arith, not_cancellable_unknown i t (ground arith))

cancel_job-none :
    (d : Driver) (fault : Option Text) (now : Stamp) (i : Text) (t : Table)
    → fault ≡ none
    → indexes_ok t ≡ true
    → All (λ s. cancellable i s ≡ false) t
    → cancel_job d fault now i t ≡ ok (t, 0)
unfolding cancel_job
cancel_job-none d fault now i t calm h out =
    rw
      (
        calm,
        update_where_none (cancellable i) (cancelled_at now) t out,
        count_where_none (cancellable i) t out,
      )
      (commit_ok d t 0 h)

-- Cancelling a queued or running job.
pub cancel_job_lem :
    (d : Driver) (fault : Option Text) (now : Stamp) (i : Text) (t : Table) (r : Row)
    → fault ≡ none
    → indexes_ok t ≡ true
    → find_row (has_id i) t ≡ some r
    → pending r.state ≡ true
    → (t' : Table) × (cancel_job d fault now i t ≡ ok (t', count_where (cancellable i) t))
      × ((count_where (cancellable i) t == 0) ≡ false)
      × (indexes_ok t' ≡ true)
      × (find_row (has_id i) t' ≡ some (cancelled_at now r))
      × ((j : Text) → j ≢ i → find_row (has_id j) t' ≡ find_row (has_id j) t)
unfolding cancel_job
cancel_job_lem d fault now i t r calm h found live =
    let t' : Table = update_where (cancellable i) (cancelled_at now) t in
    let fits : indexes_ok t' ≡ true =
      indexes_ok-update_where (cancellable i) (cancelled_at now) (cancelled_at-IsGentle i now) t
        h in
    let own : has_id i r ≡ true = (find_row-some (has_id i) t r found).0 in
    let can : cancellable i r ≡ true = unfold cancellable in rw (own, live) in
    (
      t',
      rw calm (commit_ok d t' (count_where (cancellable i) t) fits),
      count_where_found (cancellable i) (has_id i) t r found can,
      fits,
      find_row-update_where (cancellable i) (cancelled_at now) i t
            (changed_id (cancellable i) (cancelled_at now) (cancelled_at_id now))
          ∙ rw found (rw can),
      λ j ne.
          find_row-update_apart i j (cancellable i) (cancelled_at now) t (cancelled_at_id now)
            (cancellable_id i) ne,
    )

get_unknown :
    (fault : Option Text) (i : Text) (q : Queue)
    → fault ≡ none
    → find_row (has_id i) q.table ≡ none
    → get fault i q ≡ err (not_found i)
unfolding get get_job
get_unknown fault i q calm gone = ground arith

get_found :
    (fault : Option Text) (i : Text) (q : Queue) (r : Row)
    → fault ≡ none
    → find_row (has_id i) q.table ≡ some r
    → get fault i q ≡ ok (from_row r)
unfolding get get_job
get_found fault i q r calm found = ground arith

-- On a broker in order and a table with unique ids and keys, without faults, Cancel tells three
-- cases apart. An unknown id is reported as not found and a finished job as finished, and neither
-- changes the queue. A queued or running job becomes cancelled, no other job changes, and the
-- event of the cancelled job is published.
pub cancel_outcome :
    (d : Driver) (c : CancelCall) (i : Text) (q : Queue)
    → IsSafe q.broker
    → indexes_ok q.table ≡ true
    → c.cancel_fault ≡ none
    → c.get_fault ≡ none
    → ((find_row (has_id i) q.table ≡ none) × (cancel d c i q ≡ some (q, some (not_found i))))
      ⊎ ((r : Row) × (find_row (has_id i) q.table ≡ some r)
          × (pending r.state ≡ false)
          × (cancel d c i q ≡ some (q, some (already_finished i))))
      ⊎ ((r : Row) × (q' : Queue) × (find_row (has_id i) q.table ≡ some r)
          × (pending r.state ≡ true)
          × (cancel d c i q ≡ some (q', none))
          × (find_row (has_id i) q'.table ≡ some (cancelled_at (millis c.now) r))
          × ((j : Text) → j ≢ i → find_row (has_id j) q'.table ≡ find_row (has_id j) q.table)
          × (publish (event_for (from_row (cancelled_at (millis c.now) r))) q.broker
              ≡ some q'.broker)
          × IsSafe q'.broker)
unfolding cancel
cancel_outcome d c i q safe h calm calm' = elim (Option-cases (find_row (has_id i) q.table)) [
  | inl gone ↦ inl (
    gone,
    rw
        (
          cancel_job-none d c.cancel_fault (millis c.now) i q.table calm h
              (not_cancellable_unknown i q.table gone),
          cancel,
        )
        (rw (get_unknown c.get_fault i q calm' gone, after_cancel)),
  )
  | inr (r, found) ↦ elim (Bool-cases (pending r.state)) [
    | inr over ↦ inr (
        inl (
          r,
          found,
          over,
          rw
              (
                cancel_job-none d c.cancel_fault (millis c.now) i q.table calm h (
                    unfold cancellable in
                    none_with_id (λ s. pending s.state) i r q.table over
                      (only_with_id q.table i r h found)),
                cancel,
              )
              (rw (get_found c.get_fault i q r calm' found, after_cancel)),
        ))
    | inl live ↦
        let (t', done, some_row, fits, now_cancelled, others) =
          cancel_job_lem d c.cancel_fault (millis c.now) i q.table r calm h found live in
        let (b, sent, safe', _, _) =
          publish_total (event_for (from_row (cancelled_at (millis c.now) r))) q.broker safe in
        inr (
          inr (
            r,
            record { table = t'; broker = b },
            found,
            live,
            rw (done, cancel)
                (rw (some_row, after_cancel)
                  (rw
                    (get_found c.get_fault i (record { table = t'; broker = q.broker }) _ calm'
                      now_cancelled)
                    (rw (sent, publish_event)))),
            now_cancelled,
            others,
            sent,
            safe',
          ))
  ]
]
