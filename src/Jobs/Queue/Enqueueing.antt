-- ===== src/Jobs/Queue/Enqueueing.antt =====
-- Enqueue of internal/jobs/queue.go on its branches.
use manualbox.Prelude.{
  ◌≡◌, ◌≢◌, refl, true, false, ◌||◌, Option, none, some, [], ◌∷◌, ◌++◌, arith, Result, ok, err,
  Result-cases, Bool-cases, ◌⊎◌, inl, inr,
}
use manualbox.Prelude.Text.{Text, text_eq}
use manualbox.Prelude.Lists.{All}
use manualbox.Jobs.Model.{
  Row, from_row, event_for, DbError, driver_error, already_queued, kind_required, bad_payload,
}
use manualbox.Jobs.Table.{
  Table, Driver, has_id, find_row, pending_key, same_key, clash, indexes_ok, commit, EnqueueParams,
  new_row, enqueue_job,
}
use manualbox.Jobs.Table.Indexes.{commit_ok, same_key-none}
use manualbox.Jobs.Table.Lookups.{find_row-some}
use manualbox.Jobs.Table.Appends.{find_row-none, indexes_ok-append, indexes_ok-append_clash}
use manualbox.Jobs.Reads.{holds_key, get_pending_job_by_dedupe_key}
use manualbox.Jobs.Broker.{Broker, publish}
use manualbox.Jobs.Broker.Safety.{IsSafe}
use manualbox.Jobs.Broker.Delivery.{publish_total}
use manualbox.Jobs.Queue.{
  Queue, EnqueueOptions, EnqueueCall, Answer, refused, accepted, publish_event, encode, key_of,
  enqueue_params, on_insert_error, enqueue,
}

-- The partial unique index and the lookup by dedupe key agree.
same_key-holds_key : (k : Text) (s : Row) → same_key (pending_key s) (some k) ≡ holds_key k s
unfolding holds_key same_key
same_key-holds_key k s = ground arith

clash-new_row :
    (a : EnqueueParams) (s : Row)
    → clash s (new_row a) ≡ (text_eq s.id a.id || same_key (pending_key s) a.dedupe_key)
unfolding clash new_row
clash-new_row a s = refl

-- No pending row holds the key, if there is one.
abbrev pub KeyFree : Text → Table → Type 0
KeyFree k t = (k ≡ []) ⊎ (find_row (holds_key k) t ≡ none)

free_rows :
    (a : EnqueueParams) (k : Text) (t : Table)
    → a.dedupe_key ≡ key_of k
    → All (λ s. has_id a.id s ≡ false) t
    → (k ≡ []) ⊎ All (λ s. holds_key k s ≡ false) t
    → All (λ s. clash s (new_row a) ≡ false) t
unfolding key_of
free_rows a k [] e ids keys = tt
free_rows a k (s ∷ t) e ids (inl empty) = (
  rw (clash-new_row a s)
      (rw (e, ids.0) (rw empty (unfold text_eq in same_key-none (pending_key s)))),
  free_rows a k t e ids.1 (inl empty),
)
free_rows a k (s ∷ t) e ids (inr keys) = (
  rw (clash-new_row a s)
      (ground (arith, e, ids.0, keys.0, same_key-holds_key k s, same_key-none (pending_key s))),
  free_rows a k t e ids.1 (inr keys.1),
)

KeyFree-rows : (k : Text) (t : Table) → KeyFree k t → (k ≡ []) ⊎ All (λ s. holds_key k s ≡ false) t
KeyFree-rows k t (inl e) = inl e
KeyFree-rows k t (inr e) = inr (find_row-none (holds_key k) t e)

enqueue_job_ok :
    (d : Driver) (fault : Option Text) (a : EnqueueParams) (t : Table)
    → fault ≡ none
    → indexes_ok (t ++ new_row a ∷ []) ≡ true
    → enqueue_job d fault a t ≡ ok (t ++ new_row a ∷ [], new_row a)
unfolding enqueue_job
enqueue_job_ok d fault a t e h = rw e (commit_ok d (t ++ new_row a ∷ []) (new_row a) h)

enqueue_job_clash :
    (d : Driver) (fault : Option Text) (a : EnqueueParams) (t : Table)
    → fault ≡ none
    → indexes_ok (t ++ new_row a ∷ []) ≡ false
    → enqueue_job d fault a t ≡ err (driver_error d.unique_message)
unfolding enqueue_job commit
enqueue_job_clash d fault a t e h = rw (e, h)

-- On a broker in order and a table with unique ids and keys, without a fault of the insertion: a
-- job of a named kind whose payload can be encoded, under a new id and without a dedupe key or
-- with one that no pending job holds, is added behind the others, queued, with no attempt made.
-- The new job is returned and its event published without a panic; the broker stays in order and
-- ids and keys stay unique.
pub enqueue_fresh :
    (d : Driver) (c : EnqueueCall) (kind raw : Text) (payload : Option (Result Text Text))
    (opts : EnqueueOptions) (q : Queue)
    → IsSafe q.broker
    → indexes_ok q.table ≡ true
    → c.insert_fault ≡ none
    → text_eq kind [] ≡ false
    → encode payload ≡ ok raw
    → find_row (has_id c.id) q.table ≡ none
    → KeyFree opts.dedupe_key q.table
    → let r = new_row (enqueue_params c kind raw opts) in
      (b : Broker) × (enqueue d c kind payload opts q
        ≡ some (record { table = q.table ++ r ∷ []; broker = b }, accepted (from_row r)))
      × (publish (event_for (from_row r)) q.broker ≡ some b)
      × IsSafe b
      × (indexes_ok (q.table ++ r ∷ []) ≡ true)
unfolding enqueue
enqueue_fresh d c kind raw payload opts q safe h calm named coded new free =
    let a : EnqueueParams = enqueue_params c kind raw opts in
    let fits : indexes_ok (q.table ++ new_row a ∷ []) ≡ true =
      indexes_ok-append q.table (new_row a) h (
        free_rows a opts.dedupe_key q.table (unfold enqueue_params in refl)
          (unfold enqueue_params in find_row-none (has_id c.id) q.table new)
          (KeyFree-rows opts.dedupe_key q.table free)) in
    let (b, sent, safe', _, _) = publish_total (event_for (from_row (new_row a))) q.broker safe in
    (
      b,
      rw (named, coded, enqueue)
          (rw (enqueue_job_ok d c.insert_fault a q.table calm fits) (rw (sent, publish_event))),
      sent,
      safe',
      fits,
    )

holder_found :
    (fault : Option Text) (k : Text) (t : Table) (r : Row)
    → fault ≡ none
    → find_row (holds_key k) t ≡ some r
    → get_pending_job_by_dedupe_key fault k t ≡ ok r
unfolding get_pending_job_by_dedupe_key
holder_found fault k t r calm held = rw (calm, held)

-- Without faults, for a named kind, a payload that can be encoded and a nonempty dedupe key that a
-- pending job holds, Enqueue returns that job with `already_queued`, and nothing is added or
-- published.
pub enqueue_duplicate :
    (d : Driver) (c : EnqueueCall) (kind raw : Text) (payload : Option (Result Text Text))
    (opts : EnqueueOptions) (q : Queue) (r : Row)
    → c.insert_fault ≡ none
    → c.find_fault ≡ none
    → text_eq kind [] ≡ false
    → encode payload ≡ ok raw
    → text_eq opts.dedupe_key [] ≡ false
    → find_row (holds_key opts.dedupe_key) q.table ≡ some r
    → enqueue d c kind payload opts q
      ≡ some (q, record { job = some (from_row r); error = some already_queued })
unfolding enqueue
enqueue_duplicate d c kind raw payload opts q r calm calm' named coded keyed held =
    let a : EnqueueParams = enqueue_params c kind raw opts in
    let (holds, here) = find_row-some (holds_key opts.dedupe_key) q.table r held in
    let clashing : clash r (new_row a) ≡ true = rw (clash-new_row a r) (
      unfold enqueue_params key_of in
      ground (arith, keyed, holds, same_key-holds_key opts.dedupe_key r)) in
    let full : indexes_ok (q.table ++ new_row a ∷ []) ≡ false =
      indexes_ok-append_clash q.table (new_row a) r here clashing in
    rw (named, coded, enqueue)
      (rw (enqueue_job_clash d c.insert_fault a q.table calm full) (
        unfold on_insert_error in
        rw (keyed, d.unique_is_recognised)
          (rw (holder_found c.find_fault opts.dedupe_key q.table r calm' held))))

-- What a call of Enqueue may do to the queue: nothing, with an error; or add one row, whose job it
-- returns.
abbrev pub EnqueueEffect : Queue → Queue → Answer → Type 0
EnqueueEffect q q' a =
    ((q' ≡ q) × (a.error ≢ none))
    ⊎ ((r : Row) × (q'.table ≡ q.table ++ r ∷ []) × (a ≡ accepted (from_row r)))

on_insert_error-error :
    (c : EnqueueCall) (k : Text) (e : DbError) (t : Table) → (on_insert_error c k e t).error ≢ none
unfolding on_insert_error
on_insert_error-error c k e t = ground arith

enqueue_job_cases :
    (d : Driver) (fault : Option Text) (a : EnqueueParams) (t : Table)
    → ((e : DbError) × (enqueue_job d fault a t ≡ err e))
      ⊎ (enqueue_job d fault a t ≡ ok (t ++ new_row a ∷ [], new_row a))
unfolding enqueue_job commit
enqueue_job_cases d (some m) a t = inl (driver_error m, refl)
enqueue_job_cases d none a t = elim (Bool-cases (indexes_ok (t ++ new_row a ∷ []))) [
  | inl e ↦ inr (rw e)
  | inr e ↦ inl (driver_error d.unique_message, rw e)
]

-- On a broker in order Enqueue returns, whatever its arguments and whatever fails: it does not
-- panic, the broker stays in order, and it either leaves the queue as it was, with an error, or
-- adds one row and returns its job.
pub enqueue_total :
    (d : Driver) (c : EnqueueCall) (kind : Text) (payload : Option (Result Text Text))
    (opts : EnqueueOptions) (q : Queue)
    → IsSafe q.broker
    → (q' : Queue) × (a : Answer) × (enqueue d c kind payload opts q ≡ some (q', a))
      × IsSafe q'.broker
      × EnqueueEffect q q' a
unfolding enqueue
enqueue_total d c kind payload opts q safe = elim (Bool-cases (text_eq kind [])) [
  | inl e ↦ (q, refused kind_required, rw (e, enqueue), safe, inl (refl, λ n. cc))
  | inr named ↦ elim (Result-cases (encode payload)) [
    | inl (x, e) ↦ (q, refused (bad_payload x), rw (named, e, enqueue), safe, inl (refl, λ n. cc))
    | inr (raw, coded) ↦
        let a : EnqueueParams = enqueue_params c kind raw opts in
        elim (enqueue_job_cases d c.insert_fault a q.table) [
          | inl (e, failed) ↦ (
            q,
            on_insert_error c opts.dedupe_key e q.table,
            rw (named, coded, enqueue) (rw failed),
            safe,
            inl (refl, on_insert_error-error c opts.dedupe_key e q.table),
          )
          | inr done ↦
              let (b, sent, safe', _, _) =
                publish_total (event_for (from_row (new_row a))) q.broker safe in
              (
                record { table = q.table ++ new_row a ∷ []; broker = b },
                accepted (from_row (new_row a)),
                rw (named, coded, enqueue) (rw done (rw (sent, publish_event))),
                safe',
                inr (new_row a, refl, refl),
              )
        ]
  ]
]
