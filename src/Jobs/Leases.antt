-- ===== src/Jobs/Leases.antt =====
-- ReclaimExpiredLeases of internal/db/gen/jobs.sql.go, and the job of a worker that died.
use mathlib.Core.List.{Memᴰ}
use mathlib.Core.Option
use manualbox.Prelude.{
  ℕ, ◌+◌, ◌≤◌, ◌<◌, ◌≡◌, ◌≢◌, refl, ◌∙◌, ap, true, false, ◌&&◌, Option, none, some, [], ◌∷◌, arith,
  ok, err, Bool-cases, Option-cases, ltb, if◌then◌else◌, inl, inr,
}
use manualbox.Prelude.Text.{Text, text}
use manualbox.Prelude.Lists.{count_where, All-Mem}
use manualbox.Clock.{Stamp}
use manualbox.Jobs.Model.{Row, State, queued, running, is_running, no_rows}
use manualbox.Jobs.Table.{
  Table, Driver, has_id, update_where, find_row, indexes_ok, runnable, ClaimParams, claim_next_job,
}
use manualbox.Jobs.Table.Indexes.{IsGentle, KeepsId, indexes_ok-update_where, commit_ok}
use manualbox.Jobs.Table.Lookups.{changed_id, find_row-update_where, find_row_of_Mem, find_row-some}
use manualbox.Jobs.Claim.{claim_outcome}
use manualbox.Jobs.Statements.{before, expired, reclaimed, reclaim_expired_leases}

reclaimed-IsGentle : (now : Stamp) → IsGentle (expired now) (reclaimed now)
unfolding expired reclaimed
reclaimed-IsGentle now r h = (refl, inl (ground arith))

reclaimed_id : (now : Stamp) → KeepsId (reclaimed now)
unfolding reclaimed
reclaimed_id now r = refl

abbrev reclaimed_table : Stamp → Table → Table
reclaimed_table now t = update_where (expired now) (reclaimed now) t

reclaim_expired_leases_lem :
    (d : Driver) (now : Stamp) (t : Table)
    → indexes_ok t ≡ true
    → (reclaim_expired_leases d none now t
        ≡ ok (reclaimed_table now t, count_where (expired now) t))
      × (indexes_ok (reclaimed_table now t) ≡ true)
      × ((i : Text)
          → find_row (has_id i) (reclaimed_table now t)
            ≡ Option.map
                (λ r. if expired now r then reclaimed now r else r)
                (find_row (has_id i) t))
unfolding reclaim_expired_leases
reclaim_expired_leases_lem d now t h =
    let fits : indexes_ok (reclaimed_table now t) ≡ true =
      indexes_ok-update_where (expired now) (reclaimed now) (reclaimed-IsGentle now) t h in
    (
      commit_ok d (reclaimed_table now t) (count_where (expired now) t) fits,
      fits,
      λ i.
          find_row-update_where (expired now) (reclaimed now) i t
            (changed_id (expired now) (reclaimed now) (reclaimed_id now)),
    )

-- What becomes of the row of an id: of a running row whose lease ended before `now` all but the
-- attempts and the job itself is reset, and every other row stays.
pub data Reclaiming (now : Stamp) : Option Row → Option Row → Type 0 where
  absent : Reclaiming now none none
  back :
      {r : Row} (ended : Stamp)
      → r.state ≡ running
      → r.lease_until ≡ some ended
      → ended < now
      → Reclaiming now (some r) (
          some (record r {
            state = queued;
            lease_until = none;
            worker = [];
            last_error = text "worker lease expired; job reclaimed";
            updated_at = now;
          }))
  kept :
      {r : Row}
      → ((ended : Stamp) → r.state ≡ running → r.lease_until ≡ some ended → now ≤ ended)
      → Reclaiming now (some r) (some r)

is_running_state : (s : State) → is_running s ≡ true → s ≡ running
is_running_state State.queued h = cc
is_running_state State.running h = refl
is_running_state State.succeeded h = cc
is_running_state State.failed h = cc
is_running_state State.cancelled h = cc

-- The test of the statement, in words: a running row with a lease that ended.
expired-some :
    (now : Stamp) (r : Row)
    → expired now r ≡ true
    → (ended : Stamp) × (r.state ≡ running) × (r.lease_until ≡ some ended) × (ended < now)
unfolding expired
expired-some now r h = elim (Option-cases r.lease_until) [
  | inl e ↦
      let never : before r.lease_until now ≡ false = rw e refl in absurd (ground (arith, never))
  | inr (u, e) ↦
      let late : before r.lease_until now ≡ ltb u now = rw e refl in
      (u, is_running_state r.state (ground arith), e, ground arith)
]

not_expired :
    (now : Stamp) (r : Row)
    → expired now r ≡ false
    → (ended : Stamp) → r.state ≡ running
    → r.lease_until ≡ some ended
    → now ≤ ended
unfolding expired
not_expired now r h ended is lease =
    let late : (is_running r.state && before r.lease_until now) ≡ ltb ended now =
      rw (is, lease) refl in
    ground (arith, late)

reclaims_each :
    (now : Stamp) (o : Option Row)
    → Reclaiming now o (Option.map (λ r. if expired now r then reclaimed now r else r) o)
unfolding reclaimed
reclaims_each now none = absent
reclaims_each now (some r) = elim (Bool-cases (expired now r)) [
  | inl e ↦ let (u, is, lease, ended) = expired-some now r e in rw e (back u is lease ended)
  | inr e ↦ rw e (kept (not_expired now r e))
]

not_expired_again : (now : Stamp) (r : Row) → expired now (reclaimed now r) ≡ false
unfolding expired reclaimed
not_expired_again now r = refl

-- Reclaiming again at the same time finds nothing.
reclaim_again :
    (now : Stamp) (t : Table)
    → (reclaimed_table now (reclaimed_table now t) ≡ reclaimed_table now t)
      × (count_where (expired now) (reclaimed_table now t) ≡ 0)
unfolding update_where count_where
reclaim_again now [] = (refl, refl)
reclaim_again now (r ∷ t) =
    let (same, zero_left) = reclaim_again now t in
    elim (Bool-cases (expired now r)) [
      | inl e ↦ rw e (rw (not_expired_again now r) (ap (λ x. reclaimed now r ∷ x) same, zero_left))
      | inr e ↦ rw e (rw e (ap (λ x. r ∷ x) same, zero_left))
    ]

fewer_running :
    (now : Stamp) (t : Table)
    → count_where (λ r. is_running r.state) (reclaimed_table now t) + count_where (expired now) t
      ≡ count_where (λ r. is_running r.state) t
unfolding update_where count_where reclaimed
fewer_running now [] = refl
fewer_running now (r ∷ t) =
    let fewer = fewer_running now t in
    elim (Bool-cases (expired now r)) [
      | inl e ↦ let (u, is, lease, ended) = expired-some now r e in rw e (rw is (omega arith))
      | inr e ↦ rw e (ground arith)
    ]

-- Without a fault of the driver, on a table with unique ids and keys, reclaiming succeeds and keeps
-- ids and keys unique. A running row whose lease ended before `now` is queued again, without a worker
-- and a lease, with the error that says so; its attempts, its run_after and what the job is stay.
-- Every other row is what it was, and no row comes or goes. The number returned is by how many the
-- running rows are fewer, and reclaiming again at that time finds nothing.
pub reclaim_outcome :
    (d : Driver) (now : Stamp) (t : Table)
    → indexes_ok t ≡ true
    → (t' : Table) × (n : ℕ) × (reclaim_expired_leases d none now t ≡ ok (t', n))
      × (indexes_ok t' ≡ true)
      × ((i : Text) → Reclaiming now (find_row (has_id i) t) (find_row (has_id i) t'))
      × (count_where (λ r. is_running r.state) t' + n ≡ count_where (λ r. is_running r.state) t)
      × (reclaim_expired_leases d none now t' ≡ ok (t', 0))
unfolding reclaim_expired_leases
reclaim_outcome d now t h =
    let t' = reclaimed_table now t in
    let (done, fits, look) = reclaim_expired_leases_lem d now t h in
    let (same, zero_left) = reclaim_again now t in
    (
      t',
      count_where (expired now) t,
      done,
      fits,
      λ i. rw (look i) (reclaims_each now (find_row (has_id i) t)),
      fewer_running now t,
      rw (same, zero_left) (commit_ok d t' 0 fits),
    )

reclaimed-runnable :
    (now later : Stamp) (r : Row)
    → expired now r ≡ true
    → r.run_after ≤ later
    → runnable later (reclaimed now r) ≡ true
unfolding expired reclaimed runnable
reclaimed-runnable now later r h k = ground arith

-- A job whose worker died is not lost. On a table with unique ids and keys and without faults, a
-- running row whose lease ended before `now`, and whose run_after is not after the time of a later
-- claim, is put back by reclaiming, is runnable at that time, and so that claim does not find
-- nothing.
pub reclaim-claim :
    (d : Driver) (now : Stamp) (a : ClaimParams) (t : Table) (r : Row)
    → indexes_ok t ≡ true
    → Memᴰ r t
    → expired now r ≡ true
    → r.run_after ≤ a.run_after
    → (t' : Table) × (reclaim_expired_leases d none now t ≡ ok (t', count_where (expired now) t))
      × (find_row (has_id r.id) t' ≡ some (reclaimed now r))
      × (runnable a.run_after (reclaimed now r) ≡ true)
      × (claim_next_job d none a t' ≢ err no_rows)
reclaim-claim d now a t r h here e due =
    let t' = reclaimed_table now t in
    let (done, fits, look) = reclaim_expired_leases_lem d now t h in
    let back : find_row (has_id r.id) t' ≡ some (reclaimed now r) =
      look r.id ∙ rw (find_row_of_Mem t r h here) (rw e) in
    let can : runnable a.run_after (reclaimed now r) ≡ true =
      reclaimed-runnable now a.run_after r e due in
    (
      t',
      done,
      back,
      can,
      λ lost. elim (claim_outcome d a t' fits) [
        | inl (_, nothing) ↦
            let no : runnable a.run_after (reclaimed now r) ≡ false =
              All-Mem (λ s. runnable a.run_after s ≡ false) (reclaimed now r) t'
                (find_row-some (has_id r.id) t' (reclaimed now r) back).1 nothing in
            cc
        | inr (_, _, _, got, _, _, _) ↦ cc
      ],
    )
