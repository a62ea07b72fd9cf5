-- ===== src/Jobs/Worker/Crashes.antt =====
-- Workers of internal/jobs/worker.go that die with a job, again and again.
use manualbox.Prelude.{
  ℕ, ◌+◌, ◌^◌, ◌≤◌, ◌<◌, ◌≡◌, refl, ◌∙◌, Bool, true, none, some, List, [], ◌∷◌, ok, arith,
}
use manualbox.Prelude.Text.{Text, text_eq_refl}
use manualbox.Prelude.Lists.{length, count_where}
use manualbox.Clock.{Instant, Stamp, millis, millis_mono}
use manualbox.Jobs.Model.{Row}
use manualbox.Jobs.Table.{
  Driver, has_id, update_where, indexes_ok, runnable, best, first_of_two, ClaimParams, claimed,
  claim_next_job, clashes,
}
use manualbox.Jobs.Table.Indexes.{commit_ok}
use manualbox.Jobs.Statements.{expired, reclaimed, reclaim_expired_leases}
use manualbox.Jobs.Queue.{Queue}
use manualbox.Jobs.Worker.{Pool, claim, reclaim}

-- A worker claims and dies, and later leases are reclaimed.
pub record Round : Type 0 where
  pub worker : Text
  pub claimed_at : Instant
  pub reclaimed_at : Instant

unfoldable pub crash_round : Driver → Pool → Round → Queue → Queue
crash_round d p c q = (reclaim d none c.reclaimed_at (claim d none c.worker c.claimed_at p q).0).0

unfoldable pub crash_rounds : Driver → Pool → List Round → Queue → Queue
unfolding crash_round
crash_rounds d p [] q = q
crash_rounds d p (c ∷ cs) q = crash_rounds d p cs (crash_round d p c q)

-- The clock goes on: each claim is not before what precedes it, and leases are reclaimed after the
-- end of the lease of the claim.
abbrev pub IsForward : Pool → Instant → List Round → Type 0
IsForward p from [] = Unit {0}
IsForward p from (c ∷ cs) =
    (from ≤ c.claimed_at)
    × (millis (c.claimed_at + p.lease) < millis c.reclaimed_at)
    × IsForward p c.reclaimed_at cs

single_ok : (r : Row) → indexes_ok (r ∷ []) ≡ true
unfolding indexes_ok clashes
single_ok r = refl

update_single :
    (p : Row → Bool) (f : Row → Row) (r : Row) → p r ≡ true → update_where p f (r ∷ []) ≡ f r ∷ []
unfolding update_where
update_single p f r h = rw h

best_single : (p : Row → Bool) (r : Row) → p r ≡ true → best p (r ∷ []) ≡ some r
unfolding best first_of_two
best_single p r h = rw h

claim_next_job_single :
    (d : Driver) (a : ClaimParams) (r : Row)
    → runnable a.run_after r ≡ true
    → claim_next_job d none a (r ∷ []) ≡ ok (claimed a r ∷ [], claimed a r)
unfolding claim_next_job
claim_next_job_single d a r h =
    rw (best_single (runnable a.run_after) r h, claim_next_job)
      (rw (update_single (has_id r.id) (claimed a) r (text_eq_refl r.id))
        (commit_ok d (claimed a r ∷ []) (claimed a r) (single_ok (claimed a r))))

reclaim_single :
    (d : Driver) (now : Stamp) (r : Row)
    → expired now r ≡ true
    → reclaim_expired_leases d none now (r ∷ [])
      ≡ ok (reclaimed now r ∷ [], count_where (expired now) (r ∷ []))
unfolding reclaim_expired_leases
reclaim_single d now r h = rw (update_single (expired now) (reclaimed now) r h) (
    commit_ok d (reclaimed now r ∷ []) (count_where (expired now) (r ∷ []))
      (single_ok (reclaimed now r)))

abbrev params : Pool → Round → ClaimParams
params p c = record {
  worker = c.worker;
  lease_until = millis (c.claimed_at + p.lease);
  started_at = millis c.claimed_at;
  updated_at = millis c.claimed_at;
  run_after = millis c.claimed_at;
}

expired-claimed :
    (a : ClaimParams) (later : Stamp) (r : Row)
    → a.lease_until < later
    → expired later (claimed a r) ≡ true
unfolding expired claimed
expired-claimed a later r k = ground arith

abbrev back : Pool → Round → Row → Row
back p c r = reclaimed (millis c.reclaimed_at) (claimed (params p c) r)

crash_round_lem :
    (d : Driver) (p : Pool) (c : Round) (q : Queue) (r : Row)
    → q.table ≡ r ∷ []
    → runnable (millis c.claimed_at) r ≡ true
    → millis (c.claimed_at + p.lease) < millis c.reclaimed_at
    → (crash_round d p c q).table ≡ back p c r ∷ []
unfolding crash_round claim reclaim
crash_round_lem d p c q r e h k =
    let a = params p c in
    let gone = expired-claimed a (millis c.reclaimed_at) r k in
    rw (e, crash_round, claim)
      (rw (claim_next_job_single d a r h)
        (rw (reclaim_single d (millis c.reclaimed_at) (claimed a r) gone) refl))

runnable_later :
    (from to : Stamp) (r : Row) → from ≤ to → runnable from r ≡ true → runnable to r ≡ true
unfolding runnable
runnable_later from to r h k = ground arith

again :
    (p : Pool) (c : Round) (now : Stamp) (r : Row)
    → runnable now r ≡ true
    → (runnable now (back p c r) ≡ true)
      × ((back p c r).attempts ≡ r.attempts + 1)
      × ((back p c r).max_attempts ≡ r.max_attempts)
unfolding runnable reclaimed claimed
again p c now r h = (ground arith, refl, refl)

reclaimed_later :
    (p : Pool) (start from : Instant) (c : Round)
    → start ≤ from
    → from ≤ c.claimed_at
    → millis (c.claimed_at + p.lease) < millis c.reclaimed_at
    → start ≤ c.reclaimed_at
unfolding millis
reclaimed_later p start from c k l m = omega arith

abbrev Ends : Instant → ℕ → Row → Queue → Type 0
Ends start n r q =
    (r' : Row) × (q.table ≡ r' ∷ [])
    × ((at : Instant) → start ≤ at → runnable (millis at) r' ≡ true)
    × (r'.attempts ≡ r.attempts + n)
    × (r'.max_attempts ≡ r.max_attempts)

crash_rounds-Ends :
    (d : Driver) (p : Pool) (start from : Instant) (cs : List Round) (q : Queue) (r : Row)
    → q.table ≡ r ∷ []
    → runnable (millis start) r ≡ true
    → start ≤ from
    → IsForward p from cs
    → Ends start (length cs) r (crash_rounds d p cs q)
unfolding crash_rounds
crash_rounds-Ends d p start from [] q r e h l v =
    (r, e, λ at k. runnable_later _ _ r (millis_mono start at k) h, omega arith, refl)
crash_rounds-Ends d p start from (c ∷ cs) q r e h l v =
    let due = runnable_later _ _ r (millis_mono start c.claimed_at (omega (arith, l, v.0))) h in
    let (can, more, same) = again p c (millis start) r h in
    let (r', e', due', more', same') =
      crash_rounds-Ends d p start c.reclaimed_at cs (crash_round d p c q) (back p c r)
        (crash_round_lem d p c q r e due v.1) can (reclaimed_later p start from c l v.0 v.1) v.2 in
    (r', e', due', omega (arith, more, more'), same' ∙ same)

-- The one job of a queue, which is queued and due at `from`, is claimed, and its worker dies, any
-- number of times, each claim after what went before and each reclaim after the end of its lease. Then,
-- whatever the job's max_attempts, it is queued and due at every time from `from` on, with as many
-- more attempts as there were claims. With all these claims the attempts
-- still fit the column's 64 bits.
pub crash_rounds_unbounded :
    (d : Driver) (p : Pool) (from : Instant) (cs : List Round) (q : Queue) (r : Row)
    → q.table ≡ r ∷ []
    → runnable (millis from) r ≡ true
    → IsForward p from cs
    → r.attempts + length cs < 2 ^ 63
    → (r' : Row) × ((crash_rounds d p cs q).table ≡ r' ∷ [])
      × ((at : Instant) → from ≤ at → runnable (millis at) r' ≡ true)
      × (r'.attempts ≡ r.attempts + length cs)
      × (r'.max_attempts ≡ r.max_attempts)
crash_rounds_unbounded d p from cs q r e h v fits =
    crash_rounds-Ends d p from from cs q r e h (omega arith) v
