-- ===== src/Jobs/Holding/Claims.antt =====
-- Two claims with statements of all workers between them, internal/db/gen/jobs.sql.go.
use mathlib.Core.List.{Memᴰ}
use manualbox.Prelude.{
  ◌≤◌, ◌≡◌, ◌≢◌, refl, sym, ap, ◌∙◌, true, Option, none, some, List, [], ◌∷◌, arith, ok, err,
  ok-injective, Bool-cases, inl, inr,
}
use manualbox.Prelude.Text.{Text, text_eq_iff}
use manualbox.Prelude.Lists.{All-Mem}
use manualbox.Clock.{Stamp}
use manualbox.Jobs.Model.{Row, no_rows}
use manualbox.Jobs.Table.{
  Table, Driver, has_id, update_where, indexes_ok, commit, runnable, ClaimParams, claimed,
  claim_next_job,
}
use manualbox.Jobs.Table.Order.{best_cases}
use manualbox.Jobs.Invariant.Histories.{Statement, run}
use manualbox.Jobs.Holding.{is_held, Held, Keeping, run-Held}

pub claimed_rows :
    (a : ClaimParams) (until : Stamp) (i : Text) (t : Table)
    → until ≤ a.lease_until
    → Held until i (update_where (has_id i) (claimed a) t)
unfolding update_where is_held claimed
claimed_rows a until i [] h = tt
claimed_rows a until i (r ∷ t) h = (ground arith, claimed_rows a until i t h)

committed :
    {A : Type 0} (d : Driver) (t t' : Table) (a b : A)
    → commit d none t a ≡ ok (t', b)
    → (t' ≡ t) × (b ≡ a)
unfolding commit
committed d t t' a b e = elim (Bool-cases (indexes_ok t)) [
  | inl h ↦
      let same : (t, a) ≡ (t', b) = ok-injective (sym (rw h refl) ∙ e) in
      (sym (ap (λ x. x.0) same), sym (ap (λ x. x.1) same))
  | inr h ↦ ground arith
]

-- What a claim that succeeds returns: a row of the table that was queued, as running.
pub claimed_from :
    (d : Driver) (fault : Option Text) (a : ClaimParams) (t t' : Table) (r : Row)
    → claim_next_job d fault a t ≡ ok (t', r)
    → (s : Row) × Memᴰ s t
      × (runnable a.run_after s ≡ true)
      × (r ≡ claimed a s)
      × (t' ≡ update_where (has_id s.id) (claimed a) t)
unfolding claim_next_job
claimed_from d (some m) a t t' r e = cc
claimed_from d none a t t' r e = elim (best_cases (runnable a.run_after) t) [
  | inl (e', _) ↦
      let bad : claim_next_job d none a t ≡ err no_rows = rw (e', claim_next_job) refl in cc
  | inr (s, e', (passes, here, _)) ↦
      let u : Table = update_where (has_id s.id) (claimed a) t in
      let step : claim_next_job d none a t ≡ commit d none u (claimed a s) =
        rw (e', claim_next_job) refl in
      let (there, same) = committed d u t' (claimed a s) r (sym step ∙ e) in
      (s, here, passes, same, there)
]

pub is_held_not_runnable :
    (until now : Stamp) (i : Text) (s : Row)
    → is_held until i s ≡ true
    → runnable now s ≡ true
    → i ≢ s.id
unfolding is_held runnable
is_held_not_runnable until now i s h e same = ground (arith, text_eq_iff s.id i)

-- No two workers hold a job while its lease lasts. After a claim that hands out a job, let all
-- workers issue any statements, in any order and with any failures, of which none releases that job
-- or schedules its retry, inserts a job under its id, renews its lease to a time before `until`, or
-- reclaims at a time after `until`, which is at most the lease of the claim. Then a claim that
-- succeeds hands out another job.
pub claim-run_claim :
    (d : Driver) (fault fault' : Option Text) (a b : ClaimParams) (until : Stamp)
    (ss : List (Option Text × Statement)) (t t₁ t₂ : Table) (r s : Row)
    → until ≤ a.lease_until
    → claim_next_job d fault a t ≡ ok (t₁, r)
    → Keeping until r.id ss
    → claim_next_job d fault' b (run d ss t₁) ≡ ok (t₂, s)
    → r.id ≢ s.id
claim-run_claim d fault fault' a b until ss t t₁ t₂ r s h e₁ k e₂ =
    let (r', _, _, first, there) = claimed_from d fault a t t₁ r e₁ in
    let (s', here, due, second, _) = claimed_from d fault' b (run d ss t₁) t₂ s e₂ in
    let own : r.id ≡ r'.id = rw first (unfold claimed in refl) in
    let start : Held until r.id t₁ = rw (own, there) (claimed_rows a until r'.id t h) in
    let now_held : Held until r.id (run d ss t₁) = run-Held d ss until r.id t₁ k start in
    let apart : r.id ≢ s'.id =
      is_held_not_runnable until b.run_after r.id s'
        (All-Mem (λ x. is_held until r.id x ≡ true) s' (run d ss t₁) here now_held) due in
    rw second (unfold claimed in apart)
