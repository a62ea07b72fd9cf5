-- ===== src/Jobs/Claim.antt =====
-- ClaimNextJob of internal/db/gen/jobs.sql.go, which Pool.claim calls.
use mathlib.Core.List.{Memᴰ}
use manualbox.Prelude.{
  ◌≡◌, ◌≢◌, refl, sym, ap, ◌∙◌, true, ◌&&◌, none, some, arith, Result, ok, err, ok-injective, ◌⊎◌,
  inl, inr,
}
use manualbox.Prelude.Text.{Text}
use manualbox.Jobs.Model.{Row, no_rows, DbError}
use manualbox.Jobs.Table.{
  Table, Driver, has_id, update_where, find_row, indexes_ok, runnable, ClaimParams, claimed,
  claim_next_job,
}
use manualbox.Jobs.Table.Order.{best_cases, Picked, NoneOf}
use manualbox.Jobs.Table.Indexes.{IsGentle, KeepsId, commit_ok}
use manualbox.Jobs.Table.Lookups.{
  find_row-update_id, find_row-update_other, find_row_of_Mem, indexes_ok-update_id,
}

claimed-IsGentle :
    (a : ClaimParams) (r : Row)
    → IsGentle (λ s. has_id r.id s && runnable a.run_after s) (claimed a)
unfolding claimed runnable
claimed-IsGentle a r s h = (refl, inl (ground arith))

-- Claiming the row picked violates no unique index.
claim-indexes_ok :
    (a : ClaimParams) (r : Row) (t : Table)
    → indexes_ok t ≡ true
    → Picked (runnable a.run_after) r t
    → indexes_ok (update_where (has_id r.id) (claimed a) t) ≡ true
claim-indexes_ok a r t h (passes, here, _) =
    indexes_ok-update_id (runnable a.run_after) (claimed a) r.id r t (claimed-IsGentle a r) h
      (find_row_of_Mem t r h here) passes

claimed_id : (a : ClaimParams) → KeepsId (claimed a)
unfolding claimed
claimed_id a r = refl

-- Without a fault of the driver, a claim on a table with unique ids and keys finds no row exactly
-- when none is queued and due. Otherwise it takes a row of the table that is queued and due and
-- that no other such row precedes by priority and then by id; it returns that row as running for
-- the worker with one more attempt, and the table holds the row so under its id, and under every
-- other id what it held.
pub claim_outcome :
    (d : Driver) (a : ClaimParams) (t : Table)
    → indexes_ok t ≡ true
    → ((claim_next_job d none a t ≡ err no_rows) × NoneOf (runnable a.run_after) t)
      ⊎ ((r : Row) × (t' : Table) × Picked (runnable a.run_after) r t
          × (claim_next_job d none a t ≡ ok (t', claimed a r))
          × (indexes_ok t' ≡ true)
          × (find_row (has_id r.id) t' ≡ some (claimed a r))
          × ((i : Text) → i ≢ r.id → find_row (has_id i) t' ≡ find_row (has_id i) t))
unfolding claim_next_job
claim_outcome d a t h = elim (best_cases (runnable a.run_after) t) [
  | inl (e, out) ↦ inl (rw (e, claim_next_job), out)
  | inr (r, e, picked) ↦
      let t' : Table = update_where (has_id r.id) (claimed a) t in
      let fits : indexes_ok t' ≡ true = claim-indexes_ok a r t h picked in
      inr (
        r,
        t',
        picked,
        rw (e, claim_next_job) (commit_ok d t' (claimed a r) fits),
        fits,
        find_row-update_id r.id (claimed a) t (claimed_id a) ∙ rw (find_row_of_Mem t r h picked.1),
        λ i ne. find_row-update_other i r.id (claimed a) t (claimed_id a) ne,
      )
]

-- A row that was just claimed is not one that can be claimed.
claimed_not_runnable :
    (a b : ClaimParams) (t : Table) (r s : Row)
    → indexes_ok t ≡ true
    → find_row (has_id r.id) t ≡ some (claimed a r)
    → runnable b.run_after s ≡ true
    → Memᴰ s t
    → r.id ≢ s.id
unfolding runnable claimed
claimed_not_runnable a b t r s h look passes here same =
    let found : find_row (has_id r.id) t ≡ some s = rw same (find_row_of_Mem t s h here) in
    ground arith

no_ok : {A : Type 0} {a : A} → ◌≡◌ {A = Result DbError A} (err no_rows) (ok a) → ⊥
no_ok e = cc

-- Two claims without faults, one after the other on a table with unique ids and keys, never hand
-- out the same job: the second can only take a row that is queued, and the first left its own
-- running.
pub claim_twice :
    (d : Driver) (a b : ClaimParams) (t t₁ t₂ : Table) (r s : Row)
    → indexes_ok t ≡ true
    → claim_next_job d none a t ≡ ok (t₁, r)
    → claim_next_job d none b t₁ ≡ ok (t₂, s)
    → r.id ≢ s.id
claim_twice d a b t t₁ t₂ r s h e₁ e₂ = elim (claim_outcome d a t h) [
  | inl (e, _) ↦ cc
  | inr (r', t', _, e, h', look, _) ↦
      let first : (t', claimed a r') ≡ (t₁, r) = ok-injective (sym e ∙ e₁) in
      let there : t' ≡ t₁ = ap (λ (x : Table × Row). x.0) first in
      elim (claim_outcome d b t₁ (rw (sym there) h')) [
        | inl (e', _) ↦ absurd (no_ok (sym e' ∙ e₂))
        | inr (s', t'', (passes, here, _), e', _, _, _) ↦
            let second : (t'', claimed b s') ≡ (t₂, s) = ok-injective (sym e' ∙ e₂) in
            let apart : r'.id ≢ s'.id =
              claimed_not_runnable a b t₁ r' s' (rw (sym there) h') (rw (sym there) look) passes
                here in
            λ same. apart (
              sym (claimed_id a r')
              ∙ ap (λ (x : Table × Row). x.1.id) first
              ∙ same
              ∙ sym (ap (λ (x : Table × Row). x.1.id) second)
              ∙ claimed_id b s')
      ]
]
