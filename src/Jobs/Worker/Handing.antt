-- ===== src/Jobs/Worker/Handing.antt =====
-- claim and reclaim of internal/jobs/worker.go, and the other users of the table, beside jobs that
-- workers have.
use mathlib.Core.Path.{subst}
use manualbox.Prelude.{
  ℕ, ◌+◌, ◌≡◌, ◌≢◌, refl, sym, ap, ◌∙◌, Bool, true, false, ◌&&◌, Option, none, some, [], ◌∷◌,
  Result, ok, err, ◌⊎◌, Result-cases, inl, inr, arith,
}
use manualbox.Prelude.Text.{Text, text_eq, text_eq_iff}
use manualbox.Prelude.Lists.{All, All-Mem}
use manualbox.Clock.{Instant, Stamp, millis}
use manualbox.Jobs.Model.{Job, from_row, DbError, no_rows, driver_error}
use manualbox.Jobs.Table.{
  Table, Driver, Outcome, update_where, ClaimParams, claimed, claim_next_job,
}
use manualbox.Jobs.Statements.{expired, reclaimed, reclaim_expired_leases}
use manualbox.Jobs.Invariant.Histories.{Statement, enqueue, claim, cancel, purge, after, exec}
use manualbox.Jobs.Holding.{keeps_hold, is_held, Held, exec-Held, commit-Held}
use manualbox.Jobs.Holding.Claims.{claimed_from, claimed_rows, is_held_not_runnable}
use manualbox.Jobs.Queue.{Queue}
use manualbox.Jobs.Worker
use manualbox.Jobs.Worker.{Pool, Working}
use manualbox.Jobs.Worker.Effects.{}
use manualbox.Jobs.Worker.Loops.{System, holder, after_claim, IsOutside}

reclaimed_rows :
    (now : Stamp) (x : Text) (t : Table)
    → Held 0 x t
    → All (λ r. (text_eq r.id x && expired now r) ≡ false) t
    → Held 0 x (update_where (expired now) (reclaimed now) t)
unfolding update_where is_held reclaimed
reclaimed_rows now x [] v h = tt
reclaimed_rows now x (r ∷ t) v h = (ground (arith, v.0, h.0), reclaimed_rows now x t v.1 h.1)

pub reclaim-Held :
    (d : Driver) (fault : Option Text) (now : Instant) (q : Queue) (x : Text)
    → Held 0 x q.table
    → All (λ r. (text_eq r.id x && expired (millis now) r) ≡ false) q.table
    → Held 0 x (Worker.reclaim d fault now q).0.table
unfolding Worker.reclaim reclaim_expired_leases
reclaim-Held d fault now q x v h =
    let t' : Table = update_where (expired (millis now)) (reclaimed (millis now)) q.table in
    let kept : Held 0 x (after q.table (reclaim_expired_leases d fault (millis now) q.table)) =
      commit-Held d fault 0 x q.table t' _ v (reclaimed_rows (millis now) x q.table v h) in
    elim (Result-cases (reclaim_expired_leases d fault (millis now) q.table)) [
      | inl (e, g) ↦ rw (g, Worker.reclaim) v
      | inr ((t, n), g) ↦
          rw (g, Worker.reclaim)
            (subst (λ (o : Outcome (Table × ℕ)). Held 0 x (after q.table o)) g kept)
    ]

no_holder : (c : Bool) (e : DbError) → holder (after_claim c (err e)) ≡ none
unfolding after_claim
no_holder true e = refl
no_holder false e = refl

abbrev pub Claimed : Type 0
Claimed = Queue × Result DbError (Option Job)

-- A claim takes no job, or one that was queued, which is then held.
pub claim_lem :
    (d : Driver) (p : Pool) (fault : Option Text) (worker : Text) (now : Instant) (q q' : Queue)
    (got : Result DbError (Option Job)) (c : Bool)
    → Worker.claim d fault worker now p q ≡ (q', got)
    → ((q'.table ≡ q.table) × (holder (after_claim c got) ≡ none))
      ⊎ ((j : Text) × (holder (after_claim c got) ≡ some j)
          × Held 0 j q'.table
          × ((x : Text) → Held 0 x q.table → (x ≢ j) × Held 0 x q'.table))
unfolding Worker.claim after_claim from_row
claim_lem d p fault worker now q q' got c e =
    let a : ClaimParams = record {
      worker = worker;
      lease_until = millis (now + p.lease);
      started_at = millis now;
      updated_at = millis now;
      run_after = millis now;
    } in
    elim (Result-cases (claim_next_job d fault a q.table)) [
      | inl (no_rows, g) ↦
          let same : ◌≡◌ {A = Claimed} (q, ok none) (q', got) =
            sym (rw (g, Worker.claim) refl) ∙ e in
          inl (
            ap (λ (y : Claimed). y.0.table) (sym same),
            ap (λ (y : Claimed). holder (after_claim c y.1)) (sym same),
          )
      | inl (driver_error m, g) ↦
          let same : ◌≡◌ {A = Claimed} (q, err (driver_error m)) (q', got) =
            sym (rw (g, Worker.claim) refl) ∙ e in
          inl (
            ap (λ (y : Claimed). y.0.table) (sym same),
            ap (λ (y : Claimed). holder (after_claim c y.1)) (sym same)
                ∙ no_holder c (driver_error m),
          )
      | inr ((t', r), g) ↦
          let same : ◌≡◌ {A = Claimed} (record q { table = t' }, ok (some (from_row r))) (q', got) =
            sym (rw (g, Worker.claim) refl) ∙ e in
          let (s, here, due, was, there) = claimed_from d fault a q.table t' r g in
          let named : r.id ≡ s.id = rw was (unfold claimed in refl) in
          let table : q'.table ≡ t' = ap (λ (y : Claimed). y.0.table) (sym same) in
          let run : t' ≡ exec d fault (claim a) q.table =
            unfold exec in ap (after q.table) (sym g) in
          inr (
            s.id,
            ap (λ (y : Claimed). holder (after_claim c y.1)) (sym same) ∙ ap some named,
            subst (Held 0 s.id) (sym (table ∙ there)) (claimed_rows a 0 s.id q.table (omega arith)),
            λ x v. (
              is_held_not_runnable 0 (millis now) x s
                  (All-Mem (λ y. is_held 0 x y ≡ true) s q.table here v) due,
              subst (Held 0 x) (sym (table ∙ run))
                  (exec-Held d fault (claim a) 0 x q.table (unfold keeps_hold in refl) v),
            ),
          )
    ]

pub outside_keeps :
    (s : System) (st : Statement) (i : ℕ) (x : Text)
    → IsOutside s st
    → holder (s.phases i) ≡ some x
    → keeps_hold 0 x st ≡ true
unfolding keeps_hold
outside_keeps s (enqueue a) i x o h =
    ground (arith, text_eq_iff a.id x, λ (same : a.id ≡ x). o i (h ∙ ap some (sym same)))
outside_keeps s (cancel now j) i x o h = refl
outside_keeps s (purge cutoff) i x o h = refl
outside_keeps s _ i x o h = absurd o
