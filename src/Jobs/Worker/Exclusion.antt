-- ===== src/Jobs/Worker/Exclusion.antt =====
-- The workers of internal/jobs/worker.go beside one another: no job is with two of them.
use mathlib.Core.Path.{subst}
use manualbox.Prelude.{
  ℕ, ◌≡◌, ◌≢◌, refl, sym, ap, ◌∙◌, false, ◌&&◌, Option, some, [], ◌∷◌, ◌⊎◌, if◌then◌else◌, ltb,
  ◌==◌, ==_iff, Bool-cases, inl, inr, arith,
}
use manualbox.Prelude.Text.{Text, text_eq}
use manualbox.Prelude.Lists.{All}
use manualbox.Clock.{Instant}
use manualbox.Jobs.Model.{is_queued, event_for}
use manualbox.Jobs.Table.{Table, Driver}
use manualbox.Jobs.Holding.{is_held, Held, exec-Held}
use manualbox.Jobs.Queue.{Queue}
use manualbox.Jobs.Worker.{Pool}
use manualbox.Jobs.Worker.Running.{run_handler}
use manualbox.Jobs.Worker.Effects.{
  some-injective, publish_event-table, Does, report_lem, settle_lem, finish_failed_lem,
}
use manualbox.Jobs.Worker.Handing.{reclaim-Held, claim_lem, outside_keeps}
use manualbox.Jobs.Worker.Loops.{
  Phase, looping, stopped, handling, System, set_phase, holder, after_claim, start_pool, working_on,
  moved, Step, Reach,
}

-- The rows of a job that a worker has are not queued, and no two workers have the same job.
pub record IsExclusive (s : System) : Type 0 where
  pub kept : (i : ℕ) (x : Text) → holder (s.phases i) ≡ some x → Held 0 x s.queue.table
  pub apart :
      (i k : ℕ) (x : Text) → holder (s.phases i) ≡ some x → holder (s.phases k) ≡ some x → i ≡ k

set_phase_cases :
    (f : ℕ → Phase) (i k : ℕ) (ph : Phase)
    → ((k ≡ i) × (set_phase f i ph k ≡ ph)) ⊎ ((k ≢ i) × (set_phase f i ph k ≡ f k))
unfolding set_phase
set_phase_cases f i k ph = elim (Bool-cases (k == i)) [
  | inl e ↦ inl ((==_iff k i).0 e, rw e refl)
  | inr e ↦ inr ((λ same. ground (arith, ==_iff k i)), rw e refl)
]

module _ (s : System) (i : ℕ) (q : Queue) (ph : Phase) (v : IsExclusive s) where
  -- A step of one worker that leaves it with no job or with one that no other worker has.
  moved-IsExclusive :
      ((k : ℕ) (x : Text) → k ≢ i → holder (s.phases k) ≡ some x → Held 0 x q.table)
      → ((x : Text) → holder ph ≡ some x → Held 0 x q.table)
      → ((k : ℕ) (x : Text) → k ≢ i → holder (s.phases k) ≡ some x → holder ph ≢ some x)
      → IsExclusive (moved s i q ph)
  moved-IsExclusive others own fresh = record {
    kept = λ k x h. elim (set_phase_cases s.phases i k ph) [
      | inl (_, e) ↦ own x (ap holder (sym e) ∙ h)
      | inr (ne, e) ↦ others k x ne (ap holder (sym e) ∙ h)
    ];
    apart = λ k l x h h'. elim (set_phase_cases s.phases i k ph) [
      | inl (same, e) ↦ elim (set_phase_cases s.phases i l ph) [
        | inl (same', _) ↦ same ∙ sym same'
        | inr (ne, e') ↦ absurd (fresh l x ne (ap holder (sym e') ∙ h') (ap holder (sym e) ∙ h))
      ]
      | inr (ne, e) ↦ elim (set_phase_cases s.phases i l ph) [
        | inl (_, e') ↦ absurd (fresh k x ne (ap holder (sym e) ∙ h) (ap holder (sym e') ∙ h'))
        | inr (_, e') ↦ v.apart k l x (ap holder (sym e) ∙ h) (ap holder (sym e') ∙ h')
      ]
    ];
  }

  -- One that ends without a job, or keeps its own, by a statement that gives up at most its own.
  step-IsExclusive :
      (d : Driver) (j : Text) (P : Text → Type 0)
      → holder (s.phases i) ≡ some j
      → Does d s.queue.table q.table P
      → ((x : Text) → x ≢ j → P x)
      → ((x : Text) → holder ph ≡ some x → (x ≡ j) × P x)
      → IsExclusive (moved s i q ph)
  step-IsExclusive d j P has (fault, st, t, keeps) other own =
      let foreign : (k : ℕ) (x : Text) → k ≢ i → holder (s.phases k) ≡ some x → x ≢ j =
        λ k x ne h same. ne (v.apart k i x h (has ∙ ap some (sym same))) in
      moved-IsExclusive
        (λ k x ne h. rw t (
          exec-Held d fault st 0 x s.queue.table (keeps x (other x (foreign k x ne h)))
            (v.kept k x h)))
        (λ x h.
          let (same, p) = own x h in
          rw t (
            exec-Held d fault st 0 x s.queue.table (keeps x p)
              (v.kept i x (has ∙ ap some (sym same)))))
        (λ k x ne h h'. foreign k x ne h (own x h').0)

  -- One that changes the phase alone.
  idle-IsExclusive :
      q.table ≡ s.queue.table
      → ((x : Text) → holder ph ≡ some x → holder (s.phases i) ≡ some x)
      → IsExclusive (moved s i q ph)
  idle-IsExclusive t same =
      moved-IsExclusive (λ k x ne h. rw t (v.kept k x h)) (λ x h. rw t (v.kept i x (same x h)))
        (λ k x ne h h'. ne (v.apart k i x h (same x h')))

no_job : {A : Type 0} {x : Text} → holder looping ≡ some x → A
no_job e = cc

Step-IsExclusive :
    (d : Driver) (p : Pool) (s t : System) → Step d p s t → IsExclusive s → IsExclusive t
Step-IsExclusive d p s t Step.cancels v = record { kept = v.kept; apart = v.apart }
Step-IsExclusive d p s t (Step.reclaims fault now live) v = record {
  kept = λ i x h. reclaim-Held d fault now s.queue x (v.kept i x h) (live i x h);
  apart = v.apart;
}
Step-IsExclusive d p s t (Step.outsides fault st b o) v = record {
  kept =
      λ i x h. exec-Held d fault st 0 x s.queue.table (outside_keeps s st i x o h) (v.kept i x h);
  apart = v.apart;
}
Step-IsExclusive d p s t (Step.stops i c none_there) v =
    idle-IsExclusive s i s.queue stopped v refl (λ x h. no_job h)
Step-IsExclusive d p s t (Step.wakes i here) v =
    idle-IsExclusive s i s.queue looping v refl (λ x h. no_job h)
Step-IsExclusive d p s t (Step.claims i worker fault now q got here e) v =
    elim (claim_lem d p fault worker now s.queue q got s.cancelled e) [
      | inl (table, none_there) ↦
          idle-IsExclusive s i q (after_claim s.cancelled got) v table
            (λ x h. no_job (sym none_there ∙ h))
      | inr (j, has, own, others) ↦
          moved-IsExclusive s i q (after_claim s.cancelled got) v
            (λ k x ne h. (others x (v.kept k x h)).1)
            (λ x h.
              let same : j ≡ x = some-injective (sym has ∙ h) in
              subst (λ y. Held 0 y q.table) same own)
            (λ k x ne h h'. (others x (v.kept k x h)).0 (some-injective (sym h' ∙ has)))
    ]
Step-IsExclusive d p s t (Step.starts i j q here known e) v =
    idle-IsExclusive s i q (handling j) v (publish_event-table s.queue q (event_for j) tt tt e)
      (λ x h. ap holder here ∙ h)
Step-IsExclusive d p s t (Step.refuses i j c w b here unknown e) v =
    step-IsExclusive s i w.queue looping v d j.id _ (ap holder here)
      (finish_failed_lem d c _ (working_on s j) w b e) (λ x ne. ne) (λ x h. no_job h)
Step-IsExclusive d p s t (Step.reports i j r w here e) v =
    let (does, same) = report_lem d p r (working_on s j) w e in
    step-IsExclusive s i w.queue (handling w.job) v d j.id _ (ap holder here) does (λ x _. tt)
      (λ x h. (some-injective (sym h) ∙ same, tt))
Step-IsExclusive d p s t (Step.finishes i j c source end w b here e) v =
    step-IsExclusive s i w.queue looping v d j.id _ (ap holder here)
      (settle_lem d c source s.cancelled (run_handler end) (working_on s j) w b e) (λ x ne. ne)
      (λ x h. no_job h)

start_pool-IsExclusive :
    (d : Driver) (p : Pool) (fault : Option Text) (now : Instant) (q : Queue)
    → IsExclusive (start_pool d p fault now q)
unfolding start_pool
start_pool-IsExclusive d p fault now q = record {
  kept = λ i x h. absurd (idle_at_start i x h);
  apart = λ i k x h h'. absurd (idle_at_start i x h);
}
  where
    idle_at_start :
        (i : ℕ) (x : Text) → holder (if ltb i p.workers then looping else stopped) ≢ some x
    idle_at_start i x h = elim (Bool-cases (ltb i p.workers)) [
      | inl e ↦ no_job (sym (rw e refl) ∙ h)
      | inr e ↦ no_job (sym (rw e refl) ∙ h)
    ]

Reach-IsExclusive :
    (d : Driver) (p : Pool) (a : System)
    → IsExclusive a
    → (s : System) → Reach d p a s
    → IsExclusive s
Reach-IsExclusive d p a v s Reach.here = v
Reach-IsExclusive d p a v t (Reach.next {s} r st) =
    Step-IsExclusive d p s t st (Reach-IsExclusive d p a v s r)

not_queued :
    (x : Text) (t : Table) → Held 0 x t → All (λ r. (text_eq r.id x && is_queued r.state) ≡ false) t
unfolding is_held
not_queued x [] v = tt
not_queued x (r ∷ t) v = (ground (arith, v.0), not_queued x t v.1)

-- In whatever order the workers of a pool, the reclaimer and the rest of the program act, and
-- whichever calls fail: if no lease of a job that a worker has ends before a reclaim, and no job is
-- inserted under the id of one that a worker has, no two workers have the same job, and no row with
-- the id of a job that a worker has is queued.
pub Reach-exclusive :
    (d : Driver) (p : Pool) (fault : Option Text) (now : Instant) (q : Queue) (s : System)
    → Reach d p (start_pool d p fault now q) s
    → (i : ℕ) (x : Text) → holder (s.phases i) ≡ some x
    → ((k : ℕ) → holder (s.phases k) ≡ some x → i ≡ k)
      × All (λ r. (text_eq r.id x && is_queued r.state) ≡ false) s.queue.table
Reach-exclusive d p fault now q s r i x h =
    let v : IsExclusive s =
      Reach-IsExclusive d p (start_pool d p fault now q) (start_pool-IsExclusive d p fault now q) s
        r in
    ((λ k h'. v.apart i k x h h'), not_queued x s.queue.table (v.kept i x h))
