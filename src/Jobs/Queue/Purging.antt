-- ===== src/Jobs/Queue/Purging.antt =====
-- PurgeFinishedBefore of internal/jobs/queue.go.
use mathlib.Core.List.{Memᴰ}
use manualbox.Prelude.{
  ◌≡◌, refl, sym, ap, ◌∙◌, Bool, true, false, not, none, some, [], ◌∷◌, arith, ok, if◌then◌else◌,
  Bool-cases, inl, inr,
}
use manualbox.Prelude.Text.{Text}
use manualbox.Prelude.Lists.{All, keep, count_where}
use manualbox.Clock.{Instant, millis}
use manualbox.Jobs.Model.{Row}
use manualbox.Jobs.Table.{Table, Driver, has_id, find_row, indexes_ok}
use manualbox.Jobs.Table.Indexes.{indexes_ok-keep, commit_ok}
use manualbox.Jobs.Table.Lookups.{find_row_of_Mem, only_with_id}
use manualbox.Jobs.Statements.{purgeable, delete_finished_jobs_before}
use manualbox.Jobs.Queue.{Queue, purge_finished_before}

Mem-keep : (q : Row → Bool) (r : Row) (t : Table) → Memᴰ r t → q r ≡ true → Memᴰ r (keep q t)
unfolding keep
Mem-keep q r [] m h = elim m [ ]
Mem-keep q r (s ∷ t) (Memᴰ.head e) h =
    let same : q s ≡ true = ap q (sym e) ∙ h in rw same (Memᴰ.head e)
Mem-keep q r (s ∷ t) (Memᴰ.tail m) h = elim (Bool-cases (q s)) [
  | inl e ↦ rw e (Memᴰ.tail (Mem-keep q r t m h))
  | inr e ↦ rw e (Mem-keep q r t m h)
]

find_row-keep :
    (q : Row → Bool) (i : Text) (r : Row) (t : Table)
    → All (λ s. has_id i s ≡ true → s ≡ r) t
    → q r ≡ false
    → find_row (has_id i) (keep q t) ≡ none
unfolding find_row keep
find_row-keep q i r [] a h = refl
find_row-keep q i r (s ∷ t) a h = elim (Bool-cases (q s)) [
  | inr e ↦ rw e (find_row-keep q i r t a.1 h)
  | inl e ↦ elim (Bool-cases (has_id i s)) [
    | inl e' ↦ let gone : q s ≡ false = ap q (a.0 e') ∙ h in ground arith
    | inr e' ↦ rw e (rw e' (find_row-keep q i r t a.1 h))
  ]
]

-- Without a fault, on a table with unique ids and keys, a purge succeeds and counts what it deletes:
-- every job that is finished and whose time is before the cutoff is gone, and every other is still
-- found as it was.
pub purge_outcome :
    (d : Driver) (cutoff : Instant) (q : Queue)
    → indexes_ok q.table ≡ true
    → (q' : Queue) × (purge_finished_before d none cutoff q
        ≡ (q', ok (count_where (purgeable (millis cutoff)) q.table)))
      × (indexes_ok q'.table ≡ true)
      × (q'.broker ≡ q.broker)
      × ((r : Row)
          → Memᴰ r q.table
          → find_row (has_id r.id) q'.table
            ≡ (if purgeable (millis cutoff) r then none else some r))
unfolding purge_finished_before delete_finished_jobs_before
purge_outcome d cutoff q h =
    let stays : Row → Bool = λ r. not (purgeable (millis cutoff) r) in
    let t' : Table = keep stays q.table in
    let fits : indexes_ok t' ≡ true = indexes_ok-keep stays q.table h in
    (
      record q { table = t' },
      rw (
        commit_ok d t' (count_where (purgeable (millis cutoff)) q.table) fits,
        purge_finished_before,
      ),
      fits,
      refl,
      λ r here. elim (Bool-cases (purgeable (millis cutoff) r)) [
        | inl e ↦ rw e (
            find_row-keep stays r.id r q.table
              (only_with_id q.table r.id r h (find_row_of_Mem q.table r h here)) (ground arith))
        | inr e ↦ rw e (find_row_of_Mem t' r fits (Mem-keep stays r q.table here (ground arith)))
      ],
    )
