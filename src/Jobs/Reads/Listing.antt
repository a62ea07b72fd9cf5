-- ===== src/Jobs/Reads/Listing.antt =====
-- ORDER BY and LIMIT in the listings of internal/db/gen/jobs.sql.go.
use mathlib.Core.List.{Permᴰ}
use mathlib.Core.List.Permᴰ
use manualbox.Prelude.{
  ℕ, zero, suc, ◌≤◌, ◌<◌, ◌≡◌, refl, ap, Bool, true, false, none, [], ◌∷◌, ◌++◌, arith, ok,
  Bool-cases, inl, inr,
}
use manualbox.Prelude.Lists.{All, length, take, drop, keep}
use manualbox.Jobs.Model.{State, state_eq, pending, Row}
use manualbox.Jobs.Table.{Table}
use manualbox.Jobs.Reads.{
  insert_row, order_by, newer, more_urgent, many_rows, list_jobs, list_jobs_by_state,
  list_active_jobs,
}

-- No row comes, by the test, before one that stands ahead of it.
abbrev pub IsOrdered : (Row → Row → Bool) → Table → Type 0
IsOrdered p [] = Unit
IsOrdered p (r ∷ t) = All (λ s. p s r ≡ false) t × IsOrdered p t

-- A test that a sort can use.
abbrev IsOrder : (Row → Row → Bool) → Type 0
IsOrder p =
    ((r s : Row) → p r s ≡ true → p s r ≡ false)
    × ((r s u : Row) → p r s ≡ false → p s u ≡ false → p r u ≡ false)

newer-IsOrder : IsOrder newer
unfolding newer
newer-IsOrder = ((λ r s h. ground arith), (λ r s u h k. ground arith))

more_urgent-IsOrder : IsOrder more_urgent
unfolding more_urgent
more_urgent-IsOrder = ((λ r s h. ground arith), (λ r s u h k. ground arith))

module _ (p : Row → Row → Bool) (o : IsOrder p) where
  All-insert_row :
      (P : Row → Type 0) (r : Row) (t : Table) → P r → All P t → All P (insert_row p r t)
  unfolding insert_row
  All-insert_row P r [] h a = (h, tt)
  All-insert_row P r (s ∷ t) h a = elim (Bool-cases (p s r)) [
    | inl e ↦ rw e (a.0, All-insert_row P r t h a.1)
    | inr e ↦ rw e (h, a)
  ]

  behind :
      (r s : Row) (t : Table)
      → p s r ≡ false
      → All (λ u. p u s ≡ false) t
      → All (λ u. p u r ≡ false) t
  behind r s [] h a = tt
  behind r s (u ∷ t) h a = (o.1 u s r a.0 h, behind r s t h a.1)

  insert_row-IsOrdered : (r : Row) (t : Table) → IsOrdered p t → IsOrdered p (insert_row p r t)
  unfolding insert_row
  insert_row-IsOrdered r [] v = (tt, tt)
  insert_row-IsOrdered r (s ∷ t) v = elim (Bool-cases (p s r)) [
    | inl e ↦
        rw e (All-insert_row (λ u. p u s ≡ false) r t (o.0 s r e) v.0, insert_row-IsOrdered r t v.1)
    | inr e ↦ rw e ((e, behind r s t e v.0), v)
  ]

  insert_row-perm : (r : Row) (t : Table) → Permᴰ (insert_row p r t) (r ∷ t)
  unfolding insert_row
  insert_row-perm r [] = Permᴰ.refl (r ∷ [])
  insert_row-perm r (s ∷ t) = elim (Bool-cases (p s r)) [
    | inl e ↦ rw e (Permᴰ.trans (Permᴰ.cons refl (insert_row-perm r t)) (Permᴰ.swap refl refl))
    | inr e ↦ rw e (Permᴰ.refl (r ∷ s ∷ t))
  ]

  order_by-IsOrdered : (t : Table) → IsOrdered p (order_by p t)
  unfolding order_by
  order_by-IsOrdered [] = tt
  order_by-IsOrdered (r ∷ t) = insert_row-IsOrdered r (order_by p t) (order_by-IsOrdered t)

  order_by-perm : (t : Table) → Permᴰ (order_by p t) t
  unfolding order_by
  order_by-perm [] = Permᴰ.nil
  order_by-perm (r ∷ t) =
      Permᴰ.trans (insert_row-perm r (order_by p t)) (Permᴰ.cons refl (order_by-perm t))

take-drop : (n : ℕ) (t : Table) → take n t ++ drop n t ≡ t
take-drop zero t = refl
take-drop (suc n) [] = refl
take-drop (suc n) (r ∷ t) = ap (◌∷◌ r) (take-drop n t)

length-take-le : (n : ℕ) (t : Table) → length (take n t) ≤ n
length-take-le zero t = omega arith
length-take-le (suc n) [] = omega arith
length-take-le (suc n) (r ∷ t) = omega (arith, length-take-le n t)

drop_of_short : (n : ℕ) (t : Table) → length (take n t) < n → drop n t ≡ []
drop_of_short zero t h = absurd (omega (arith, h))
drop_of_short (suc n) [] h = refl
drop_of_short (suc n) (r ∷ t) h = drop_of_short n t (omega (arith, h))

-- The rows that a query returns, of those that match it: in order, at most `limit`, and the others
-- follow them in that order; if fewer are returned, all are.
abbrev pub IsPage : (Row → Row → Bool) → ℕ → Table → Table → Type 0
IsPage p limit matching rows =
    (rest : Table) × Permᴰ (rows ++ rest) matching
    × IsOrdered p (rows ++ rest)
    × (length rows ≤ limit)
    × (length rows < limit → rest ≡ [])

page :
    (p : Row → Row → Bool) (limit : ℕ) (t : Table)
    → IsOrder p
    → IsPage p limit t (take limit (order_by p t))
page p limit t o = (
  drop limit (order_by p t),
  rw (take-drop limit (order_by p t)) (order_by-perm p o t),
  rw (take-drop limit (order_by p t)) (order_by-IsOrdered p o t),
  length-take-le limit (order_by p t),
  drop_of_short limit (order_by p t),
)

-- Without a fault, the listings return pages: ListJobs of all rows and ListJobsByState of the rows
-- in the state, both the newest first, and ListActiveJobs every queued or running row, by priority
-- from high to low and then the oldest first.
pub listings_outcome :
    (s : State) (limit : ℕ) (t : Table)
    → ((rows : Table) × (list_jobs none limit t ≡ ok rows) × IsPage newer limit t rows)
      × ((rows : Table) × (list_jobs_by_state none s limit t ≡ ok rows)
          × IsPage newer limit (keep (λ r. state_eq s r.state) t) rows)
      × ((rows : Table) × (list_active_jobs none t ≡ ok rows)
          × Permᴰ rows (keep (λ r. pending r.state) t)
          × IsOrdered more_urgent rows)
unfolding list_jobs list_jobs_by_state list_active_jobs many_rows
listings_outcome s limit t = (
  (take limit (order_by newer t), refl, page newer limit t newer-IsOrder),
  (
    take limit (order_by newer (keep (λ r. state_eq s r.state) t)),
    refl,
    page newer limit (keep (λ r. state_eq s r.state) t) newer-IsOrder,
  ),
  (
    order_by more_urgent (keep (λ r. pending r.state) t),
    refl,
    order_by-perm more_urgent more_urgent-IsOrder (keep (λ r. pending r.state) t),
    order_by-IsOrdered more_urgent more_urgent-IsOrder (keep (λ r. pending r.state) t),
  ),
)
