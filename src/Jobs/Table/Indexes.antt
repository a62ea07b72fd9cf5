-- ===== src/Jobs/Table/Indexes.antt =====
-- The unique indexes of the table jobs under updates.
use manualbox.Prelude.{
  ◌≡◌, refl, ap, Bool, true, false, Option, none, some, [], ◌∷◌, arith, if◌then◌else◌, Bool-cases,
  ◌⊎◌, inl, inr, ok,
}
use manualbox.Prelude.Text.{Text}
use manualbox.Prelude.Lists.{All, keep}
use manualbox.Jobs.Model.{Row}
use manualbox.Jobs.Table.{
  Table, update_where, pending_key, same_key, clash, clashes, indexes_ok, Driver, commit,
}

-- What an update makes of one row.
abbrev pub changed : (Row → Bool) → (Row → Row) → Row → Row
changed p f r = if p r then f r else r

-- An update that keeps the ids and puts no row into the dedupe index.
abbrev pub IsGentle : (Row → Bool) → (Row → Row) → Type 0
IsGentle p f =
    (r : Row)
    → p r ≡ true
    → ((f r).id ≡ r.id) × ((pending_key (f r) ≡ pending_key r) ⊎ (pending_key (f r) ≡ none))

abbrev pub KeepsId : (Row → Row) → Type 0
KeepsId f = (r : Row) → (f r).id ≡ r.id

pub same_key-none : (o : Option Text) → same_key o none ≡ false
unfolding same_key
same_key-none none = refl
same_key-none (some k) = refl

changed_cases :
    (p : Row → Bool) (f : Row → Row) (r : Row)
    → IsGentle p f
    → ((changed p f r).id ≡ r.id)
      × ((pending_key (changed p f r) ≡ pending_key r) ⊎ (pending_key (changed p f r) ≡ none))
changed_cases p f r g = elim (Bool-cases (p r)) [
  | inl e ↦ rw e (g r e)
  | inr e ↦ rw e (refl, inl refl)
]

clash_weaken :
    (r s r' s' : Row)
    → r'.id ≡ r.id
    → (pending_key r' ≡ pending_key r) ⊎ (pending_key r' ≡ none)
    → s'.id ≡ s.id
    → (pending_key s' ≡ pending_key s) ⊎ (pending_key s' ≡ none)
    → clash r s ≡ false
    → clash r' s' ≡ false
unfolding clash
clash_weaken r s r' s' i (inl k) j (inl l) h = rw (i, k, j, l) h
clash_weaken r s r' s' i (inr k) j l h = rw (i, j, k) (unfold same_key in ground arith)
clash_weaken r s r' s' i k j (inr l) h =
    rw (i, j, l) (rw (same_key-none (pending_key r')) (ground arith))

module _ (p : Row → Bool) (f : Row → Row) (g : IsGentle p f) where
  clashes-update_where :
      (r : Row) (t : Table)
      → clashes r t ≡ false
      → clashes (changed p f r) (update_where p f t) ≡ false
  unfolding clashes update_where
  clashes-update_where r [] h = refl
  clashes-update_where r (s ∷ t) h =
      let (i, k) = changed_cases p f r g in
      let (j, l) = changed_cases p f s g in
      let apart : clash r s ≡ false = ground arith in
      let rest : clashes r t ≡ false = ground arith in
      rw (clash_weaken r s (changed p f r) (changed p f s) i k j l apart)
        (clashes-update_where r t rest)

  -- Such an update violates no unique index.
  pub indexes_ok-update_where :
      (t : Table) → indexes_ok t ≡ true → indexes_ok (update_where p f t) ≡ true
  unfolding indexes_ok update_where
  indexes_ok-update_where [] h = refl
  indexes_ok-update_where (r ∷ t) h =
      rw (clashes-update_where r t (ground arith)) (indexes_ok-update_where t (ground arith))

module _ (p : Row → Bool) where
  clashes-keep : (r : Row) (t : Table) → clashes r t ≡ false → clashes r (keep p t) ≡ false
  unfolding clashes keep
  clashes-keep r [] h = refl
  clashes-keep r (s ∷ t) h = ground (arith, clashes-keep r t)

  pub indexes_ok-keep : (t : Table) → indexes_ok t ≡ true → indexes_ok (keep p t) ≡ true
  unfolding indexes_ok keep
  indexes_ok-keep [] h = refl
  indexes_ok-keep (r ∷ t) h = ground (arith, indexes_ok-keep t, clashes-keep r t)

pub update_where_none :
    (p : Row → Bool) (f : Row → Row) (t : Table) → All (λ r. p r ≡ false) t → update_where p f t ≡ t
unfolding update_where
update_where_none p f [] h = refl
update_where_none p f (r ∷ t) h = rw h.0 (ap (◌∷◌ r) (update_where_none p f t h.1))

module _ {ℓ} (P : Row → Type ℓ) where
  pub All-update_where :
      (p : Row → Bool) (f : Row → Row) (t : Table)
      → ((r : Row) → p r ≡ true → P r → P (f r))
      → All P t
      → All P (update_where p f t)
  unfolding update_where
  All-update_where p f [] k a = tt
  All-update_where p f (r ∷ t) k a = elim (Bool-cases (p r)) [
    | inl e ↦ rw e (k r e a.0, All-update_where p f t k a.1)
    | inr e ↦ rw e (a.0, All-update_where p f t k a.1)
  ]

pub commit_ok :
    {A : Type 0} (d : Driver) (t : Table) (a : A)
    → indexes_ok t ≡ true
    → commit d none t a ≡ ok (t, a)
unfolding commit
commit_ok d t a h = rw h
