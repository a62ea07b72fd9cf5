-- ===== src/Jobs/Table/Order.antt =====
-- The order of the claim query, and the row that it picks.
use mathlib.Core.List.{Memᴰ}
use manualbox.Prelude.{
  ◌≡◌, refl, Bool, true, false, none, some, [], ◌∷◌, arith, Bool-cases, ◌⊎◌, inl, inr,
}
use manualbox.Prelude.Text.{text_ltb_irrefl, text_ltb_asymm, text_ltb_neg_trans}
use manualbox.Prelude.Lists.{All}
use manualbox.Jobs.Model.{Row}
use manualbox.Jobs.Table.{Table, precedes, best}

pub precedes_irrefl : (r : Row) → precedes r r ≡ false
unfolding precedes
precedes_irrefl r = ground (arith, text_ltb_irrefl r.id)

pub precedes_asymm : (r s : Row) → precedes r s ≡ true → precedes s r ≡ false
unfolding precedes
precedes_asymm r s h = ground (arith, text_ltb_asymm r.id s.id)

pub precedes_neg_trans :
    (r s u : Row) → precedes r s ≡ false → precedes s u ≡ false → precedes r u ≡ false
unfolding precedes
precedes_neg_trans r s u h k = ground (arith, text_ltb_neg_trans r.id s.id u.id)

-- No row of the table that passes the test comes before `r`.
abbrev pub Foremost : (Row → Bool) → Row → Table → Type 0
Foremost p r = All (λ s. p s ≡ true → precedes s r ≡ false)

Foremost-neg_trans :
    (p : Row → Bool) (r s : Row) (t : Table)
    → precedes s r ≡ false
    → Foremost p s t
    → Foremost p r t
Foremost-neg_trans p r s [] h a = tt
Foremost-neg_trans p r s (u ∷ t) h a =
    ((λ e. precedes_neg_trans u s r (a.0 e) h), Foremost-neg_trans p r s t h a.1)

abbrev pub NoneOf : (Row → Bool) → Table → Type 0
NoneOf p = All (λ s. p s ≡ false)

Foremost-of_none : (p : Row → Bool) (r : Row) (t : Table) → NoneOf p t → Foremost p r t
Foremost-of_none p r [] a = tt
Foremost-of_none p r (s ∷ t) a = ((λ e. cc), Foremost-of_none p r t a.1)

abbrev pub Picked : (Row → Bool) → Row → Table → Type 0
Picked p r t = (p r ≡ true) × Memᴰ r t × Foremost p r t

-- The query finds nothing only if no row passes; else its row is one of the table that passes, and
-- none that passes comes before it.
pub best_cases :
    (p : Row → Bool) (t : Table)
    → ((best p t ≡ none) × NoneOf p t) ⊎ ((r : Row) × (best p t ≡ some r) × Picked p r t)
unfolding best
best_cases p [] = inl (refl, tt)
best_cases p (s ∷ t) = elim (Bool-cases (p s)) [
  | inr e ↦ elim (best_cases p t) [
    | inl (h, out) ↦ inl (rw (e, best) h, (e, out))
    | inr (b, h, (passes, here, first)) ↦
        inr (b, rw (e, best) h, (passes, Memᴰ.tail here, ((λ e'. cc), first)))
  ]
  | inl e ↦ elim (best_cases p t) [
    | inl (h, out) ↦ inr (
      s,
      rw (e, best) (rw h),
      (e, Memᴰ.head refl, ((λ _. precedes_irrefl s), Foremost-of_none p s t out)),
    )
    | inr (b, h, (passes, here, first)) ↦ elim (Bool-cases (precedes b s)) [
      | inl before ↦
          inr (b, ground arith, (passes, Memᴰ.tail here, ((λ _. precedes_asymm b s before), first)))
      | inr after ↦ inr (
        s,
        ground arith,
        (e, Memᴰ.head refl, ((λ _. precedes_irrefl s), Foremost-neg_trans p s b t after first)),
      )
    ]
  ]
]
