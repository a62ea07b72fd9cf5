-- ===== src/Jobs/Table/Lookups.antt =====
-- Lookups by id in the table jobs, and updates of the row that one finds.
use mathlib.Core.List.{Memᴰ}
use mathlib.Core.Option
use manualbox.Prelude.{
  ◌≡◌, ◌≢◌, refl, sym, ap, ◌∙◌, Bool, true, false, ◌&&◌, some, [], ◌∷◌, arith, Bool-cases, inl, inr,
}
use manualbox.Prelude.Text.{Text, text_eq, text_eq_iff, text_eq_refl}
use manualbox.Prelude.Lists.{All}
use manualbox.Jobs.Model.{Row}
use manualbox.Jobs.Table.{Table, has_id, update_where, find_row, clash, clashes, indexes_ok}
use manualbox.Jobs.Table.Indexes.{IsGentle, KeepsId, changed, indexes_ok-update_where}

-- A row that is found passes the test, and stands in the table.
pub find_row-some :
    (p : Row → Bool) (t : Table) (r : Row) → find_row p t ≡ some r → (p r ≡ true) × Memᴰ r t
unfolding find_row
find_row-some p [] r h = cc
find_row-some p (s ∷ t) r h = elim (Bool-cases (p s)) [
  | inl e ↦ let same : s ≡ r = ground arith in rw (sym same) (e, Memᴰ.head refl)
  | inr e ↦ let (passes, here) = find_row-some p t r (ground arith) in (passes, Memᴰ.tail here)
]

-- An update seen through a lookup by id.
pub find_row-update_where :
    (p : Row → Bool) (f : Row → Row) (i : Text) (t : Table)
    → ((r : Row) → (changed p f r).id ≡ r.id)
    → find_row (has_id i) (update_where p f t) ≡ Option.map (changed p f) (find_row (has_id i) t)
unfolding find_row update_where
find_row-update_where p f i [] k = refl
find_row-update_where p f i (r ∷ t) k = elim (Bool-cases (text_eq r.id i)) [
  | inl e ↦ rw (k r, e)
  | inr e ↦ rw (k r, e) (find_row-update_where p f i t k)
]

pub changed_id :
    (p : Row → Bool) (f : Row → Row) → KeepsId f → (r : Row) → (changed p f r).id ≡ r.id
changed_id p f k r = ground (arith, k r)

-- An update of the row with one id, seen under that id and under the others.
pub find_row-update_id :
    (j : Text) (f : Row → Row) (t : Table)
    → KeepsId f
    → find_row (has_id j) (update_where (has_id j) f t) ≡ Option.map f (find_row (has_id j) t)
unfolding find_row update_where
find_row-update_id j f [] k = refl
find_row-update_id j f (r ∷ t) k = elim (Bool-cases (text_eq r.id j)) [
  | inl e ↦ rw (e, k r) (rw e)
  | inr e ↦ rw e (rw e (find_row-update_id j f t k))
]

-- An update of rows with the id `i` alone is not seen under another id.
pub find_row-update_apart :
    (i j : Text) (p : Row → Bool) (f : Row → Row) (t : Table)
    → KeepsId f
    → ((r : Row) → p r ≡ true → has_id i r ≡ true)
    → j ≢ i
    → find_row (has_id j) (update_where p f t) ≡ find_row (has_id j) t
unfolding find_row update_where
find_row-update_apart i j p f [] k own ne = refl
find_row-update_apart i j p f (r ∷ t) k own ne = ground (
  arith,
  k r,
  own r,
  text_eq_iff r.id i,
  text_eq_iff r.id j,
  text_eq_iff (f r).id j,
  find_row-update_apart i j p f t k own ne,
)

pub find_row-update_other :
    (i j : Text) (f : Row → Row) (t : Table)
    → KeepsId f
    → i ≢ j
    → find_row (has_id i) (update_where (has_id j) f t) ≡ find_row (has_id i) t
find_row-update_other i j f t k ne = find_row-update_apart j i (has_id j) f t k (λ r h. h) ne

pub clashes_of_id :
    (r s : Row) (t : Table) → Memᴰ s t → clashes r t ≡ false → text_eq r.id s.id ≡ false
unfolding clashes clash
clashes_of_id r s [] m h = elim m [ ]
clashes_of_id r s (u ∷ t) (Memᴰ.head e) h = rw e (ground arith)
clashes_of_id r s (u ∷ t) (Memᴰ.tail m) h = clashes_of_id r s t m (ground arith)

-- Ids are unique, so a row of the table is the one found under its id.
pub find_row_of_Mem :
    (t : Table) (r : Row) → indexes_ok t ≡ true → Memᴰ r t → find_row (has_id r.id) t ≡ some r
unfolding find_row indexes_ok
find_row_of_Mem [] r h m = elim m [ ]
find_row_of_Mem (s ∷ t) r h (Memᴰ.head e) = rw e (rw (text_eq_refl s.id))
find_row_of_Mem (s ∷ t) r h (Memᴰ.tail m) =
    rw (clashes_of_id s r t m (ground arith)) (find_row_of_Mem t r (ground arith) m)

All-of_Mem {ℓ} : (P : Row → Type ℓ) (t : Table) → ((s : Row) → Memᴰ s t → P s) → All P t
All-of_Mem P [] k = tt
All-of_Mem P (s ∷ t) k = (k s (Memᴰ.head refl), All-of_Mem P t (λ u m. k u (Memᴰ.tail m)))

-- The row found under an id is the only one with that id.
pub only_with_id :
    (t : Table) (i : Text) (r : Row)
    → indexes_ok t ≡ true
    → find_row (has_id i) t ≡ some r
    → All (λ s. has_id i s ≡ true → s ≡ r) t
only_with_id t i r h found =
    All-of_Mem (λ s. has_id i s ≡ true → s ≡ r) t
      λ s m e.
        let again : find_row (has_id s.id) t ≡ some s = find_row_of_Mem t s h m in
        let same : s.id ≡ i = (text_eq_iff s.id i).0 e in
        let both : some s ≡ some r = sym again ∙ rw same found in ground arith

-- Where that row fails a test, no row with the id passes it.
pub none_with_id :
    (q : Row → Bool) (i : Text) (r : Row) (t : Table)
    → q r ≡ false
    → All (λ s. has_id i s ≡ true → s ≡ r) t
    → All (λ s. (has_id i s && q s) ≡ false) t
none_with_id q i r [] h a = tt
none_with_id q i r (s ∷ t) h a = elim (Bool-cases (has_id i s)) [
  | inl e ↦ (rw (a.0 e, h) (ground arith), none_with_id q i r t h a.1)
  | inr e ↦ (rw e, none_with_id q i r t h a.1)
]

update_where_congr :
    (p q : Row → Bool) (f : Row → Row) (t : Table)
    → All (λ r. p r ≡ q r) t
    → update_where p f t ≡ update_where q f t
unfolding update_where
update_where_congr p q f [] h = refl
update_where_congr p q f (r ∷ t) h =
    rw h.0 (ap (◌∷◌ (changed q f r)) (update_where_congr p q f t h.1))

has_id_alone :
    (p : Row → Bool) (i : Text) (r : Row) (t : Table)
    → p r ≡ true
    → All (λ s. has_id i s ≡ true → s ≡ r) t
    → All (λ s. has_id i s ≡ (has_id i s && p s)) t
has_id_alone p i r [] h a = tt
has_id_alone p i r (s ∷ t) h a = elim (Bool-cases (has_id i s)) [
  | inl e ↦ (rw (e, a.0 e, h), has_id_alone p i r t h a.1)
  | inr e ↦ (rw e, has_id_alone p i r t h a.1)
]

-- An update by id violates no unique index if it is gentle on rows like the one it meets.
pub indexes_ok-update_id :
    (p : Row → Bool) (f : Row → Row) (i : Text) (r : Row) (t : Table)
    → IsGentle (λ s. has_id i s && p s) f
    → indexes_ok t ≡ true
    → find_row (has_id i) t ≡ some r
    → p r ≡ true
    → indexes_ok (update_where (has_id i) f t) ≡ true
indexes_ok-update_id p f i r t g h found e =
    rw
      (update_where_congr (has_id i) (λ s. has_id i s && p s) f t
        (has_id_alone p i r t e (only_with_id t i r h found)))
      (indexes_ok-update_where (λ s. has_id i s && p s) f g t h)
