-- ===== src/Jobs/Table/Appends.antt =====
-- A row added behind the others, against the unique indexes.
use mathlib.Core.List.{Memᴰ}
use manualbox.Prelude.{◌≡◌, refl, sym, Bool, true, false, ◌||◌, none, [], ◌∷◌, ◌++◌, arith}
use manualbox.Prelude.Lists.{All}
use manualbox.Jobs.Model.{Row}
use manualbox.Jobs.Table.{Table, find_row, clash, clashes, indexes_ok}

pub find_row-none : (p : Row → Bool) (t : Table) → find_row p t ≡ none → All (λ s. p s ≡ false) t
unfolding find_row
find_row-none p [] h = tt
find_row-none p (r ∷ t) h = (ground arith, find_row-none p t (ground arith))

clashes-append : (s r : Row) (t : Table) → clashes s (t ++ r ∷ []) ≡ (clashes s t || clash s r)
unfolding clashes
clashes-append s r [] = ground arith
clashes-append s r (u ∷ t) = ground (arith, clashes-append s r t)

pub indexes_ok-append :
    (t : Table) (r : Row)
    → indexes_ok t ≡ true
    → All (λ s. clash s r ≡ false) t
    → indexes_ok (t ++ r ∷ []) ≡ true
unfolding indexes_ok
indexes_ok-append [] r h a = unfold clashes in refl
indexes_ok-append (s ∷ t) r h a =
    ground (arith, clashes-append s r t, a.0, indexes_ok-append t r (ground arith) a.1)

pub indexes_ok-append_clash :
    (t : Table) (r s : Row) → Memᴰ s t → clash s r ≡ true → indexes_ok (t ++ r ∷ []) ≡ false
unfolding indexes_ok
indexes_ok-append_clash [] r s m h = elim m [ ]
indexes_ok-append_clash (u ∷ t) r s (Memᴰ.head e) h =
    let same : clash u r ≡ true = rw (sym e) h in ground (arith, clashes-append u r t)
indexes_ok-append_clash (u ∷ t) r s (Memᴰ.tail m) h =
    ground (arith, indexes_ok-append_clash t r s m h)
