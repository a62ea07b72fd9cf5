-- ===== src/Jobs/Progress.antt =====
-- The float64 fractions of internal/jobs: a finite double is a whole multiple of 2 ^ -1074, so
-- `finite n` stands for n * 2 ^ -1074. The two zeros are one value, since no code here tells them
-- apart.
use manualbox.Prelude.{
  ℕ, ◌^◌, ◌≡◌, ◌⊎◌, inl, inr, refl, Bool, true, false, if◌then◌else◌, not, ◌&&◌, arith,
}
use manualbox.Prelude.Int.{ℤ, pos, ltb_ℤ}

pub data Float64 : Type 0 where
  nan neg_inf pos_inf : Float64
  finite : ℤ → Float64

abbrev pub zero_float : Float64
zero_float = finite (pos 0)

-- Shut, so that no tactic computes with the numeral.
unfoldable pub one_scale : ℕ
one_scale = 2 ^ 1074

abbrev pub one_float : Float64
one_float = finite (pos one_scale)

-- Go's builtin max and min: a NaN operand makes the result NaN.
unfoldable pub max_float : Float64 → Float64 → Float64
max_float nan y = nan
max_float neg_inf y = y
max_float pos_inf nan = nan
max_float pos_inf y = pos_inf
max_float (finite a) nan = nan
max_float (finite a) neg_inf = finite a
max_float (finite a) pos_inf = pos_inf
max_float (finite a) (finite b) = if ltb_ℤ a b then finite b else finite a

unfoldable pub min_float : Float64 → Float64 → Float64
min_float nan y = nan
min_float pos_inf y = y
min_float neg_inf nan = nan
min_float neg_inf y = neg_inf
min_float (finite a) nan = nan
min_float (finite a) pos_inf = finite a
min_float (finite a) neg_inf = neg_inf
min_float (finite a) (finite b) = if ltb_ℤ b a then finite b else finite a

-- fraction = min(max(fraction, 0), 1)
unfoldable pub clamp : Float64 → Float64
unfolding max_float min_float
clamp f = min_float (max_float f zero_float) one_float

-- The column's NOT NULL and CHECK (progress BETWEEN 0 AND 1); SQLite stores a NaN as NULL.
unfoldable pub fits_column : Float64 → Bool
fits_column (finite a) = not (ltb_ℤ a (pos 0)) && not (ltb_ℤ (pos one_scale) a)
fits_column _ = false

-- Clamping makes every fraction but NaN fit the column, and leaves NaN as it is.
pub fits_column-clamp :
    (f : Float64) → ((f ≡ nan) × (clamp f ≡ nan)) ⊎ (fits_column (clamp f) ≡ true)
unfolding clamp fits_column
fits_column-clamp nan = inl (refl, refl)
fits_column-clamp neg_inf = inr (ground arith)
fits_column-clamp pos_inf = inr (ground arith)
fits_column-clamp (finite a) = inr (ground arith)

-- A fraction that fits is not changed by clamping.
pub clamp_of_fits : (f : Float64) → fits_column f ≡ true → clamp f ≡ f
unfolding clamp fits_column
clamp_of_fits nan h = refl
clamp_of_fits neg_inf h = ground arith
clamp_of_fits pos_inf h = ground arith
clamp_of_fits (finite a) h = ground arith
