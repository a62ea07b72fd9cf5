-- ===== src/Clock.antt =====
-- internal/db/time.go: an instant is nanoseconds since the Unix epoch, a stored time whole
-- milliseconds. Times before 1970 do not occur in the program and are left out.
use manualbox.Prelude.{ℕ, ◌+◌, ◌*◌, ◌/◌, ◌≤◌, ◌<◌, ◌≡◌, refl, Option, none, some, arith}

-- time.Time, and time.Duration where it is positive
abbrev pub Instant : Type 0
Instant = ℕ

-- the schema's INTEGER columns
abbrev pub Stamp : Type 0
Stamp = ℕ

abbrev pub millisecond : ℕ
millisecond = 1000000

abbrev pub second : ℕ
second = 1000 * millisecond

abbrev pub minute : ℕ
minute = 60 * second

-- Millis: t.UTC().UnixMilli()
unfoldable pub millis : Instant → Stamp
millis t = t / millisecond

-- Time: time.UnixMilli(ms).UTC()
unfoldable pub time : Stamp → Instant
time ms = ms * millisecond

-- MillisPtr
unfoldable pub millis_ptr : Option Instant → Option Stamp
millis_ptr none = none
millis_ptr (some t) = some (millis t)

-- TimePtr
unfoldable pub time_ptr : Option Stamp → Option Instant
time_ptr none = none
time_ptr (some ms) = some (time ms)

-- A stored time is read back unchanged, and writing a time loses less than a millisecond of it.
pub millis-time :
    (ms : Stamp) (t : Instant)
    → (millis (time ms) ≡ ms) × (time (millis t) ≤ t) × (t < time (millis t) + millisecond)
unfolding millis time
millis-time ms t = omega arith

-- Storing keeps the order of two times.
pub millis_mono : (s t : Instant) → s ≤ t → millis s ≤ millis t
unfolding millis
millis_mono s t h = omega arith

-- The optional forms agree with the plain ones on a value, and keep its absence.
pub millis_ptr-time_ptr : (o : Option Stamp) → millis_ptr (time_ptr o) ≡ o
unfolding millis_ptr time_ptr
millis_ptr-time_ptr none = refl
millis_ptr-time_ptr (some ms) = ground (arith, millis-time ms 0)
