-- ===== src/Jobs/Backoff.antt =====
-- ExponentialBackoff of internal/jobs/worker.go, on int64 nanoseconds.
use manualbox.Prelude.{
  ℕ, ◌-◌, ◌*◌, ◌/◌, ◌%◌, ◌^◌, ◌≤◌, ◌<◌, ◌≡◌, false, ◌||◌, Option, none, some, if◌then◌else◌, ltb,
  leb, ◌==◌, min, arith, Bool-cases, inl, inr, leb→le, ◌∙◌,
}
use manualbox.Prelude.Int.{ℤ, pos, negsuc}
use manualbox.Clock.{millisecond, second, minute}
use native.Mathlib.Nat.{pow-le-pow_right}

-- The value of a 64-bit pattern.
unfoldable pub to_int64 : ℕ → ℤ
to_int64 n = if ltb n (2 ^ 63) then pos n else negsuc (2 ^ 64 - n - 1)

-- x << k on int64
unfoldable pub shift_left : ℕ → ℕ → ℤ
unfolding to_int64
shift_left x k = to_int64 (x * 2 ^ k % 2 ^ 64)

abbrev pub backoff_base : ℕ
backoff_base = 5 * second

abbrev pub backoff_max : ℕ
backoff_max = 10 * minute

-- if delay > maxDelay || delay <= 0 { delay = maxDelay }
unfoldable pub cap_delay : ℤ → ℕ
cap_delay (negsuc n) = backoff_max
cap_delay (pos n) = if ltb backoff_max n || n == 0 then backoff_max else n

-- The delay before the jitter.
unfoldable pub capped_delay : ℕ → ℕ
capped_delay attempt =
    let from_one = if ltb attempt 1 then 1 else attempt in
    cap_delay (shift_left backoff_base (min (from_one - 1) 16))

-- rand.Int64N, over a source of numbers: it panics at a bound that is not positive.
unfoldable pub int64n : (ℕ → ℕ) → ℕ → Option ℕ
int64n source n = if n == 0 then none else some (source n)

-- ExponentialBackoff; `none` is a panic.
unfoldable pub exponential_backoff : (ℕ → ℕ) → ℕ → Option ℕ
exponential_backoff source attempt =
    let delay = capped_delay attempt in
    elim (int64n source (delay / 4)) [ none ↦ none | some jitter ↦ some (delay - jitter) ]

two_pow_mono : (k n : ℕ) → k ≤ n → 2 ^ k ≤ 2 ^ n
two_pow_mono k n h = pow-le-pow_right {n = 2} (omega arith) h

-- The delays that the comment promises: 5s, 10s, 20s, … capped at 10 minutes.
abbrev pub nominal_delay : ℕ → ℕ
nominal_delay retries = min (backoff_base * 2 ^ retries) backoff_max

shift_small : (k : ℕ) → k ≤ 16 → shift_left backoff_base k ≡ pos (backoff_base * 2 ^ k)
unfolding shift_left to_int64
shift_small k h = let b : 2 ^ k ≤ 65536 = two_pow_mono k 16 h in ground arith

cap_pos : (n : ℕ) → 0 < n → cap_delay (pos n) ≡ min n backoff_max
unfolding cap_delay
cap_pos n h = ground arith

shift_of :
    (attempt : ℕ)
    → capped_delay attempt ≡ cap_delay (shift_left backoff_base (min (attempt - 1) 16))
unfolding capped_delay
shift_of attempt =
    let e : min ((if ltb attempt 1 then 1 else attempt) - 1) 16 ≡ min (attempt - 1) 16 =
      ground arith in
    rw e

-- For every attempt the delay doubles from 5 seconds up to the cap: the shift never overflows, also
-- where the exponent is cut at 16.
pub capped_delay-nominal : (attempt : ℕ) → capped_delay attempt ≡ nominal_delay (attempt - 1)
capped_delay-nominal attempt =
    let retries : ℕ = attempt - 1 in
    elim (Bool-cases (leb retries 16)) [
      | inl small ↦
          let k : min retries 16 ≡ retries = ground arith in
          let one : 1 ≤ 2 ^ retries = two_pow_mono 0 retries (omega arith) in
          rw (shift_of attempt, k, shift_small retries (leb→le retries 16 small))
            (cap_pos (backoff_base * 2 ^ retries) (omega arith))
      | inr large ↦
          let k : min retries 16 ≡ 16 = ground arith in
          let big : 2 ^ 16 ≤ 2 ^ retries = two_pow_mono 16 retries (ground arith) in
          rw (shift_of attempt, k, shift_small 16 (omega arith))
            (cap_pos (backoff_base * 2 ^ 16) (omega arith) ∙ omega arith)
    ]

-- A retry is never immediate and never panics: over any source of random numbers that respects its
-- bound, the delay is more than three quarters of the nominal one, so more than 3.75 seconds, and
-- at most the nominal one, so at most 10 minutes.
pub exponential_backoff_bounds :
    (source : ℕ → ℕ) (attempt : ℕ)
    → ((n : ℕ) → 0 < n → source n < n)
    → (delay : ℕ) × (exponential_backoff source attempt ≡ some delay)
      × (3 * nominal_delay (attempt - 1) < 4 * delay)
      × (delay ≤ nominal_delay (attempt - 1))
      × (3750 * millisecond < delay)
      × (delay ≤ 10 * minute)
unfolding exponential_backoff int64n
exponential_backoff_bounds source attempt fair =
    let retries : ℕ = attempt - 1 in
    let one : 1 ≤ 2 ^ retries = two_pow_mono 0 retries (omega arith) in
    let e : capped_delay attempt ≡ nominal_delay retries = capped_delay-nominal attempt in
    let quarter : ℕ = nominal_delay retries / 4 in
    let some_quarter : (quarter == 0) ≡ false = ground arith in
    let below : source quarter < quarter = fair quarter (ground arith) in
    (
      nominal_delay retries - source quarter,
      rw (e, exponential_backoff) (rw (some_quarter, int64n) (rw e)),
      omega arith,
      omega arith,
      omega arith,
      omega arith,
    )
