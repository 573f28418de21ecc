-- ===== src/Time.antt =====
-- time.Time and time.Duration. A `Time` is a count of nanoseconds since the zero time of Go
-- (January 1, year 1, UTC), so that `IsZero` is a test for 0. The tables hold milliseconds: the
-- source counts them from 1970, this model from the zero time, which is a whole number of
-- milliseconds earlier, so rounding and order are the same. No time before the zero time occurs.
-- (internal/store/store.go, `millis` and `fromMillis`.)
use snw_agent_link.Prelude.{ℕ, ◌*◌, ◌/◌, ◌%◌, ◌≤◌, ◌≡◌, Bool, arith, ltb, ◌==◌}

abbrev pub Time : Type 0
Time = ℕ

-- A duration in nanoseconds; the program's durations here are positive.
abbrev pub Duration : Type 0
Duration = ℕ

abbrev pub millisecond : ℕ
millisecond = 1000000

abbrev pub minute : ℕ
minute = 60000000000

abbrev pub is_zero : Time → Bool
is_zero t = t == 0

abbrev pub before : Time → Time → Bool
before t u = ltb t u

abbrev pub millis : Time → ℕ
millis t = t / 1000000

abbrev pub from_millis : ℕ → Time
from_millis m = m * 1000000

-- The value that a time column gives back.
abbrev pub stored : Time → Time
stored t = from_millis (millis t)

pub millis-from_millis : (m : ℕ) → millis (from_millis m) ≡ m
millis-from_millis m = omega arith

pub stored-le : (t : Time) → stored t ≤ t
stored-le t = omega arith

-- A time is kept exactly when it is a whole number of milliseconds.
pub stored-eq_of_mod : (t : Time) → t % 1000000 ≡ 0 → stored t ≡ t
stored-eq_of_mod t h = omega arith

pub mod-eq_of_stored : (t : Time) → stored t ≡ t → t % 1000000 ≡ 0
mod-eq_of_stored t h = omega arith
