-- ===== src/Timing/Time.antt =====
-- Times in microseconds.
use omphalos.Base.{ℕ, ◌+◌, ◌-◌, ◌*◌, ◌^◌, ◌≤◌, ◌<◌, ◌≡◌, arith, ◌∙◌}
use omphalos.Timing.{Timestat, Timeval, timersub, timeradd, timerusec, advance}

abbrev pub micros : Timeval → ℕ
micros t = t.sec * 1000000 + t.usec

-- A normalised time before the year 292277.
abbrev pub IsTime : Timeval → Type 0
IsTime t = (t.usec < 1000000) × (micros t < 2 ^ 63)

pub timersub-micros :
    (a b : Timeval)
    → IsTime a
    → IsTime b
    → micros b ≤ micros a
    → timerusec (timersub a b) ≡ micros a - micros b
unfolding timersub timerusec
timersub-micros a b ha hb le = ground arith

pub timeradd-micros : (a b : Timeval) → micros (timeradd a b) ≡ micros a + micros b
unfolding timeradd
timeradd-micros a b = ground arith

pub advance-micros :
    (e : ℕ) (ts : Timestat)
    → e * ts.usec < 2 ^ 32
    → micros (advance e ts).firstsamp ≡ micros ts.firstsamp + e * ts.usec
unfolding advance
advance-micros e ts small = timeradd-micros ts.firstsamp _ ∙ omega arith
