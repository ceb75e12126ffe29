-- ===== src/Timing/Examples.antt =====
-- A ring of four slots of one second each: runs of `timestat_inc`, and the theorems at them.
use omphalos.Base.{
  ℕ, zero, suc, ◌+◌, ◌-◌, ◌<◌, ◌≡◌, refl, arith, [], ◌∷◌, done, get_or, if◌then◌else◌, ◌==◌, ltb,
}
use omphalos.Timing.{
  Timestat, Timeval, timestat_inc, distance_of, timersub, timeradd, timerusec, ringinc, zero_counts,
  zero_expired, advance, expire, add_sample,
}
use omphalos.Timing.Zero.{Room}
use omphalos.Timing.Ring.{IsValid, slot}
use omphalos.Timing.Inc.{timestat_inc-IsValid}
use omphalos.Timing.Slots.{timestat_inc-slides}
use omphalos.Timing.Reset.{timestat_inc-resets}

abbrev at : ℕ → Timeval
at s = record { sec = s; usec = 0 }

-- The head of the ring is slot `head`, at second 100.
abbrev ring : ℕ → Timestat
ring head = record {
  counts = 1 ∷ 2 ∷ 3 ∷ 4 ∷ [];
  usec = 1000000;
  total = 4;
  firstidx = head;
  firstsamp = at 100;
  valtotal = 10;
}

four-Fits :
    (val : ℕ) → val < 1000 → (j : ℕ) → get_or {A = ℕ} (1 ∷ 2 ∷ 3 ∷ 4 ∷ []) j 0 + val < 4294967296
four-Fits val h zero = omega arith
four-Fits val h (suc zero) = omega arith
four-Fits val h (suc (suc zero)) = omega arith
four-Fits val h (suc (suc (suc zero))) = omega arith
four-Fits val h (suc (suc (suc (suc j)))) = omega arith

ring-IsValid : (head : ℕ) → head < 4 → IsValid (ring head)
ring-IsValid head h = record {
  has_slots = omega arith;
  few_slots = omega arith;
  has_period = omega arith;
  in_ring = h;
  sized = refl;
  fits = λ j. omega (arith, four-Fits 0 (omega arith) j);
  tracked = refl;
}

ring-Room : (head val : ℕ) → val < 1000 → Room val (ring head)
ring-Room head val h j = four-Fits val h j

distance_of_five : distance_of (ring 0) (at 105) ≡ 5
unfolding distance_of timersub timerusec
distance_of_five = refl

timestat_inc-IsValid_example :
    (out : Timestat) × (timestat_inc (ring 3) (at 105) 7 ≡ done out) × IsValid out
timestat_inc-IsValid_example =
    timestat_inc-IsValid (ring 3) (at 105) 7 (ring-IsValid 3 (omega arith))
      (ring-Room 3 7 (omega arith))

distance_of_two : distance_of (ring 1) (at 102) ≡ 2
unfolding distance_of timersub timerusec
distance_of_two = refl

timestat_inc-slides_example :
    (out : Timestat) × (timestat_inc (ring 0) (at 105) 7 ≡ done out)
    × ((j : ℕ)
        → j < 4
        → slot out j ≡ (
            if j == 3
            then 7
            else if ltb (j + (distance_of (ring 0) (at 105) + 1 - 4)) 4
            then slot (ring 0) (j + (distance_of (ring 0) (at 105) + 1 - 4))
            else 0))
timestat_inc-slides_example =
    timestat_inc-slides (ring 0) (at 105) 7 (ring-IsValid 0 (omega arith))
      (ring-Room 0 7 (omega arith)) (omega (arith, distance_of_five))
      (omega (arith, distance_of_five)) (omega (arith, distance_of_five))

distance_of_wrapping : distance_of (ring 3) (at 105) ≡ 5
unfolding distance_of timersub timerusec
distance_of_wrapping = refl

-- The oldest count, 4 in slot 3, has expired and is still there in the third place of the window.
wrapping_run :
    timestat_inc (ring 3) (at 105) 7
    ≡ done (record {
      counts = 7 ∷ 2 ∷ 3 ∷ 4 ∷ [];
      usec = 1000000;
      total = 4;
      firstidx = 1;
      firstsamp = at 102;
      valtotal = 16;
    })
unfolding timestat_inc distance_of timersub timerusec ringinc zero_counts zero_expired advance
    timeradd expire add_sample
wrapping_run = refl

distance_of_late : distance_of (ring 0) (at 109) ≡ 9
unfolding distance_of timersub timerusec
distance_of_late = refl

timestat_inc-resets_example :
    (out : Timestat) × (timestat_inc (ring 0) (at 109) 7 ≡ done out)
    × ((j : ℕ) → j < 4 → slot out j ≡ (if j == 0 then 7 else 0))
    × (distance_of out (at 109) ≡ 3)
timestat_inc-resets_example =
    timestat_inc-resets (ring 0) (at 109) 7 (ring-IsValid 0 (omega arith))
      (ring-Room 0 7 (omega arith)) (omega arith) (omega (arith, distance_of_late))
      (omega (arith, distance_of_late)) (omega (arith, distance_of_late))
