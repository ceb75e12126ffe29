-- ===== src/Timing/Reset.antt =====
-- `timestat_inc` after a gap in which every count expires.
use omphalos.Base.{
  ℕ, ◌+◌, ◌-◌, ◌*◌, ◌/◌, ◌^◌, ◌≤◌, ◌<◌, ◌≡◌, refl, arith, ◌∙◌, ap, replicate, get_or-replicate_zero,
  done, ◌==◌, if◌then◌else◌, false, le→ltb,
}
use native.Mathlib.Nat.{add-mul-div_right, div-mul-le_self, mod-eq_of_lt}
use omphalos.Timing.{Timestat, Timeval, advance, timeradd, timestat_inc, distance_of, ringinc}
use omphalos.Timing.Time.{micros, IsTime, timersub-micros, advance-micros}
use omphalos.Timing.Zero.{Room}
use omphalos.Timing.Ring.{IsValid, slot}
use omphalos.Timing.Window.{sampled, add_sample-sampled, slot-sampled}
use omphalos.Timing.Expiry.{expiring, expire-all}
use omphalos.Timing.Inc.{
  advance-IsValid, advance-Room, advance-total, reset-IsValid, distance_of-lt,
}

-- The clock has not gone back behind the first sample, and no number of samples overflows.
pub record IsLater (ts : Timestat) (tv : Timeval) : Type 0 where
  pub first_time : IsTime ts.firstsamp
  pub this_time : IsTime tv
  pub in_order : micros ts.firstsamp ≤ micros tv
  pub word : (micros tv - micros ts.firstsamp) / ts.usec < 2 ^ 32

distance_of-micros :
    (ts : Timestat) (tv : Timeval)
    → IsLater ts tv
    → distance_of ts tv ≡ (micros tv - micros ts.firstsamp) / ts.usec
unfolding distance_of
distance_of-micros ts tv h =
    rw (timersub-micros tv ts.firstsamp h.this_time h.first_time h.in_order) (mod-eq_of_lt h.word)

mul-le_of_le-div : (e x u : ℕ) → e ≤ x / u → e * u ≤ x
mul-le_of_le-div e x u h = grind (arith, div-mul-le_self x u)

sub-mul-div : (x u e : ℕ) → 0 < u → e ≤ x / u → (x - e * u) / u ≡ x / u - e
sub-mul-div x u e pos h =
    let fits = mul-le_of_le-div e x u h in
    let whole : x - e * u + e * u ≡ x = omega arith in
    omega (arith, ap (λ (t : ℕ). t / u) whole, add-mul-div_right (x - e * u) e pos)

-- The head of the ring moved on by `e` samples.
distance_of-later :
    (ts kept : Timestat) (tv : Timeval) (e : ℕ)
    → 0 < ts.usec
    → IsLater ts tv
    → e ≤ distance_of ts tv
    → kept.usec ≡ ts.usec
    → kept.firstsamp.usec < 1000000
    → micros kept.firstsamp ≡ micros ts.firstsamp + e * ts.usec
    → distance_of kept tv ≡ distance_of ts tv - e
distance_of-later ts kept tv e pos h le same normal moved =
    let before = distance_of-micros ts tv h in
    let x = micros tv - micros ts.firstsamp in
    let fits = mul-le_of_le-div e x ts.usec (omega arith) in
    let quotient = sub-mul-div x ts.usec e pos (omega arith) in
    let later : micros tv - micros kept.firstsamp ≡ x - e * ts.usec = omega arith in
    let value : (micros tv - micros kept.firstsamp) / kept.usec ≡ x / ts.usec - e =
      rw (same, later) quotient in
    distance_of-micros kept tv (record {
      first_time = (normal, omega (arith, h.this_time.1));
      this_time = h.this_time;
      in_order = omega (arith, h.in_order);
      word = omega (arith, h.word);
    })
    ∙ omega arith

advance-normal :
    (e : ℕ) (ts : Timestat) → ts.firstsamp.usec < 1000000 → (advance e ts).firstsamp.usec < 1000000
unfolding advance timeradd
advance-normal e ts h = ground arith

advance-usec : (e : ℕ) (ts : Timestat) → (advance e ts).usec ≡ ts.usec
unfolding advance
advance-usec e ts = refl

abbrev emptied : Timestat → Timestat
emptied ts = record ts { firstidx = 0; valtotal = 0; counts = replicate ts.total 0 }

slot-emptied : (e : ℕ) (ts : Timestat) (j : ℕ) → slot (advance e (emptied ts)) j ≡ 0
unfolding advance
slot-emptied e ts j = get_or-replicate_zero ts.total (ringinc 0 j ts.total)

-- After a gap of at least a whole further window all counts are zeroed and the value goes to the
-- oldest slot, although the time of the window is moved so that the sample belongs to the newest
-- one, `total - 1` places on: the value is the next to expire. The product of 32 bits by which the
-- time is moved must not overflow.
pub timestat_inc-resets :
    (ts : Timestat) (tv : Timeval) (val : ℕ)
    → IsValid ts
    → Room val ts
    → IsLater ts tv
    → ts.total ≤ distance_of ts tv
    → ts.total ≤ expiring ts (distance_of ts tv)
    → expiring ts (distance_of ts tv) * ts.usec < 2 ^ 32
    → (out : Timestat) × (timestat_inc ts tv val ≡ done out)
      × ((j : ℕ) → j < ts.total → slot out j ≡ (if j == 0 then val else 0))
      × (distance_of out tv ≡ ts.total - 1)
unfolding timestat_inc distance_of
timestat_inc-resets ts tv val v room later far all small =
    let running : (ts.usec == 0) ≡ false = ground (arith, v.has_period) in
    let e = expiring ts (distance_of ts tv) in
    let kept = advance e (emptied ts) in
    let run = expire-all ts v (distance_of ts tv) (distance_of-lt ts tv) far all in
    let valid = advance-IsValid e (reset-IsValid v) in
    let near : 0 < kept.total = rw advance-total v.has_slots in
    let room' =
      advance-Room e val (emptied ts)
        (λ j. omega (arith, get_or-replicate_zero ts.total j, room j)) in
    (
      sampled 0 val kept,
      rw (running, le→ltb _ _ far, run) (add_sample-sampled kept valid 0 val near room'),
      λ j h. ground (
        arith,
        slot-sampled kept valid 0 val near room' j (rw advance-total h),
        slot-emptied e ts j,
      ),
      distance_of-later ts kept tv e v.has_period later (omega (arith, v.has_slots))
            (advance-usec e (emptied ts)) (advance-normal e (emptied ts) later.first_time.0)
            (advance-micros e (emptied ts) small)
          ∙ omega arith,
    )
