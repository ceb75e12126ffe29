-- ===== src/Timing/Window.antt =====
-- The last step of `timestat_inc`, at a slot of the window.
use omphalos.Base.{
  ℕ, ◌+◌, ◌-◌, ◌^◌, ◌<◌, ◌≡◌, arith, u32, u64, ◌∙◌, length, set, sum-set, length-set, get_or-set,
  done, get_elem?-eq-get_or, ltb, ◌==◌, if◌then◌else◌, false,
}
use omphalos.Timing.{Timestat, add_sample, ringinc}
use omphalos.Timing.Zero.{count_at, Room}
use omphalos.Timing.Ring.{IsValid, slot, ringinc-below, ringinc-once}

pub ringinc-cases :
    (idx j s : ℕ)
    → s < 2 ^ 30
    → idx < s
    → j < s
    → ringinc idx j s ≡ (if ltb (idx + j) s then idx + j else idx + j - s)
ringinc-cases idx j s small h k =
    ground (arith, ringinc-below idx j s small, ringinc-once idx j s small)

abbrev pub sampled : ℕ → ℕ → Timestat → Timestat
sampled distance val ts = record ts {
  counts = set ts.counts (ringinc ts.firstidx distance ts.total) (u32 (slot ts distance + val));
  valtotal = u64 (ts.valtotal + val);
}

module _ (ts : Timestat) (v : IsValid ts) (distance val : ℕ) (near : distance < ts.total)
    (room : Room val ts) where
  at : ℕ
  at = ringinc ts.firstidx distance ts.total

  at-lt : ringinc ts.firstidx distance ts.total < length ts.counts
  at-lt =
      ground (arith, v.sized, v.in_ring, ringinc-cases ts.firstidx distance ts.total v.few_slots)

  written :
      (j : ℕ)
      → count_at (sampled distance val ts) j ≡ (
          if ringinc ts.firstidx distance ts.total == j
          then u32 (slot ts distance + val)
          else count_at ts j)
  written j =
      get_or-set ts.counts (ringinc ts.firstidx distance ts.total) j (u32 (slot ts distance + val))
        0 at-lt

  pub add_sample-sampled : add_sample distance val ts ≡ done (sampled distance val ts)
  unfolding add_sample
  add_sample-sampled =
      let positive : (ts.total == 0) ≡ false = ground (arith, v.has_slots) in
      rw (positive, get_elem?-eq-get_or ts.counts (ringinc ts.firstidx distance ts.total) 0 at-lt)

  pub sampled-IsValid : IsValid (sampled distance val ts)
  sampled-IsValid = record {
    has_slots = v.has_slots;
    few_slots = v.few_slots;
    has_period = v.has_period;
    in_ring = v.in_ring;
    sized = length-set ts.counts _ _ ∙ v.sized;
    fits = λ j. ground (arith, v.fits j, written j);
    tracked = omega (
      arith,
      v.tracked,
      room (ringinc ts.firstidx distance ts.total),
      sum-set ts.counts (ringinc ts.firstidx distance ts.total) (u32 (slot ts distance + val))
          at-lt,
    );
  }

  -- The window changes at the slot `distance` alone.
  pub slot-sampled :
      (j : ℕ)
      → j < ts.total
      → slot (sampled distance val ts) j ≡ (if j == distance then slot ts j + val else slot ts j)
  slot-sampled j h = ground (
    arith,
    v.in_ring,
    v.few_slots,
    written (ringinc ts.firstidx j ts.total),
    ringinc-cases ts.firstidx j ts.total,
    ringinc-cases ts.firstidx distance ts.total,
    room (ringinc ts.firstidx distance ts.total),
  )
