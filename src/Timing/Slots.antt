-- ===== src/Timing/Slots.antt =====
-- What `timestat_inc` does to the window: the counts from the oldest slot to the newest one.
use omphalos.Base.{
  ℕ, ◌+◌, ◌-◌, ◌≤◌, ◌<◌, ◌≡◌, refl, arith, ◌∙◌, done, ltb, ◌==◌, if◌then◌else◌, false, lt→ltb,
  le→ltb,
}
use omphalos.Timing.{Timestat, Timeval, ringinc, advance, expire, timestat_inc, distance_of}
use omphalos.Timing.Zero.{Room, Zeroed, Zeroed-Room}
use omphalos.Timing.Ring.{IsValid, slot}
use omphalos.Timing.Window.{ringinc-cases, sampled, add_sample-sampled, slot-sampled}
use omphalos.Timing.Expiry.{expiring, moved, straight-Zeroed, wrapped-Zeroed}
use omphalos.Timing.Inc.{
  Zeroed-IsValid, advance-IsValid, advance-Room, advance-total, moved-IsValid, distance_of-lt,
}

module _ (ts : Timestat) (tv : Timeval) (val : ℕ) (v : IsValid ts) (room : Room val ts) where
  running : (ts.usec == 0) ≡ false
  running = ground (arith, v.has_period)

  -- A sample that lies in the window adds its value to its own slot and leaves the others.
  pub timestat_inc-near :
      distance_of ts tv < ts.total
      → (out : Timestat) × (timestat_inc ts tv val ≡ done out)
        × ((j : ℕ)
            → j < ts.total
            → slot out j ≡ (if j == distance_of ts tv then slot ts j + val else slot ts j))
  unfolding timestat_inc
  timestat_inc-near near = (
    sampled (distance_of ts tv) val ts,
    rw (running, lt→ltb _ _ near) (add_sample-sampled ts v (distance_of ts tv) val near room),
    slot-sampled ts v (distance_of ts tv) val near room,
  )

  module _ (far : ts.total ≤ distance_of ts tv)
      (some_kept : expiring ts (distance_of ts tv) < ts.total) where
    abbrev e : ℕ
    e = expiring ts (distance_of ts tv)

    -- The slots of the window before the new value is added.
    slot-straight :
        (out : Timestat)
        → ts.firstidx + e ≤ ts.total
        → Zeroed ts.firstidx (ts.firstidx + e) (moved e ts) out
        → (j : ℕ) → j < ts.total
        → slot out j ≡ (if ltb (j + e) ts.total then slot ts (j + e) else 0)
    slot-straight out fits z j h = ground (
      arith,
      v.in_ring,
      v.few_slots,
      z.same_total,
      z.same_firstidx,
      z.inside (ringinc out.firstidx j out.total),
      z.outside (ringinc out.firstidx j out.total),
      ringinc-cases ts.firstidx e ts.total,
      ringinc-cases (ringinc ts.firstidx e ts.total) j ts.total,
      ringinc-cases ts.firstidx (j + e) ts.total,
    )

    -- The run on, from what `expire` leaves.
    inc-of-expire :
        (kept : Timestat)
        → IsValid kept
        → Room val kept
        → kept.total ≡ ts.total
        → expire (distance_of ts tv) ts ≡ done (kept, ts.total - 1)
        → (timestat_inc ts tv val ≡ done (sampled (ts.total - 1) val kept))
          × ((j : ℕ)
              → j < ts.total
              → slot (sampled (ts.total - 1) val kept) j
                ≡ (if j == ts.total - 1 then slot kept j + val else slot kept j))
    unfolding timestat_inc
    inc-of-expire kept valid room' same run =
        let near : ts.total - 1 < kept.total = omega (arith, v.has_slots) in
        (
          rw (running, le→ltb _ _ far, run)
              (add_sample-sampled kept valid (ts.total - 1) val near room'),
          λ j h. slot-sampled kept valid (ts.total - 1) val near room' j (omega arith),
        )

    slot-advance : (out : Timestat) (j : ℕ) → slot (advance e out) j ≡ slot out j
    unfolding advance
    slot-advance out j = refl

    -- In a valid ring, where the counts of all slots leave room for the value, for a sample that lies
    -- behind the window while fewer samples expire than there are slots, and the slots that expire do
    -- not wrap round the end of the ring: the window is moved on by the number of samples that expire.
    -- Each slot takes the count of the slot that many places on, new slots are 0, and the last one gets
    -- the value.
    pub timestat_inc-slides :
        ts.firstidx + expiring ts (distance_of ts tv) ≤ ts.total
        → (out : Timestat) × (timestat_inc ts tv val ≡ done out)
          × ((j : ℕ)
              → j < ts.total
              → slot out j ≡ (
                  if j == ts.total - 1
                  then val
                  else if ltb (j + expiring ts (distance_of ts tv)) ts.total
                  then slot ts (j + expiring ts (distance_of ts tv))
                  else 0))
    timestat_inc-slides fits =
        let (zeroed, run, z) =
          straight-Zeroed ts v (distance_of ts tv) (distance_of-lt ts tv) far some_kept fits in
        let valid = advance-IsValid e (Zeroed-IsValid (moved-IsValid e v some_kept) z) in
        let (done_run, slots) =
          inc-of-expire (advance e zeroed) valid
            (advance-Room e val zeroed (Zeroed-Room val z room))
            (advance-total e zeroed ∙ z.same_total) run in
        (
          sampled (ts.total - 1) val (advance e zeroed),
          done_run,
          λ j h. ground (arith, slots j h, slot-advance zeroed j, slot-straight zeroed fits z j h),
        )

    slot-wrapped :
        (first second : Timestat)
        → ts.total < ts.firstidx + e
        → Zeroed 0 (ts.firstidx + e - ts.total) (moved e ts) first
        → Zeroed
            (ts.firstidx + (ts.firstidx + e - ts.total))
            (ts.firstidx
              + (ts.firstidx + e - ts.total)
              + (ts.total - (ts.firstidx + (ts.firstidx + e - ts.total))))
            first
            second
        → slot second (ts.total - e) ≡ slot ts 0
    slot-wrapped first second over z z' = ground (
      arith,
      v.in_ring,
      v.few_slots,
      z.same_total,
      z.same_firstidx,
      z'.same_total,
      z'.same_firstidx,
      z.outside ts.firstidx,
      z'.outside ts.firstidx,
      ringinc-cases ts.firstidx 0 ts.total,
      ringinc-cases ts.firstidx e ts.total,
      ringinc-cases (ringinc ts.firstidx e ts.total) (ts.total - e) ts.total,
    )

    -- Where the expired slots do wrap round the end of the ring, the count of the oldest slot,
    -- which has expired, is not zeroed: it stands in the window as the first of the new slots.
    pub timestat_inc-stale :
        ts.total < ts.firstidx + expiring ts (distance_of ts tv)
        → (out : Timestat) × (timestat_inc ts tv val ≡ done out)
          × (slot out (ts.total - expiring ts (distance_of ts tv)) ≡ slot ts 0)
    timestat_inc-stale over =
        let (first, second, run, z, z') =
          wrapped-Zeroed ts v (distance_of ts tv) (distance_of-lt ts tv) far some_kept over in
        let valid =
          advance-IsValid e (Zeroed-IsValid (Zeroed-IsValid (moved-IsValid e v some_kept) z) z') in
        let (done_run, slots) =
          inc-of-expire (advance e second) valid
            (advance-Room e val second (Zeroed-Room val z' (Zeroed-Room val z room)))
            (advance-total e second ∙ z'.same_total ∙ z.same_total) run in
        (
          sampled (ts.total - 1) val (advance e second),
          done_run,
          ground (
            arith,
            slots (ts.total - e),
            slot-advance second (ts.total - e),
            slot-wrapped first second over z z',
          ),
        )
