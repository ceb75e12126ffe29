-- ===== src/Timing/Inc.antt =====
-- `timestat_inc` as a whole: it returns and keeps the ring valid on every branch.
use omphalos.Base.{
  ℕ, ◌+◌, ◌-◌, ◌^◌, ◌≤◌, ◌<◌, ◌≡◌, refl, inl, inr, arith, replicate, length-replicate,
  get_or-replicate_zero, sum-replicate_zero, done, Outcome, ltb, ◌==◌, Bool-cases, false, ltb→lt,
}
use omphalos.Timing.{Timestat, Timeval, advance, expire, timestat_inc, distance_of}
use omphalos.Timing.Zero.{Room, Zeroed, Zeroed-Room}
use omphalos.Timing.Ring.{IsValid}
use omphalos.Timing.Window.{ringinc-cases, sampled, add_sample-sampled, sampled-IsValid}
use omphalos.Timing.Expiry.{expiring, moved, expire-all, straight-Zeroed, wrapped-Zeroed}

-- What every way to expire counts leaves: a valid ring, with room where there was.
pub record Expired (val : ℕ) (ts out : Timestat) (distance : ℕ) : Type 0 where
  pub valid : IsValid out
  pub room : Room val out
  pub near : distance < out.total

Expires : ℕ → Timestat → Outcome (Timestat × ℕ) → Type 0
Expires val ts run = (out : Timestat) × (d : ℕ) × (run ≡ done (out, d)) × Expired val ts out d

module _ {lo hi : ℕ} {ts out : Timestat} (v : IsValid ts) (z : Zeroed lo hi ts out) where
  pub Zeroed-IsValid : IsValid out
  Zeroed-IsValid = record {
    has_slots = omega (arith, v.has_slots, z.same_total);
    few_slots = omega (arith, v.few_slots, z.same_total);
    has_period = omega (arith, v.has_period, z.same_usec);
    in_ring = omega (arith, v.in_ring, z.same_total, z.same_firstidx);
    sized = omega (arith, v.sized, z.same_total, z.same_length);
    fits = λ j. grind (arith, z.inside j, z.outside j, v.fits j);
    tracked = omega (arith, v.tracked, z.balance, z.bounded (omega (arith, v.tracked)));
  }

pub advance-IsValid : (e : ℕ) {ts : Timestat} → IsValid ts → IsValid (advance e ts)
unfolding advance
advance-IsValid e v = record {
  has_slots = v.has_slots;
  few_slots = v.few_slots;
  has_period = v.has_period;
  in_ring = v.in_ring;
  sized = v.sized;
  fits = v.fits;
  tracked = v.tracked;
}

pub advance-Room : (e val : ℕ) (ts : Timestat) → Room val ts → Room val (advance e ts)
unfolding advance
advance-Room e val ts r = r

pub advance-total : (e : ℕ) (ts : Timestat) → (advance e ts).total ≡ ts.total
unfolding advance
advance-total e ts = refl

pub moved-IsValid :
    {ts : Timestat} (move : ℕ) → IsValid ts → move < ts.total → IsValid (moved move ts)
moved-IsValid {ts} move v h = record {
  has_slots = v.has_slots;
  few_slots = v.few_slots;
  has_period = v.has_period;
  in_ring = ground (arith, v.in_ring, ringinc-cases ts.firstidx move ts.total v.few_slots);
  sized = v.sized;
  fits = v.fits;
  tracked = v.tracked;
}

pub reset-IsValid :
    {ts : Timestat}
    → IsValid ts
    → IsValid (record ts { firstidx = 0; valtotal = 0; counts = replicate ts.total 0 })
reset-IsValid {ts} v = record {
  has_slots = v.has_slots;
  few_slots = v.few_slots;
  has_period = v.has_period;
  in_ring = v.has_slots;
  sized = length-replicate ts.total 0;
  fits = λ j. omega (arith, get_or-replicate_zero ts.total j);
  tracked = omega (arith, sum-replicate_zero ts.total);
}

module _ (ts : Timestat) (v : IsValid ts) (distance val : ℕ) (word : distance < 2 ^ 32)
    (far : ts.total ≤ distance) (room : Room val ts) where
  expire_all-Expires : ts.total ≤ expiring ts distance → Expires val ts (expire distance ts)
  unfolding Expires
  expire_all-Expires all = (
    _,
    0,
    expire-all ts v distance word far all,
    record {
      valid = advance-IsValid (expiring ts distance) (reset-IsValid v);
      room =
          advance-Room (expiring ts distance) val _
            λ j. omega (arith, get_or-replicate_zero ts.total j, room j);
      near = rw advance-total v.has_slots;
    },
  )

  module _ (some_kept : expiring ts distance < ts.total) where
    straight-Expires :
        ts.firstidx + expiring ts distance ≤ ts.total → Expires val ts (expire distance ts)
    unfolding Expires
    straight-Expires fits =
        let (out, run, z) = straight-Zeroed ts v distance word far some_kept fits in
        let m = moved-IsValid (expiring ts distance) v some_kept in
        (
          advance (expiring ts distance) out,
          ts.total - 1,
          run,
          record {
            valid = advance-IsValid (expiring ts distance) (Zeroed-IsValid m z);
            room = advance-Room (expiring ts distance) val _ (Zeroed-Room val z room);
            near = rw (advance-total, z.same_total) (omega (arith, v.has_slots));
          },
        )

    wrapped-Expires :
        ts.total < ts.firstidx + expiring ts distance → Expires val ts (expire distance ts)
    unfolding Expires
    wrapped-Expires over =
        let (first, second, run, z, z') = wrapped-Zeroed ts v distance word far some_kept over in
        let m = moved-IsValid (expiring ts distance) v some_kept in
        (
          advance (expiring ts distance) second,
          ts.total - 1,
          run,
          record {
            valid = advance-IsValid (expiring ts distance) (Zeroed-IsValid (Zeroed-IsValid m z) z');
            room =
                advance-Room (expiring ts distance) val _
                  (Zeroed-Room val z' (Zeroed-Room val z room));
            near = rw (advance-total, z'.same_total, z.same_total) (omega (arith, v.has_slots));
          },
        )

  expire-Expires : Expires val ts (expire distance ts)
  expire-Expires = elim (Bool-cases (ltb (expiring ts distance) ts.total)) [
    | inr all ↦ expire_all-Expires (ground arith)
    | inl some_kept ↦ elim (Bool-cases (ltb ts.total (ts.firstidx + expiring ts distance))) [
      | inl over ↦ wrapped-Expires (ltb→lt _ _ some_kept) (ltb→lt _ _ over)
      | inr fits ↦ straight-Expires (ltb→lt _ _ some_kept) (ground arith)
    ]
  ]

pub distance_of-lt : (ts : Timestat) (tv : Timeval) → distance_of ts tv < 2 ^ 32
unfolding distance_of
distance_of-lt ts tv = omega arith

-- For a valid ring and a value that fits on top of every count, `timestat_inc` returns, at any time
-- and on every branch, and leaves a valid ring: in particular no access is out of range, and the
-- running total is still the sum of the counts.
pub timestat_inc-IsValid :
    (ts : Timestat) (tv : Timeval) (val : ℕ)
    → IsValid ts
    → Room val ts
    → (out : Timestat) × (timestat_inc ts tv val ≡ done out) × IsValid out
unfolding timestat_inc Expires
timestat_inc-IsValid ts tv val v room =
    let running : (ts.usec == 0) ≡ false = ground (arith, v.has_period) in
    elim (Bool-cases (ltb (distance_of ts tv) ts.total)) [
      | inl near ↦ (
        sampled (distance_of ts tv) val ts,
        rw (running, near) (add_sample-sampled ts v (distance_of ts tv) val (ltb→lt _ _ near) room),
        sampled-IsValid ts v (distance_of ts tv) val (ltb→lt _ _ near) room,
      )
      | inr far ↦
          let (kept, d, run, e) =
            expire-Expires ts v (distance_of ts tv) val (distance_of-lt ts tv) (ground arith)
              room in
          (
            sampled d val kept,
            rw (running, far, run) (add_sample-sampled kept e.valid d val e.near e.room),
            sampled-IsValid kept e.valid d val e.near e.room,
          )
    ]
