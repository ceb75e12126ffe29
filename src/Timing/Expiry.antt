-- ===== src/Timing/Expiry.antt =====
-- The branch of `timestat_inc` in which counts expire: what is zeroed, and the window after it.
use omphalos.Base.{
  ℕ, ◌+◌, ◌-◌, ◌^◌, ◌≤◌, ◌<◌, ◌≡◌, refl, arith, u32, ◌∙◌, replicate, done, ltb, true, false,
}
use omphalos.Timing.{Timestat, ringinc, zero_expired, zero_counts, advance, expire}
use omphalos.Timing.Zero.{Zeroed, zero_counts-Zeroes, zero_counts-tail, Zeroed-Fits}
use omphalos.Timing.Ring.{IsValid, ringinc-once, ringinc-twice}

-- The number of samples that expire.
abbrev pub expiring : Timestat → ℕ → ℕ
expiring ts distance = distance + 1 - ts.total

-- The head of the ring moves over the samples that expire.
abbrev pub moved : ℕ → Timestat → Timestat
moved move ts = record ts { firstidx = ringinc ts.firstidx move ts.total }

module _ (ts : Timestat) (v : IsValid ts) (distance : ℕ) (word : distance < 2 ^ 32)
    (far : ts.total ≤ distance) where
  expiring_word : u32 (distance + 2 ^ 32 - ts.total + 1) ≡ expiring ts distance
  expiring_word = omega (arith, v.has_slots, v.few_slots)

  -- All counts have expired.
  pub expire-all :
      ts.total ≤ expiring ts distance
      → expire distance ts
        ≡ done (
          advance
              (expiring ts distance)
              (record ts { firstidx = 0; valtotal = 0; counts = replicate ts.total 0 }),
          0,
        )
  unfolding expire
  expire-all all =
      let past : ltb (expiring ts distance) ts.total ≡ false = ground arith in
      rw (expiring_word, past)

  module _ (some_kept : expiring ts distance < ts.total) where
    expire-some :
        (out : Timestat)
        → zero_expired
            (ringinc ts.firstidx distance ts.total)
            (expiring ts distance)
            (moved (expiring ts distance) ts)
          ≡ done out
        → expire distance ts ≡ done (advance (expiring ts distance) out, ts.total - 1)
    unfolding expire
    expire-some out run =
        let kept : ltb (expiring ts distance) ts.total ≡ true = ground arith in
        let last : distance - expiring ts distance ≡ ts.total - 1 = omega arith in
        rw (expiring_word, kept, run, last)

    -- The new slot, where the expired ones do not wrap round the end of the ring.
    straight :
        ts.firstidx + expiring ts distance ≤ ts.total
        → zero_expired
            (ringinc ts.firstidx distance ts.total)
            (expiring ts distance)
            (moved (expiring ts distance) ts)
          ≡ zero_counts (expiring ts distance) ts.firstidx (moved (expiring ts distance) ts)
    unfolding zero_expired
    straight fits =
        let new : ringinc ts.firstidx distance ts.total ≡ ts.firstidx + distance - ts.total =
          ringinc-once ts.firstidx distance ts.total v.few_slots (omega arith) (omega arith) in
        let test : ltb (ts.firstidx + distance - ts.total + 1) (expiring ts distance) ≡ false =
          ground arith in
        let start : ts.firstidx + distance - ts.total + 1 - expiring ts distance ≡ ts.firstidx =
          omega arith in
        rw (new, test, start)

    -- Where they wrap, the first loop zeroes the slots up to the new one. The second one starts
    -- at `wrapped_from`, as far behind the oldest slot as the first loop went.
    abbrev wrapped_count : ℕ
    wrapped_count = ts.firstidx + expiring ts distance - ts.total

    abbrev wrapped_from : ℕ
    wrapped_from = ts.firstidx + wrapped_count

    wrapped :
        ts.total < ts.firstidx + expiring ts distance
        → (first second : Timestat)
        → zero_counts
            (ts.firstidx + expiring ts distance - ts.total)
            0
            (moved (expiring ts distance) ts)
          ≡ done first
        → first.total ≡ ts.total
        → zero_counts (ts.total - wrapped_from) wrapped_from first ≡ done second
        → zero_expired
            (ringinc ts.firstidx distance ts.total)
            (expiring ts distance)
            (moved (expiring ts distance) ts)
          ≡ done second
    unfolding zero_expired
    wrapped over first second run same run' =
        let new : ringinc ts.firstidx distance ts.total + 1 ≡ wrapped_count = omega (
          arith,
          ringinc-twice ts.firstidx distance ts.total v.few_slots (omega (arith, v.in_ring))
              (omega (arith, v.in_ring)),
        ) in
        let test : ltb wrapped_count (expiring ts distance) ≡ true = ground (arith, v.in_ring) in
        let start : wrapped_count + (first.total - (expiring ts distance - wrapped_count))
            ≡ wrapped_from =
          omega (arith, v.in_ring) in
        let rounds : first.total - wrapped_from ≡ ts.total - wrapped_from = omega arith in
        rw (new, test, run, start, rounds, run')

    pub straight-Zeroed :
        ts.firstidx + expiring ts distance ≤ ts.total
        → (out : Timestat) × (expire distance ts
            ≡ done (advance (expiring ts distance) out, ts.total - 1))
          × Zeroed ts.firstidx
              (ts.firstidx + expiring ts distance)
              (moved (expiring ts distance) ts)
              out
    straight-Zeroed fits =
        let (out, run, z) =
          zero_counts-Zeroes (expiring ts distance) ts.firstidx (ts.firstidx + expiring ts distance)
            (moved (expiring ts distance) ts) refl (rw v.sized fits) v.fits in
        (out, expire-some out (straight fits ∙ run), z)

    pub wrapped-Zeroed :
        ts.total < ts.firstidx + expiring ts distance
        → (first : Timestat) × (second : Timestat) × (expire distance ts
            ≡ done (advance (expiring ts distance) second, ts.total - 1))
          × Zeroed 0
              (ts.firstidx + expiring ts distance - ts.total)
              (moved (expiring ts distance) ts)
              first
          × Zeroed
              (ts.firstidx + (ts.firstidx + expiring ts distance - ts.total))
              (ts.firstidx
                + (ts.firstidx + expiring ts distance - ts.total)
                + (ts.total - (ts.firstidx + (ts.firstidx + expiring ts distance - ts.total))))
              first
              second
    wrapped-Zeroed over =
        let (first, run, z) =
          zero_counts-Zeroes wrapped_count 0 wrapped_count (moved (expiring ts distance) ts)
            (omega arith) (omega (arith, v.sized, v.in_ring)) v.fits in
        let (second, run', z') =
          zero_counts-tail wrapped_from ts.total first (z.same_length ∙ v.sized)
            (Zeroed-Fits z v.fits) in
        (first, second, expire-some second (wrapped over first second run z.same_total run'), z, z')
