-- ===== src/Timing/Zero.antt =====
-- The loops that zero expired counts: which counts change, and what becomes of the sum.
use omphalos.Base.{
  ℕ, zero, suc, ◌+◌, ◌-◌, ◌^◌, ◌≤◌, ◌<◌, ◌≡◌, refl, ◌⊎◌, inl, inr, arith, u64, ◌∙◌, length, get_or,
  set, sum, sum-set, length-set, get_or-set_self, get_or-set_ne, done, get_elem?-eq-get_or, Outcome,
  Bool-cases, ltb,
}
use omphalos.Timing.{Timestat, zero_counts}

abbrev pub count_at : Timestat → ℕ → ℕ
count_at ts j = get_or ts.counts j 0

-- Every count is a `uint32_t`.
abbrev pub Fits : Timestat → Type 0
Fits ts = (j : ℕ) → count_at ts j < 2 ^ 32

-- `out` is `ts` with the counts of `lo .. hi - 1` zeroed and taken out of the total.
pub record Zeroed (lo hi : ℕ) (ts out : Timestat) : Type 0 where
  pub same_length : length out.counts ≡ length ts.counts
  pub inside : (j : ℕ) → lo ≤ j → j < hi → count_at out j ≡ 0
  pub outside : (j : ℕ) → (j < lo) ⊎ (hi ≤ j) → count_at out j ≡ count_at ts j
  pub balance : u64 (out.valtotal + sum ts.counts) ≡ u64 (ts.valtotal + sum out.counts)
  pub bounded : ts.valtotal < 2 ^ 64 → out.valtotal < 2 ^ 64
  pub same_usec : out.usec ≡ ts.usec
  pub same_total : out.total ≡ ts.total
  pub same_firstidx : out.firstidx ≡ ts.firstidx
  pub same_firstsamp : out.firstsamp ≡ ts.firstsamp

-- A normal return with such a result.
abbrev pub Zeroes : ℕ → ℕ → Timestat → Outcome Timestat → Type 0
Zeroes lo hi ts run = (out : Timestat) × (run ≡ done out) × Zeroed lo hi ts out

abbrev zero_count : ℕ → Timestat → Timestat
zero_count z ts = record ts {
  counts = set ts.counts z 0;
  valtotal = u64 (ts.valtotal + 2 ^ 64 - count_at ts z);
}

zero_counts-suc :
    (left z : ℕ) (ts : Timestat)
    → z < length ts.counts
    → zero_counts (suc left) z ts ≡ zero_counts left (z + 1) (zero_count z ts)
unfolding zero_counts
zero_counts-suc left z ts h = rw (get_elem?-eq-get_or ts.counts z 0 h, zero_counts)

Fits-zero_count : (z : ℕ) (ts : Timestat) → z < length ts.counts → Fits ts → Fits (zero_count z ts)
Fits-zero_count z ts h fits j =
    grind (arith, fits j, get_or-set_self ts.counts z 0 0 h, get_or-set_ne ts.counts z j 0 0)

Zeroed-cons :
    {z hi : ℕ} {ts out : Timestat}
    → z < hi
    → z < length ts.counts
    → count_at ts z < 2 ^ 32
    → Zeroed (z + 1) hi (zero_count z ts) out
    → Zeroed z hi ts out
Zeroed-cons {z} {ts} below in_range fits tail = record {
  same_length = tail.same_length ∙ length-set ts.counts z 0;
  inside = λ j p q.
      ground (arith, tail.inside j, tail.outside j, get_or-set_self ts.counts z 0 0 in_range);
  outside = λ j p. ground (arith, tail.outside j, get_or-set_ne ts.counts z j 0 0);
  balance = omega (arith, tail.balance, sum-set ts.counts z 0 in_range);
  bounded = λ h. tail.bounded (omega arith);
  same_usec = tail.same_usec;
  same_total = tail.same_total;
  same_firstidx = tail.same_firstidx;
  same_firstsamp = tail.same_firstsamp;
}

Zeroes-nothing : (z : ℕ) (ts : Timestat) → Zeroes z z ts (zero_counts 0 z ts)
Zeroes-nothing z ts = (
  ts,
  unfold zero_counts in refl,
  record {
    same_length = refl;
    inside = λ j p q. absurd (omega arith);
    outside = λ j p. refl;
    balance = refl;
    bounded = λ h. h;
    same_usec = refl;
    same_total = refl;
    same_firstidx = refl;
    same_firstsamp = refl;
  },
)

pub zero_counts-Zeroes :
    (left z hi : ℕ) (ts : Timestat)
    → z + left ≡ hi
    → hi ≤ length ts.counts
    → Fits ts
    → Zeroes z hi ts (zero_counts left z ts)
zero_counts-Zeroes zero z hi ts e h fits =
    let at_end : hi ≡ z = omega arith in rw at_end (Zeroes-nothing z ts)
zero_counts-Zeroes (suc left) z hi ts e h fits =
    let in_range : z < length ts.counts = omega arith in
    let (out, run, zeroed) =
      zero_counts-Zeroes left (z + 1) hi (zero_count z ts) (omega arith)
        (rw (length-set ts.counts z 0) h) (Fits-zero_count z ts in_range fits) in
    (
      out,
      zero_counts-suc left z ts in_range ∙ run,
      Zeroed-cons (omega arith) in_range (fits z) zeroed,
    )

-- A loop up to the end of the ring, which may start behind it.
pub zero_counts-tail :
    (z n : ℕ) (ts : Timestat)
    → length ts.counts ≡ n
    → Fits ts
    → Zeroes z (z + (n - z)) ts (zero_counts (n - z) z ts)
zero_counts-tail z n ts sized fits = elim (Bool-cases (ltb n z)) [
  | inl behind ↦
      let left : n - z ≡ 0 = ground arith in
      let end : z + 0 ≡ z = omega arith in rw (left, end) (Zeroes-nothing z ts)
  | inr before ↦ zero_counts-Zeroes (n - z) z (z + (n - z)) ts refl (ground arith) fits
]

-- No count overflows when `val` is added to it.
abbrev pub Room : ℕ → Timestat → Type 0
Room val ts = (j : ℕ) → count_at ts j + val < 2 ^ 32

pub Zeroed-Room :
    {lo hi : ℕ} {ts out : Timestat} (val : ℕ) → Zeroed lo hi ts out → Room val ts → Room val out
Zeroed-Room {lo} {hi} val z room j = grind (arith, z.inside j, z.outside j, room j)

pub Zeroed-Fits : {lo hi : ℕ} {ts out : Timestat} → Zeroed lo hi ts out → Fits ts → Fits out
Zeroed-Fits {lo} {hi} z fits j = grind (arith, z.inside j, z.outside j, fits j)
