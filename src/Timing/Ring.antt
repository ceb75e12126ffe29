-- ===== src/Timing/Ring.antt =====
-- Positions in the ring, and what a valid `timestat` is.
use omphalos.Base.{ℕ, ◌+◌, ◌-◌, ◌%◌, ◌^◌, ◌≤◌, ◌<◌, ◌≡◌, arith, u64, ◌∙◌, length, sum}
use native.Mathlib.Nat.{mod-eq_of_lt, mod-eq-sub-mod}
use omphalos.Timing.{Timestat, ringinc}
use omphalos.Timing.Zero.{count_at, Fits}

-- The ring is allocated and its head lies in it, the counts fit their type, and the running total
-- is the sum of the counts. No ring that is used has 2 ^ 30 slots.
pub record IsValid (ts : Timestat) : Type 0 where
  pub has_slots : 0 < ts.total
  pub few_slots : ts.total < 2 ^ 30
  pub has_period : 0 < ts.usec
  pub in_ring : ts.firstidx < ts.total
  pub sized : length ts.counts ≡ ts.total
  pub fits : Fits ts
  pub tracked : ts.valtotal ≡ u64 (sum ts.counts)

pub mod-once : (a n : ℕ) → n ≤ a → a < n + n → a % n ≡ a - n
mod-once a n h k = mod-eq-sub-mod h ∙ mod-eq_of_lt (omega arith)

pub mod-below : (a n : ℕ) → a < n → a % n ≡ a
mod-below a n h = mod-eq_of_lt h

module _ (idx move s : ℕ) (small : s < 2 ^ 30) where
  pub ringinc-below : idx + move < s → ringinc idx move s ≡ idx + move
  unfolding ringinc
  ringinc-below h = rw (mod-below (idx + move) (2 ^ 32) (omega arith)) (mod-below (idx + move) s h)

  pub ringinc-once : s ≤ idx + move → idx + move < s + s → ringinc idx move s ≡ idx + move - s
  unfolding ringinc
  ringinc-once h k =
      rw (mod-below (idx + move) (2 ^ 32) (omega arith)) (mod-once (idx + move) s h k)

  pub ringinc-twice :
      s + s ≤ idx + move → idx + move < s + s + s → ringinc idx move s ≡ idx + move - s - s
  unfolding ringinc
  ringinc-twice h k =
      rw
        (
          mod-below (idx + move) (2 ^ 32) (omega arith),
          mod-eq-sub-mod {n = idx + move} {m = s} (omega arith),
        )
        (mod-once (idx + move - s) s (omega arith) (omega arith))

-- The count of the `j`-th slot of the window, from the oldest on.
abbrev pub slot : Timestat → ℕ → ℕ
slot ts j = count_at ts (ringinc ts.firstidx j ts.total)
