-- ===== src/Csum/Fold.antt =====
-- The folding loops of csum.c: the loop of `ipv4_csum` ends and keeps the sum modulo 65535; the
-- two rounds of the other functions add the halves of the sum and drop the carry of that addition.
use omphalos.Base.{ℕ, suc, ◌+◌, ◌-◌, ◌/◌, ◌%◌, ◌^◌, ◌<◌, ◌≡◌, arith, ◌==◌, if◌then◌else◌, done}
use omphalos.Base.Bits.{bit_and-mask}
use omphalos.Csum.{fold_carries, fold_halves32, fold_halves16}
use omphalos.Csum.Words.{ones_rep}

-- One round.
abbrev folded : ℕ → ℕ
folded s = s % 65536 + s / 65536

ones_rep-folded : (s : ℕ) → ones_rep (folded s) ≡ ones_rep s
ones_rep-folded s = ground arith

fold_carries-suc :
    (fuel s : ℕ)
    → s < 2 ^ 32
    → fold_carries (suc fuel) s ≡ (if s / 65536 == 0 then done s else fold_carries fuel (folded s))
unfolding fold_carries
fold_carries-suc fuel s h = ground (arith, bit_and-mask 16 s)

-- With the fuel above the bound `ones_rep` is reached.
fold_carries-small : (fuel s : ℕ) → s < 65536 → fold_carries (suc fuel) s ≡ done (ones_rep s)
fold_carries-small fuel s h = ground (arith, fold_carries-suc fuel s)

fold_carries-round :
    (fuel s : ℕ)
    → s < 2 ^ 32
    → fold_carries (suc fuel) (folded s) ≡ done (ones_rep (folded s))
    → fold_carries (suc (suc fuel)) s ≡ done (ones_rep s)
fold_carries-round fuel s h rest =
    ground
      (arith, fold_carries-suc (suc fuel) s, fold_carries-small (suc fuel) s, ones_rep-folded s)

-- Four rounds are enough for every 32-bit sum.
pub fold_carries-done : (s : ℕ) → s < 2 ^ 32 → fold_carries 4 s ≡ done (ones_rep s)
fold_carries-done s h = fold_carries-round 2 s h (
    fold_carries-round 1 (folded s) (omega arith) (
      fold_carries-round 0 (folded (folded s)) (omega arith)
        (fold_carries-small 0 (folded (folded (folded s))) (omega arith))))

abbrev pub halves : ℕ → ℕ
halves s = s % 65536 + s / 65536

pub fold_halves32-eq : (s : ℕ) → s < 2 ^ 32 → fold_halves32 s ≡ 65535 - halves s % 65536
unfolding fold_halves32
fold_halves32-eq s h =
    ground (arith, bit_and-mask 16 s, bit_and-mask 16 (s / 65536), bit_and-mask 16 (halves s))

pub fold_halves16-eq :
    (s : ℕ)
    → s < 2 ^ 32
    → fold_halves16 s ≡ (if halves s % 65536 == 65535 then 65535 else 65535 - halves s % 65536)
unfolding fold_halves16
fold_halves16-eq s h =
    ground
      (arith, bit_and-mask 16 s, bit_and-mask 16 (s / 65536), bit_and-mask 16 (halves s % 65536))
