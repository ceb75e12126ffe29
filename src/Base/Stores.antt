-- ===== src/Base/Stores.antt =====
-- Bytes stored in memory: which bytes are read after.
use Prim.Native.Nat.{ℕ, zero, suc, ◌+◌, ◌≤◌, ◌<◌}
use mathlib.Core.Path.{◌≡◌, refl, ◌∙◌}
use mathlib.Core.Bool.{true}
use mathlib.Core.List.{List, [], ◌∷◌}
use native.Mathlib.Omega.{arith}
use omphalos.Base.Tests.{ltb}
use omphalos.Base.Lists.{length, set, length-set, get_or, get_or-set_self, get_or-set_ne}
use omphalos.Base.Bytes.{Memory, IsBytes, byte_at, done, store_bytes}

pub IsBytes-set : (mem : Memory) (p v : ℕ) → IsBytes mem → v < 256 → IsBytes (set mem p v)
IsBytes-set [] p v h lt = h
IsBytes-set (b ∷ bs) zero v h lt = (lt, h.1)
IsBytes-set (b ∷ bs) (suc p) v h lt = (h.0, IsBytes-set bs p v h.1 lt)

-- What store_bytes leaves, where the bytes fit.
abbrev pub put_bytes : Memory → ℕ → List ℕ → Memory
put_bytes mem p [] = mem
put_bytes mem p (b ∷ bs) = put_bytes (set mem p b) (p + 1) bs

pub length-put_bytes :
    (bs : List ℕ) (mem : Memory) (p : ℕ) → length (put_bytes mem p bs) ≡ length mem
length-put_bytes [] mem p = refl
length-put_bytes (b ∷ bs) mem p = length-put_bytes bs (set mem p b) (p + 1) ∙ length-set mem p b

pub store_bytes-put_bytes :
    (bs : List ℕ) (mem : Memory) (p : ℕ)
    → p + length bs ≤ length mem
    → store_bytes mem p bs ≡ done (put_bytes mem p bs)
unfolding store_bytes
store_bytes-put_bytes [] mem p h = refl
store_bytes-put_bytes (b ∷ bs) mem p h =
    let fits : ltb p (length mem) ≡ true = ground arith in
    rw fits (store_bytes-put_bytes bs (set mem p b) (p + 1) (omega (arith, length-set mem p b)))

pub IsBytes-put_bytes :
    (bs : List ℕ) (mem : Memory) (p : ℕ) → IsBytes mem → IsBytes bs → IsBytes (put_bytes mem p bs)
IsBytes-put_bytes [] mem p m h = m
IsBytes-put_bytes (b ∷ bs) mem p m h =
    IsBytes-put_bytes bs (set mem p b) (p + 1) (IsBytes-set mem p b m h.0) h.1

-- Bytes in front of those stored are left, and those stored are read.
pub byte_at-before :
    (bs : List ℕ) (mem : Memory) (p q : ℕ) → q < p → byte_at (put_bytes mem p bs) q ≡ byte_at mem q
byte_at-before [] mem p q lt = refl
byte_at-before (b ∷ bs) mem p q lt =
    byte_at-before bs (set mem p b) (p + 1) q (omega arith)
    ∙ get_or-set_ne mem p q b 0 (λ e. absurd (omega arith))

pub byte_at-put_bytes :
    (bs : List ℕ) (mem : Memory) (p i : ℕ)
    → i < length bs
    → p + length bs ≤ length mem
    → byte_at (put_bytes mem p bs) (p + i) ≡ get_or bs i 0
byte_at-put_bytes [] mem p i lt h = absurd (omega arith)
byte_at-put_bytes (b ∷ bs) mem p zero lt h =
    let first : p + 0 ≡ p = omega arith in
    rw first (
      byte_at-before bs (set mem p b) (p + 1) p (omega arith)
      ∙ get_or-set_self mem p b 0 (omega arith))
byte_at-put_bytes (b ∷ bs) mem p (suc i) lt h =
    let next : p + suc i ≡ p + 1 + i = omega arith in
    rw next (
      byte_at-put_bytes bs (set mem p b) (p + 1) i (omega arith)
        (omega (arith, length-set mem p b)))
