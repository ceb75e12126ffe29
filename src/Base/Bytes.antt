-- ===== src/Base/Bytes.antt =====
-- Bytes in memory, loads from them, and the outcome of code that reads memory or loops.
use Prim.Native.Nat.{ℕ, zero, suc, ◌+◌, ◌-◌, ◌*◌, ◌/◌, ◌%◌, ◌^◌, ◌<◌, ◌≤◌}
use mathlib.Core.Path.{◌≡◌, refl, ap}
use mathlib.Core.List.{List, [], ◌∷◌}
use mathlib.Core.Logic.{inl, inr}
use mathlib.Core.Option.{Option, none, some}
use native.Mathlib.Omega.{arith}
use omphalos.Base.Tests.{ltb, if◌then◌else◌, Bool-cases}
use omphalos.Base.Lists.{set, length, get_elem?, get_or, get_elem?-eq-get_or, get_elem?-ge}

abbrev pub u8 : ℕ → ℕ
u8 n = n % 2 ^ 8

abbrev pub u16 : ℕ → ℕ
u16 n = n % 2 ^ 16

abbrev pub u32 : ℕ → ℕ
u32 n = n % 2 ^ 32

abbrev pub u64 : ℕ → ℕ
u64 n = n % 2 ^ 64

-- `~x` on 32 bits.
abbrev pub not32 : ℕ → ℕ
not32 x = 2 ^ 32 - 1 - x

-- The other byte order of a 16-bit word: `ntohs` and `htons` on a little-endian host.
abbrev pub swap16 : ℕ → ℕ
swap16 x = x % 256 * 256 + x / 256 % 256

-- `fault` is an access outside the memory given, which C leaves undefined, `abort` an assertion that
-- fails, and `out_of_fuel` a loop or recursion that was not finished in the rounds allowed.
pub data Outcome {ℓ} (A : Type ℓ) : Type ℓ where
  done : A → Outcome A
  fault abort out_of_fuel : Outcome A

infixl 5 ◌>>=◌ ◌>>◌
abbrev pub ◌>>=◌ {ℓ κ} : {A : Type ℓ} {B : Type κ} → Outcome A → (A → Outcome B) → Outcome B
done a >>= f = f a
fault >>= f = fault
abort >>= f = abort
out_of_fuel >>= f = out_of_fuel

abbrev pub ◌>>◌ {ℓ κ} : {A : Type ℓ} {B : Type κ} → Outcome A → Outcome B → Outcome B
m >> k = m >>= λ _. k

-- The bytes that may be read, from address 0 on.
abbrev pub Memory : Type 0
Memory = List ℕ

abbrev pub IsBytes : Memory → Type 0
IsBytes [] = Unit {0}
IsBytes (b ∷ bs) = (b < 256) × IsBytes bs

abbrev pub byte_at : Memory → ℕ → ℕ
byte_at mem p = get_or mem p 0

abbrev pub word_at : Memory → ℕ → ℕ
word_at mem p = byte_at mem p + 256 * byte_at mem (p + 1)

abbrev pub net_word_at : Memory → ℕ → ℕ
net_word_at mem p = 256 * byte_at mem p + byte_at mem (p + 1)

abbrev pub bytes_at : Memory → ℕ → ℕ → List ℕ
bytes_at mem p zero = []
bytes_at mem p (suc n) = byte_at mem p ∷ bytes_at mem (p + 1) n

abbrev some_or_fault : Option ℕ → Outcome ℕ
some_or_fault none = fault
some_or_fault (some b) = done b

unfoldable pub load8 : Memory → ℕ → Outcome ℕ
load8 mem p = some_or_fault (get_elem? mem p)

-- A 16-bit load in the order of a little-endian host.
unfoldable pub load16 : Memory → ℕ → Outcome ℕ
unfolding load8
load16 mem p = do lo ← load8 mem p; hi ← load8 mem (p + 1); done (lo + 256 * hi)

-- A 16-bit load in network order: `ntohs` of the word.
unfoldable pub load16_net : Memory → ℕ → Outcome ℕ
unfolding load8
load16_net mem p = do hi ← load8 mem p; lo ← load8 mem (p + 1); done (256 * hi + lo)

-- `memcpy` of `n` bytes.
unfoldable pub load_bytes : Memory → ℕ → ℕ → Outcome (List ℕ)
load_bytes mem p zero = done []
load_bytes mem p (suc n) = do b ← load8 mem p; bs ← load_bytes mem (p + 1) n; done (b ∷ bs)

-- Storing a 16-bit word in the order of a little-endian host.
unfoldable pub store16 : Memory → ℕ → ℕ → Memory
store16 mem p v = set (set mem p (v % 256)) (p + 1) (v / 256)

-- `memcpy` to memory.
unfoldable pub store_bytes : Memory → ℕ → List ℕ → Outcome Memory
store_bytes mem p [] = done mem
store_bytes mem p (b ∷ bs) =
    let rest = store_bytes (set mem p b) (p + 1) bs in if ltb p (length mem) then rest else fault

pub load8-done : (mem : Memory) (p : ℕ) → p < length mem → load8 mem p ≡ done (byte_at mem p)
unfolding load8
load8-done mem p h = ap some_or_fault (get_elem?-eq-get_or mem p 0 h)

pub load8_fault : (mem : Memory) (p : ℕ) → length mem ≤ p → load8 mem p ≡ fault
unfolding load8
load8_fault mem p h = rw (get_elem?-ge mem p h) refl

pub load16-done : (mem : Memory) (p : ℕ) → p + 1 < length mem → load16 mem p ≡ done (word_at mem p)
unfolding load16
load16-done mem p h = ground (arith, get_elem?-eq-get_or mem p 0, get_elem?-eq-get_or mem (p + 1) 0)

pub byte_at-lt : (mem : Memory) (p : ℕ) → IsBytes mem → byte_at mem p < 256
byte_at-lt [] p h = omega arith
byte_at-lt (b ∷ bs) zero h = h.0
byte_at-lt (b ∷ bs) (suc p) h = byte_at-lt bs p h.1

pub load16_net-done :
    (mem : Memory) (p : ℕ) → p + 1 < length mem → load16_net mem p ≡ done (net_word_at mem p)
unfolding load16_net
load16_net-done mem p h =
    ground (arith, get_elem?-eq-get_or mem p 0, get_elem?-eq-get_or mem (p + 1) 0)

pub load_bytes-done :
    (mem : Memory) (p n : ℕ) → p + n ≤ length mem → load_bytes mem p n ≡ done (bytes_at mem p n)
unfolding load_bytes
load_bytes-done mem p zero h = refl
load_bytes-done mem p (suc n) h =
    rw (load8-done mem p (omega arith), load_bytes-done mem (p + 1) n (omega arith)) refl

pub load_bytes_fault :
    (mem : Memory) (p n : ℕ) → p ≤ length mem → length mem < p + n → load_bytes mem p n ≡ fault
unfolding load_bytes
load_bytes_fault mem p zero inside short = absurd (omega arith)
load_bytes_fault mem p (suc n) inside short = elim (Bool-cases (ltb p (length mem))) [
  | inr out ↦ rw (load8_fault mem p (ground arith)) refl
  | inl more ↦
      let below : p < length mem = ground arith in
      rw (load8-done mem p below, load_bytes_fault mem (p + 1) n (omega arith) (omega arith)) refl
]
