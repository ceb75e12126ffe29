-- ===== src/Base/Ends.antt =====
-- Total correctness of code that reads memory or loops: that it ends with a result, of which a
-- postcondition holds. One rule for each construct takes a proof through the code.
use Prim.Native.Nat.{ℕ, ◌+◌, ◌≤◌, ◌<◌}
use mathlib.Core.Path.{◌≡◌, refl}
use mathlib.Core.Bool.{Bool, true, false}
use mathlib.Core.List.{List}
use mathlib.Core.Option.{Option, none, some}
use native.Mathlib.Omega.{arith}
use omphalos.Base.Tests.{if◌then◌else◌}
use omphalos.Base.Lists.{length}
use omphalos.Base.Bytes.{
  Outcome, done, abort, out_of_fuel, ◌>>=◌, Memory, load8, load16, load16_net, load_bytes, byte_at,
  word_at, net_word_at, bytes_at, load8-done, load16-done, load16_net-done, load_bytes-done,
}

-- The run ends with a result that has the property.
pub record Ends {ℓ κ} {A : Type ℓ} (P : A → Type κ) (run : Outcome A) : Type (ℓ ⊔ κ) where
  pub result : A
  pub runs : run ≡ done result
  pub holds : P result

module _ {ℓ κ} {A : Type ℓ} {P : A → Type κ} where
  pub Ends-done : {a : A} → P a → Ends P (done a)
  Ends-done {a} h = record { result = a; runs = refl; holds = h }

  pub Ends-bind {μ ν} :
      {B : Type μ} {Q : B → Type ν} {m : Outcome A} {f : A → Outcome B}
      → Ends P m
      → ((a : A) → P a → Ends Q (f a))
      → Ends Q (m >>= f)
  Ends-bind e k =
      let next = k e.result e.holds in
      record { result = next.result; runs = rw e.runs next.runs; holds = next.holds }

  pub Ends-if :
      (b : Bool) {x y : Outcome A}
      → (b ≡ true → Ends P x)
      → (b ≡ false → Ends P y)
      → Ends P (if b then x else y)
  Ends-if true t e = t refl
  Ends-if false t e = e refl

  pub Ends-load8 :
      (mem : Memory) (p : ℕ) {f : ℕ → Outcome A}
      → p < length mem
      → ((b : ℕ) → b ≡ byte_at mem p → Ends P (f b))
      → Ends P (load8 mem p >>= f)
  Ends-load8 mem p h k = rw (load8-done mem p h) (k (byte_at mem p) refl)

  pub Ends-load16 :
      (mem : Memory) (p : ℕ) {f : ℕ → Outcome A}
      → p + 1 < length mem
      → ((w : ℕ) → w ≡ word_at mem p → Ends P (f w))
      → Ends P (load16 mem p >>= f)
  Ends-load16 mem p h k = rw (load16-done mem p h) (k (word_at mem p) refl)

  pub Ends-load16_net :
      (mem : Memory) (p : ℕ) {f : ℕ → Outcome A}
      → p + 1 < length mem
      → ((w : ℕ) → w ≡ net_word_at mem p → Ends P (f w))
      → Ends P (load16_net mem p >>= f)
  Ends-load16_net mem p h k = rw (load16_net-done mem p h) (k (net_word_at mem p) refl)

  pub Ends-load_bytes :
      (mem : Memory) (p n : ℕ) {f : List ℕ → Outcome A}
      → p + n ≤ length mem
      → ((bs : List ℕ) → bs ≡ bytes_at mem p n → Ends P (f bs))
      → Ends P (load_bytes mem p n >>= f)
  Ends-load_bytes mem p n h k = rw (load_bytes-done mem p n h) (k (bytes_at mem p n) refl)

-- The rule for what is there or not.
pub Ends-option {ℓ κ μ} :
    {A : Type ℓ} {B : Type κ} {P : B → Type μ} (o : Option A) {x : Outcome B} {f : A → Outcome B}
    → Ends P x
    → ((a : A) → Ends P (f a))
    → Ends P (elim o [ none ↦ x | some a ↦ f a ])
Ends-option none n s = n
Ends-option (some a) n s = s a

-- The run never faults: it ends with a result that has the property, or fails an assertion, or, where
-- `endless` allows it, is not finished.
pub data Stops {ℓ κ} {A : Type ℓ} (endless : Bool) (P : A → Type κ) (run : Outcome A)
    : Type (ℓ ⊔ κ) where
  ends : Ends P run → Stops endless P run
  aborts : run ≡ abort → Stops endless P run
  loops : endless ≡ true → run ≡ out_of_fuel → Stops endless P run

module _ {ℓ κ} {A : Type ℓ} {endless : Bool} {P : A → Type κ} where
  pub Stops-done : {a : A} → P a → Stops endless P (done a)
  Stops-done h = ends (Ends-done h)

  pub Stops-if :
      (b : Bool) {x y : Outcome A}
      → (b ≡ true → Stops endless P x)
      → (b ≡ false → Stops endless P y)
      → Stops endless P (if b then x else y)
  Stops-if true t e = t refl
  Stops-if false t e = e refl

  pub Stops-bind {μ ν} :
      {B : Type μ} {Q : B → Type ν} {m : Outcome A} {f : A → Outcome B}
      → Stops endless P m
      → ((a : A) → P a → Stops endless Q (f a))
      → Stops endless Q (m >>= f)
  Stops-bind (ends e) k = rw e.runs (k e.result e.holds)
  Stops-bind (aborts e) k = aborts (rw e refl)
  Stops-bind (loops l e) k = loops l (rw e refl)

  pub Stops-load8 :
      (mem : Memory) (p : ℕ) {f : ℕ → Outcome A}
      → p < length mem
      → ((b : ℕ) → b ≡ byte_at mem p → Stops endless P (f b))
      → Stops endless P (load8 mem p >>= f)
  Stops-load8 mem p h k = rw (load8-done mem p h) (k (byte_at mem p) refl)

  pub Stops-load16 :
      (mem : Memory) (p : ℕ) {f : ℕ → Outcome A}
      → p + 1 < length mem
      → ((w : ℕ) → w ≡ word_at mem p → Stops endless P (f w))
      → Stops endless P (load16 mem p >>= f)
  Stops-load16 mem p h k = rw (load16-done mem p h) (k (word_at mem p) refl)

  pub Stops-load16_net :
      (mem : Memory) (p : ℕ) {f : ℕ → Outcome A}
      → p + 1 < length mem
      → ((w : ℕ) → w ≡ net_word_at mem p → Stops endless P (f w))
      → Stops endless P (load16_net mem p >>= f)
  Stops-load16_net mem p h k = rw (load16_net-done mem p h) (k (net_word_at mem p) refl)

  pub Stops-load_bytes :
      (mem : Memory) (p n : ℕ) {f : List ℕ → Outcome A}
      → p + n ≤ length mem
      → ((bs : List ℕ) → bs ≡ bytes_at mem p n → Stops endless P (f bs))
      → Stops endless P (load_bytes mem p n >>= f)
  Stops-load_bytes mem p n h k = rw (load_bytes-done mem p n h) (k (bytes_at mem p n) refl)

-- A run that ends where loops have to may be one of those that may not.
pub Stops-weaken {ℓ κ} :
    {A : Type ℓ} {P : A → Type κ} {run : Outcome A} (endless : Bool)
    → Stops false P run
    → Stops endless P run
Stops-weaken endless (ends e) = ends e
Stops-weaken endless (aborts e) = aborts e
Stops-weaken endless (loops l e) = absurd (ground arith)
