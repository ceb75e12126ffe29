-- ===== src/Packet/Within.antt =====
-- Analyzers that stay within a slice of the memory, and tables of them.
use omphalos.Base.{
  ℕ, ◌+◌, ◌≤◌, arith, List, [], ◌∷◌, ◌++◌, Bool, true, false, ◌==◌, if◌then◌else◌, Memory, length,
  IsBytes,
}
use omphalos.Base.Ends.{Ends, Stops, ends}
use omphalos.Packet.{Packet, Analyzer, IsValid, switch}

-- On the slices of memory from `lo` to `hi` the analyzer stops with a valid packet.
abbrev pub StopsWithin : Bool → Memory → ℕ → ℕ → Analyzer → Type 0
StopsWithin endless mem lo hi analyze =
    (frame len : ℕ) (op : Packet)
    → lo ≤ frame
    → frame + len ≤ hi
    → IsValid op
    → Stops endless IsValid (analyze mem frame len op)

-- All analyzers of a table stop well on the slices.
abbrev pub EachWithin : Bool → Memory → ℕ → ℕ → List (ℕ × Analyzer) → Type 0
EachWithin endless mem lo hi [] = Unit
EachWithin endless mem lo hi ((k, analyze) ∷ cases) =
    StopsWithin endless mem lo hi analyze × EachWithin endless mem lo hi cases

module _ (endless : Bool) (mem : Memory) (lo hi : ℕ) where
  pub if-StopsWithin :
      (b : Bool) (x y : Analyzer)
      → StopsWithin endless mem lo hi x
      → StopsWithin endless mem lo hi y
      → StopsWithin endless mem lo hi (if b then x else y)
  if-StopsWithin true x y h d = h
  if-StopsWithin false x y h d = d

  pub switch-StopsWithin :
      (v : ℕ) (cases : List (ℕ × Analyzer)) (default : Analyzer)
      → EachWithin endless mem lo hi cases
      → StopsWithin endless mem lo hi default
      → StopsWithin endless mem lo hi (switch v cases default)
  unfolding switch
  switch-StopsWithin v [] default h d = d
  switch-StopsWithin v ((k, a) ∷ cases) default h d =
      if-StopsWithin (v == k) a _ h.0 (switch-StopsWithin v cases default h.1 d)

  pub StopsWithin-Ends :
      (analyze : Analyzer)
      → hi ≤ length mem
      → IsBytes mem
      → ((frame len : ℕ) (op : Packet)
          → IsBytes mem
          → frame + len ≤ length mem
          → IsValid op
          → Ends IsValid (analyze mem frame len op))
      → StopsWithin endless mem lo hi analyze
  StopsWithin-Ends analyze inside bytes each frame len op above below valid =
      ends (each frame len op bytes (omega arith) valid)

  -- Tables one behind the other.
  pub append-EachWithin :
      (cases others : List (ℕ × Analyzer))
      → EachWithin endless mem lo hi cases
      → EachWithin endless mem lo hi others
      → EachWithin endless mem lo hi (cases ++ others)
  append-EachWithin [] others h o = o
  append-EachWithin ((k, a) ∷ cases) others h o = (h.0, append-EachWithin cases others h.1 o)

-- On a part of the slice the analyzers stop as well.
pub narrow :
    (endless : Bool) (mem : Memory) (lo hi inner_lo inner_hi : ℕ) (analyze : Analyzer)
    → lo ≤ inner_lo
    → inner_hi ≤ hi
    → StopsWithin endless mem lo hi analyze
    → StopsWithin endless mem inner_lo inner_hi analyze
narrow endless mem lo hi inner_lo inner_hi analyze l h within frame len op above below =
    within frame len op (omega arith) (omega arith)

pub narrow-EachWithin :
    (endless : Bool) (mem : Memory) (lo hi inner_lo inner_hi : ℕ) (cases : List (ℕ × Analyzer))
    → lo ≤ inner_lo
    → inner_hi ≤ hi
    → EachWithin endless mem lo hi cases
    → EachWithin endless mem inner_lo inner_hi cases
narrow-EachWithin endless mem lo hi inner_lo inner_hi [] l h each = tt
narrow-EachWithin endless mem lo hi inner_lo inner_hi ((k, a) ∷ cases) l h each = (
  narrow endless mem lo hi inner_lo inner_hi a l h each.0,
  narrow-EachWithin endless mem lo hi inner_lo inner_hi cases l h each.1,
)
