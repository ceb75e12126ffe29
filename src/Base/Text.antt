-- ===== src/Base/Text.antt =====
-- Texts of the source as lists of their characters.
use Prim.Native.Nat.{ℕ}
use Prim.Native.Char.{code}
use Prim.Native.String.{String, [], ◌∷◌}
use mathlib.Core.List.{List, [], ◌∷◌}

unfoldable pub wide : String → List ℕ
wide [] = []
wide (c ∷ s) = code c ∷ wide s
