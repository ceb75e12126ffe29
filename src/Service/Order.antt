-- ===== src/Service/Order.antt =====
-- The order of the services: by protocol, port and name, which is that of `wcscmp` on keys.
use Prim.Native.Nat.{Ordering}
use omphalos.Base.{ℕ, ◌≡◌, refl, arith, List, [], ◌∷◌}
use omphalos.Service.{L4Srv, wcscmp, known, linked, keep, walk}

abbrev pub key : L4Srv → List ℕ
key s = s.proto ∷ s.port ∷ s.srv

abbrev pub flip : Ordering → Ordering
flip Ordering.lt = Ordering.gt
flip Ordering.eq = Ordering.eq
flip Ordering.gt = Ordering.lt

pub wcscmp_refl : (s : List ℕ) → wcscmp s s ≡ Ordering.eq
wcscmp_refl [] = refl
wcscmp_refl (x ∷ s) = ground (arith, wcscmp_refl s)

pub wcscmp_eq : (s t : List ℕ) → wcscmp s t ≡ Ordering.eq → s ≡ t
wcscmp_eq [] [] e = refl
wcscmp_eq [] (y ∷ t) e = absurd (grind arith)
wcscmp_eq (x ∷ s) [] e = absurd (grind arith)
wcscmp_eq (x ∷ s) (y ∷ t) e = grind (arith, wcscmp_eq s t)

pub wcscmp-flip : (s t : List ℕ) → wcscmp t s ≡ flip (wcscmp s t)
wcscmp-flip [] [] = refl
wcscmp-flip [] (y ∷ t) = refl
wcscmp-flip (x ∷ s) [] = refl
wcscmp-flip (x ∷ s) (y ∷ t) = grind (arith, wcscmp-flip s t)

pub wcscmp_trans :
    (s t u : List ℕ)
    → wcscmp s t ≡ Ordering.lt
    → wcscmp t u ≡ Ordering.lt
    → wcscmp s u ≡ Ordering.lt
wcscmp_trans [] [] [] d e = d
wcscmp_trans [] (y ∷ t) [] d e = absurd (grind arith)
wcscmp_trans [] t (z ∷ u) d e = refl
wcscmp_trans (x ∷ s) [] u d e = absurd (grind arith)
wcscmp_trans (x ∷ s) (y ∷ t) [] d e = absurd (grind arith)
wcscmp_trans (x ∷ s) (y ∷ t) (z ∷ u) d e = grind (arith, wcscmp_trans s t u)

-- The tests of the loop compare the keys.
pub walk-key :
    (cur : L4Srv) (rest : List L4Srv) (new : L4Srv)
    → walk (cur ∷ rest) new ≡ elim (wcscmp (key cur) (key new)) [
      | Ordering.eq ↦ known
      | Ordering.gt ↦ linked (new ∷ cur ∷ rest)
      | Ordering.lt ↦ keep cur (walk rest new)
    ]
unfolding walk
walk-key cur rest new = grind arith
