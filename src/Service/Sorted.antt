-- ===== src/Service/Sorted.antt =====
-- The services in their order, and the map from keys to services that they stand for.
use Prim.Native.Nat.{Ordering}
use omphalos.Base.{ℕ, ◌≡◌, refl, ap, sym, ◌∙◌, ◌⊎◌, inl, inr, List, [], ◌∷◌, Option, none, some}
use omphalos.Service.{L4Srv, wcscmp, Walk, known, linked, keep, walk}
use omphalos.Service.Order.{key, flip, wcscmp_eq, wcscmp-flip, wcscmp_trans, walk-key}

-- `k` is before the first service.
abbrev pub Below : List ℕ → List L4Srv → Type 0
Below k [] = Unit {0}
Below k (s ∷ ss) = wcscmp k (key s) ≡ Ordering.lt

-- Each service is before the next one: the list is ordered and no key comes twice.
abbrev pub Sorted : List L4Srv → Type 0
Sorted [] = Unit {0}
Sorted (s ∷ ss) = Below (key s) ss × Sorted ss

-- The first service with a key, wherever it stands.
abbrev pub lookup : List ℕ → List L4Srv → Option L4Srv
lookup k [] = none
lookup k (s ∷ ss) = elim (wcscmp k (key s)) [ Ordering.eq ↦ some s | _ ↦ lookup k ss ]

-- Adding to the map what is not there.
abbrev pub or_else : Option L4Srv → Option L4Srv → Option L4Srv
or_else none t = t
or_else (some s) t = some s

pub or_else-none : (s : Option L4Srv) → or_else s none ≡ s
or_else-none none = refl
or_else-none (some s) = refl

pub Ordering-cases : (o : Ordering) → (o ≡ Ordering.lt) ⊎ (o ≡ Ordering.eq) ⊎ (o ≡ Ordering.gt)
Ordering-cases Ordering.lt = inl refl
Ordering-cases Ordering.eq = inr (inl refl)
Ordering-cases Ordering.gt = inr (inr refl)

pub lookup-Below : (k : List ℕ) (ss : List L4Srv) → Below k ss → Sorted ss → lookup k ss ≡ none
lookup-Below k [] b s = refl
lookup-Below k (x ∷ []) b s = rw (b, lookup) refl
lookup-Below k (x ∷ y ∷ ss) b s =
    rw (b, lookup) (lookup-Below k (y ∷ ss) (wcscmp_trans k (key x) (key y) b s.0) s.1)

pub lookup-hit :
    (k : List ℕ) (s : L4Srv) (ss : List L4Srv)
    → wcscmp k (key s) ≡ Ordering.eq
    → lookup k (s ∷ ss) ≡ some s
lookup-hit k s ss e = rw (e, lookup) refl

pub lookup-miss :
    (k : List ℕ) (s : L4Srv) (ss : List L4Srv)
    → wcscmp k (key s) ≡ Ordering.gt
    → lookup k (s ∷ ss) ≡ lookup k ss
lookup-miss k s ss e = rw (e, lookup) refl

-- A service has the key, or is passed over.
pub lookup-cases :
    (k : List ℕ) (s : L4Srv)
    → (wcscmp k (key s) ≡ Ordering.eq) ⊎ ((ss : List L4Srv) → lookup k (s ∷ ss) ≡ lookup k ss)
lookup-cases k s = elim (Ordering-cases (wcscmp k (key s))) [
  | inl e ↦ inr (λ ss. rw (e, lookup) refl)
  | inr (inl e) ↦ inl e
  | inr (inr e) ↦ inr (λ ss. rw (e, lookup) refl)
]

-- What the walk makes of a list.
abbrev pub outcome : List L4Srv → Walk → List L4Srv
outcome ss known = ss
outcome ss (linked new) = new

module _ (new : L4Srv) where
  abbrev pub insert : List L4Srv → List L4Srv
  insert ss = outcome ss (walk ss new)

  outcome-keep :
      (cur : L4Srv) (rest : List L4Srv) (w : Walk)
      → outcome (cur ∷ rest) (keep cur w) ≡ cur ∷ outcome rest w
  unfolding keep
  outcome-keep cur rest known = refl
  outcome-keep cur rest (linked next) = refl

  insert-behind :
      (cur : L4Srv) (rest : List L4Srv)
      → wcscmp (key cur) (key new) ≡ Ordering.lt
      → insert (cur ∷ rest) ≡ cur ∷ insert rest
  insert-behind cur rest e =
      ap (outcome (cur ∷ rest)) {x = walk (cur ∷ rest) new} {y = keep cur (walk rest new)}
        (walk-key cur rest new ∙ rw e refl)
      ∙ outcome-keep cur rest (walk rest new)

  insert-same :
      (cur : L4Srv) (rest : List L4Srv)
      → wcscmp (key cur) (key new) ≡ Ordering.eq
      → insert (cur ∷ rest) ≡ cur ∷ rest
  insert-same cur rest e =
      ap (outcome (cur ∷ rest)) {x = walk (cur ∷ rest) new} {y = known}
        (walk-key cur rest new ∙ rw e refl)

  insert-before :
      (cur : L4Srv) (rest : List L4Srv)
      → wcscmp (key cur) (key new) ≡ Ordering.gt
      → insert (cur ∷ rest) ≡ new ∷ cur ∷ rest
  insert-before cur rest e =
      ap (outcome (cur ∷ rest)) {x = walk (cur ∷ rest) new} {y = linked (new ∷ cur ∷ rest)}
        (walk-key cur rest new ∙ rw e refl)

  pub turned : (s t : List ℕ) → wcscmp s t ≡ Ordering.gt → wcscmp t s ≡ Ordering.lt
  turned s t e = wcscmp-flip s t ∙ ap flip e

  -- A key in front of the list and of the new service stays in front.
  insert-Below :
      (k : List ℕ) (ss : List L4Srv)
      → Below k ss
      → wcscmp k (key new) ≡ Ordering.lt
      → Below k (insert ss)
  unfolding walk
  insert-Below k [] b d = d
  insert-Below k (cur ∷ rest) b d = elim (Ordering-cases (wcscmp (key cur) (key new))) [
    | inl e ↦ rw (insert-behind cur rest e) b
    | inr (inl e) ↦ rw (insert-same cur rest e) b
    | inr (inr e) ↦ rw (insert-before cur rest e) d
  ]

  pub insert-Sorted : (ss : List L4Srv) → Sorted ss → Sorted (insert ss)
  unfolding walk
  insert-Sorted [] s = (tt, tt)
  insert-Sorted (cur ∷ rest) s = elim (Ordering-cases (wcscmp (key cur) (key new))) [
    | inl e ↦
        rw (insert-behind cur rest e) (insert-Below (key cur) rest s.0 e, insert-Sorted rest s.1)
    | inr (inl e) ↦ rw (insert-same cur rest e) s
    | inr (inr e) ↦ rw (insert-before cur rest e) (turned (key cur) (key new) e, s)
  ]

  -- The new service is found under its key, unless one was known.
  pub lookup-insert :
      (k : List ℕ) (ss : List L4Srv)
      → Sorted ss
      → lookup k (insert ss) ≡ or_else (lookup k ss) (lookup k (new ∷ []))
  unfolding walk
  lookup-insert k [] s = refl
  lookup-insert k (cur ∷ rest) s = elim (Ordering-cases (wcscmp (key cur) (key new))) [
    | inl e ↦ rw (insert-behind cur rest e) (elim (lookup-cases k cur) [
      | inl c ↦ rw (lookup-hit k cur (insert rest) c, lookup-hit k cur rest c) refl
      | inr skip ↦ rw (skip (insert rest), skip rest) (lookup-insert k rest s.1)
    ])
    | inr (inl e) ↦ rw (insert-same cur rest e) (elim (lookup-cases k new) [
      | inl c ↦
          let same = rw (← wcscmp_eq (key cur) (key new) e) at c in
          rw (lookup-hit k cur rest same) refl
      | inr skip ↦ rw (skip []) (sym (or_else-none (lookup k (cur ∷ rest))))
    ])
    | inr (inr e) ↦ rw (insert-before cur rest e) (elim (lookup-cases k new) [
      | inl c ↦
          let absent = lookup-Below (key new) (cur ∷ rest) (turned (key cur) (key new) e) s in
          let here = wcscmp_eq k (key new) c in
          rw
            (
              lookup-hit k new (cur ∷ rest) c,
              ap (λ (j : List ℕ). lookup j (cur ∷ rest)) here ∙ absent,
              lookup-hit k new [] c,
            )
            refl
      | inr skip ↦ rw (skip (cur ∷ rest), skip []) (sym (or_else-none (lookup k (cur ∷ rest))))
    ])
  ]
