-- ===== src/Service/Observe.antt =====
-- `observe_service` as a whole: the list stays in order, and is a map that only grows.
use Prim.Native.Nat.{Ordering}
use omphalos.Base.{
  ℕ, ◌≡◌, refl, ap, sym, ◌∙◌, inl, inr, arith, List, [], ◌∷◌, Option, none, some, Bool, true, false,
  not, Bool-cases, ◌&&◌, if◌then◌else◌,
}
use omphalos.Service.{
  L4Srv, L3Host, Walk, known, linked, keep, walk, new_service, l3_getservices, l3_setservices,
  store, observe_service, wcscmp,
}
use omphalos.Service.Order.{key, flip, wcscmp-flip, walk-key}
use omphalos.Service.Sorted.{
  Sorted, lookup, or_else, or_else-none, Ordering-cases, lookup-Below, lookup-hit, lookup-miss,
  outcome, insert, insert-Sorted, lookup-insert, turned,
}

-- A service is stored where memory can be had and the host takes services.
abbrev pub stores : Bool → L3Host → Bool
stores memory l3 = memory && not l3.nosrvs

-- The service that is announced for a walk.
abbrev added : L4Srv → Walk → Option L4Srv
added new known = none
added new (linked ss) = some new

abbrev pub unless_known : Option L4Srv → L4Srv → Option L4Srv
unless_known none new = some new
unless_known (some s) new = none

added-keep : (new cur : L4Srv) (w : Walk) → added new (keep cur w) ≡ added new w
unfolding keep
added-keep new cur known = refl
added-keep new cur (linked ss) = refl

-- The walk links the service in where its key is not in the list.
added-walk :
    (new : L4Srv) (ss : List L4Srv)
    → Sorted ss
    → added new (walk ss new) ≡ unless_known (lookup (key new) ss) new
unfolding walk
added-walk new [] s = refl
added-walk new (cur ∷ rest) s = elim (Ordering-cases (wcscmp (key cur) (key new))) [
  | inl e ↦
      let passed : wcscmp (key new) (key cur) ≡ Ordering.gt =
        wcscmp-flip (key cur) (key new) ∙ ap flip e in
      ap (added new) {x = walk (cur ∷ rest) new} {y = keep cur (walk rest new)}
        (walk-key cur rest new ∙ rw e refl)
      ∙ added-keep new cur (walk rest new)
      ∙ added-walk new rest s.1
      ∙ ap (λ (o : Option L4Srv). unless_known o new) (sym (lookup-miss (key new) cur rest passed))
  | inr (inl e) ↦
      let same : wcscmp (key new) (key cur) ≡ Ordering.eq =
        wcscmp-flip (key cur) (key new) ∙ ap flip e in
      ap (added new) {x = walk (cur ∷ rest) new} {y = known} (walk-key cur rest new ∙ rw e refl)
      ∙ ap (λ (o : Option L4Srv). unless_known o new) (sym (lookup-hit (key new) cur rest same))
  | inr (inr e) ↦
      let absent = lookup-Below (key new) (cur ∷ rest) (turned new (key cur) (key new) e) s in
      ap (added new) {x = walk (cur ∷ rest) new} {y = linked (new ∷ cur ∷ rest)}
        (walk-key cur rest new ∙ rw e refl)
      ∙ ap (λ (o : Option L4Srv). unless_known o new) (sym absent)
]

module _ (l3 : L3Host) (new : L4Srv) where
  store-refuses : (w : Walk) → l3.nosrvs ≡ true → store l3 new w ≡ (l3, none)
  unfolding store l3_setservices
  store-refuses known e = refl
  store-refuses (linked ss) e = rw e refl

  store-walk :
      (w : Walk)
      → l3.nosrvs ≡ false
      → store l3 new w ≡ (record l3 { services = outcome l3.services w }, added new w)
  unfolding store l3_setservices
  store-walk known e = refl
  store-walk (linked ss) e = rw e refl

module _ (memory : Bool) (l3 : L3Host) (proto port : ℕ) (srv : List ℕ)
    (srvver : Option (List ℕ)) where
  abbrev pub observed : L4Srv
  observed = record { proto = proto; port = port; srv = srv; srvver = srvver }

  -- Nothing is stored without memory, or at a host that takes no services.
  observe_service-refuses :
      stores memory l3 ≡ false → observe_service memory l3 proto port srv srvver ≡ (l3, none)
  unfolding observe_service new_service l3_getservices
  observe_service-refuses e = elim (Bool-cases memory) [
    | inl m ↦
        let refuses : l3.nosrvs ≡ true = grind arith in
        rw (m, observe_service) (store-refuses l3 observed (walk l3.services observed) refuses)
    | inr m ↦ rw (m, observe_service) refl
  ]

  observe_service-stores :
      stores memory l3 ≡ true
      → observe_service memory l3 proto port srv srvver ≡ (
        record l3 { services = insert observed l3.services },
        added observed (walk l3.services observed),
      )
  unfolding observe_service new_service l3_getservices
  observe_service-stores e =
      let m : memory ≡ true = grind arith in
      let takes : l3.nosrvs ≡ false = grind arith in
      rw (m, observe_service) (store-walk l3 observed (walk l3.services observed) takes)

  -- `observe_service` keeps the services of a host in strict order of protocol, port and name,
  -- whether memory can be had or not and whether the host takes services or not.
  pub observe_service-Sorted :
      Sorted l3.services → Sorted (observe_service memory l3 proto port srv srvver).0.services
  observe_service-Sorted s = elim (Bool-cases (stores memory l3)) [
    | inl e ↦ rw (observe_service-stores e) (insert-Sorted observed l3.services s)
    | inr e ↦ rw (observe_service-refuses e) s
  ]

  -- For services in order: a service that was stored is found under its protocol, port and name as
  -- it was before `observe_service`, its version included; behind it the service observed is found
  -- too, where memory can be had and the host takes services, and nothing else is.
  pub lookup-observe_service :
      (k : List ℕ)
      → Sorted l3.services
      → lookup k (observe_service memory l3 proto port srv srvver).0.services
        ≡ or_else
            (lookup k l3.services)
            (if stores memory l3 then lookup k (observed ∷ []) else none)
  lookup-observe_service k s = elim (Bool-cases (stores memory l3)) [
    | inl e ↦ rw (observe_service-stores e, e) (lookup-insert observed k l3.services s)
    | inr e ↦ rw (observe_service-refuses e, e) (sym (or_else-none (lookup k l3.services)))
  ]

  -- For services in order, the callback of the user interface is called with the service observed
  -- exactly where it is stored: memory can be had, the host takes services, and no service with its
  -- protocol, port and name was known.
  pub observe_service-announces :
      Sorted l3.services
      → (observe_service memory l3 proto port srv srvver).1 ≡ (
          if stores memory l3
          then unless_known (lookup (key observed) l3.services) observed
          else none)
  observe_service-announces s = elim (Bool-cases (stores memory l3)) [
    | inl e ↦ rw (observe_service-stores e, e) (added-walk observed l3.services s)
    | inr e ↦ rw (observe_service-refuses e, e) refl
  ]
