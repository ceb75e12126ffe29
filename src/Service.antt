-- ===== src/Service.antt =====
-- src/omphalos/service.c: the services seen at a host, an ordered list without duplicates, and the
-- two functions of src/omphalos/netaddrs.c that hold the list. Memory is allocated or not as an
-- argument says, and the callback of the user interface is the service that it is called with.
mod Order
mod Sorted
mod Observe
mod Examples
use Prim.Native.Nat.{Ordering, compare}
use omphalos.Base.{
  ℕ, List, [], ◌∷◌, Option, none, some, Bool, true, false, ltb, ◌==◌, if◌then◌else◌,
}

pub record L4Srv : Type 0 where
  pub proto : ℕ
  pub port : ℕ
  pub srv : List ℕ
  pub srvver : Option (List ℕ)

-- The part of a host that the services are about.
pub record L3Host : Type 0 where
  pub services : List L4Srv
  pub nosrvs : Bool

abbrev pub or_then : Ordering → Ordering → Ordering
or_then Ordering.lt o = Ordering.lt
or_then Ordering.eq o = o
or_then Ordering.gt o = Ordering.gt

-- `wcscmp` of wide strings without their NUL.
abbrev pub wcscmp : List ℕ → List ℕ → Ordering
wcscmp [] [] = Ordering.eq
wcscmp [] (y ∷ t) = Ordering.lt
wcscmp (x ∷ s) [] = Ordering.gt
wcscmp (x ∷ s) (y ∷ t) = or_then (compare x y) (wcscmp s t)

-- What the walk of `observe_service` finds: the service, or the list with `new` linked in.
pub data Walk : Type 0 where
  known : Walk
  linked : List L4Srv → Walk

pub keep : L4Srv → Walk → Walk
keep cur known = known
keep cur (linked rest) = linked (cur ∷ rest)

-- The loop over the list.
pub walk : List L4Srv → L4Srv → Walk
walk [] new = linked (new ∷ [])
walk (cur ∷ rest) new =
    let next = keep cur (walk rest new) in
    let here = linked (new ∷ cur ∷ rest) in
    if ltb new.proto cur.proto
    then here
    else if cur.proto == new.proto
    then (if ltb new.port cur.port
        then here
        else if cur.port == new.port
        then elim (wcscmp cur.srv new.srv) [
          | Ordering.eq ↦ known
          | Ordering.gt ↦ here
          | Ordering.lt ↦ next
        ]
        else next)
    else next

pub new_service : Bool → ℕ → ℕ → List ℕ → Option (List ℕ) → Option L4Srv
new_service memory proto port srv srvver =
    if memory
    then some (record { proto = proto; port = port; srv = srv; srvver = srvver })
    else none

pub l3_getservices : L3Host → List L4Srv
l3_getservices l3 = l3.services

pub l3_setservices : L3Host → List L4Srv → Option L3Host
l3_setservices l3 l4 = if l3.nosrvs then none else some (record l3 { services = l4 })

-- Storing the list with `new`. A host that takes no services is left as it was: `new` is unlinked.
pub store : L3Host → L4Srv → Walk → L3Host × Option L4Srv
store l3 new known = (l3, none)
store l3 new (linked services) = elim (l3_setservices l3 services) [
  | none ↦ (l3, none)
  | some l3 ↦ (l3, some new)
]

-- The host, and the service for which the user interface is called. The service is allocated behind
-- the walk in the source, which depends on its key only.
pub observe_service : Bool → L3Host → ℕ → ℕ → List ℕ → Option (List ℕ) → L3Host × Option L4Srv
observe_service memory l3 proto port srv srvver = elim (new_service memory proto port srv srvver) [
  | none ↦ (l3, none)
  | some new ↦ store l3 new (walk (l3_getservices l3) new)
]
