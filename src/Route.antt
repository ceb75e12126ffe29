-- ===== src/Route.antt =====
-- src/omphalos/route.c: the tables of routes, from the longest to the shortest prefix, how a route
-- that the kernel announces is linked in, and the route that get_router takes for an address. A
-- network address is the list of its 32-bit words, one for IPv4 and four for IPv6, each with the
-- value that `ntohl` gives it. There is one table for each family.
pub mod Mask
mod Table
mod Examples
use omphalos.Base.{
  ℕ, ◌+◌, ◌-◌, ◌*◌, ◌%◌, ◌^◌, bit_and, u32, List, [], ◌∷◌, Option, none, some, Bool, true, false,
  ltb, leb, ◌==◌, ◌&&◌, if◌then◌else◌,
}

-- `src` is none where the family of the source is 0, and `gw` likewise.
pub record Route : Type 0 where
  pub iface : ℕ
  pub dst : List ℕ
  pub src : Option (List ℕ)
  pub gw : Option (List ℕ)
  pub maskbits : ℕ

-- A route goes in front of the first one with a shorter prefix.
pub link : List Route → Route → List Route
link [] r = r ∷ []
link (p ∷ prev) r =
    let rest = link prev r in if ltb p.maskbits r.maskbits then r ∷ p ∷ prev else p ∷ rest

-- The source of a route, given to a route behind it.
pub give_source : Route → Route → Route
give_source r p = elim p.src [ none ↦ record p { src = r.src } | some s ↦ p ]

-- The loop over the routes behind the new one; none is the assertion on their prefixes failing.
pub give_sources : Route → List Route → Option (List Route)
give_sources r [] = some []
give_sources r (p ∷ prev) =
    let rest = give_sources r prev in
    if ltb p.maskbits r.maskbits
    then elim rest [ none ↦ none | some ps ↦ some (give_source r p ∷ ps) ]
    else none

-- The part of an IPv4 table from the new route on, where `link` puts it.
pub add_route : List Route → Route → Option (List Route)
add_route [] r = some (r ∷ [])
add_route (p ∷ prev) r =
    let rest = add_route prev r in
    if ltb p.maskbits r.maskbits
    then elim r.src [
      | none ↦ some (r ∷ p ∷ prev)
      | some src ↦ elim (give_sources r (p ∷ prev)) [ none ↦ none | some ps ↦ some (r ∷ ps) ]
    ]
    else elim rest [ none ↦ none | some ps ↦ some (p ∷ ps) ]

-- Word `z` of an address under a mask.
pub mask_word : ℕ → ℕ → ℕ → ℕ
mask_word maskbits z word =
    if ltb (32 * z) maskbits
    then (if leb (32 * (z + 1)) maskbits
        then word
        else bit_and word (u32 ((2 ^ 32 - 1) * 2 ^ (32 - maskbits % 32))))
    else 0

pub masked : ℕ → ℕ → List ℕ → List ℕ
masked maskbits z [] = []
masked maskbits z (word ∷ words) = mask_word maskbits z word ∷ masked maskbits (z + 1) words

pub same_words : List ℕ → List ℕ → Bool
same_words [] [] = true
same_words (x ∷ xs) (y ∷ ys) = (x == y) && same_words xs ys
same_words _ _ = false

pub matches : List ℕ → Route → Bool
matches addr r = same_words (masked r.maskbits 0 addr) r.dst

-- The loop of `get_router`.
pub get_route : List Route → List ℕ → Option Route
get_route [] addr = none
get_route (rt ∷ next) addr =
    let rest = get_route next addr in if matches addr rt then some rt else rest
