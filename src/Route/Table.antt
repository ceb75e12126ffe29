-- ===== src/Route/Table.antt =====
-- The table stays ordered by the lengths of its prefixes, and the first match is the longest.
use omphalos.Base.{
  ℕ, ◌<◌, ◌≤◌, ◌≡◌, ◌⊎◌, refl, sym, inl, inr, arith, List, [], ◌∷◌, Option, none, some, true, false,
  Bool-cases, map, ltb,
}
use omphalos.Route.{Route, link, give_source, give_sources, add_route, matches, get_route}

-- No prefix is longer than one before it.
abbrev pub AtMost : ℕ → List Route → Type 0
AtMost n [] = Unit {0}
AtMost n (r ∷ rs) = (r.maskbits ≤ n) × AtMost n rs

abbrev pub Ordered : List Route → Type 0
Ordered [] = Unit {0}
Ordered (r ∷ rs) = AtMost r.maskbits rs × Ordered rs

AtMost-le : (n m : ℕ) (rs : List Route) → n ≤ m → AtMost n rs → AtMost m rs
AtMost-le n m [] h a = a
AtMost-le n m (r ∷ rs) h a = (omega (arith, a.0), AtMost-le n m rs h a.1)

-- A source is filled in, and the prefix stays.
give_source-maskbits : (r p : Route) → (give_source r p).maskbits ≡ p.maskbits
unfolding give_source
give_source-maskbits r p = filled p.src
  where
    filled :
        (o : Option (List ℕ))
        → (elim o as (λ _. Route) [ none ↦ record p { src = r.src } | some s ↦ p ]).maskbits
          ≡ p.maskbits
    filled none = refl
    filled (some s) = refl

AtMost-map : (r : Route) (n : ℕ) (rs : List Route) → AtMost n rs → AtMost n (map (give_source r) rs)
AtMost-map r n [] a = a
AtMost-map r n (p ∷ rs) a = (omega (arith, a.0, give_source-maskbits r p), AtMost-map r n rs a.1)

Ordered-map : (r : Route) (rs : List Route) → Ordered rs → Ordered (map (give_source r) rs)
Ordered-map r [] o = o
Ordered-map r (p ∷ rs) o = (
  AtMost-map r (give_source r p).maskbits rs (rw (give_source-maskbits r p) o.0),
  Ordered-map r rs o.1,
)

give_sources-done :
    (r : Route) (n : ℕ) (rs : List Route)
    → AtMost n rs
    → n < r.maskbits
    → give_sources r rs ≡ some (map (give_source r) rs)
unfolding give_sources
give_sources-done r n [] a h = refl
give_sources-done r n (p ∷ rs) a h =
    let shorter : ltb p.maskbits r.maskbits ≡ true = ground (arith, a.0) in
    rw (shorter, give_sources-done r n rs a.1 h) refl

-- A source, or another where there is none.
abbrev source_or : Option (List ℕ) → Option (List ℕ) → Option (List ℕ)
source_or other none = other
source_or other (some s) = some s

-- A route as it is behind a new one: with the source of the new one where it has none.
abbrev Sourced : Route → Route → Route → Type 0
Sourced r p p' =
    (p'.iface ≡ p.iface)
    × (p'.dst ≡ p.dst)
    × (p'.gw ≡ p.gw)
    × (p'.maskbits ≡ p.maskbits)
    × (p'.src ≡ source_or r.src p.src)

abbrev AllSourced : Route → List Route → List Route → Type 0
AllSourced r [] [] = Unit {0}
AllSourced r (p ∷ ps) (p' ∷ ps') = Sourced r p p' × AllSourced r ps ps'
AllSourced r _ _ = ⊥

abbrev AllShorter : ℕ → List Route → Type 0
AllShorter n [] = Unit {0}
AllShorter n (p ∷ rs) = (p.maskbits < n) × AllShorter n rs

-- The new route in a table: behind the routes that are not shorter, which stay as they were, and in
-- front of all the others, each of which is kept.
pub data Inserted (r : Route) : List Route → List Route → Type 0 where
  in_place :
      (rs rs' : List Route)
      → AllShorter r.maskbits rs
      → AllSourced r rs rs'
      → Inserted r rs (r ∷ rs')
  later :
      (p : Route) (rs table : List Route)
      → r.maskbits ≤ p.maskbits
      → Inserted r rs table
      → Inserted r (p ∷ rs) (p ∷ table)

AtMost-AllShorter : (n m : ℕ) (rs : List Route) → n < m → AtMost n rs → AllShorter m rs
AtMost-AllShorter n m [] h a = tt
AtMost-AllShorter n m (p ∷ rs) h a = (omega (arith, a.0), AtMost-AllShorter n m rs h a.1)

kept_source : (r : Route) (o : Option (List ℕ)) → r.src ≡ none → o ≡ source_or r.src o
kept_source r none e = sym e
kept_source r (some s) e = refl

AllSourced-refl : (r : Route) (rs : List Route) → r.src ≡ none → AllSourced r rs rs
AllSourced-refl r [] e = tt
AllSourced-refl r (p ∷ rs) e =
    ((refl, refl, refl, refl, kept_source r p.src e), AllSourced-refl r rs e)

give_source-Sourced : (r p : Route) → Sourced r p (give_source r p)
unfolding give_source
give_source-Sourced r p = by_source p.src refl
  where
    by_source : (o : Option (List ℕ)) → p.src ≡ o → Sourced r p (give_source r p)
    by_source none e = rw e (refl, refl, refl, refl, refl)
    by_source (some s) e = rw e (refl, refl, refl, refl, refl)

AllSourced-map : (r : Route) (rs : List Route) → AllSourced r rs (map (give_source r) rs)
AllSourced-map r [] = tt
AllSourced-map r (p ∷ rs) = (give_source-Sourced r p, AllSourced-map r rs)

-- What adding a route to a table leaves.
pub record Added (rs : List Route) (r : Route) : Type 0 where
  pub table : List Route
  pub result : add_route rs r ≡ some table
  pub inserted : Inserted r rs table
  pub ordered : Ordered table
  pub bounded : (n : ℕ) → AtMost n rs → r.maskbits ≤ n → AtMost n table

module _ (r : Route) (rs : List Route) (n : ℕ) (a : AtMost n rs) (h : n < r.maskbits) where
  -- The routes behind a new one, with a source where it has one.
  abbrev sourced : Option (List ℕ) → List Route
  sourced none = rs
  sourced (some src) = map (give_source r) rs

  in_front :
      (src : Option (List ℕ))
      → elim src [
        | none ↦ some (r ∷ rs)
        | some src ↦ elim (give_sources r rs) [ none ↦ none | some ps ↦ some (r ∷ ps) ]
      ]
        ≡ some (r ∷ sourced src)
  in_front none = refl
  in_front (some src) = rw (give_sources-done r n rs a h) refl

  sourced-AtMost : (m : ℕ) (src : Option (List ℕ)) → AtMost m rs → AtMost m (sourced src)
  sourced-AtMost m none b = b
  sourced-AtMost m (some src) b = AtMost-map r m rs b

  sourced-Ordered : (src : Option (List ℕ)) → Ordered rs → Ordered (sourced src)
  sourced-Ordered none o = o
  sourced-Ordered (some src) o = Ordered-map r rs o

  sourced-AllSourced : (src : Option (List ℕ)) → r.src ≡ src → AllSourced r rs (sourced src)
  sourced-AllSourced none e = AllSourced-refl r rs e
  sourced-AllSourced (some src) e = AllSourced-map r rs

-- In an ordered table the assertion of `handle_rtm_newroute` on the prefixes behind the new route
-- holds. The new route is then in the table, behind the routes that are not shorter, which stay as they
-- were, and in front of all the shorter ones, which are kept but for the source of the new route in
-- those that had none; and the table is ordered again.
pub add_route-Ordered : (rs : List Route) (r : Route) → Ordered rs → Added rs r
unfolding add_route
add_route-Ordered [] r o = record {
  table = r ∷ [];
  result = refl;
  inserted = in_place [] [] tt tt;
  ordered = (tt, tt);
  bounded = λ n a h. (h, tt);
}
add_route-Ordered (p ∷ prev) r o = elim (Bool-cases (ltb p.maskbits r.maskbits)) [
  | inl before ↦
      let rs = p ∷ prev in
      let lt : p.maskbits < r.maskbits = ground arith in
      let all : AtMost p.maskbits rs = (omega arith, o.0) in
      let below : AtMost r.maskbits rs = AtMost-le p.maskbits r.maskbits rs (omega arith) all in
      record {
        table = r ∷ sourced r rs p.maskbits all lt r.src;
        result = rw before (in_front r rs p.maskbits all lt r.src);
        inserted =
            in_place rs (sourced r rs p.maskbits all lt r.src)
              (AtMost-AllShorter p.maskbits r.maskbits rs lt all)
              (sourced-AllSourced r rs p.maskbits all lt r.src refl);
        ordered = (
          sourced-AtMost r rs p.maskbits all lt r.maskbits r.src below,
          sourced-Ordered r rs p.maskbits all lt r.src o,
        );
        bounded = λ n a h. (h, sourced-AtMost r rs p.maskbits all lt n r.src a);
      }
  | inr behind ↦
      let rest = add_route-Ordered prev r o.1 in
      record {
        table = p ∷ rest.table;
        result = rw (behind, rest.result) refl;
        inserted = later p prev rest.table (ground arith) rest.inserted;
        ordered = (rest.bounded p.maskbits o.0 (ground arith), rest.ordered);
        bounded = λ n a h. (a.0, rest.bounded n a.1 h);
      }
]

-- A route of the table.
abbrev pub Member : Route → List Route → Type 0
Member r [] = ⊥
Member r (x ∷ rs) = (r ≡ x) ⊎ Member r rs

-- Every route that matches has a prefix of at most `n` bits.
abbrev pub Matching : ℕ → List ℕ → List Route → Type 0
Matching n addr [] = Unit {0}
Matching n addr (r ∷ rs) = (matches addr r ≡ true → r.maskbits ≤ n) × Matching n addr rs

abbrev pub NoMatch : List ℕ → List Route → Type 0
NoMatch addr [] = Unit {0}
NoMatch addr (r ∷ rs) = (matches addr r ≡ false) × NoMatch addr rs

-- A route that matches, with the longest prefix among those that do; or nothing matches.
abbrev pub Longest : List ℕ → List Route → Option Route → Type 0
Longest addr rs none = NoMatch addr rs
Longest addr rs (some r) = (matches addr r ≡ true) × Member r rs × Matching r.maskbits addr rs

AtMost-Matching : (n : ℕ) (addr : List ℕ) (rs : List Route) → AtMost n rs → Matching n addr rs
AtMost-Matching n addr [] a = a
AtMost-Matching n addr (r ∷ rs) a = ((λ _. a.0), AtMost-Matching n addr rs a.1)

Longest-skip :
    (addr : List ℕ) (x : Route) (rs : List Route) (o : Option Route)
    → matches addr x ≡ false
    → Longest addr rs o
    → Longest addr (x ∷ rs) o
Longest-skip addr x rs none miss l = (miss, l)
Longest-skip addr x rs (some r) miss l = (l.0, inr l.1, ((λ hit. absurd (grind arith)), l.2))

-- In an ordered table, the loop of `get_router` takes a route that matches the address and whose
-- prefix is the longest among all the routes that match it; it takes none only where no route of
-- the table matches.
pub get_route-Longest :
    (rs : List Route) (addr : List ℕ) → Ordered rs → Longest addr rs (get_route rs addr)
unfolding get_route
get_route-Longest [] addr o = tt
get_route-Longest (x ∷ rs) addr o = elim (Bool-cases (matches addr x)) [
  | inl hit ↦ rw hit (hit, inl refl, ((λ _. omega arith), AtMost-Matching x.maskbits addr rs o.0))
  | inr miss ↦
      rw miss (Longest-skip addr x rs (get_route rs addr) miss (get_route-Longest rs addr o.1))
]

AtMost-link :
    (n : ℕ) (rs : List Route) (r : Route) → AtMost n rs → r.maskbits ≤ n → AtMost n (link rs r)
unfolding link
AtMost-link n [] r a h = (h, tt)
AtMost-link n (p ∷ prev) r a h = elim (Bool-cases (ltb p.maskbits r.maskbits)) [
  | inl before ↦ rw before (h, a)
  | inr behind ↦ rw behind (a.0, AtMost-link n prev r a.1 h)
]

-- Linking a route into an ordered IPv6 table leaves an ordered table.
pub link-Ordered : (rs : List Route) (r : Route) → Ordered rs → Ordered (link rs r)
unfolding link
link-Ordered [] r o = (tt, tt)
link-Ordered (p ∷ prev) r o = elim (Bool-cases (ltb p.maskbits r.maskbits)) [
  | inl before ↦
      let lt : p.maskbits < r.maskbits = ground arith in
      rw before ((omega arith, AtMost-le p.maskbits r.maskbits prev (omega arith) o.0), o)
  | inr behind ↦
      rw behind (AtMost-link p.maskbits prev r o.0 (ground arith), link-Ordered prev r o.1)
]
