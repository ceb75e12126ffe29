-- ===== src/Netaddrs/Naming.antt =====
-- The naming of a host by src/omphalos/netaddrs.c: which of many names it keeps, and how long it waits
-- between attempts at resolution.
use omphalos.Base.{
  u32, ℕ, ◌+◌, ◌^◌, ◌≤◌, ◌<◌, ◌≡◌, refl, ◌∙◌, arith, List, [], ◌∷◌, Option, none, some, true, false,
  ltb, leb, if◌then◌else◌, inl, inr, Bool-cases,
}
use omphalos.Hwaddrs.{Rtn}
use omphalos.L3Hosts
use omphalos.Netaddrs

-- A name with its level.
pub record Offer : Type 0 where
  pub name : List ℕ
  pub level : ℕ

-- Offers to a host, one behind the other.
abbrev pub name_all : List Offer → L3Hosts.L3Host → L3Hosts.L3Host
name_all [] l3 = l3
name_all (o ∷ os) l3 = name_all os (L3Hosts.wname_l3host_absolute o.name o.level l3)

-- The first of the offers with the highest level.
abbrev better : Offer → Option Offer → Offer
better o none = o
better o (some b) = if ltb o.level b.level then b else o

abbrev pub best : List Offer → Option Offer
best [] = none
best (o ∷ os) = some (better o (best os))

abbrev pub keep_best : Option Offer → L3Hosts.L3Host → L3Hosts.L3Host
keep_best none l3 = l3
keep_best (some b) l3 =
    if ltb l3.nlevel b.level then record l3 { name = some b.name; nlevel = b.level } else l3

keep_best-better :
    (o : Offer) (b : Option Offer) (l3 : L3Hosts.L3Host)
    → keep_best b (L3Hosts.wname_l3host_absolute o.name o.level l3)
      ≡ keep_best (some (better o b)) l3
unfolding L3Hosts.wname_l3host_absolute
keep_best-better o none l3 = refl
keep_best-better o (some b) l3 = ground arith

-- Whatever names are offered to a host, in whatever order: where the highest of their levels is above
-- the one that it had, the host ends with the first name of that level, with that level, and otherwise
-- as it was; nothing else of it changes.
pub name_all-best :
    (os : List Offer) (l3 : L3Hosts.L3Host) → name_all os l3 ≡ keep_best (best os) l3
name_all-best [] l3 = refl
name_all-best (o ∷ os) l3 =
    name_all-best os (L3Hosts.wname_l3host_absolute o.name o.level l3)
    ∙ keep_best-better o (best os) l3

module _ (others : Netaddrs.Others) (cat : Rtn) (l3 : L3Hosts.L3Host) where
  -- While a host has no name from a server and waits for its next attempt, nothing is done.
  update_l3name-waits :
      (now : ℕ)
      → l3.nlevel ≤ 2
      → now ≤ l3.nextnametry
      → Netaddrs.update_l3name others now cat l3 ≡ l3
  unfolding Netaddrs.update_l3name
  update_l3name-waits now low waiting =
      let unresolved : leb l3.nlevel 2 ≡ true = ground arith in
      let early : leb now l3.nextnametry ≡ true = ground arith in
      elim (Bool-cases (Netaddrs.is_asked cat)) [
        | inr never ↦ rw never refl
        | inl asked ↦ elim (Bool-cases (Netaddrs.is_named l3)) [
          | inl named ↦ rw (asked, named) refl
          | inr unnamed ↦ rw (asked, unnamed, unresolved, early) refl
        ]
      ]

module _ (others : Netaddrs.Others) (rev : List ℕ) where
  -- A query changes no time, and gives no name from a server.
  pub queried-times :
      (l3 : L3Hosts.L3Host)
      → l3.nlevel ≤ 2
      → ((Netaddrs.queried others rev l3).nlevel ≤ 2)
        × ((Netaddrs.queried others rev l3).nextnametry ≡ l3.nextnametry)
        × ((Netaddrs.queried others rev l3).nametries ≡ l3.nametries)
  unfolding Netaddrs.queried L3Hosts.wname_l3host_absolute
  queried-times l3 low = elim (Bool-cases (others.queue_for_naming l3 rev l3.fam l3.addr)) [
    | inr sent ↦ rw sent (low, refl, refl)
    | inl failed ↦ elim (Bool-cases (ltb l3.nlevel 1)) [
      | inl lower ↦ rw (failed, lower) (omega arith, refl, refl)
      | inr higher ↦ rw (failed, higher) (low, refl, refl)
    ]
  ]

  pub update_l3name-attempt :
      (cat : Rtn) (l3 : L3Hosts.L3Host) (now : ℕ)
      → Netaddrs.is_asked cat ≡ true
      → l3.nlevel ≤ 2
      → l3.nextnametry < now
      → Netaddrs.revstr l3.fam l3.addr ≡ some rev
      → Netaddrs.update_l3name others now cat l3
        ≡ Netaddrs.queried others rev (Netaddrs.backed_off others now l3)
  unfolding Netaddrs.update_l3name
  update_l3name-attempt cat l3 now asked low due question =
      let early : leb now l3.nextnametry ≡ false = ground arith in
      let unnamed : Netaddrs.is_named l3 ≡ false = ground arith in
      let unresolved : leb l3.nlevel 2 ≡ true = ground arith in
      rw (asked, unnamed, unresolved, early, question) refl

  -- For a host that has no name from a server and is of a kind that is asked for, once the time of its
  -- next attempt is over: `update_l3name` makes one attempt, and then leaves the host as it is until
  -- two seconds are over, or four, and so on with each attempt up to 512, whatever the kind of link
  -- address that it is seen with.
  pub update_l3name-backs_off :
      (cat again : Rtn) (l3 : L3Hosts.L3Host) (now later : ℕ)
      → Netaddrs.is_asked cat ≡ true
      → l3.nlevel ≤ 2
      → l3.nextnametry < now
      → Netaddrs.revstr l3.fam l3.addr ≡ some rev
      → later ≤ now + 2 ^ (if ltb 9 (u32 (l3.nametries + 1)) then 9 else u32 (l3.nametries + 1))
      → ((Netaddrs.update_l3name others now cat l3).nametries ≡ u32 (l3.nametries + 1))
        × (Netaddrs.update_l3name others later again (Netaddrs.update_l3name others now cat l3)
            ≡ Netaddrs.update_l3name others now cat l3)
  unfolding Netaddrs.backed_off
  update_l3name-backs_off cat again l3 now later asked low due question soon =
      let times = queried-times (Netaddrs.backed_off others now l3) low in
      let asking = Netaddrs.queried others rev (Netaddrs.backed_off others now l3) in
      rw (update_l3name-attempt cat l3 now asked low due question)
        (times.2, update_l3name-waits others again asking later times.0 (omega (arith, times.1)))
