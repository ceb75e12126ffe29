-- ===== src/Netaddrs/Keys.antt =====
-- Naming a host, in src/omphalos/netaddrs.c, changes neither its family nor its address.
use omphalos.Base.{
  ℕ, ◌≡◌, refl, ◌∙◌, List, Option, none, some, not, ◌&&◌, ltb, leb, inl, inr, Bool-cases,
}
use omphalos.Hwaddrs.{Rtn, unicast, local, broadcast, multicast}
use omphalos.L3Hosts
use omphalos.Netaddrs
use omphalos.L3Hosts.{node}

abbrev pub SameKey : L3Hosts.L3Host → L3Hosts.L3Host → Type 0
SameKey a b = (b.fam ≡ a.fam) × (b.addr ≡ a.addr)

pub wname-SameKey :
    (name : List ℕ) (level : ℕ) (l3 : L3Hosts.L3Host)
    → SameKey l3 (L3Hosts.wname_l3host_absolute name level l3)
unfolding L3Hosts.wname_l3host_absolute
wname-SameKey name level l3 = elim (Bool-cases (ltb l3.nlevel level)) [
  | inl named ↦ rw named (refl, refl)
  | inr kept ↦ rw kept (refl, refl)
]

module _ (others : Netaddrs.Others) where
  queried-SameKey :
      (rev : List ℕ) (l3 : L3Hosts.L3Host) → SameKey l3 (Netaddrs.queried others rev l3)
  unfolding Netaddrs.queried
  queried-SameKey rev l3 = elim (Bool-cases (others.queue_for_naming l3 rev l3.fam l3.addr)) [
    | inl failed ↦ rw failed (wname-SameKey _ _ l3)
    | inr sent ↦ rw sent (refl, refl)
  ]

  asked-SameKey :
      (question : Option (List ℕ)) (l3 asking : L3Hosts.L3Host)
      → SameKey l3 asking
      → SameKey l3 (elim question [ none ↦ l3 | some rev ↦ Netaddrs.queried others rev asking ])
  asked-SameKey none l3 asking same = (refl, refl)
  asked-SameKey (some rev) l3 asking same =
      let after = queried-SameKey rev asking in (after.0 ∙ same.0, after.1 ∙ same.1)

  pub update_l3name-SameKey :
      (now : ℕ) (cat : Rtn) (l3 : L3Hosts.L3Host)
      → SameKey l3 (Netaddrs.update_l3name others now cat l3)
  unfolding Netaddrs.update_l3name Netaddrs.backed_off
  update_l3name-SameKey now cat l3 = elim (Bool-cases (not (Netaddrs.is_asked cat))) [
    | inl never ↦ rw never (refl, refl)
    | inr asked ↦ elim (Bool-cases (Netaddrs.is_named l3)) [
      | inl named ↦ rw (asked, named) (refl, refl)
      | inr unnamed ↦ elim (Bool-cases (leb l3.nlevel 2 && leb now l3.nextnametry)) [
        | inl early ↦ rw (asked, unnamed, early) (refl, refl)
        | inr due ↦
            rw (asked, unnamed, due)
              (asked-SameKey (Netaddrs.revstr l3.fam l3.addr) l3 (Netaddrs.backed_off others now l3)
                (refl, refl))
      ]
    ]
  ]

  resolved-SameKey : (now : ℕ) (l3 : L3Hosts.L3Host) → SameKey l3 (Netaddrs.resolved others now l3)
  unfolding Netaddrs.resolved
  resolved-SameKey now l3 =
      asked-SameKey (Netaddrs.revstr l3.fam l3.addr) l3 _
        (wname-SameKey L3Hosts.resolving L3Hosts.level_resolving l3)

  named_by-SameKey :
      (name : Option (List ℕ)) (l3 : L3Hosts.L3Host) → SameKey l3 (Netaddrs.named_by others name l3)
  named_by-SameKey none l3 = (refl, refl)
  named_by-SameKey (some name) l3 = wname-SameKey name _ l3

  local-SameKey :
      (now : ℕ) (name : Option (List ℕ)) (l3 : L3Hosts.L3Host)
      → SameKey l3 (elim name [
        | some name ↦ L3Hosts.wname_l3host_absolute name L3Hosts.level_global l3
        | none ↦ Netaddrs.resolved others now l3
      ])
  local-SameKey now none l3 = resolved-SameKey now l3
  local-SameKey now (some name) l3 = wname-SameKey name _ l3

  pub first_name-SameKey :
      (now : ℕ) (cat : Rtn) (l3 : L3Hosts.L3Host)
      → SameKey l3 (Netaddrs.first_name others now cat l3)
  unfolding Netaddrs.first_name
  first_name-SameKey now multicast l3 =
      named_by-SameKey (others.ietf_multicast_lookup l3.fam l3.addr) l3
  first_name-SameKey now broadcast l3 =
      named_by-SameKey (others.ietf_bcast_lookup l3.fam l3.addr) l3
  first_name-SameKey now local l3 = local-SameKey now (others.ietf_local_lookup l3.fam l3.addr) l3
  first_name-SameKey now unicast l3 = resolved-SameKey now l3
