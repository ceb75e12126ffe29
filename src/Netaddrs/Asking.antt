-- ===== src/Netaddrs/Asking.antt =====
-- A host whose name no server gives is asked for again and again.
use native.Mathlib.Nat.{pow-le-pow_right}
use mathlib.Core.Path.{subst}
use omphalos.Base.{
  u32, sym, ◌%◌, ◌∙◌, refl, not, ◌==◌, ℕ, ◌+◌, ◌^◌, ◌≤◌, ◌<◌, ◌≡◌, arith, List, [], ◌∷◌, some, true,
  ltb, if◌then◌else◌, Bool-cases, inl, inr,
}
use omphalos.Hwaddrs.{Rtn}
use omphalos.L3Hosts
use omphalos.Netaddrs
use omphalos.Netaddrs.Naming.{queried-times, update_l3name-attempt}
use omphalos.Netaddrs.Keys.{update_l3name-SameKey}

-- The host behind lookups at the times of a list.
abbrev pub seen_at : Netaddrs.Others → Rtn → List ℕ → L3Hosts.L3Host → L3Hosts.L3Host
seen_at others cat [] l3 = l3
seen_at others cat (now ∷ later) l3 =
    seen_at others cat later (Netaddrs.update_l3name others now cat l3)

-- One attempt to have a host named: it is counted in 32 bits, the next is due after 2, 4, 8 seconds and
-- so on up to 512, and the question is sent; where it cannot be, a host of the level 0 says so.
abbrev pub attempt : Netaddrs.Others → List ℕ → ℕ → L3Hosts.L3Host → L3Hosts.L3Host
attempt others rev now l3 =
    let tries = (l3.nametries + 1) % 2 ^ 32 in
    let asking : L3Hosts.L3Host = record l3 {
      nametries = tries;
      nextnametry = now + 2 ^ (if ltb tries 9 then tries else 9);
    } in
    if not (others.queue_for_naming asking rev l3.fam l3.addr)
    then asking
    else if l3.nlevel == 0
    then record asking { name = some L3Hosts.resolution_failed; nlevel = 1 }
    else asking

abbrev pub attempts : Netaddrs.Others → List ℕ → List ℕ → L3Hosts.L3Host → L3Hosts.L3Host
attempts others rev [] l3 = l3
attempts others rev (now ∷ later) l3 = attempts others rev later (attempt others rev now l3)

-- The first time is behind `due`, and each is more than 512 seconds behind the one before it.
abbrev pub Spaced : ℕ → List ℕ → Type 0
Spaced due [] = Unit {0}
Spaced due (now ∷ later) = (due < now) × Spaced (now + 512) later

Spaced-later : (due due' : ℕ) (times : List ℕ) → due' ≤ due → Spaced due times → Spaced due' times
Spaced-later due due' [] h s = tt
Spaced-later due due' (now ∷ later) h s = (omega (arith, s.0), s.1)

longest : (tries : ℕ) → 2 ^ (if ltb tries 9 then tries else 9) ≤ 512
longest tries = elim (Bool-cases (ltb tries 9)) [
  | inr many ↦ rw many (omega arith)
  | inl few ↦
      let small : tries ≤ 9 = ground arith in
      let power : 2 ^ tries ≤ 2 ^ 9 = pow-le-pow_right (omega arith) small in rw few power
]

exponent : (tries : ℕ) → (if ltb 9 tries then 9 else tries) ≡ (if ltb tries 9 then tries else 9)
exponent tries = ground arith

module _ (others : Netaddrs.Others) (cat : Rtn) (rev : List ℕ) where
  queried-attempt :
      (l3 : L3Hosts.L3Host) (now : ℕ)
      → Netaddrs.queried others rev (Netaddrs.backed_off others now l3) ≡ attempt others rev now l3
  unfolding Netaddrs.queried Netaddrs.backed_off L3Hosts.wname_l3host_absolute
  queried-attempt l3 now =
      let tries = (l3.nametries + 1) % 2 ^ 32 in
      let asking : L3Hosts.L3Host = record l3 {
        nametries = tries;
        nextnametry = now + 2 ^ (if ltb tries 9 then tries else 9);
      } in
      let level : ltb l3.nlevel 1 ≡ (l3.nlevel == 0) = ground arith in
      elim (Bool-cases (others.queue_for_naming asking rev l3.fam l3.addr)) [
        | inl failed ↦ rw (exponent tries, failed, level) refl
        | inr sent ↦ rw (exponent tries, sent) refl
      ]

  -- What an attempt leaves for the next one: it is due in 512 seconds at most.
  attempt-due :
      (l3 : L3Hosts.L3Host) (now : ℕ)
      → l3.nlevel ≤ 2
      → ((attempt others rev now l3).nlevel ≤ 2)
        × ((attempt others rev now l3).nextnametry ≤ now + 512)
  unfolding Netaddrs.backed_off
  attempt-due l3 now low =
      let times = queried-times others rev (Netaddrs.backed_off others now l3) low in
      let tries = u32 (l3.nametries + 1) in
      let most : 2 ^ (if ltb 9 tries then 9 else tries) ≤ 512 =
        rw (exponent tries) (longest tries) in
      rw⁻¹ (queried-attempt l3 now) (times.0, omega (arith, times.1, most))

  -- A host of a kind that is asked for, with no name from a server and of a family that has a question,
  -- is asked for by every one of a sequence of lookups, the first behind the time of its next attempt and
  -- each more than 512 seconds after the one before it: each lookup counts an attempt, sets the time of
  -- the next one and sends the question, and where it cannot be sent gives the name that says so, if
  -- the level of naming is 0. The host has no name from a server afterwards, either.
  pub update_l3name-asks_again :
      (times : List ℕ) (l3 : L3Hosts.L3Host)
      → Netaddrs.is_asked cat ≡ true
      → l3.nlevel ≤ 2
      → Spaced l3.nextnametry times
      → Netaddrs.revstr l3.fam l3.addr ≡ some rev
      → (seen_at others cat times l3 ≡ attempts others rev times l3)
        × ((seen_at others cat times l3).nlevel ≤ 2)
  update_l3name-asks_again [] l3 asked low spaced question = (refl, low)
  update_l3name-asks_again (now ∷ later) l3 asked low spaced question =
      let done : Netaddrs.update_l3name others now cat l3 ≡ attempt others rev now l3 =
        update_l3name-attempt others rev cat l3 now asked low spaced.0 question
        ∙ queried-attempt l3 now in
      let next = attempt-due l3 now low in
      let same = update_l3name-SameKey others now cat l3 in
      let rest =
        update_l3name-asks_again later (attempt others rev now l3) asked next.0
          (Spaced-later (now + 512) _ later next.1 spaced.1)
          (rw⁻¹ done (rw (same.0, same.1) question)) in
      subst
        (λ (h : L3Hosts.L3Host).
          (seen_at others cat later h ≡ attempts others rev later (attempt others rev now l3))
          × ((seen_at others cat later h).nlevel ≤ 2))
        (sym done) rest
