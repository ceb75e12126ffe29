-- ===== src/Netaddrs/Looking.antt =====
-- Sequences of lookups in src/omphalos/netaddrs.c: valid hosts stay so, and none is lost.
use omphalos.Netaddrs.Kept.{Held, lookup_l3host_common-Held}
use omphalos.Base.{ℕ, ◌≤◌, ◌≡◌, ◌∙◌, sym, List, Bool, length, done, bytes_at}
use mathlib.Core.Path.{subst}
use omphalos.Hwaddrs.{Interface}
use omphalos.L3Hosts
use omphalos.Netaddrs
use omphalos.L3Hosts.{node}
use omphalos.Netaddrs.Valid.{IsValid, IsFamily}
use omphalos.Netaddrs.Lookup.{Returned, lookup_l3host_common-Returned}

pub done-same : {A : Type 0} {a b : A} → done a ≡ done b → a ≡ b
done-same e = cc

-- Lookups one behind the other, each of any address of a family, at any time and for any link host.
pub data Looking (others : Netaddrs.Others) (i : Interface)
    : L3Hosts.Net → L3Hosts.Cells → L3Hosts.Net → L3Hosts.Cells → Type 0 where
  idle : (net : L3Hosts.Net) (cells : L3Hosts.Cells) → Looking others i net cells net cells
  then_lookup :
      (now l2 fam : ℕ) (addr : List ℕ) (knownlocal : Bool) (net net' net'' : L3Hosts.Net)
      (cells cells' cells'' : L3Hosts.Cells) (l3 : L3Hosts.Host)
      → IsFamily fam
      → Netaddrs.address_size fam ≤ length addr
      → Netaddrs.lookup_l3host_common others now i l2 fam addr knownlocal net cells
        ≡ done (net', (cells', l3))
      → Looking others i net' cells' net'' cells''
      → Looking others i net cells net'' cells''

-- Valid hosts stay so, and one of the interface stays in its list.
pub Looking-Held :
    (others : Netaddrs.Others) (i : Interface) {g : ℕ} (mine : IsFamily g) (cmp : List ℕ) (k : ℕ)
    (net net' : L3Hosts.Net) (cells cells' : L3Hosts.Cells)
    → Looking others i net cells net' cells'
    → IsValid net cells
    → Held g cmp k net cells
    → IsValid net' cells' × Held g cmp k net' cells'
Looking-Held others i mine cmp k _ _ _ _ (idle net cells) valid held = (valid, held)
Looking-Held others i {g} mine cmp k _ _ _ _
      (then_lookup now l2 fam addr knownlocal net net' net'' cells cells' cells'' l3 known long run
        rest)
      valid held =
    let returned =
      lookup_l3host_common-Returned others now i l2 addr knownlocal net cells known valid long in
    let kept =
      lookup_l3host_common-Held mine cmp k net cells held others now i l2 addr knownlocal known
        valid long in
    Looking-Held others i mine cmp k net' net'' cells' cells'' rest
      (subst (λ r. Returned fam (bytes_at addr 0 (Netaddrs.address_size fam)) r)
        (done-same (sym returned.runs ∙ run)) returned.holds).0
      (subst (λ r. Held g cmp k r.0 r.1.0) (done-same (sym kept.runs ∙ run)) kept.holds)
