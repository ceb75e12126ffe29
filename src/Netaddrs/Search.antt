-- ===== src/Netaddrs/Search.antt =====
-- Searches of the lists of hosts of src/omphalos/netaddrs.c that find a host.
use omphalos.Base.{
  ℕ, ◌≡◌, refl, ap, ◌∙◌, arith, List, [], ◌∷◌, some, true, ◌==◌, inl, inr, Bool-cases,
}
use omphalos.Hwaddrs.{same_bytes}
use omphalos.L3Hosts
use omphalos.Netaddrs.Lists.{holds, same_bytes-eq, same_bytes_refl}

-- A search finds a host with the address.
pub record Finds (hosts : ℕ → L3Hosts.L3Host) (cmp ids : List ℕ) : Type 0 where
  pub id : ℕ
  pub result : L3Hosts.search hosts cmp ids ≡ some id
  pub same : (hosts id).addr ≡ cmp

module _ (hosts : ℕ → L3Hosts.L3Host) (cmp : List ℕ) where
  pub matches : (id : ℕ) → (hosts id).addr ≡ cmp → same_bytes (hosts id).addr cmp ≡ true
  matches id e = ap (λ (a : List ℕ). same_bytes a cmp) e ∙ same_bytes_refl cmp

  pub search-Finds :
      (id : ℕ) (ids : List ℕ) → (hosts id).addr ≡ cmp → holds id ids ≡ true → Finds hosts cmp ids
  unfolding L3Hosts.search
  search-Finds id [] e h = absurd (grind arith)
  search-Finds id (k ∷ ids) e h = elim (Bool-cases (same_bytes (hosts k).addr cmp)) [
    | inl here ↦ record {
      id = k;
      result = rw here refl;
      same = same_bytes-eq (hosts k).addr cmp here;
    }
    | inr there ↦ elim (Bool-cases (k == id)) [
      | inl first ↦ let k_id : k ≡ id = ground arith in absurd (grind (arith, matches id e))
      | inr later ↦
          let rest = search-Finds id ids e (rw later at h) in
          record { id = rest.id; result = rw there rest.result; same = rest.same }
    ]
  ]
