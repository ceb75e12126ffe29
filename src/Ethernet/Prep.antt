-- ===== src/Ethernet/Prep.antt =====
-- prep_eth_header and prep_eth_bcast of src/omphalos/ethernet.c and ethernet.h: the header of a frame
-- that is sent. On an interface with addresses of other lengths nothing is written.
use omphalos.Base.{
  ℕ, ◌-◌, ◌/◌, ◌%◌, ◌^◌, List, [], ◌∷◌, ◌++◌, Option, none, some, not, ltb, ◌==◌, if◌then◌else◌,
  Memory, Outcome, done, fault, ◌>>=◌, store_bytes,
}
use omphalos.Hwaddrs.{Interface}
use omphalos.Ip.Prep.{Prepared}

-- `dst` is none for a null pointer, which `memcpy` faults on.
pub write_header : Memory → ℕ → Interface → Option (List ℕ) → ℕ → Outcome Prepared
write_header mem frame i none proto = fault
write_header mem frame i (some dst) proto = do
  mem ← store_bytes mem frame (dst ++ i.addr ++ (proto / 256 % 256 ∷ proto % 256 ∷ []))
  done (mem, 14)

pub prep_eth_header : Memory → ℕ → ℕ → Interface → Option (List ℕ) → ℕ → Outcome Prepared
prep_eth_header mem frame len i dst proto =
    if ltb len 14
    then done (mem, 2 ^ 32 - 1)
    else if not (i.addrlen == 6)
    then done (mem, 0)
    else write_header mem frame i dst proto

pub prep_eth_bcast : Memory → ℕ → ℕ → Interface → ℕ → Outcome Prepared
prep_eth_bcast mem frame len i proto = prep_eth_header mem frame len i i.bcast proto
