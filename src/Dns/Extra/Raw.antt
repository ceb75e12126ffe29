-- ===== src/Dns/Extra/Raw.antt =====
-- The data of an answer that is copied, and that of a mail exchange which ends the packet.
use omphalos.Base.{
  ℕ, ◌+◌, ◌*◌, ◌<◌, ◌≤◌, ◌≡◌, refl, ap, ◌∙◌, arith, true, false, List, [], ◌∷◌, ◌++◌, length, ltb,
  drop, none, some, Memory, done, load16_net,
}
use omphalos.Dns.Name.Reading.{drop-skip, load_bytes-at, load16_net-at}
use omphalos.Dns.Extra

module _ (fuel len sec : ℕ) (mem : Memory) (t0 t1 t2 t3 : ℕ) (rdata rest : List ℕ)
    (e : drop sec mem ≡ t0 ∷ t1 ∷ t2 ∷ t3 ∷ 0 ∷ length rdata ∷ (rdata ++ rest)) where
  rdlen-at : load16_net mem (sec + 4) ≡ done (length rdata)
  rdlen-at =
      load16_net-at mem (sec + 4) 0 (length rdata) (rdata ++ rest)
        (drop-skip mem sec (t0 ∷ t1 ∷ t2 ∷ t3 ∷ []) (0 ∷ length rdata ∷ (rdata ++ rest)) e)
      ∙ ap done {x = 256 * 0 + length rdata} {y = length rdata} (omega arith)

  pub extract_dns_extra-address :
      length rdata + 6 ≤ len
      → Extra.extract_dns_extra fuel len sec mem Extra.dns_type_a
        ≡ done (some (rdata, 6 + length rdata))
  unfolding Extra.extract_dns_extra Extra.is_raw
  extract_dns_extra-address room =
      let fixed : ltb len 6 ≡ false = ground arith in
      let long : ltb len (length rdata + 6 + 0) ≡ false = ground arith in
      let at : drop (sec + 6 + 0) mem ≡ rdata ++ rest =
        ap (λ (p : ℕ). drop p mem) {x = sec + 6 + 0} {y = sec + 6} (omega arith)
        ∙ drop-skip mem sec (t0 ∷ t1 ∷ t2 ∷ t3 ∷ 0 ∷ length rdata ∷ []) (rdata ++ rest) e in
      rw
        (
          fixed,
          load_bytes-at mem sec (t0 ∷ t1 ∷ t2 ∷ t3 ∷ []) (0 ∷ length rdata ∷ (rdata ++ rest)) e,
          rdlen-at,
          long,
          load_bytes-at mem (sec + 6 + 0) rdata rest at,
        )
        refl

  pub extract_dns_extra-exchange :
      6 ≤ len
      → len < length rdata + 8
      → Extra.extract_dns_extra fuel len sec mem Extra.dns_type_mx ≡ done none
  unfolding Extra.extract_dns_extra
  extract_dns_extra-exchange fits cut =
      let fixed : ltb len 6 ≡ false = ground arith in
      let short : ltb len (length rdata + 6 + 2) ≡ true = ground arith in
      rw
        (
          fixed,
          load_bytes-at mem sec (t0 ∷ t1 ∷ t2 ∷ t3 ∷ []) (0 ∷ length rdata ∷ (rdata ++ rest)) e,
          rdlen-at,
          short,
        )
        refl
