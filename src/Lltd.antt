-- ===== src/Lltd.antt =====
-- src/omphalos/lltd.c: what is received of the Link Layer Topology Discovery protocol, with the
-- properties of a station as a list of types, lengths and data. The conversion of UCS-2LE to UTF-8 by
-- iconv is a parameter: none where it fails.
pub mod Hello
use omphalos.Base.{
  ℕ, zero, suc, ◌+◌, ◌-◌, ◌*◌, ◌/◌, ◌%◌, ◌^◌, List, [], ◌∷◌, length, Option, none, some, Bool, true,
  false, not, ◌||◌, ◌&&◌, ltb, leb, ◌==◌, if◌then◌else◌, u64, Memory, Outcome, done, out_of_fuel,
  ◌>>=◌, load8, load_bytes,
}
use omphalos.Packet.{
  Packet, Analyzer, is_malformed, has_noproto, Ask, ask, local_l3host, named_l3host, service,
  af_inet, af_inet6, switch,
}

-- The addresses in the frame of the IPv4 and the IPv6 address, and the name.
pub record Found : Type 0 where
  pub ip : Option ℕ
  pub ip6 : Option ℕ
  pub name : Option (List ℕ)

-- `NAMING_LEVEL_MDNS`.
abbrev level_mdns : ℕ
level_mdns = 6

abbrev pub lltd_name : List ℕ
lltd_name = 0x4c ∷ 0x4c ∷ 0x54 ∷ 0x44 ∷ []

module _ (iconv : List ℕ → Option (List ℕ)) where
  -- The converted name must fit in a byte for each two, with its terminator.
  pub ucs2le_to_utf8 : List ℕ → Option (List ℕ)
  ucs2le_to_utf8 ucs2 = if length ucs2 % 2 == 1 then none else elim (iconv ucs2) [
    | none ↦ none
    | some r ↦ if leb (length r) (length ucs2 / 2) then some r else none
  ]

  -- Other types are only checked for their lengths, and complaints are printed.
  pub take_tlv : ℕ → ℕ → Memory → ℕ → Found → Outcome Found
  take_tlv type tlv_length mem dat found =
      switch type
        ((7, done (record found { ip = some dat }))
          ∷ (8, done (record found { ip6 = some dat }))
          ∷ (
            0x11,
            (if tlv_length == 0 then done found else (do
              ucs2 ← load_bytes mem dat tlv_length
              done (record found { name = ucs2le_to_utf8 ucs2 }))),
          )
          ∷ [])
        (done found)

  -- The loop over the properties; none is a return from it.
  pub tlvs : ℕ → Memory → ℕ → ℕ → Found → Outcome (Option Found)
  tlvs zero mem tlv len found = out_of_fuel
  tlvs (suc fuel) mem tlv len found =
      let rest = λ (size : ℕ) (found : Found). tlvs fuel mem (tlv + size) (len - size) found in
      if ltb len 2 then done (some found) else do
        tlv_length ← load8 mem (tlv + 1)
        if ltb len (tlv_length + 2) then done none else (do
          type ← load8 mem tlv
          found ← take_tlv type tlv_length mem (tlv + 2) found
          rest (2 + tlv_length) found)

  -- The host with the address at `at` gets the name, and serves LLTD.
  pub name_host : ℕ → ℕ → List ℕ → Memory → Option ℕ → Packet → Outcome Packet
  name_host fam size name mem none op = done op
  name_host fam size name mem (some at) op = do
    addr ← load_bytes mem at size
    let op = ask (named_l3host addr name level_mdns) (ask (local_l3host fam op.l2s addr) op)
    done (ask (service op.l2s (some addr) 0 0 lltd_name) op)

  pub name_hosts : Option Found → Memory → Packet → Outcome Packet
  name_hosts none mem op = done op
  name_hosts (some found) mem op = elim found.name [
    | none ↦ done op
    | some name ↦ do
      op ← name_host af_inet 4 name mem found.ip op
      name_host af_inet6 16 name mem found.ip6 op
  ]

  pub handle_lltd_tlvs : Analyzer
  handle_lltd_tlvs mem frame len op = do
    found ← tlvs (len + 1) mem frame len (record { ip = none; ip6 = none; name = none })
    name_hosts found mem op

  -- Behind the base header: `dlen` is a `size_t`, from which the header of a Hello is subtracted.
  pub discovery : ℕ → Analyzer
  discovery function mem dframe dlen op =
      if function == 0
      then (if ltb dlen 4
          then is_malformed op
          else if (dlen - 4) % 6 == 0
          then done op
          else is_malformed op)
      else if function == 1
      then handle_lltd_tlvs mem (dframe + 14) (u64 (dlen + 2 ^ 64 - 14)) op
      else if leb function 12
      then done op
      else has_noproto op

  pub handle_lltd_discovery : ℕ → Analyzer
  handle_lltd_discovery function mem frame flen op =
      if ltb flen 14 then is_malformed op else discovery function mem (frame + 14) (flen - 14) op

  pub handle_lltd_packet : Analyzer
  handle_lltd_packet mem frame len op = if ltb len 4 then is_malformed op else do
    version ← load8 mem frame
    if not (version == 1) then has_noproto op else (do
      tos ← load8 mem (frame + 1)
      if (tos == 0) || (tos == 1)
          then (do
            function ← load8 mem (frame + 3)
            handle_lltd_discovery function mem (frame + 4) (len - 4) op)
          else if tos == 2
          then done op
          else has_noproto op)
