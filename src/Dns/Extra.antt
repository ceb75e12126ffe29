-- ===== src/Dns/Extra.antt =====
-- `extract_dns_extra` of src/omphalos/dns.c: the data of an answer.
pub mod Plain
pub mod Raw
use omphalos.Base.{
  ℕ, zero, suc, ◌+◌, ◌-◌, ◌*◌, ◌%◌, ◌^◌, Bool, true, false, not, ◌&&◌, ◌||◌, ltb, ◌==◌,
  if◌then◌else◌, List, [], ◌∷◌, drop, Option, none, some, Memory, Outcome, done, ◌>>=◌, load8,
  load16_net, load_bytes,
}
use omphalos.Packet.{Packet, ask, offer, service, af_inet, af_inet6}
use omphalos.Udp.{Judge}
use omphalos.Dns.Name.{Record, null, extract_labels, extract_dns_record}
use omphalos.Dns.Reverse.{c_string, same_text, process_reverse_lookup}
use omphalos.Dns.Services.{Srv, process_srv_lookup}

-- `extract_dns_record` with the null pointer for class and type: the name alone.
pub extract_dns_name : ℕ → ℕ → ℕ → Memory → Outcome (Option (List ℕ))
extract_dns_name fuel len sec orig = do
  c ← extract_labels fuel (len + 1) len orig (record { idx = 0; sec = sec; buf = null; rlen = 0 })
  elim c [
    | none ↦ done none
    | some c ↦
        if c.buf.cap == 0
        then (if c.rlen == 0 then done (some (0 ∷ [])) else done none)
        else done (some c.buf.text)
  ]

-- Types and the class IN, as they are loaded on a little-endian host.
abbrev pub dns_class_in : ℕ
dns_class_in = 0x0100

abbrev pub dns_type_a : ℕ
dns_type_a = 0x0100

abbrev pub dns_type_cname : ℕ
dns_type_cname = 0x0500

abbrev pub dns_type_ptr : ℕ
dns_type_ptr = 0x0c00

abbrev pub dns_type_hinfo : ℕ
dns_type_hinfo = 0x0d00

abbrev pub dns_type_mx : ℕ
dns_type_mx = 0x0f00

abbrev pub dns_type_txt : ℕ
dns_type_txt = 0x1000

abbrev pub dns_type_aaaa : ℕ
dns_type_aaaa = 0x1c00

abbrev pub dns_type_srv : ℕ
dns_type_srv = 0x2100

abbrev pub dns_type_spf : ℕ
dns_type_spf = 0x6300

-- What is copied as it is.
pub is_raw : ℕ → Bool
is_raw type =
    (type == dns_type_a)
    || (type == dns_type_aaaa)
    || (type == dns_type_txt)
    || (type == dns_type_hinfo)
    || (type == dns_type_spf)

-- The data and the bytes that it takes; the time to live is not used.
pub extract_dns_extra : ℕ → ℕ → ℕ → Memory → ℕ → Outcome (Option (List ℕ × ℕ))
extract_dns_extra fuel len sec orig type =
    let extra = if type == dns_type_mx then 2 else 0 in
    if ltb len 6 then done none else do
      ttl ← load_bytes orig sec 4
      rdlen ← load16_net orig (sec + 4)
      if ltb len (rdlen + 6 + extra)
          then done none
          else if is_raw type
          then (do rdata ← load_bytes orig (sec + 6 + extra) rdlen; done (some (rdata, 6 + rdlen)))
          else (do
            name ← extract_dns_name fuel rdlen (sec + 6 + extra) orig
            elim name [ none ↦ done none | some rdata ↦ done (some (rdata, 6 + rdlen)) ])
