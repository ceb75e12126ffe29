-- ===== src/Dns/Packets.antt =====
-- `handle_dns_packet` of src/omphalos/dns.c: the questions and the answers of
-- a DNS packet, and what is asked of other parts of the program for them. `mbtowc` of the C library is a
-- parameter. The recursion of `dns_inflate` is bounded by fuel. The address of the name server, which
-- the callees do not use, is left out. Memory can always be allocated.
pub mod Replies
pub mod Header
pub mod Handled
pub mod Short
mod Examples
use omphalos.Base.{
  ℕ, zero, suc, ◌+◌, ◌-◌, ◌*◌, ◌%◌, ◌^◌, Bool, true, false, not, ◌&&◌, ◌||◌, ltb, ◌==◌,
  if◌then◌else◌, List, [], ◌∷◌, drop, Option, none, some, Memory, Outcome, done, ◌>>=◌, load8,
  load16_net, load_bytes,
}
use omphalos.Packet.{Packet, ask, offer, service, af_inet, af_inet6}
use omphalos.Udp.{Judge}
use omphalos.Dns.Name.{Record, null, extract_labels, extract_dns_record}
use omphalos.Dns.Extra.{
  extract_dns_extra, dns_class_in, dns_type_ptr, dns_type_a, dns_type_aaaa, dns_type_cname,
  dns_type_srv,
}
use omphalos.Dns.Reverse.{c_string, same_text, process_reverse_lookup}
use omphalos.Dns.Services.{Srv, process_srv_lookup}

-- NAMING_LEVEL_NXDOMAIN, NAMING_LEVEL_DNS and NAMING_LEVEL_REVDNS.
abbrev pub naming_level_nxdomain : ℕ
naming_level_nxdomain = 2

abbrev pub naming_level_dns : ℕ
naming_level_dns = 3

abbrev pub naming_level_revdns : ℕ
naming_level_revdns = 5

-- A name for an address that was asked for by a CNAME.
pub record Cname : Type 0 where
  pub fam : ℕ
  pub addr : List ℕ
  pub rdata : List ℕ

-- Where the handler is in the packet: the bytes left are the `len` bytes at `sec`.
pub record Walk : Type 0 where
  pub sec : ℕ
  pub len : ℕ
  pub server : Bool
  pub cname : Option Cname
  pub op : Packet

-- `goto malformed`, or a loop that has ended with this many records left.
pub data Parsed : Type 0 where
  walked : ℕ → Walk → Parsed
  malformed : Packet → Parsed

abbrev pub advance : ℕ → Walk → Walk
advance n w = record w { sec = w.sec + n; len = w.len - n }

abbrev pub asks : Packet → Walk → Walk
asks op w = record w { op = op }

-- "address unknown"
abbrev pub address_unknown : List ℕ
address_unknown =
    97 ∷ 100 ∷ 100 ∷ 114 ∷ 101 ∷ 115 ∷ 115 ∷ 32 ∷ 117 ∷ 110 ∷ 107 ∷ 110 ∷ 111 ∷ 119 ∷ 110 ∷ []

-- What a question of a packet with this response code says.
pub question : ℕ → Record → Walk → Walk
question rcode r w =
    if (rcode == 3) && (r.class == dns_class_in)
    then (if r.type == dns_type_ptr
        then elim (process_reverse_lookup (c_string r.name)) [
          | none ↦ record w { server = true }
          | some (fam, addr) ↦ record w {
            server = true;
            op = ask (offer fam addr address_unknown naming_level_nxdomain) w.op;
          }
        ]
        else record w { server = true })
    else w

-- `cname && strcmp(cname, buf) == 0`
pub matching : Option Cname → List ℕ → Option Cname
matching none name = none
matching (some c) name = if same_text (c_string c.rdata) (c_string name) then some c else none

module _ (fuel : ℕ) (mbtowc : List ℕ → Option (ℕ × ℕ)) where
  pub serve : Srv → Walk → Walk
  serve srv w =
      if srv.add
      then asks (ask (service w.op.l2s w.op.l3s srv.prot srv.port srv.name) w.op) w
      else w

  -- An answer with the class IN; the walk is at its data.
  pub answer_ptr : Record → List ℕ → Walk → Walk
  answer_ptr r rdata w = elim (matching w.cname r.name) [
    | some c ↦ record w {
      cname = none;
      op = ask (offer c.fam c.addr (c_string rdata) naming_level_revdns) w.op;
    }
    | none ↦ elim (process_reverse_lookup (c_string r.name)) [
      | some (fam, addr) ↦ asks (ask (offer fam addr (c_string rdata) naming_level_revdns) w.op) w
      | none ↦ elim (process_srv_lookup mbtowc (c_string r.name)) [
        | some srv ↦ serve srv w
        | none ↦ w
      ]
    ]
  ]

  -- The offer reads an address of `size` bytes from the data.
  pub answer_address : ℕ → ℕ → Record → List ℕ → Walk → Outcome Parsed
  answer_address fam size r rdata w = do
    addr ← load_bytes rdata 0 size
    done (walked 0 (asks (ask (offer fam addr (c_string r.name) naming_level_dns) w.op) w))

  pub answer_cname : Record → List ℕ → Walk → Outcome Parsed
  answer_cname r rdata w = elim w.cname [
    | some c ↦ done (malformed w.op)
    | none ↦ elim (process_reverse_lookup (c_string r.name)) [
      | none ↦ done (walked 0 w)
      | some (fam, addr) ↦
          done (
            walked 0 (record w { cname = some (record { fam = fam; addr = addr; rdata = rdata }) }))
    ]
  ]

  pub answer_srv : Record → Walk → Outcome Parsed
  answer_srv r w = elim (process_srv_lookup mbtowc (c_string r.name)) [
    | none ↦ done (malformed w.op)
    | some srv ↦ done (walked 0 (serve srv w))
  ]

  pub answer : Record → List ℕ → Walk → Outcome Parsed
  answer r rdata w =
      let served = record w { server = true } in
      if not (r.class == dns_class_in)
      then done (walked 0 w)
      else if r.type == dns_type_ptr
      then done (walked 0 (answer_ptr r rdata served))
      else if r.type == dns_type_a
      then answer_address af_inet 4 r rdata served
      else if r.type == dns_type_aaaa
      then answer_address af_inet6 16 r rdata served
      else if r.type == dns_type_cname
      then answer_cname r rdata served
      else if r.type == dns_type_srv
      then answer_srv r served
      else done (walked 0 served)

  -- The loop over the questions, with `qd` of them to come.
  pub questions : Memory → ℕ → ℕ → Walk → Outcome Parsed
  questions orig rcode zero w = done (walked 0 w)
  questions orig rcode (suc qd) w = if w.len == 0 then done (walked (suc qd) w) else do
    r ← extract_dns_record fuel w.len w.sec orig
    elim r [
      | none ↦ done (malformed w.op)
      | some r ↦ questions orig rcode qd (advance r.idx (question rcode r w))
    ]

  -- The loop over the answers, with `an` of them to come.
  pub answers : Memory → ℕ → Walk → Outcome Parsed
  answers orig zero w = done (walked 0 w)
  answers orig (suc an) w = if w.len == 0 then done (walked (suc an) w) else do
    r ← extract_dns_record fuel w.len w.sec orig
    elim r [
      | none ↦ done (malformed w.op)
      | some r ↦ do
        extra ← extract_dns_extra fuel (w.len - r.idx) (w.sec + r.idx) orig r.type
        elim extra [
          | none ↦ done (malformed w.op)
          | some (rdata, size) ↦ do
            next ← answer r rdata (advance r.idx w)
            elim next [
              | malformed op ↦ done (malformed op)
              | walked _ w ↦ answers orig an (advance size w)
            ]
        ]
    ]

  -- -1 is `2 ^ 32 - 1`.
  pub rejects : Packet → Outcome (Packet × ℕ)
  rejects op = done (record op { malformed = true }, 2 ^ 32 - 1)

  -- Behind the loops, with the questions and the answers that are left.
  pub finish : ℕ → ℕ → Walk → Outcome (Packet × ℕ)
  finish qd an w = elim w.cname [
    | some c ↦ rejects w.op
    | none ↦
        if not (qd == 0) || not (an == 0)
        then rejects w.op
        else done (w.op, (if w.server then 1 else 0))
  ]

  -- The sections behind the answers are not read, nor are bytes behind the answers refused.
  pub handle_sections : Memory → ℕ → ℕ → ℕ → Walk → Outcome (Packet × ℕ)
  handle_sections orig rcode qd an w = do
    asked ← questions orig rcode qd w
    elim asked [
      | malformed op ↦ rejects op
      | walked qd w ↦ do
        answered ← answers orig an w
        elim answered [ malformed op ↦ rejects op | walked an w ↦ finish qd an w ]
    ]

  pub handle_dns_packet : Judge
  handle_dns_packet mem frame len op =
      let orig = drop frame mem in
      if ltb len 12
      then rejects op
      else if not (op.l3proto == 0x0800) && not (op.l3proto == 0x86dd)
      then done (record op { noproto = true }, 0)
      else (do
        flags ← load16_net orig 2
        qd ← load16_net orig 4
        an ← load16_net orig 6
        handle_sections orig (flags % 8) qd an
            (record { sec = 12; len = len - 12; server = false; cname = none; op = op }))
