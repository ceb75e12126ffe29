-- ===== src/Nd.antt =====
-- src/omphalos/nd.c: the messages of IPv6 neighbour discovery and their options, of which each has a
-- type, a length in units of 8 bytes, and data.
pub mod Options
use omphalos.Base.{
  ℕ, zero, suc, ◌+◌, ◌-◌, ◌*◌, ◌/◌, ◌%◌, List, [], ◌∷◌, some, none, Bool, true, false, not, ◌||◌,
  ◌&&◌, ltb, leb, ◌==◌, if◌then◌else◌, Memory, Outcome, done, abort, out_of_fuel, ◌>>=◌, load8,
  load_bytes,
}
use omphalos.Packet.{
  Packet, Analyzer, is_malformed, Ask, ask, nameserver, service, af_inet6, switch,
}

-- What a message makes of an option, from its type, length and address: the packet, and whether the
-- options behind it are looked at.
abbrev pub Option8 : Type 0
Option8 = ℕ → ℕ → Memory → ℕ → Packet → Outcome (Packet × Bool)

abbrev pub is_bogon : Packet → Outcome (Packet × Bool)
is_bogon op = done (record op { malformed = true }, false)

-- The loop over the options, with whether it came to the end of them.
pub nd_options : Option8 → ℕ → Memory → ℕ → ℕ → Packet → Outcome (Packet × Bool)
nd_options option zero mem frame len op = out_of_fuel
nd_options option (suc fuel) mem frame len op =
    let rest = λ (oplen : ℕ) (op : Packet).
      nd_options option fuel mem (frame + oplen * 8) (len - oplen * 8) op in
    if len == 0 then done (op, true) else if ltb len 2 then is_bogon op else do
      oplen ← load8 mem (frame + 1)
      if ltb oplen 1 then is_bogon op else if ltb len (oplen * 8) then is_bogon op else (do
        type ← load8 mem frame
        (op, more) ← option type oplen mem frame op
        if more then rest oplen op else done (op, false))

abbrev pub known : Packet → Outcome (Packet × Bool)
known op = done (op, true)

abbrev pub unknown : Packet → Outcome (Packet × Bool)
unknown op = done (record op { noproto = true }, true)

-- The types from 16 to 23 and from 27 on are unknown.
pub routersol_option : Option8
routersol_option type oplen mem frame op =
    if (ltb 15 type && ltb type 24) || ltb 26 type then unknown op else known op

-- The servers of a list, `left` of them.
pub offer_nameservers : ℕ → Memory → ℕ → Packet → Outcome Packet
offer_nameservers zero mem server op = done op
offer_nameservers (suc left) mem server op = do
  addr ← load_bytes mem server 16
  offer_nameservers left mem (server + 16) (ask (nameserver af_inet6 addr) op)

-- `ilen` falls by 2 for each server, and counts one half for the header.
pub rdnss_option : Option8
rdnss_option type ilen mem frame op =
    if ltb ilen 3 || (ilen % 2 == 0)
    then known op
    else (do op ← offer_nameservers ((ilen - 1) / 2) mem (frame + 8) op; known op)

pub routerad_option : Option8
routerad_option type oplen mem frame op =
    switch type
      ((1, known op)
        ∷ (3, known op)
        ∷ (5, known op)
        ∷ (24, known op)
        ∷ (25, rdnss_option type oplen mem frame op)
        ∷ (26, known op)
        ∷ [])
      (unknown op)

pub neighad_option : Option8
neighad_option type oplen mem frame op =
    switch type ((2, known op) ∷ (0, known op) ∷ []) (unknown op)

-- An unknown option of a redirect ends the loop.
pub redirect_option : Option8
redirect_option type oplen mem frame op =
    switch type ((2, known op) ∷ (4, known op) ∷ []) (done (record op { noproto = true }, false))

-- A message with `fixed` bytes in front of its options.
pub nd_message : Option8 → ℕ → Memory → ℕ → ℕ → Packet → Outcome (Packet × Bool)
nd_message option fixed mem frame len op =
    if ltb len fixed
    then is_bogon op
    else nd_options option (len + 1) mem (frame + fixed) (len - fixed) op

pub handle_nd_routersol : Analyzer
handle_nd_routersol mem frame len op = do
  (op, _) ← nd_message routersol_option 4 mem frame len op
  done op

abbrev pub router : List ℕ
router = 0x52 ∷ 0x6f ∷ 0x75 ∷ 0x74 ∷ 0x65 ∷ 0x72 ∷ []

-- Where the options are all right, the sender is a router.
pub handle_nd_routerad : Analyzer
handle_nd_routerad mem frame len op = do
  (op, finished) ← nd_message routerad_option 12 mem frame len op
  if finished then done (ask (service op.l2s op.l3s 0 0 router) op) else done op

pub handle_nd_neighad : Analyzer
handle_nd_neighad mem frame len op = do
  (op, _) ← nd_message neighad_option 20 mem frame len op
  done op

pub handle_nd_redirect : Analyzer
handle_nd_redirect mem frame len op = do
  (op, _) ← nd_message redirect_option 36 mem frame len op
  done op

-- The loop of handle_nd_neighsol looks at the type before the length, and asserts that the length is
-- not 0.
pub neighsol_options : ℕ → Analyzer
neighsol_options zero mem frame len op = out_of_fuel
neighsol_options (suc fuel) mem frame len op =
    let rest = λ (oplen : ℕ) (op : Packet).
      neighsol_options fuel mem (frame + oplen * 8) (len - oplen * 8) op in
    if len == 0 then done op else if ltb len 2 then is_malformed op else do
      oplen ← load8 mem (frame + 1)
      if ltb len (oplen * 8) then is_malformed op else (do
        type ← load8 mem frame
        (op, _) ← switch type ((1, known op) ∷ (14, known op) ∷ []) (unknown op)
        if ltb oplen 1 then abort else rest oplen op)

pub handle_nd_neighsol : Analyzer
handle_nd_neighsol mem frame len op =
    if ltb len 20
    then is_malformed op
    else neighsol_options (len + 1) mem (frame + 20) (len - 20) op
