-- ===== src/Radiotap.antt =====
-- src/omphalos/radiotap.c: what is received of IEEE 802.11 behind a radiotap header, down to the tags
-- of management frames. The checksum that ieee80211_fcs of src/omphalos/csum.c gets from zlib is a
-- parameter. Memory can always be allocated.
pub mod Bounds
pub mod Header
pub mod Ssid
mod Examples
use omphalos.Hwaddrs.{snprintf}
use omphalos.Base.{
  ℕ, zero, suc, ◌+◌, ◌-◌, ◌*◌, ◌/◌, ◌%◌, ◌^◌, List, [], ◌∷◌, ◌++◌, Option, none, some, Bool, true,
  false, not, ltb, ◌==◌, if◌then◌else◌, Memory, Outcome, done, fault, out_of_fuel, ◌>>=◌, load8,
  load16, load16_net, load_bytes,
}
use mathlib.Core.Option
use omphalos.Packet.{
  Packet, Analyzer, is_malformed, has_noproto, ask, local_l3host, named_l3host, bit,
}
use omphalos.L3Hosts.{af_bssid}
use omphalos.Link.{l2host_at}
use omphalos.Dns.Reverse.{c_string, decimal}

-- `NAMING_LEVEL_MAX`.
abbrev pub level_max : ℕ
level_max = 7

-- `tagtbl`, with what is allocated as `some`.
abbrev pub Tags : Type 0
Tags = ℕ → Option (List ℕ)

abbrev pub no_tags : Tags
no_tags tag = none

abbrev pub set_tag : ℕ → List ℕ → Tags → Tags
set_tag tag bytes tagtbl k = if k == tag then some bytes else tagtbl k

-- The loop over the tags, of which the first of each number counts. It returns what is left of the
-- length, too.
pub mgmt_tags : ℕ → Memory → ℕ → ℕ → Tags → Outcome (Tags × ℕ)
mgmt_tags zero mem tags len tagtbl = out_of_fuel
mgmt_tags (suc fuel) mem tags len tagtbl =
    let rest = λ (size : ℕ) (t : Tags). mgmt_tags fuel mem (tags + size) (len - size) t in
    if ltb len 2 then done (tagtbl, len) else do
      taglen ← load8 mem (tags + 1)
      tag ← load8 mem tags
      if ltb len (2 + taglen) then done (tagtbl, len) else elim (tagtbl tag) [
        | some old ↦ rest (2 + taglen) tagtbl
        | none ↦ do
          bytes ← load_bytes mem (tags + 2) taglen
          rest (2 + taglen) (set_tag tag bytes tagtbl)
      ]

-- `%02u`.
pub two_digits : ℕ → List ℕ
two_digits n = if ltb n 10 then 0x30 ∷ decimal n else decimal n

-- `snprintf` with " %u.%02uGHz" of a frequency in MHz, into 10 bytes.
pub frequency_text : ℕ → List ℕ
frequency_text freq = snprintf 10 (
    (0x20 ∷ decimal (freq / 1000))
    ++ ((0x2e ∷ two_digits (freq % 1000 / 10)) ++ (0x47 ∷ 0x48 ∷ 0x7a ∷ [])))

-- `name_l3host_absolute` of the host of the sender.
pub name_sender : List ℕ → Packet → Outcome Packet
name_sender name op = elim op.l3s [
  | none ↦ fault
  | some addr ↦ done (ask (named_l3host addr name level_max) op)
]

-- Behind the loop: what is left makes the frame malformed, and an SSID names the host.
pub mgmt_name : ℕ → Packet → Tags × ℕ → Outcome Packet
mgmt_name freq op (tagtbl, left) = if not (left == 0) then is_malformed op else elim (tagtbl 0) [
  | none ↦ done op
  | some ssid ↦ name_sender (c_string (ssid ++ frequency_text freq)) op
]

pub handle_ieee80211_mgmtfix : ℕ → Analyzer
handle_ieee80211_mgmtfix freq mem frame len op = if ltb len 12 then is_malformed op else do
  tagged ← mgmt_tags (len + 1) mem (frame + 12) (len - 12) no_tags
  mgmt_name freq op tagged

module _ (iana_lookup : List ℕ → Option (List ℕ)) where
  pub handle_ieee80211_mgmt : ℕ → Analyzer
  handle_ieee80211_mgmt freq mem frame len op = if ltb len 24 then is_malformed op else do
    (l2s, op) ← l2host_at iana_lookup mem (frame + 10) op
    bssid ← load_bytes mem (frame + 16) 6
    let found : Packet = record op { l2s = l2s; l3s = some bssid }
    handle_ieee80211_mgmtfix freq mem (frame + 24) (len - 24)
        (ask (local_l3host af_bssid l2s bssid) found)

  pub handle_ieee80211_ctrl : Analyzer
  handle_ieee80211_ctrl mem frame len op =
      if ltb len 10
      then is_malformed op
      else do (l2d, op) ← l2host_at iana_lookup mem (frame + 4) op; done (record op { l2d = l2d })

  pub handle_ieee80211_data : Analyzer
  handle_ieee80211_data mem frame len op = if ltb len 24 then is_malformed op else do
    (l2d, op) ← l2host_at iana_lookup mem (frame + 16) op
    (l2s, op) ← l2host_at iana_lookup mem (frame + 10) op
    done (record op { l2d = l2d; l2s = l2s })

  -- By the type and the subtype of the control word. Probe requests are ignored.
  pub ieee80211_type : ℕ → ℕ → ℕ → Analyzer
  ieee80211_type type stype freq mem frame len op =
      if type == 0
      then (if stype == 4 then done op else handle_ieee80211_mgmt freq mem frame len op)
      else if type == 1
      then handle_ieee80211_ctrl mem frame len op
      else if type == 2
      then handle_ieee80211_data mem frame len op
      else has_noproto op

  pub handle_ieee80211_packet : ℕ → Analyzer
  handle_ieee80211_packet freq mem frame len op = if ltb len 4 then is_malformed op else do
    control ← load16_net mem frame
    if not (control / 256 % 4 == 0)
        then has_noproto op
        else ieee80211_type (control / 1024 % 4) (control / 4096) freq mem frame len op

-- Where the walk over the fields of a radiotap header is: the address of the next field, what is left
-- of the header, the length of the frame behind the header, and the alignment.
pub record HeaderWalk : Type 0 where
  pub vhdr : ℕ
  pub rlen : ℕ
  pub left : ℕ
  pub alignbit : ℕ

-- A field of `size` bytes is passed; `none` is a jump to `malformed`.
pub pass : ℕ → HeaderWalk → Option HeaderWalk
pass size w =
    if ltb w.rlen size then none else some (record w { vhdr = w.vhdr + size; rlen = w.rlen - size })

abbrev pub aligned : ℕ → HeaderWalk → HeaderWalk
aligned bits w = record w { alignbit = w.alignbit + bits }

-- The 64-bit time stamp, and the rate.
pub tsft_field : ℕ → HeaderWalk → Option HeaderWalk
tsft_field pres w = if bit pres 0 then pass 8 w else some w

pub rate_field : ℕ → HeaderWalk → Option HeaderWalk
rate_field pres w = if bit pres 2 then Option.map (aligned 8) (pass 1 w) else some w

-- A 32-bit word of the host in memory.
pub load32 : Memory → ℕ → Outcome ℕ
load32 mem p = do low ← load16 mem p; high ← load16 mem (p + 2); done (low + high * 65536)

-- The frequency of the channel, behind a byte of padding where it is not aligned.
pub channel_field : ℕ → Memory → HeaderWalk → Outcome (Option ℕ)
channel_field pres mem w =
    if not (bit pres 3)
    then done (some 0)
    else elim (if not (w.alignbit % 16 == 0) then pass 1 w else some w) [
      | none ↦ done none
      | some w ↦ if ltb w.rlen 4 then done none else (do freq ← load16 mem w.vhdr; done (some freq))
    ]

module _ (ieee80211_fcs : List ℕ → ℕ) (iana_lookup : List ℕ → Option (List ℕ)) where
  -- The checksum at the end of the frame, which is then left out of it. Where it is wrong, the frame is
  -- malformed, too.
  pub check_fcs : Memory → ℕ → ℕ → ℕ → HeaderWalk → Outcome (Option HeaderWalk)
  check_fcs mem frame olen ehdr w = if ltb w.left 4 then done none else do
    fcs ← load32 mem (frame + (olen - 4))
    bytes ← load_bytes mem ehdr (w.left - 4)
    if ieee80211_fcs bytes == fcs then done (some (record w { left = w.left - 4 })) else done none

  pub flags_field : ℕ → Memory → ℕ → ℕ → ℕ → HeaderWalk → Outcome (Option HeaderWalk)
  flags_field pres mem frame olen ehdr w =
      if not (bit pres 1) then done (some w) else if ltb w.rlen 1 then done none else do
        flags ← load8 mem w.vhdr
        let passed : HeaderWalk = record w { vhdr = w.vhdr + 1; rlen = w.rlen - 1; alignbit = 8 }
        if bit flags 4 then check_fcs mem frame olen ehdr passed else done (some passed)

  -- The fields in their order: the length of the frame behind the header, and the frequency.
  pub header_fields : ℕ → Memory → ℕ → ℕ → ℕ → HeaderWalk → Outcome (Option (ℕ × ℕ))
  header_fields pres mem frame olen ehdr w = elim (tsft_field pres w) [
    | none ↦ done none
    | some w ↦ do
      flagged ← flags_field pres mem frame olen ehdr w
      elim flagged [
        | none ↦ done none
        | some w ↦ elim (rate_field pres w) [
          | none ↦ done none
          | some w ↦ do freq ← channel_field pres mem w; done (Option.map (λ f. (w.left, f)) freq)
        ]
      ]
  ]

  pub handle_radiotap_packet : Analyzer
  handle_radiotap_packet mem frame len op = if ltb len 8 then is_malformed op else do
    version ← load8 mem frame
    if not (version == 0) then has_noproto op else (do
      rlen ← load16 mem (frame + 2)
      if ltb len rlen then is_malformed op else (do
        pres ← load32 mem (frame + 4)
        found ←
            header_fields pres mem frame len (frame + rlen)
              (record { vhdr = frame + 8; rlen = rlen; left = len - rlen; alignbit = 0 })
        elim found [
          | none ↦ is_malformed op
          | some (left, freq) ↦ handle_ieee80211_packet iana_lookup freq mem (frame + rlen) left op
        ]))
