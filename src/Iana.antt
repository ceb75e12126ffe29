-- ===== src/Iana.antt =====
-- src/omphalos/iana.c: the trie of vendors by the first three bytes of a hardware address, the file
-- that it is loaded from, and the names of multicast addresses. A line of the file is what `fgetl` of
-- src/omphalos/util.c returns, in front of the NUL. `mbstowcs` of the C library is a parameter. Memory
-- can always be allocated.
pub mod Trie
pub mod Load
mod Examples
use omphalos.Base.{
  ℕ, zero, suc, ◌+◌, ◌-◌, ◌*◌, ◌/◌, ◌%◌, ◌^◌, Bool, true, false, not, ◌&&◌, ◌||◌, ltb, ◌==◌,
  if◌then◌else◌, List, [], ◌∷◌, length, get_or, take, Option, none, some,
}
use omphalos.Hwaddrs.{Rtn, multicast, categorize_ethaddr, same_bytes}
use omphalos.Dns.Reverse.{is_xdigit, xdigit_value}
use omphalos.Resolv.{isspace, skip_spaces}

-- A name: one that was loaded, or one of the texts of the source.
pub data Name : Type 0 where
  loaded : List ℕ → Name
  rfc2464_ipv6_multicast rfc4862_link_local_solicitation ieee802_locally_assigned : Name
  rfc1112_ipv4_multicast inter_switch_link cisco_cdp shared_spanning_tree spanning_tree : Name
  ethernet_pause ethernet_oam provider_bridge_stp link_layer_discovery ieee1905_discovery : Name
  fddi_directed_beacon fddi_status_report dec_maintenance ethernet_configuration_test : Name

-- An `ouitrie`, with the null pointer as `none`, and the trie, three of them deep.
abbrev pub Table {ℓ} : Type ℓ → Type ℓ
Table A = ℕ → Option A

abbrev pub Trie : Type 0
Trie = Table (Table (Table Name))

-- `t->next[k] = a`.
pub put_entry {ℓ} : {A : Type ℓ} → Table A → ℕ → A → Table A
put_entry t k a j = if j == k then some a else t j

-- `make_oui`, which may put_entry a value everywhere.
pub make_oui {ℓ} : {A : Type ℓ} → Option A → Table A
make_oui broadcast k = broadcast

-- The table that is there, or a new one.
pub or_new {ℓ} : {A : Type ℓ} → Option (Table A) → Table A
or_new none = make_oui none
or_new (some t) = t

pub below {ℓ} : {A : Type ℓ} → Option (Table A) → ℕ → Option A
below none k = none
below (some t) k = t k

-- An entry is not replaced.
pub keep_entry : Table Name → ℕ → Name → Table Name
keep_entry c k name = elim (c k) [ none ↦ put_entry c k name | some _ ↦ c ]

-- The bytes of a prefix.
abbrev pub key2 : ℕ → ℕ
key2 hex = hex / 65536 % 256

abbrev pub key1 : ℕ → ℕ
key1 hex = hex / 256 % 256

abbrev pub key0 : ℕ → ℕ
key0 hex = hex % 256

pub insert_oui : ℕ → Name → Trie → Trie
insert_oui hex name trie =
    let cur = or_new (trie (key2 hex)) in
    let c = or_new (cur (key1 hex)) in
    put_entry trie (key2 hex) (put_entry cur (key1 hex) (keep_entry c (key0 hex) name))

-- Digits behind a number, and the text behind them.
pub hex_digits : ℕ → List ℕ → ℕ × List ℕ
hex_digits n [] = (n, [])
hex_digits n (c ∷ text) =
    let rest = hex_digits (n * 16 + xdigit_value c) text in
    if is_xdigit c then rest else (n, c ∷ text)

-- `strtoul(text, &end, 16)` of a text that starts with a digit: the number, which stays too large
-- where it is, and the text behind it. One "0x" in front is skipped, where a digit is behind it.
pub strtoul_end : List ℕ → ℕ × List ℕ
strtoul_end (c ∷ x ∷ d ∷ text) =
    if c == 0x30 && (x == 0x78 || x == 0x58) && is_xdigit d
    then hex_digits 0 (d ∷ text)
    else hex_digits 0 (c ∷ x ∷ d ∷ text)
strtoul_end text = hex_digits 0 text

-- The text in front of a newline or a carriage return.
pub up_to_newline : List ℕ → List ℕ
up_to_newline [] = []
up_to_newline (c ∷ text) =
    let rest = up_to_newline text in if c == 10 || c == 13 then [] else c ∷ rest

-- A line: the prefix and the text of the name, where the line has them.
pub parse_oui_line : List ℕ → Option (ℕ × List ℕ)
parse_oui_line line =
    let hexstart = skip_spaces line in
    let hex = (strtoul_end hexstart).0 in
    let end = (strtoul_end hexstart).1 in
    let name = up_to_newline (skip_spaces end) in
    if not (is_xdigit (get_or hexstart 0 0))
    then none
    else if ltb (2 ^ 24 - 1) hex
    then none
    else if not (isspace (get_or end 0 0)) || (length end == length hexstart)
    then none
    else if not (length hexstart - length end == 6)
    then none
    else if length name == 0
    then none
    else some (hex, name)

module _ (mbstowcs : List ℕ → List ℕ) where
  pub note : Option (ℕ × List ℕ) → Trie → Trie
  note none trie = trie
  note (some (hex, name)) trie = insert_oui hex (loaded (mbstowcs name)) trie

  -- The loop over the lines.
  pub parse_oui_lines : List (List ℕ) → Trie → Trie
  parse_oui_lines [] trie = trie
  parse_oui_lines (line ∷ lines) trie = parse_oui_lines lines (note (parse_oui_line line) trie)

  -- Whether the file can be opened and is read without an error: the trie, and 0, or `2 ^ 32 - 1` for -1.
  pub parse_file : Bool → Bool → List (List ℕ) → Trie → Trie × ℕ
  parse_file opens reads lines trie =
      if not opens
      then (trie, 2 ^ 32 - 1)
      else (parse_oui_lines lines trie, if reads then 0 else 2 ^ 32 - 1)

-- What `init_iana_naming` puts into the trie in front of the file.
pub init_trie : Trie → Trie
init_trie trie =
    let path =
      put_entry (make_oui (some rfc2464_ipv6_multicast)) 0xff rfc4862_link_local_solicitation in
    put_entry trie 0x33 (put_entry (make_oui none) 0x33 path)

-- The first bytes of an address, and what it is called.
pub mcasts : List (List ℕ × Name)
mcasts =
    (0x01 ∷ 0x00 ∷ 0x5e ∷ [], rfc1112_ipv4_multicast)
    ∷ (0x01 ∷ 0x00 ∷ 0x5e ∷ 0x00 ∷ 0x00 ∷ [], inter_switch_link)
    ∷ (0x01 ∷ 0x00 ∷ 0x0c ∷ 0xcc ∷ 0xcc ∷ 0xcc ∷ [], cisco_cdp)
    ∷ (0x01 ∷ 0x00 ∷ 0x0c ∷ 0xcc ∷ 0xcc ∷ 0xcd ∷ [], shared_spanning_tree)
    ∷ (0x01 ∷ 0x80 ∷ 0xc2 ∷ 0x00 ∷ 0x00 ∷ 0x00 ∷ [], spanning_tree)
    ∷ (0x01 ∷ 0x80 ∷ 0xc2 ∷ 0x00 ∷ 0x00 ∷ 0x01 ∷ [], ethernet_pause)
    ∷ (0x01 ∷ 0x80 ∷ 0xc2 ∷ 0x00 ∷ 0x00 ∷ 0x02 ∷ [], ethernet_oam)
    ∷ (0x01 ∷ 0x80 ∷ 0xc2 ∷ 0x00 ∷ 0x00 ∷ 0x08 ∷ [], provider_bridge_stp)
    ∷ (0x01 ∷ 0x80 ∷ 0xc2 ∷ 0x00 ∷ 0x00 ∷ 0x0e ∷ [], link_layer_discovery)
    ∷ (0x01 ∷ 0x80 ∷ 0xc2 ∷ 0x00 ∷ 0x00 ∷ 0x13 ∷ [], ieee1905_discovery)
    ∷ (0x01 ∷ 0x80 ∷ 0xc2 ∷ 0x00 ∷ 0x10 ∷ 0x00 ∷ [], fddi_directed_beacon)
    ∷ (0x01 ∷ 0x80 ∷ 0xc2 ∷ 0x00 ∷ 0x10 ∷ 0x10 ∷ [], fddi_status_report)
    ∷ (0x03 ∷ 0x00 ∷ 0x0c ∷ 0x00 ∷ 0x00 ∷ [], inter_switch_link)
    ∷ (0xab ∷ 0x00 ∷ 0x00 ∷ 0x02 ∷ 0x00 ∷ 0x00 ∷ [], dec_maintenance)
    ∷ (0xcf ∷ 0x00 ∷ 0x00 ∷ 0x00 ∷ 0x00 ∷ 0x00 ∷ [], ethernet_configuration_test)
    ∷ []

pub name_from : List (List ℕ × Name) → List ℕ → Option Name
name_from [] mac = none
name_from ((bytes, name) ∷ rest) mac =
    let others = name_from rest mac in
    if same_bytes (take (length bytes) mac) bytes then some name else others

pub name_ethmcastaddr : List ℕ → Option Name
name_ethmcastaddr = name_from mcasts

-- The name of an address of which no vendor shares the first two bytes.
pub unlisted : List ℕ → Option Name
unlisted oui = elim (categorize_ethaddr oui) [
  | multicast ↦ name_ethmcastaddr oui
  | _ ↦ if get_or oui 0 0 / 2 % 2 == 1 then some ieee802_locally_assigned else none
]

-- `oui` is the whole address, and its length is `addrlen`.
pub iana_lookup : Trie → List ℕ → Option Name
iana_lookup trie oui =
    if not (length oui == 6) then none else elim (below (trie (get_or oui 0 0)) (get_or oui 1 0)) [
      | some t ↦ t (get_or oui 2 0)
      | none ↦ unlisted oui
    ]
