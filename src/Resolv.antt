-- ===== src/Resolv.antt =====
-- src/omphalos/resolv.c: the name servers that are known, by family, the queries for a name, and the
-- name servers of a configuration file. Addresses are lists of bytes. A line of the file is what
-- `fgetl` of src/omphalos/util.c returns, with its newline where it has one. Locks and events are left
-- out. Memory can always be allocated.
pub mod Servers
pub mod Conf
mod Examples
use omphalos.Base.{
  ℕ, ◌-◌, ◌^◌, bit_or, Bool, true, false, not, ◌&&◌, ◌||◌, ltb, leb, ◌==◌, if◌then◌else◌, List, [],
  ◌∷◌, length, take, drop, Option, none, some, Outcome, done, fault, ◌>>=◌,
}
use omphalos.Hwaddrs.{same_bytes}
use omphalos.Packet.{af_inet, af_inet6}
use omphalos.L3Hosts.{L3Host}
use omphalos.Dns.Reverse.{same_text, inet_pton4}

pub record Resolvers : Type 0 where
  pub resolvers : List (List ℕ)
  pub resolvers6 : List (List ℕ)

-- The loop that looks for an address.
pub is_known : List ℕ → List (List ℕ) → Bool
is_known addr [] = false
is_known addr (r ∷ rs) = if same_bytes r addr then true else is_known addr rs

pub offer_to : List ℕ → List (List ℕ) → List (List ℕ)
offer_to addr rs = if is_known addr rs then rs else addr ∷ rs

pub offer_nameserver : ℕ → List ℕ → Resolvers → Resolvers
offer_nameserver nsfam nameserver rs =
    if nsfam == af_inet
    then record rs { resolvers = offer_to nameserver rs.resolvers }
    else if nsfam == af_inet6
    then record rs { resolvers6 = offer_to nameserver rs.resolvers6 }
    else rs

-- The query to the first of some name servers, or the result so far.
pub query_first : (ℕ → List ℕ → List ℕ → ℕ) → ℕ → List ℕ → List (List ℕ) → ℕ → ℕ
query_first dnsfxn fam rev [] ret = ret
query_first dnsfxn fam rev (server ∷ rs) ret = dnsfxn fam server rev

-- The result is 0 where no query fails. The question also goes to the link by multicast, whose result
-- is `mdns`.
pub queue_for_naming : (ℕ → List ℕ → List ℕ → ℕ) → ℕ → Resolvers → L3Host → List ℕ → ℕ
queue_for_naming dnsfxn mdns rs l3 revstr =
    let ret =
      if ltb l3.nlevel 2
      then query_first dnsfxn af_inet6 revstr rs.resolvers6
          (query_first dnsfxn af_inet revstr rs.resolvers 0)
      else 0 in
    bit_or ret mdns

-- "nameserver"
abbrev pub nstoken : List ℕ
nstoken = 110 ∷ 97 ∷ 109 ∷ 101 ∷ 115 ∷ 101 ∷ 114 ∷ 118 ∷ 101 ∷ 114 ∷ []

pub isspace : ℕ → Bool
isspace c = (c == 0x20) || (leb 9 c && leb c 13)

pub skip_spaces : List ℕ → List ℕ
skip_spaces [] = []
skip_spaces (c ∷ line) = let rest = skip_spaces line in if isspace c then rest else c ∷ line

-- `nl = strchr(line,'\n'); *nl = '\0'`: what is in front of the newline. Without a newline the NUL is
-- written through the null pointer.
pub cut_newline : List ℕ → Outcome (List ℕ)
cut_newline [] = fault
cut_newline (c ∷ line) =
    let rest = cut_newline line in if c == 10 then done [] else do text ← rest; done (c ∷ text)

-- A text that starts with '[' is no IPv6 address to `inet_pton`, since no address has a bracket.
pub parse_address : List ℕ → Option (List ℕ)
parse_address [] = inet_pton4 []
parse_address (c ∷ text) = if c == 0x5b then none else inet_pton4 (c ∷ text)

-- What is behind the token.
pub parse_value : List ℕ → Outcome (Option (List ℕ))
parse_value [] = done none
parse_value (c ∷ line) =
    if isspace c
    then (do text ← cut_newline (skip_spaces line); done (parse_address text))
    else done none

pub parse_token : List ℕ → Outcome (Option (List ℕ))
parse_token [] = done none
parse_token (c ∷ line) =
    if c == 0x23
    then done none
    else if same_text (take 10 (c ∷ line)) nstoken
    then parse_value (drop 10 (c ∷ line))
    else done none

-- A line: the address that it gives, if any.
pub parse_line : List ℕ → Outcome (Option (List ℕ))
parse_line line = parse_token (skip_spaces line)

abbrev pub push : Option (List ℕ) → List (List ℕ) → List (List ℕ)
push none revs = revs
push (some addr) revs = addr ∷ revs

-- The loop over the lines.
pub parse_lines : List (List ℕ) → List (List ℕ) → Outcome (List (List ℕ))
parse_lines [] revs = done revs
parse_lines (line ∷ lines) revs = do addr ← parse_line line; parse_lines lines (push addr revs)

-- The file that can be opened, and whether `errno` is set behind the loop: the name servers for IPv4
-- are those of the file, or they are left as they were. The result is 0, or `2 ^ 32 - 1` for -1.
pub parse_resolv_conf : Bool → List (List ℕ) → Resolvers → Outcome (Resolvers × ℕ)
parse_resolv_conf errno lines rs = do
  revs ← parse_lines lines []
  if errno then done (rs, 2 ^ 32 - 1) else done (record rs { resolvers = revs }, 0)
