-- ===== src/Dns/Services.antt =====
-- `match_srv_proto` and `process_srv_lookup` of src/omphalos/dns.c: the service that a name stands
-- for. A string is the list of its bytes in front of the NUL. `mbtowc` of the C library is a
-- parameter: from the bytes at hand it makes a wide character and says how many bytes that takes, or
-- it fails. At the NUL it makes the NUL out of no bytes.
use omphalos.Base.{
  ℕ, zero, suc, ◌+◌, ◌-◌, Bool, true, false, not, ◌||◌, ◌==◌, if◌then◌else◌, List, [], ◌∷◌, ◌++◌,
  length, take, drop, Option, none, some,
}
use omphalos.Dns.Name.{dot}
use omphalos.Dns.Reverse.{same_text}

abbrev pub udp_srv : List ℕ
udp_srv = 95 ∷ 117 ∷ 100 ∷ 112 ∷ 46 ∷ []

abbrev pub tcp_srv : List ℕ
tcp_srv = 95 ∷ 116 ∷ 99 ∷ 112 ∷ 46 ∷ []

abbrev pub sdudp_srv : List ℕ
sdudp_srv = 95 ∷ 100 ∷ 110 ∷ 115 ∷ 45 ∷ 115 ∷ 100 ∷ 46 ∷ udp_srv

-- `strncmp(buf, prefix, strlen(prefix)) == 0`
pub starts_with : List ℕ → List ℕ → Bool
starts_with buf prefix = same_text (take (length prefix) buf) prefix

-- The bytes that match, the protocol, and whether `*add` is set.
pub match_srv_proto : List ℕ → Option (ℕ × (ℕ × Bool))
match_srv_proto buf =
    if starts_with buf udp_srv
    then some (length udp_srv, (17, true))
    else if starts_with buf tcp_srv
    then some (length tcp_srv, (6, true))
    else if starts_with buf sdudp_srv
    then some (length sdudp_srv, (17, false))
    else none

abbrev pub at_dot : List ℕ → Bool
at_dot [] = false
at_dot (c ∷ buf) = c == dot

abbrev pub skip_underscore : List ℕ → List ℕ
skip_underscore [] = []
skip_underscore (c ∷ buf) = if c == 0x5f then buf else c ∷ buf

abbrev pub is_empty : List ℕ → Bool
is_empty [] = true
is_empty (c ∷ text) = false

pub record Srv : Type 0 where
  pub name : List ℕ
  pub prot : ℕ
  pub port : ℕ
  pub add : Bool

module _ (mbtowc : List ℕ → Option (ℕ × ℕ)) where
  -- The loop over a label, with room for `left` more characters: the label in wide characters and
  -- the text behind it, or nothing where there is no more room.
  pub srv_label : ℕ → List ℕ → List ℕ → Option (List ℕ × List ℕ)
  srv_label zero name buf = none
  srv_label (suc left) name buf = if at_dot buf then some (name, buf) else elim (mbtowc buf) [
    | none ↦ some (name, buf)
    | some (w, conv) ↦ if left == 0 then none else srv_label left (name ++ w ∷ []) (drop conv buf)
  ]

  -- The loop over the labels, `name` being the last with the dot behind it. Each round takes a dot
  -- off the text, so that a round for each byte is enough.
  pub srv_labels : ℕ → List ℕ → List ℕ → Option Srv
  srv_labels zero name buf = none
  srv_labels (suc rounds) name buf = elim (match_srv_proto buf) [
    | some (_, (prot, add)) ↦
        if is_empty name
        then none
        else some (record { name = take (length name - 1) name; prot = prot; port = 0; add = add })
    | none ↦ elim (srv_label 63 [] (skip_underscore buf)) [
      | none ↦ none
      | some (label, rest) ↦
          if not (at_dot rest) || (length rest == length (skip_underscore buf))
          then none
          else elim (mbtowc (take 1 rest)) [
            | none ↦ none
            | some (w, conv) ↦
                if conv == 1 then srv_labels rounds (label ++ w ∷ []) (drop 1 rest) else none
          ]
    ]
  ]

  pub process_srv_lookup : List ℕ → Option Srv
  process_srv_lookup buf = srv_labels (length buf + 1) [] buf
