-- ===== src/Ietf/Multicast.antt =====
-- Which addresses ietf_multicast_lookup names, and how.
use Prim.Native.String.{String}
use omphalos.Base.{
  ℕ, zero, suc, ◌*◌, ◌/◌, ◌%◌, ◌^◌, ◌≤◌, ◌<◌, ◌≡◌, refl, ap, ◌∙◌, sym, arith, List, [], ◌∷◌, ◌++◌,
  Option, none, some, Bool, true, false, ◌&&◌, ◌==◌, if◌then◌else◌, Bool-cases, inl, inr, bit_and,
  take, drop, replicate, length,
}
use omphalos.Base.Text.{wide}
use omphalos.Base.Bits.{bit_and-high_mask}
use omphalos.Hwaddrs.{same_bytes}
use omphalos.Netaddrs.Lists.{same_bytes_refl}
use omphalos.Packet.{af_inet, af_inet6}
use omphalos.Dns.Reverse.{net_long}
use omphalos.Ietf
use omphalos.Ietf.{equal128masked, mcast_from, ip6mcasts, in_block}

-- The mask of the source takes three bits of an address, not four.
block_of :
    (a b c d : ℕ)
    → a < 256
    → b < 256
    → c < 256
    → d < 256
    → in_block (net_long (a ∷ b ∷ c ∷ d ∷ []) 0) 0xe0000000 0xe0000000 ≡ (a / 32 == 7)
unfolding net_long
block_of a b c d la lb lc ld =
    let ip : ℕ = net_long (a ∷ b ∷ c ∷ d ∷ []) 0 in
    let high : ip / 2 ^ 29 % 8 ≡ a / 32 = omega arith in
    let masked : bit_and ip 0xe0000000 ≡ a / 32 * 2 ^ 29 =
      bit_and-high_mask 3 29 ip ∙ ap (λ h. h * 2 ^ 29) high in
    rw masked (ground arith)

-- There is a name.
abbrev pub IsNamed : Option (List ℕ) → Type 0
IsNamed r = (name : List ℕ) × (r ≡ some name)

block-IsNamed :
    (p q r : Bool) (x y z w : List ℕ)
    → IsNamed (if p then some x else if q then some y else if r then some z else some w)
block-IsNamed true q r x y z w = (x, refl)
block-IsNamed false true r x y z w = (y, refl)
block-IsNamed false false true x y z w = (z, refl)
block-IsNamed false false false x y z w = (w, refl)

length-take_eq :
    (n : ℕ) (a b : List ℕ) → length a ≡ length b → length (take n a) ≡ length (take n b)
length-take_eq zero a b e = refl
length-take_eq (suc n) [] [] e = refl
length-take_eq (suc n) [] (y ∷ b) e = absurd (grind arith)
length-take_eq (suc n) (x ∷ a) [] e = absurd (grind arith)
length-take_eq (suc n) (x ∷ a) (y ∷ b) e = ap suc (length-take_eq n a b (ground arith))

same_bytes-same_tail :
    (a b t : List ℕ) → length a ≡ length b → same_bytes (a ++ t) (b ++ t) ≡ same_bytes a b
unfolding same_bytes
same_bytes-same_tail [] [] t e = same_bytes_refl t
same_bytes-same_tail [] (y ∷ b) t e = absurd (grind arith)
same_bytes-same_tail (x ∷ a) [] t e = absurd (grind arith)
same_bytes-same_tail (x ∷ a) (y ∷ b) t e =
    ap (λ r. (x == y) && r) (same_bytes-same_tail a b t (ground arith))

pub equal128masked-take :
    (v1 v2 : List ℕ) (n : ℕ)
    → length v1 ≡ 16
    → length v2 ≡ 16
    → equal128masked v1 v2 n ≡ same_bytes (take n v1) (take n v2)
unfolding equal128masked
equal128masked-take v1 v2 n e1 e2 =
    same_bytes-same_tail (take n v1) (take n v2) (drop n (replicate 16 0))
      (length-take_eq n v1 v2 (e1 ∙ sym e2))

-- The first entry of which the address has the octets that count.
pub prefix_name : List (List ℕ × (ℕ × String)) → List ℕ → List ℕ
prefix_name [] ip = wide "RFC 4291 multicast"
prefix_name ((addr, (octets, name)) ∷ mcasts) ip =
    let rest = prefix_name mcasts ip in
    if same_bytes (take octets ip) (take octets addr) then wide name else rest

-- The entries in front of the first without a name.
pub before_unnamed : List (List ℕ × (ℕ × Option String)) → List (List ℕ × (ℕ × String))
before_unnamed [] = []
before_unnamed ((addr, (octets, none)) ∷ mcasts) = []
before_unnamed ((addr, (octets, some name)) ∷ mcasts) =
    (addr, (octets, name)) ∷ before_unnamed mcasts

AllWhole : List (List ℕ × (ℕ × Option String)) → Type 0
AllWhole [] = Unit {0}
AllWhole (entry ∷ mcasts) = (length entry.0 ≡ 16) × AllWhole mcasts

mcast_from-prefix_name :
    (mcasts : List (List ℕ × (ℕ × Option String))) (ip : List ℕ)
    → AllWhole mcasts
    → length ip ≡ 16
    → mcast_from mcasts ip ≡ prefix_name (before_unnamed mcasts) ip
unfolding mcast_from prefix_name before_unnamed AllWhole
mcast_from-prefix_name [] ip h e = refl
mcast_from-prefix_name ((addr, (octets, none)) ∷ mcasts) ip h e = refl
mcast_from-prefix_name ((addr, (octets, some name)) ∷ mcasts) ip h e =
    rw (equal128masked-take ip addr octets e h.0, mcast_from-prefix_name mcasts ip h.1 e) refl

ip6mcasts-AllWhole : AllWhole ip6mcasts
unfolding AllWhole ip6mcasts
ip6mcasts-AllWhole = ground arith

-- An IPv6 address, of 16 bytes, is named if and only if its first byte is 255: by the first entry of the table of
-- which the address has the octets that count, or in general. Of the table only the entries in front of
-- the first without a name are used.
pub ietf_multicast_lookup-prefix_name :
    (a : ℕ) (ip : List ℕ)
    → length ip ≡ 15
    → Ietf.ietf_multicast_lookup af_inet6 (a ∷ ip)
      ≡ (if a == 0xff then some (prefix_name (before_unnamed ip6mcasts) (a ∷ ip)) else none)
unfolding Ietf.ietf_multicast_lookup Ietf.ietf_multicast_ipv6
ietf_multicast_lookup-prefix_name a ip e = elim (Bool-cases (a == 0xff)) [
  | inl multicast ↦
      rw (multicast, mcast_from-prefix_name ip6mcasts (a ∷ ip) ip6mcasts-AllWhole (ap suc e)) refl
  | inr other ↦ rw other refl
]

-- An IPv4 address has a name if its first byte is 224 at least, and otherwise none: all addresses of
-- 240.0.0.0/4 have one, too.
pub ietf_multicast_lookup-block :
    (a b c d : ℕ)
    → a < 256
    → b < 256
    → c < 256
    → d < 256
    → ((a < 224 → Ietf.ietf_multicast_lookup af_inet (a ∷ b ∷ c ∷ d ∷ []) ≡ none)
        × (224 ≤ a → IsNamed (Ietf.ietf_multicast_lookup af_inet (a ∷ b ∷ c ∷ d ∷ []))))
unfolding Ietf.ietf_multicast_lookup Ietf.ietf_multicast_ipv4
ietf_multicast_lookup-block a b c d la lb lc ld =
    let ip : ℕ = net_long (a ∷ b ∷ c ∷ d ∷ []) 0 in
    let block = block_of a b c d la lb lc ld in
    (
      λ low. let outside : (a / 32 == 7) ≡ false = ground arith in rw (block, outside) refl,
      λ high.
          let in_it : (a / 32 == 7) ≡ true = ground arith in
          rw (block, in_it)
            (block-IsNamed (in_block ip 0xffffff00 0xe0000000) (in_block ip 0xffffff00 0xe0000100)
              (in_block ip 0xffffff00 0xefffff00) _ _ _ _),
    )
