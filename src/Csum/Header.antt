-- ===== src/Csum/Header.antt =====
-- `ipv4_csum` against the one's complement sum: its value, what it means to store it in the
-- header, and which changes of a header it finds.
use omphalos.Base.{
  store16, sum, ℕ, zero, suc, ◌+◌, ◌-◌, ◌*◌, ◌/◌, ◌%◌, ◌≤◌, ◌<◌, ◌≡◌, refl, sym, arith, ◌∙◌, ap,
  ◌≢◌, ◌↔◌, done, length, set, length-set, get_or-set_self, get_or-set_ne, Memory, IsBytes, byte_at,
  word_at, load8-done,
}
use omphalos.Base.Stores.{IsBytes-set}
use omphalos.Csum.{header_length, ipv4_csum}
use omphalos.Csum.Words.{
  words, ones_rep, ones_sum, ones_sum-eq-ones_rep, words-All16, sum-lt, sum_words-sum,
}
use omphalos.Csum.Fold.{fold_carries-done}

-- The 16-bit words of the header at `hdr`, from its `ihl` field.
abbrev pub header_words : Memory → ℕ → ℕ
header_words mem hdr = byte_at mem hdr % 16 * 2

-- The header lies in the memory.
abbrev pub HasHeader : Memory → ℕ → Type 0
HasHeader mem hdr = (hdr < length mem) × (hdr + header_words mem hdr * 2 ≤ length mem)

ipv4_csum-rep :
    (mem : Memory) (hdr : ℕ)
    → IsBytes mem
    → HasHeader mem hdr
    → ipv4_csum mem hdr ≡ done (65535 - ones_rep (sum (words mem hdr (header_words mem hdr))))
unfolding ipv4_csum header_length
ipv4_csum-rep mem hdr bytes h =
    let small = sum-lt mem hdr (header_words mem hdr) bytes in
    let half : byte_at mem hdr % 16 * 4 / 2 ≡ header_words mem hdr = omega arith in
    rw
      (
        load8-done mem hdr h.0,
        half,
        sum_words-sum mem hdr (header_words mem hdr) 0 (omega arith) (omega arith),
        fold_carries-done (0 + sum (words mem hdr (header_words mem hdr))) (omega arith),
      )
      (ground arith)

-- The checksum of a header that lies in the memory is the complement of the one's complement sum
-- of its 16-bit words, `ihl << 2` bytes of them: no read faults and the folding loop ends.
pub ipv4_csum-ones_sum :
    (mem : Memory) (hdr : ℕ)
    → IsBytes mem
    → HasHeader mem hdr
    → ipv4_csum mem hdr ≡ done (65535 - ones_sum (words mem hdr (header_words mem hdr)))
ipv4_csum-ones_sum mem hdr bytes h =
    rw (ones_sum-eq-ones_rep _ (words-All16 mem hdr (header_words mem hdr) bytes))
      (ipv4_csum-rep mem hdr bytes h)

pub length-store16 : (mem : Memory) (p v : ℕ) → length (store16 mem p v) ≡ length mem
unfolding store16
length-store16 mem p v = length-set _ (p + 1) (v / 256) ∙ length-set mem p (v % 256)

pub IsBytes-store16 : (mem : Memory) (p v : ℕ) → IsBytes mem → v < 65536 → IsBytes (store16 mem p v)
unfolding store16
IsBytes-store16 mem p v h lt =
    IsBytes-set _ (p + 1) (v / 256) (IsBytes-set mem p (v % 256) h (omega arith)) (omega arith)

pub byte_at-store16_ne :
    (mem : Memory) (p v q : ℕ) → q ≢ p → q ≢ p + 1 → byte_at (store16 mem p v) q ≡ byte_at mem q
unfolding store16
byte_at-store16_ne mem p v q ne ne' =
    get_or-set_ne (set mem p (v % 256)) (p + 1) q (v / 256) 0 (omega arith)
    ∙ get_or-set_ne mem p q (v % 256) 0 (omega arith)

pub word_at-store16 :
    (mem : Memory) (p v : ℕ) → p + 1 < length mem → word_at (store16 mem p v) p ≡ v
unfolding store16
word_at-store16 mem p v h = omega (
  arith,
  get_or-set_ne (set mem p (v % 256)) (p + 1) p (v / 256) 0 (omega arith),
  get_or-set_self mem p (v % 256) 0 (omega arith),
  get_or-set_self (set mem p (v % 256)) (p + 1) (v / 256) 0
      (rw (length-set mem p (v % 256)) (omega arith)),
)

sum-store16_before :
    (mem : Memory) (p v cur n : ℕ)
    → p + 1 < cur
    → sum (words (store16 mem p v) cur n) ≡ sum (words mem cur n)
sum-store16_before mem p v cur zero h = refl
sum-store16_before mem p v cur (suc n) h = omega (
  arith,
  byte_at-store16_ne mem p v cur (omega arith) (omega arith),
  byte_at-store16_ne mem p v (cur + 1) (omega arith) (omega arith),
  sum-store16_before mem p v (cur + 2) n (omega arith),
)

-- Replacing word `k` replaces it in the sum.
pub sum-store16 :
    (mem : Memory) (v cur k n p : ℕ)
    → p ≡ cur + 2 * k
    → k < n
    → cur + 2 * n ≤ length mem
    → sum (words (store16 mem p v) cur n) + word_at mem p ≡ sum (words mem cur n) + v
sum-store16 mem v cur k zero p e lt fits = absurd (omega arith)
sum-store16 mem v cur zero (suc n) p e lt fits =
    let at_head : p ≡ cur = omega arith in
    omega (
      arith,
      ap (word_at mem) at_head,
      ap (word_at (store16 mem p v)) at_head,
      word_at-store16 mem p v (omega arith),
      sum-store16_before mem p v (cur + 2) n (omega arith),
    )
sum-store16 mem v cur (suc k) (suc n) p e lt fits = omega (
  arith,
  byte_at-store16_ne mem p v cur (omega arith) (omega arith),
  byte_at-store16_ne mem p v (cur + 1) (omega arith) (omega arith),
  sum-store16 mem v (cur + 2) k n p (omega arith) (omega arith) (omega arith),
)

header_words-store16 :
    (mem : Memory) (hdr p v : ℕ)
    → hdr < p
    → header_words (store16 mem p v) hdr ≡ header_words mem hdr
header_words-store16 mem hdr p v h =
    omega (arith, byte_at-store16_ne mem p v hdr (omega arith) (omega arith))

HasHeader-store16 :
    (mem : Memory) (hdr p v : ℕ) → hdr < p → HasHeader mem hdr → HasHeader (store16 mem p v) hdr
HasHeader-store16 mem hdr p v lt h =
    omega (arith, header_words-store16 mem hdr p v lt, length-store16 mem p v)

-- The words of a header that is not empty have a positive sum.
sum-words-pos : (mem : Memory) (hdr n : ℕ) → 0 < byte_at mem hdr → 0 < n → 0 < sum (words mem hdr n)
sum-words-pos mem hdr zero h lt = absurd (omega arith)
sum-words-pos mem hdr (suc n) h lt = omega arith

-- The checksum of a header after word `k`, at `p`, was replaced by `v`.
module _ (mem : Memory) (hdr k p v : ℕ) (bytes : IsBytes mem) (at : p ≡ hdr + 2 * k)
    (not_first : 0 < k) (inside : k < header_words mem hdr) (small : v < 65536)
    (h : HasHeader mem hdr) where
  abbrev total : ℕ
  total = sum (words mem hdr (header_words mem hdr))

  abbrev total_after : ℕ
  total_after = sum (words (store16 mem p v) hdr (header_words mem hdr))

  total_after-eq : total_after + word_at mem p ≡ total + v
  total_after-eq = sum-store16 mem v hdr k (header_words mem hdr) p at inside (omega arith)

  total_after-pos : 0 < total_after
  total_after-pos =
      sum-words-pos (store16 mem p v) hdr (header_words mem hdr)
        (omega (arith, byte_at-store16_ne mem p v hdr (omega arith) (omega arith))) (omega arith)

  csum_after : ipv4_csum (store16 mem p v) hdr ≡ done (65535 - ones_rep total_after)
  csum_after = rw (← header_words-store16 mem hdr p v (omega arith)) (
      ipv4_csum-rep (store16 mem p v) hdr (IsBytes-store16 mem p v bytes small)
        (HasHeader-store16 mem hdr p v (omega arith) h))

done-injective : {a b : ℕ} → done a ≡ done b → a ≡ b
done-injective e = cc

ones_rep-full : (t : ℕ) → 0 < t → (65535 - ones_rep t ≡ 0) ↔ (t % 65535 ≡ 0)
ones_rep-full t h = ground arith

-- A header whose checksum field (bytes 10 and 11) is zero gets a checksum that, stored in the
-- field, makes the checksum of the whole header zero, which is what `handle_ipv4_packet` accepts.
pub ipv4_csum-store :
    (mem : Memory) (hdr c : ℕ)
    → IsBytes mem
    → HasHeader mem hdr
    → 5 < header_words mem hdr
    → word_at mem (hdr + 10) ≡ 0
    → ipv4_csum mem hdr ≡ done c
    → ipv4_csum (store16 mem (hdr + 10) c) hdr ≡ done 0
ipv4_csum-store mem hdr c bytes h long blank computed =
    let value : c ≡ 65535 - ones_rep (sum (words mem hdr (header_words mem hdr))) =
      done-injective (sym computed ∙ ipv4_csum-rep mem hdr bytes h) in
    let p = hdr + 10 in
    let pos = total_after-pos mem hdr 5 p c bytes refl (omega arith) long (omega arith) h in
    let after = total_after-eq mem hdr 5 p c bytes refl (omega arith) long (omega arith) h in
    csum_after mem hdr 5 p c bytes refl (omega arith) long (omega arith) h
    ∙ ap done ((ones_rep-full _ pos).1 (ground arith))

-- In a header whose checksum is zero, a change of one word other than the first goes unnoticed
-- only if it exchanges 0 and 65535, the two forms of zero in one's complement.
pub ipv4_csum-detects :
    (mem : Memory) (hdr k v : ℕ)
    → IsBytes mem
    → HasHeader mem hdr
    → 0 < k
    → k < header_words mem hdr
    → v < 65536
    → ipv4_csum mem hdr ≡ done 0
    → (ipv4_csum (store16 mem (hdr + 2 * k) v) hdr ≡ done 0)
      ↔ (v % 65535 ≡ word_at mem (hdr + 2 * k) % 65535)
ipv4_csum-detects mem hdr k v bytes h not_first inside small valid =
    let p = hdr + 2 * k in
    let pos = total_after-pos mem hdr k p v bytes refl not_first inside small h in
    let eq = total_after-eq mem hdr k p v bytes refl not_first inside small h in
    let csum = csum_after mem hdr k p v bytes refl not_first inside small h in
    let before = done-injective (sym (ipv4_csum-rep mem hdr bytes h) ∙ valid) in
    (
      λ e. let zero_after = done-injective (sym csum ∙ e) in ground arith,
      λ e. csum ∙ ap done ((ones_rep-full _ pos).1 (ground arith)),
    )
