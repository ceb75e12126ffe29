-- ===== src/Radiotap/Ssid.antt =====
-- The tags of a management frame, and the name that the SSID makes.
use omphalos.Base.{
  ℕ, zero, suc, ◌+◌, ◌-◌, ◌≤◌, ◌<◌, ◌≡◌, refl, ap, ◌∙◌, sym, arith, List, [], ◌∷◌, ◌++◌, Option,
  none, some, false, ltb, ◌==◌, if◌then◌else◌, Bool-cases, inl, inr, length, drop, Memory, done,
  length-append, append_assoc,
}
use omphalos.Packet.{Packet, ask, named_l3host}
use omphalos.Dns.Reverse.{c_string}
use omphalos.Dns.Name.Reading.{load8-at, load_bytes-at, drop-next, drop-skip}
use omphalos.Radiotap
use omphalos.Radiotap.{Tags, no_tags, set_tag, frequency_text, level_max}

-- Tags as a frame has them: a number, a length, and bytes.
abbrev pub encode_tags : List (ℕ × List ℕ) → List ℕ
encode_tags [] = []
encode_tags ((tag, bytes) ∷ ts) = tag ∷ length bytes ∷ (bytes ++ encode_tags ts)

-- The bytes of the first tag with a number.
abbrev pub first_tag : ℕ → List (ℕ × List ℕ) → Option (List ℕ)
first_tag k [] = none
first_tag k ((tag, bytes) ∷ ts) = if k == tag then some bytes else first_tag k ts

abbrev or_first : Option (List ℕ) → Option (List ℕ) → Option (List ℕ)
or_first none other = other
or_first (some bytes) other = some bytes

-- A table with a tag that may be there already.
abbrev with_tag : Option (List ℕ) → ℕ → List ℕ → Tags → Tags
with_tag none tag bytes t = set_tag tag bytes t
with_tag (some old) tag bytes t = t

abbrev with_tags : List (ℕ × List ℕ) → Tags → Tags
with_tags [] t = t
with_tags ((tag, bytes) ∷ ts) t = with_tags ts (with_tag (t tag) tag bytes t)

with_tag-lookup :
    (r : Option (List ℕ)) (tag : ℕ) (bytes : List ℕ) (t : Tags) (k : ℕ) (other : Option (List ℕ))
    → t tag ≡ r
    → or_first (with_tag r tag bytes t k) other
      ≡ or_first (t k) (if k == tag then some bytes else other)
with_tag-lookup none tag bytes t k other e = elim (Bool-cases (k == tag)) [
  | inl same ↦ let eq : k ≡ tag = ground arith in rw (same, eq, e) refl
  | inr ne ↦ rw ne refl
]
with_tag-lookup (some old) tag bytes t k other e = elim (Bool-cases (k == tag)) [
  | inl same ↦ let eq : k ≡ tag = ground arith in rw (same, eq, e) refl
  | inr ne ↦ rw ne refl
]

or_first-none : (r : Option (List ℕ)) → r ≡ or_first r none
or_first-none none = refl
or_first-none (some bytes) = refl

with_tags-lookup :
    (ts : List (ℕ × List ℕ)) (t : Tags) (k : ℕ) → with_tags ts t k ≡ or_first (t k) (first_tag k ts)
with_tags-lookup [] t k = or_first-none (t k)
with_tags-lookup ((tag, bytes) ∷ ts) t k =
    with_tags-lookup ts (with_tag (t tag) tag bytes t) k
    ∙ with_tag-lookup (t tag) tag bytes t k (first_tag k ts) refl

module _ (mem : Memory) where
  -- A round of the loop, whether the tag is there already or not.
  mgmt_tags-step :
      (r : Option (List ℕ)) (fuel p len tag : ℕ) (bytes : List ℕ) (t : Tags) (rest : List ℕ)
      → t tag ≡ r
      → 2 + length bytes ≤ len
      → drop p mem ≡ tag ∷ length bytes ∷ (bytes ++ rest)
      → Radiotap.mgmt_tags (suc fuel) mem p len t
        ≡ Radiotap.mgmt_tags fuel mem
            (p + (2 + length bytes))
            (len - (2 + length bytes))
            (with_tag r tag bytes t)
  unfolding Radiotap.mgmt_tags
  mgmt_tags-step none fuel p len tag bytes t rest there fits e =
      let more : ltb len 2 ≡ false = ground arith in
      let whole : ltb len (2 + length bytes) ≡ false = ground arith in
      let size_at = drop-next mem p tag (length bytes ∷ (bytes ++ rest)) e in
      let bytes_at = drop-skip mem p (tag ∷ length bytes ∷ []) (bytes ++ rest) e in
      rw
        (
          more,
          load8-at mem (p + 1) (length bytes) (bytes ++ rest) size_at,
          load8-at mem p tag (length bytes ∷ (bytes ++ rest)) e,
          whole,
          there,
          load_bytes-at mem (p + 2) bytes rest bytes_at,
        )
        refl
  mgmt_tags-step (some old) fuel p len tag bytes t rest there fits e =
      let more : ltb len 2 ≡ false = ground arith in
      let whole : ltb len (2 + length bytes) ≡ false = ground arith in
      let size_at = drop-next mem p tag (length bytes ∷ (bytes ++ rest)) e in
      rw
        (
          more,
          load8-at mem (p + 1) (length bytes) (bytes ++ rest) size_at,
          load8-at mem p tag (length bytes ∷ (bytes ++ rest)) e,
          whole,
          there,
        )
        refl

  mgmt_tags-end : (fuel p : ℕ) (t : Tags) → Radiotap.mgmt_tags (suc fuel) mem p 0 t ≡ done (t, 0)
  unfolding Radiotap.mgmt_tags
  mgmt_tags-end fuel p t = refl

  mgmt_tags-encode_tags :
      (ts : List (ℕ × List ℕ)) (fuel p : ℕ) (t : Tags) (rest : List ℕ)
      → length (encode_tags ts) < fuel
      → drop p mem ≡ encode_tags ts ++ rest
      → Radiotap.mgmt_tags fuel mem p (length (encode_tags ts)) t ≡ done (with_tags ts t, 0)
  mgmt_tags-encode_tags ts zero p t rest enough e = absurd (omega arith)
  mgmt_tags-encode_tags [] (suc fuel) p t rest enough e = mgmt_tags-end fuel p t
  mgmt_tags-encode_tags ((tag, bytes) ∷ ts) (suc fuel) p t rest enough e =
      let size = length-append bytes (encode_tags ts) in
      let here = e ∙ ap (λ l. tag ∷ length bytes ∷ l) (append_assoc bytes (encode_tags ts) rest) in
      let two : 2 + length bytes ≡ suc (suc (length bytes)) = omega arith in
      let next =
        ap (λ n. drop (p + n) mem) two
        ∙ drop-skip mem p (tag ∷ length bytes ∷ bytes) (encode_tags ts ++ rest) here in
      let left : length (encode_tags ((tag, bytes) ∷ ts)) - (2 + length bytes)
          ≡ length (encode_tags ts) =
        omega (arith, size) in
      mgmt_tags-step (t tag) fuel p _ tag bytes t (encode_tags ts ++ rest) refl
        (omega (arith, size)) here
      ∙ ap
          (λ n.
            Radiotap.mgmt_tags fuel mem (p + (2 + length bytes)) n (with_tag (t tag) tag bytes t))
          left
      ∙ mgmt_tags-encode_tags ts fuel (p + (2 + length bytes)) (with_tag (t tag) tag bytes t) rest
          (omega (arith, size)) next

abbrev pub named_by_ssid : ℕ → List ℕ → Option (List ℕ) → Packet → Packet
named_by_ssid freq addr none op = op
named_by_ssid freq addr (some ssid) op =
    ask (named_l3host addr (c_string (ssid ++ frequency_text freq)) level_max) op

mgmt_name-found :
    (freq : ℕ) (addr : List ℕ) (op : Packet) (t : Tags) (found : Option (List ℕ))
    → op.l3s ≡ some addr
    → t 0 ≡ found
    → Radiotap.mgmt_name freq op (t, 0) ≡ done (named_by_ssid freq addr found op)
unfolding Radiotap.mgmt_name Radiotap.name_sender
mgmt_name-found freq addr op t none host e = rw e refl
mgmt_name-found freq addr op t (some ssid) host e = rw (e, host) refl

-- A management frame of twelve bytes and well-formed tags, from a host that is known, names the host by
-- the bytes of its first tag of number 0, the SSID, and the frequency, up to a NUL, at the highest level.
-- Without such a tag it names nothing.
pub handle_ieee80211_mgmtfix-encode_tags :
    (freq : ℕ) (mem : Memory) (frame : ℕ) (fixed : List ℕ) (ts : List (ℕ × List ℕ))
    (rest addr : List ℕ) (op : Packet)
    → drop frame mem ≡ fixed ++ (encode_tags ts ++ rest)
    → length fixed ≡ 12
    → op.l3s ≡ some addr
    → Radiotap.handle_ieee80211_mgmtfix freq mem frame (12 + length (encode_tags ts)) op
      ≡ done (named_by_ssid freq addr (first_tag 0 ts) op)
unfolding Radiotap.handle_ieee80211_mgmtfix
handle_ieee80211_mgmtfix-encode_tags freq mem frame fixed ts rest addr op e twelve host =
    let size : ℕ = length (encode_tags ts) in
    let whole : ltb (12 + size) 12 ≡ false = ground arith in
    let left : 12 + size - 12 ≡ size = omega arith in
    let tags_at =
      ap (λ n. drop (frame + n) mem) (sym twelve)
      ∙ drop-skip mem frame fixed (encode_tags ts ++ rest) e in
    rw
      (
        whole,
        left,
        mgmt_tags-encode_tags mem ts (12 + size + 1) (frame + 12) no_tags rest (omega arith)
            tags_at,
      )
      (mgmt_name-found freq addr op (with_tags ts no_tags) (first_tag 0 ts) host
        (with_tags-lookup ts no_tags 0))
