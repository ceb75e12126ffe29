-- ===== src/Radiotap/Header.antt =====
-- The walk over the fields of a radiotap header stays in the frame, if there is room behind it, since
-- the length of the header counts its first eight bytes, but the walk starts behind them.
use omphalos.Base.{
  ℕ, ◌+◌, ◌-◌, ◌*◌, ◌%◌, ◌≤◌, ◌≡◌, refl, arith, List, Option, none, some, true, false, not, ltb,
  ◌==◌, if◌then◌else◌, Memory, length, IsBytes, Outcome, done, fault, byte_at, word_at, load8-done,
  load16-done, load8_fault, Bool-cases, inl, inr,
}
use omphalos.Base.Ends.{
  Ends, Ends-done, Ends-if, Ends-bind, Ends-load8, Ends-load16, Ends-load_bytes,
}
use mathlib.Core.Option
use omphalos.Packet.{Packet, bit}
use omphalos.Link.Safety.{IsWireless}
use omphalos.Radiotap
use omphalos.Radiotap.{HeaderWalk}
use omphalos.Radiotap.Bounds.{handle_ieee80211_packet-Ends}

-- A property of what is there.
abbrev pub Each {ℓ κ} : {A : Type ℓ} → (A → Type κ) → Option A → Type κ
Each P none = Unit
Each P (some a) = P a

Ends-Each {ℓ κ μ ν} :
    {A : Type ℓ} {B : Type κ} {Q : A → Type ν} {P : B → Type μ} (o : Option A) {x : Outcome B}
    {f : A → Outcome B}
    → Each Q o
    → Ends P x
    → ((a : A) → Q a → Ends P (f a))
    → Ends P (elim o [ none ↦ x | some a ↦ f a ])
Ends-Each none h n s = n
Ends-Each (some a) h n s = s a h

module _ (mem : Memory) (frame olen ehdr : ℕ) (inside : frame + olen ≤ length mem)
    (long : 8 ≤ olen) where
  -- The fields that are left lie in memory, and so does the frame behind the header.
  Fits : HeaderWalk → Type 0
  Fits w = (w.vhdr + w.rlen ≤ length mem) × (ehdr + w.left ≤ length mem)

  Left : ℕ × ℕ → Type 0
  Left r = ehdr + r.0 ≤ length mem

  pass-Fits : (size : ℕ) (w : HeaderWalk) → Fits w → Each Fits (Radiotap.pass size w)
  unfolding Radiotap.pass Fits
  pass-Fits size w h = elim (Bool-cases (ltb w.rlen size)) [
    | inl short ↦ rw short tt
    | inr fits ↦ rw fits (ground (arith, h.0), h.1)
  ]

  tsft_field-Fits : (pres : ℕ) (w : HeaderWalk) → Fits w → Each Fits (Radiotap.tsft_field pres w)
  unfolding Radiotap.tsft_field
  tsft_field-Fits pres w h = elim (Bool-cases (bit pres 0)) [
    | inl has ↦ rw has (pass-Fits 8 w h)
    | inr without ↦ rw without h
  ]

  aligned-Fits :
      (o : Option HeaderWalk) → Each Fits o → Each Fits (Option.map (Radiotap.aligned 8) o)
  unfolding Fits
  aligned-Fits none h = tt
  aligned-Fits (some w) h = h

  rate_field-Fits : (pres : ℕ) (w : HeaderWalk) → Fits w → Each Fits (Radiotap.rate_field pres w)
  unfolding Radiotap.rate_field
  rate_field-Fits pres w h = elim (Bool-cases (bit pres 2)) [
    | inl has ↦ rw has (aligned-Fits (Radiotap.pass 1 w) (pass-Fits 1 w h))
    | inr without ↦ rw without h
  ]

  load32-Ends : (p : ℕ) → p + 4 ≤ length mem → Ends (λ (w : ℕ). Unit {0}) (Radiotap.load32 mem p)
  unfolding Radiotap.load32
  load32-Ends p h =
      Ends-load16 mem p (omega arith)
        (λ low _. Ends-load16 mem (p + 2) (omega arith) (λ high _. Ends-done tt))

  padding-Fits :
      (w : HeaderWalk)
      → Fits w
      → Each Fits (if not (w.alignbit % 16 == 0) then Radiotap.pass 1 w else some w)
  padding-Fits w h = elim (Bool-cases (not (w.alignbit % 16 == 0))) [
    | inl odd ↦ rw odd (pass-Fits 1 w h)
    | inr even ↦ rw even h
  ]

  channel_field-Ends :
      (pres : ℕ) (w : HeaderWalk)
      → Fits w
      → Ends (λ (freq : Option ℕ). Unit {0}) (Radiotap.channel_field pres mem w)
  unfolding Radiotap.channel_field Fits
  channel_field-Ends pres w h =
      Ends-if (not (bit pres 3)) (λ _. Ends-done tt)
        (λ _. Ends-Each {Q = Fits} _ (padding-Fits w h) (Ends-done tt) (λ w' h'.
          Ends-if (ltb w'.rlen 4) (λ _. Ends-done tt)
            (λ fits. Ends-load16 mem w'.vhdr (ground (arith, h'.0)) (λ freq _. Ends-done tt))))

  module _ (fcs : List ℕ → ℕ) (iana_lookup : List ℕ → Option (List ℕ)) where
    check_fcs-Ends :
        (w : HeaderWalk)
        → Fits w
        → Ends (Each Fits) (Radiotap.check_fcs fcs iana_lookup mem frame olen ehdr w)
    unfolding Radiotap.check_fcs Fits
    check_fcs-Ends w h =
        Ends-if (ltb w.left 4) (λ _. Ends-done tt)
          (λ fits. Ends-bind (load32-Ends (frame + (olen - 4)) (omega arith)) (λ sum _.
            Ends-load_bytes mem ehdr (w.left - 4) (ground (arith, h.1)) (λ bytes _.
              Ends-if (fcs bytes == sum) (λ _. Ends-done (h.0, ground (arith, h.1)))
                (λ _. Ends-done tt))))

    flags_field-Ends :
        (pres : ℕ) (w : HeaderWalk)
        → Fits w
        → Ends (Each Fits) (Radiotap.flags_field fcs iana_lookup pres mem frame olen ehdr w)
    unfolding Radiotap.flags_field Fits
    flags_field-Ends pres w h =
        Ends-if (not (bit pres 1)) (λ _. Ends-done h)
          (λ _.
            Ends-if (ltb w.rlen 1) (λ _. Ends-done tt)
              (λ fits. Ends-load8 mem w.vhdr (ground (arith, h.0)) (λ flags _.
                Ends-if (bit flags 4) (λ _. check_fcs-Ends _ (ground (arith, h.0), h.1))
                  (λ _. Ends-done (ground (arith, h.0), h.1)))))

    found-Left :
        (left : ℕ) (freq : Option ℕ)
        → ehdr + left ≤ length mem
        → Each Left (Option.map (λ f. (left, f)) freq)
    unfolding Left
    found-Left left none h = tt
    found-Left left (some f) h = h

    header_fields-Ends :
        (pres : ℕ) (w : HeaderWalk)
        → Fits w
        → Ends (Each Left) (Radiotap.header_fields fcs iana_lookup pres mem frame olen ehdr w)
    unfolding Radiotap.header_fields Fits
    header_fields-Ends pres w h = Ends-Each _ (tsft_field-Fits pres w h) (Ends-done tt) (λ w1 h1.
        Ends-bind (flags_field-Ends pres w1 h1) (λ flagged h2.
          Ends-Each flagged h2 (Ends-done tt) (λ w3 h3.
            Ends-Each _ (rate_field-Fits pres w3 h3) (Ends-done tt) (λ w4 h4.
              Ends-bind (channel_field-Ends pres w4 h4)
                (λ freq _. Ends-done (found-Left w4.left freq h4.1))))))

-- On a frame of bytes in memory whose radiotap header has eight bytes at least behind it,
-- handle_radiotap_packet ends, reads nothing outside the frame, and keeps the hosts of the interface
-- apart. Its hardware addresses have six bytes at most.
pub handle_radiotap_packet-Ends :
    (fcs : List ℕ → ℕ) (iana_lookup : List ℕ → Option (List ℕ)) (mem : Memory) (frame len : ℕ)
    (op : Packet)
    → IsBytes mem
    → frame + len ≤ length mem
    → word_at mem (frame + 2) + 8 ≤ len
    → IsWireless op
    → Ends IsWireless (Radiotap.handle_radiotap_packet fcs iana_lookup mem frame len op)
unfolding Radiotap.handle_radiotap_packet Fits Left
handle_radiotap_packet-Ends fcs iana_lookup mem frame len op bytes inside room v =
    Ends-if (ltb len 8) (λ _. Ends-done v)
      (λ long. Ends-load8 mem frame (ground arith) (λ version _.
        Ends-if (not (version == 0)) (λ _. Ends-done v)
          (λ _. Ends-load16 mem (frame + 2) (ground arith) (λ rlen e.
            Ends-if (ltb len rlen) (λ _. Ends-done v)
              (λ _.
                Ends-bind
                  (load32-Ends mem frame len (frame + rlen) inside (ground arith) (frame + 4)
                    (ground arith))
                  (λ pres _.
                    Ends-bind
                      (header_fields-Ends mem frame len (frame + rlen) inside (ground arith) fcs
                        iana_lookup pres _ (omega (arith, e), omega (arith, e)))
                      (λ found h. Ends-Each found h (Ends-done v) (λ r left.
                        handle_ieee80211_packet-Ends mem bytes iana_lookup r.1 (frame + rlen) r.0 op
                          left v))))))))

-- The word of a radiotap header that says which fields are there.
abbrev pub present : Memory → ℕ → ℕ
present mem frame = word_at mem (frame + 4) + word_at mem (frame + 4 + 2) * 65536

load32-present :
    (mem : Memory) (frame : ℕ)
    → frame + 8 ≤ length mem
    → Radiotap.load32 mem (frame + 4) ≡ done (present mem frame)
unfolding Radiotap.load32
load32-present mem frame inside =
    rw (load16-done mem (frame + 4) (omega arith), load16-done mem (frame + 4 + 2) (omega arith))
      refl

tsft_field-without :
    (pres : ℕ) (w : HeaderWalk) → bit pres 0 ≡ false → Radiotap.tsft_field pres w ≡ some w
unfolding Radiotap.tsft_field
tsft_field-without pres w without = rw without refl

flags_field_fault :
    (fcs : List ℕ → ℕ) (iana_lookup : List ℕ → Option (List ℕ)) (pres : ℕ) (mem : Memory)
    (frame olen ehdr : ℕ) (w : HeaderWalk)
    → bit pres 1 ≡ true
    → 1 ≤ w.rlen
    → length mem ≤ w.vhdr
    → Radiotap.flags_field fcs iana_lookup pres mem frame olen ehdr w ≡ fault
unfolding Radiotap.flags_field
flags_field_fault fcs iana_lookup pres mem frame olen ehdr w has some_left outside =
    let fits : ltb w.rlen 1 ≡ false = ground arith in
    rw (has, fits, load8_fault mem w.vhdr outside) refl

header_fields_fault :
    (fcs : List ℕ → ℕ) (iana_lookup : List ℕ → Option (List ℕ)) (pres : ℕ) (mem : Memory)
    (frame olen ehdr : ℕ) (w : HeaderWalk)
    → bit pres 0 ≡ false
    → bit pres 1 ≡ true
    → 1 ≤ w.rlen
    → length mem ≤ w.vhdr
    → Radiotap.header_fields fcs iana_lookup pres mem frame olen ehdr w ≡ fault
unfolding Radiotap.header_fields
header_fields_fault fcs iana_lookup pres mem frame olen ehdr w without has some_left outside =
    rw
      (
        Radiotap.header_fields,
        tsft_field-without pres w without,
        flags_field_fault fcs iana_lookup pres mem frame olen ehdr w has some_left outside,
      )
      refl

-- Where a frame of eight bytes ends the memory, and its radiotap header has a length from one to eight
-- and says that there are flags and no time stamp, handle_radiotap_packet reads the flags behind the
-- frame.
pub handle_radiotap_packet-overreads :
    (fcs : List ℕ → ℕ) (iana_lookup : List ℕ → Option (List ℕ)) (mem : Memory) (frame : ℕ)
    (op : Packet)
    → frame + 8 ≡ length mem
    → byte_at mem frame ≡ 0
    → 1 ≤ word_at mem (frame + 2)
    → word_at mem (frame + 2) ≤ 8
    → bit (present mem frame) 0 ≡ false
    → bit (present mem frame) 1 ≡ true
    → Radiotap.handle_radiotap_packet fcs iana_lookup mem frame 8 op ≡ fault
unfolding Radiotap.handle_radiotap_packet
handle_radiotap_packet-overreads fcs iana_lookup mem frame op ended version some_left short no_tsft
      has_flags =
    let fits : ltb 8 (word_at mem (frame + 2)) ≡ false = ground arith in
    rw
      (
        load8-done mem frame (omega arith),
        version,
        load16-done mem (frame + 2) (omega arith),
        fits,
        load32-present mem frame (omega arith),
        header_fields_fault fcs iana_lookup (present mem frame) mem frame 8
            (frame + word_at mem (frame + 2))
            (record {
              vhdr = frame + 8;
              rlen = word_at mem (frame + 2);
              left = 8 - word_at mem (frame + 2);
              alignbit = 0;
            })
            no_tsft has_flags some_left (omega arith),
      )
      refl
