-- ===== src/Radiotap/Examples.antt =====
-- Frames on which the theorems apply: a beacon that has an SSID, and a header that stops short.
use omphalos.Base.{
  ℕ, ◌≡◌, refl, arith, List, [], ◌∷◌, ◌++◌, none, some, Memory, replicate, done, fault,
}
use omphalos.Base.Ends.{Ends}
use omphalos.Packet.{Packet}
use omphalos.Packet.Sample.{blank}
use omphalos.Radiotap.{handle_radiotap_packet, handle_ieee80211_mgmtfix}
use omphalos.Link.Safety.{IsWireless}
use omphalos.Radiotap.Header.{handle_radiotap_packet-Ends, handle_radiotap_packet-overreads}
use omphalos.Radiotap.Ssid.{
  encode_tags, first_tag, named_by_ssid, handle_ieee80211_mgmtfix-encode_tags,
}

-- Rates, and the SSID "ant".
abbrev tags : List (ℕ × List ℕ)
tags = (1, 0x82 ∷ 0x84 ∷ []) ∷ (0, 97 ∷ 110 ∷ 116 ∷ []) ∷ []

abbrev sender : Packet
sender = record blank { l3s = some (2 ∷ 0 ∷ 0 ∷ 0 ∷ 0 ∷ 1 ∷ []) }

abbrev body : Memory
body = replicate 12 0 ++ (encode_tags tags ++ [])

abbrev beacon : Memory
beacon = (0 ∷ 0 ∷ 8 ∷ 0 ∷ 0 ∷ 0 ∷ 0 ∷ 0 ∷ []) ++ (0x80 ∷ 0 ∷ replicate 22 2) ++ body

abbrev cut_short : Memory
cut_short = 0 ∷ 0 ∷ 8 ∷ 0 ∷ 2 ∷ 0 ∷ 0 ∷ 0 ∷ []

handle_radiotap_packet-Ends_example :
    Ends IsWireless (handle_radiotap_packet (λ bytes. 0) (λ addr. none) beacon 0 53 blank)
handle_radiotap_packet-Ends_example =
    handle_radiotap_packet-Ends (λ bytes. 0) (λ addr. none) beacon 0 53 blank (ground arith)
      (omega arith) (omega arith) (omega arith, tt)

handle_radiotap_packet-overreads_example :
    handle_radiotap_packet (λ bytes. 0) (λ addr. none) cut_short 0 8 blank ≡ fault
handle_radiotap_packet-overreads_example =
    handle_radiotap_packet-overreads (λ bytes. 0) (λ addr. none) cut_short 0 blank refl refl
      (omega arith) (omega arith) refl refl

handle_ieee80211_mgmtfix-encode_tags_example :
    handle_ieee80211_mgmtfix 2412 body 0 21 sender
    ≡ done (named_by_ssid 2412 (2 ∷ 0 ∷ 0 ∷ 0 ∷ 0 ∷ 1 ∷ []) (first_tag 0 tags) sender)
handle_ieee80211_mgmtfix-encode_tags_example =
    handle_ieee80211_mgmtfix-encode_tags 2412 body 0 (replicate 12 0) tags []
      (2 ∷ 0 ∷ 0 ∷ 0 ∷ 0 ∷ 1 ∷ []) sender refl refl refl
