-- ===== src/Radiotap/Bounds.antt =====
-- Where the radiotap analyzer reads.
use omphalos.Base.{
  ℕ, zero, suc, ◌+◌, ◌-◌, ◌/◌, ◌%◌, ◌≤◌, ◌<◌, ◌≡◌, refl, arith, List, Option, some, not, ltb, ◌==◌,
  Memory, length, IsBytes,
}
use omphalos.Base.Ends.{
  Ends, Ends-done, Ends-if, Ends-bind, Ends-load8, Ends-load16_net, Ends-load_bytes, Ends-option,
}
use omphalos.Packet.{Packet}
use omphalos.Link.Safety.{IsWireless, l2host_at-IsWireless}
use omphalos.Radiotap
use omphalos.Radiotap.{Tags, HeaderWalk, no_tags}

module _ (mem : Memory) (bytes : IsBytes mem) where
  -- Each tag takes bytes off the length, so that a round for each is enough.
  mgmt_tags-Ends :
      (fuel tags len : ℕ) (tagtbl : Tags)
      → len < fuel
      → tags + len ≤ length mem
      → Ends (λ (r : Tags × ℕ). Unit {0}) (Radiotap.mgmt_tags fuel mem tags len tagtbl)
  unfolding Radiotap.mgmt_tags
  mgmt_tags-Ends zero tags len tagtbl enough inside = absurd (omega arith)
  mgmt_tags-Ends (suc fuel) tags len tagtbl enough inside =
      Ends-if (ltb len 2) (λ _. Ends-done tt)
        (λ more. Ends-load8 mem (tags + 1) (ground arith) (λ taglen _.
          Ends-load8 mem tags (ground arith) (λ tag _.
            Ends-if (ltb len (2 + taglen)) (λ _. Ends-done tt)
              (λ fits.
                Ends-option (tagtbl tag)
                  (Ends-load_bytes mem (tags + 2) taglen (ground arith) (λ bytes _.
                    mgmt_tags-Ends fuel (tags + (2 + taglen)) (len - (2 + taglen)) _ (ground arith)
                      (ground arith)))
                  (λ old.
                    mgmt_tags-Ends fuel (tags + (2 + taglen)) (len - (2 + taglen)) _ (ground arith)
                      (ground arith))))))

  name_sender-Ends :
      (name addr : List ℕ) (op : Packet)
      → op.l3s ≡ some addr
      → IsWireless op
      → Ends IsWireless (Radiotap.name_sender name op)
  unfolding Radiotap.name_sender
  name_sender-Ends name addr op e v = rw e (Ends-done v)

  mgmt_name-Ends :
      (freq : ℕ) (addr : List ℕ) (op : Packet) (found : Tags × ℕ)
      → op.l3s ≡ some addr
      → IsWireless op
      → Ends IsWireless (Radiotap.mgmt_name freq op found)
  unfolding Radiotap.mgmt_name
  mgmt_name-Ends freq addr op (tagtbl, left) e v =
      Ends-if (not (left == 0)) (λ _. Ends-done v)
        (λ _. Ends-option (tagtbl 0) (Ends-done v) (λ ssid. name_sender-Ends _ addr op e v))

  mgmtfix-Ends :
      (freq frame len : ℕ) (addr : List ℕ) (op : Packet)
      → frame + len ≤ length mem
      → op.l3s ≡ some addr
      → IsWireless op
      → Ends IsWireless (Radiotap.handle_ieee80211_mgmtfix freq mem frame len op)
  unfolding Radiotap.handle_ieee80211_mgmtfix
  mgmtfix-Ends freq frame len addr op inside e v =
      Ends-if (ltb len 12) (λ _. Ends-done v)
        (λ long.
          Ends-bind
            (mgmt_tags-Ends (len + 1) (frame + 12) (len - 12) no_tags (omega arith) (ground arith))
            (λ found _. mgmt_name-Ends freq addr op found e v))

  module _ (iana_lookup : List ℕ → Option (List ℕ)) where
    mgmt-Ends :
        (freq frame len : ℕ) (op : Packet)
        → frame + len ≤ length mem
        → IsWireless op
        → Ends IsWireless (Radiotap.handle_ieee80211_mgmt iana_lookup freq mem frame len op)
    unfolding Radiotap.handle_ieee80211_mgmt
    mgmt-Ends freq frame len op inside v =
        Ends-if (ltb len 24) (λ _. Ends-done v)
          (λ long.
            Ends-bind (l2host_at-IsWireless iana_lookup mem (frame + 10) op v (ground arith))
              (λ r w. Ends-load_bytes mem (frame + 16) 6 (ground arith) (λ bssid _.
                mgmtfix-Ends freq (frame + 24) (len - 24) bssid _ (ground arith) refl w)))

    ctrl-Ends :
        (frame len : ℕ) (op : Packet)
        → frame + len ≤ length mem
        → IsWireless op
        → Ends IsWireless (Radiotap.handle_ieee80211_ctrl iana_lookup mem frame len op)
    unfolding Radiotap.handle_ieee80211_ctrl
    ctrl-Ends frame len op inside v =
        Ends-if (ltb len 10) (λ _. Ends-done v)
          (λ long.
            Ends-bind (l2host_at-IsWireless iana_lookup mem (frame + 4) op v (ground arith))
              (λ r w. Ends-done w))

    data-Ends :
        (frame len : ℕ) (op : Packet)
        → frame + len ≤ length mem
        → IsWireless op
        → Ends IsWireless (Radiotap.handle_ieee80211_data iana_lookup mem frame len op)
    unfolding Radiotap.handle_ieee80211_data
    data-Ends frame len op inside v =
        Ends-if (ltb len 24) (λ _. Ends-done v)
          (λ long.
            Ends-bind (l2host_at-IsWireless iana_lookup mem (frame + 16) op v (ground arith))
              (λ dest w.
                Ends-bind
                  (l2host_at-IsWireless iana_lookup mem (frame + 10) dest.1 w (ground arith))
                  (λ r x. Ends-done x)))

    -- On a frame in memory, handle_ieee80211_packet ends and reads nothing outside the frame.
    pub handle_ieee80211_packet-Ends :
        (freq frame len : ℕ) (op : Packet)
        → frame + len ≤ length mem
        → IsWireless op
        → Ends IsWireless (Radiotap.handle_ieee80211_packet iana_lookup freq mem frame len op)
    unfolding Radiotap.handle_ieee80211_packet Radiotap.ieee80211_type
    handle_ieee80211_packet-Ends freq frame len op inside v =
        Ends-if (ltb len 4) (λ _. Ends-done v)
          (λ long. Ends-load16_net mem frame (ground arith) (λ control _.
            Ends-if (not (control / 256 % 4 == 0)) (λ _. Ends-done v)
              (λ _.
                Ends-if (control / 1024 % 4 == 0)
                  (λ _.
                    Ends-if (control / 4096 == 4) (λ _. Ends-done v)
                      (λ _. mgmt-Ends freq frame len op inside v))
                  (λ _.
                    Ends-if (control / 1024 % 4 == 1) (λ _. ctrl-Ends frame len op inside v)
                      (λ _.
                        Ends-if (control / 1024 % 4 == 2) (λ _. data-Ends frame len op inside v)
                          (λ _. Ends-done v))))))
