-- ===== src/Nd/Options.antt =====
-- The loops over the options end, and read nothing outside the message.
use omphalos.Base.{
  ℕ, zero, suc, ◌+◌, ◌-◌, ◌*◌, ◌/◌, ◌%◌, ◌<◌, ◌≤◌, ◌≡◌, refl, arith, Bool, false, ◌||◌, ◌&&◌, ltb,
  ◌==◌, length, Memory, abort, byte_at, load8-done,
}
use omphalos.Base.Ends.{
  Ends, Ends-done, Ends-if, Ends-bind, Ends-load8, Ends-load_bytes, Stops, Stops-done, Stops-if,
  Stops-bind, Stops-load8, aborts,
}
use omphalos.Packet.{Packet, IsValid, switch, Ends-switch, Stops-switch}
use omphalos.Nd.{
  Option8, nd_options, nd_message, routersol_option, routerad_option, rdnss_option,
  offer_nameservers, neighad_option, redirect_option, neighsol_options, handle_nd_routersol,
  handle_nd_routerad, handle_nd_neighad, handle_nd_redirect, handle_nd_neighsol,
}

-- The packet is valid, whatever the flag says.
abbrev pub ValidFirst : Packet × Bool → Type 0
ValidFirst r = IsValid r.0

-- An option that lies in memory is read within its bounds.
abbrev pub Bounded : Option8 → Type 0
Bounded option =
    (type oplen : ℕ) (mem : Memory) (frame : ℕ) (op : Packet)
    → frame + oplen * 8 ≤ length mem
    → IsValid op
    → Ends ValidFirst (option type oplen mem frame op)

module _ (option : Option8) (bounded : Bounded option) (mem : Memory) where
  nd_options-Ends :
      (fuel frame len : ℕ) (op : Packet)
      → frame + len ≤ length mem
      → len < fuel
      → IsValid op
      → Ends ValidFirst (nd_options option fuel mem frame len op)
  unfolding nd_options
  nd_options-Ends zero frame len op inside enough valid = absurd (omega arith)
  nd_options-Ends (suc fuel) frame len op inside enough valid =
      Ends-if (len == 0) (λ _. Ends-done valid)
        (λ more.
          Ends-if (ltb len 2) (λ _. Ends-done valid)
            (λ two. Ends-load8 mem (frame + 1) (ground arith) (λ oplen _.
              Ends-if (ltb oplen 1) (λ _. Ends-done valid)
                (λ some_data.
                  Ends-if (ltb len (oplen * 8)) (λ _. Ends-done valid)
                    (λ fits. Ends-load8 mem frame (ground arith) (λ type _.
                      Ends-bind (bounded type oplen mem frame op (ground arith) valid) (λ r v.
                        Ends-if r.1
                          (λ _.
                            nd_options-Ends fuel (frame + oplen * 8) (len - oplen * 8) r.0
                              (ground arith) (ground arith) v)
                          (λ _. Ends-done v))))))))

  pub nd_message-Ends :
      (fixed frame len : ℕ) (op : Packet)
      → frame + len ≤ length mem
      → IsValid op
      → Ends ValidFirst (nd_message option fixed mem frame len op)
  unfolding nd_message
  nd_message-Ends fixed frame len op inside valid =
      Ends-if (ltb len fixed) (λ _. Ends-done valid)
        (λ long.
          nd_options-Ends (len + 1) (frame + fixed) (len - fixed) op (ground arith) (omega arith)
            valid)

routersol-Bounded : Bounded routersol_option
unfolding routersol_option
routersol-Bounded type oplen mem frame op inside valid =
    Ends-if ((ltb 15 type && ltb type 24) || ltb 26 type) (λ _. Ends-done valid)
      (λ _. Ends-done valid)

offer_nameservers-Ends :
    (left : ℕ) (mem : Memory) (server : ℕ) (op : Packet)
    → server + left * 16 ≤ length mem
    → IsValid op
    → Ends IsValid (offer_nameservers left mem server op)
unfolding offer_nameservers
offer_nameservers-Ends zero mem server op inside valid = Ends-done valid
offer_nameservers-Ends (suc left) mem server op inside valid =
    Ends-load_bytes mem server 16 (omega arith) (λ addr _.
      offer_nameservers-Ends left mem (server + 16) _ (omega arith)
        (valid.0, valid.1, (tt, valid.2)))

rdnss-Bounded : Bounded rdnss_option
unfolding rdnss_option
rdnss-Bounded type ilen mem frame op inside valid =
    Ends-if (ltb ilen 3 || (ilen % 2 == 0)) (λ _. Ends-done valid)
      (λ odd.
        Ends-bind (offer_nameservers-Ends ((ilen - 1) / 2) mem (frame + 8) op (ground arith) valid)
          (λ op' v. Ends-done v))

routerad-Bounded : Bounded routerad_option
unfolding routerad_option
routerad-Bounded type oplen mem frame op inside valid =
    let ok = Ends-done valid in
    Ends-switch ValidFirst type _
      (ok, (ok, (ok, (ok, (rdnss-Bounded type oplen mem frame op inside valid, (ok, tt))))))
      (Ends-done valid)

neighad-Bounded : Bounded neighad_option
unfolding neighad_option
neighad-Bounded type oplen mem frame op inside valid =
    Ends-switch ValidFirst type _ (Ends-done valid, (Ends-done valid, tt)) (Ends-done valid)

redirect-Bounded : Bounded redirect_option
unfolding redirect_option
redirect-Bounded type oplen mem frame op inside valid =
    Ends-switch ValidFirst type _ (Ends-done valid, (Ends-done valid, tt)) (Ends-done valid)

module _ (mem : Memory) (frame len : ℕ) (op : Packet) (inside : frame + len ≤ length mem)
    (valid : IsValid op) where
  pub handle_nd_routersol-Ends : Ends IsValid (handle_nd_routersol mem frame len op)
  unfolding handle_nd_routersol
  handle_nd_routersol-Ends =
      Ends-bind (nd_message-Ends routersol_option routersol-Bounded mem 4 frame len op inside valid)
        (λ r v. Ends-done v)

  pub handle_nd_routerad-Ends : Ends IsValid (handle_nd_routerad mem frame len op)
  unfolding handle_nd_routerad
  handle_nd_routerad-Ends =
      Ends-bind (nd_message-Ends routerad_option routerad-Bounded mem 12 frame len op inside valid)
        (λ r v. Ends-if r.1 (λ _. Ends-done (v.0, v.1, (tt, v.2))) (λ _. Ends-done v))

  pub handle_nd_neighad-Ends : Ends IsValid (handle_nd_neighad mem frame len op)
  unfolding handle_nd_neighad
  handle_nd_neighad-Ends =
      Ends-bind (nd_message-Ends neighad_option neighad-Bounded mem 20 frame len op inside valid)
        (λ r v. Ends-done v)

  pub handle_nd_redirect-Ends : Ends IsValid (handle_nd_redirect mem frame len op)
  unfolding handle_nd_redirect
  handle_nd_redirect-Ends =
      Ends-bind (nd_message-Ends redirect_option redirect-Bounded mem 36 frame len op inside valid)
        (λ r v. Ends-done v)

-- The loop of handle_nd_neighsol ends, or fails its assertion.
neighsol_options-Stops :
    (mem : Memory) (fuel frame len : ℕ) (op : Packet)
    → frame + len ≤ length mem
    → len < fuel
    → IsValid op
    → Stops false IsValid (neighsol_options fuel mem frame len op)
unfolding neighsol_options
neighsol_options-Stops mem zero frame len op inside enough valid = absurd (omega arith)
neighsol_options-Stops mem (suc fuel) frame len op inside enough valid =
    Stops-if (len == 0) (λ _. Stops-done valid)
      (λ more.
        Stops-if (ltb len 2) (λ _. Stops-done valid)
          (λ two. Stops-load8 mem (frame + 1) (ground arith) (λ oplen _.
            Stops-if (ltb len (oplen * 8)) (λ _. Stops-done valid)
              (λ fits. Stops-load8 mem frame (ground arith) (λ type _.
                Stops-bind
                  (Stops-switch false ValidFirst type _ (Stops-done valid, (Stops-done valid, tt))
                    (Stops-done valid))
                  (λ r v.
                    Stops-if (ltb oplen 1) (λ _. aborts refl)
                      (λ some_data.
                        neighsol_options-Stops mem fuel (frame + oplen * 8) (len - oplen * 8) r.0
                          (ground arith) (ground arith) v)))))))

pub handle_nd_neighsol-Stops :
    (mem : Memory) (frame len : ℕ) (op : Packet)
    → frame + len ≤ length mem
    → IsValid op
    → Stops false IsValid (handle_nd_neighsol mem frame len op)
unfolding handle_nd_neighsol
handle_nd_neighsol-Stops mem frame len op inside valid =
    Stops-if (ltb len 20) (λ _. Stops-done valid)
      (λ long.
        neighsol_options-Stops mem (len + 1) (frame + 20) (len - 20) op (ground arith) (omega arith)
          valid)

-- An option of length 0 fails the assertion at any type.
neighsol_options-zero_length :
    (fuel : ℕ) (mem : Memory) (frame len : ℕ) (op : Packet)
    → 0 < fuel
    → 2 ≤ len
    → frame + len ≤ length mem
    → byte_at mem (frame + 1) ≡ 0
    → neighsol_options fuel mem frame len op ≡ abort
unfolding neighsol_options switch
neighsol_options-zero_length zero mem frame len op some_fuel long inside empty =
    absurd (omega arith)
neighsol_options-zero_length (suc fuel) mem frame len op some_fuel long inside empty =
    ground (arith, load8-done mem (frame + 1) (omega arith), load8-done mem frame (omega arith))

-- Where the first option of a neighbour solicitation of 22 bytes or more in memory has length 0,
-- handle_nd_neighsol fails its assertion, whatever the rest of the frame is.
pub handle_nd_neighsol-zero_length :
    (mem : Memory) (frame len : ℕ) (op : Packet)
    → 22 ≤ len
    → frame + len ≤ length mem
    → byte_at mem (frame + 21) ≡ 0
    → handle_nd_neighsol mem frame len op ≡ abort
unfolding handle_nd_neighsol
handle_nd_neighsol-zero_length mem frame len op long inside empty =
    let options =
      neighsol_options-zero_length (len + 1) mem (frame + 20) (len - 20) op (omega arith)
        (omega arith) (omega arith) (grind arith) in
    ground arith
