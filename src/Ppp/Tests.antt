-- ===== src/Ppp/Tests.antt =====
-- Runs of the framing functions, and their theorems at concrete inputs.
use broker_proxy.Base.{
  ℕ, ◌≡◌, ◌≢◌, ◌≤◌, ◌<◌, ◌↔◌, refl, Bool, true, false, List, [], ◌∷◌, ◌++◌, All, length, arith,
}
use broker_proxy.Fcs.{fcs_init, fcs_of}
use broker_proxy.Fcs.Residue.{trailer}
use broker_proxy.Ppp.{
  flag_char, add_escaped, frame_loop, ppp_frame, deframe_step, deframe_loop, deframe_end, pop_back,
  returned, undefined, ppp_deframe,
}
use broker_proxy.Ppp.Stuff.{stuff, body}
use broker_proxy.Ppp.Accept.{ppp_deframe-ppp_frame, ppp_deframe-stuff_iff}
use broker_proxy.Ppp.Burst.{IsRejected, burst-IsRejected}
use broker_proxy.Ppp.Undefined.{plain_bytes, ppp_deframe-undefined_iff}

-- Both special bytes and a plain one.
abbrev payload : List ℕ
payload = 0x7E ∷ 0x41 ∷ 0x7D ∷ []

payload_frame :
    ppp_frame payload ≡ 0x7E ∷ 0x7D ∷ 0x5E ∷ 0x41 ∷ 0x7D ∷ 0x5D ∷ 0xD3 ∷ 0xA1 ∷ 0x7E ∷ []
unfolding ppp_frame frame_loop add_escaped fcs_of
payload_frame = refl

-- The frame of an empty payload is too short for the receiver.
empty_is_dropped : ppp_deframe (body []) ≡ returned false []
unfolding ppp_deframe body fcs_of
empty_is_dropped = refl

three_escapes : ppp_deframe (0x7D ∷ 0x7D ∷ 0x7D ∷ []) ≡ undefined
unfolding ppp_deframe deframe_loop deframe_step deframe_end pop_back
three_escapes = refl

ppp_deframe-ppp_frame_example :
    (ppp_frame payload ≡ flag_char ∷ body payload ++ flag_char ∷ [])
    × All (λ c. c ≢ flag_char) (body payload)
    × (ppp_deframe (body payload) ≡ returned true payload)
ppp_deframe-ppp_frame_example = ppp_deframe-ppp_frame payload (omega arith) (cc)

ppp_deframe-stuff_iff_example :
    (accepted : Bool) × (ppp_deframe (stuff (payload ++ 1 ∷ 2 ∷ [])) ≡ returned accepted payload)
    × ((accepted ≡ true) ↔ (1 ∷ 2 ∷ [] ≡ trailer (fcs_of payload fcs_init)))
ppp_deframe-stuff_iff_example =
    ppp_deframe-stuff_iff payload 1 2 (omega arith) (omega arith) (omega arith) (cc)

-- The body of `payload`, of which the first two bytes are then changed.
accepted_text : ppp_deframe (stuff (0x7E ∷ 0x41 ∷ 0x7D ∷ 0xD3 ∷ 0xA1 ∷ [])) ≡ returned true payload
unfolding ppp_deframe deframe_loop deframe_step deframe_end pop_back stuff fcs_of
accepted_text = refl

burst-IsRejected_example : IsRejected (ppp_deframe (stuff (0x7F ∷ 0x40 ∷ 0x7D ∷ 0xD3 ∷ 0xA1 ∷ [])))
burst-IsRejected_example =
    burst-IsRejected [] (0x7D ∷ 0xD3 ∷ 0xA1 ∷ []) payload 0x7E 0x41 0x7F 0x40 (omega arith)
      (omega arith) (λ e. omega arith) accepted_text

abbrev one_plain_byte : List ℕ
one_plain_byte = 0x7D ∷ 0x41 ∷ 0x7D ∷ []

ppp_deframe-undefined_iff_example :
    (ppp_deframe one_plain_byte ≡ undefined)
    ↔ ((3 ≤ length one_plain_byte) × (plain_bytes one_plain_byte < 2))
ppp_deframe-undefined_iff_example = ppp_deframe-undefined_iff one_plain_byte (omega arith)
