-- ===== src/Rx/Tests.antt =====
-- Runs of the receiver, and its theorem at a concrete stream.
use broker_proxy.Base.{ℕ, ◌≡◌, refl, some, List, [], ◌∷◌, arith}
use broker_proxy.Fcs.{fcs_of}
use broker_proxy.Ppp.{add_escaped, frame_loop, ppp_frame, ppp_deframe}
use broker_proxy.Rx.{frame, log, Receiver, handle_chunks}
use broker_proxy.Rx.View.{events_of}
use broker_proxy.Rx.Cut.{IsQuiet, handle_chunks-wire}

-- A receiver into which two bytes of an earlier frame have come.
abbrev started : Receiver
started = record {
  input_frame = 0x41 ∷ 0x42 ∷ [];
  clean_data = [];
  last_frame_flag = 0;
  calls = 0;
  events = [];
}

abbrev clock : ℕ → ℕ
clock n = n

-- The frames of [1, 2] and [3], cut in two places.
abbrev chunks : List (List ℕ)
chunks =
    (0x7E ∷ 0x01 ∷ [])
    ∷ (0x02 ∷ 0x8D ∷ 0x35 ∷ 0x7E ∷ 0x7E ∷ 0x03 ∷ [])
    ∷ (0xE3 ∷ 0xC2 ∷ 0x7E ∷ [])
    ∷ []

chunks-IsQuiet : IsQuiet clock chunks started
unfolding handle_chunks ppp_deframe
chunks-IsQuiet = (refl, (refl, (refl, tt)))

handle_chunks-wire_example :
    (r' : Receiver) × (handle_chunks clock chunks started ≡ some r')
    × (r'.events ≡ log (0x41 ∷ 0x42 ∷ []) ∷ frame (1 ∷ 2 ∷ []) ∷ frame (3 ∷ []) ∷ [])
    × (r'.input_frame ≡ [])
unfolding ppp_frame ppp_deframe frame_loop add_escaped fcs_of events_of
handle_chunks-wire_example =
    handle_chunks-wire clock chunks (1 ∷ 2 ∷ []) ((3 ∷ []) ∷ []) started
      (log (0x41 ∷ 0x42 ∷ []) ∷ []) refl ((omega arith, cc), ((omega arith, cc), tt)) refl
      chunks-IsQuiet
