-- ===== src/Ppp.antt =====
-- common/src/ppp_frame.cpp: `ppp_frame` and `ppp_deframe`, each loop over its variables. A byte is
-- a number below 256. The log messages are left out.
pub mod Stuff
pub mod Accept
pub mod Burst
pub mod Undefined
mod Tests
use broker_proxy.Base.{
  ℕ, ◌/◌, ◌%◌, ◌^◌, bit_xor, Bool, true, false, not, ◌&&◌, ◌||◌, Option, none, some, List, [], ◌∷◌,
  ◌++◌, ltb, ◌==◌, if◌then◌else◌, length,
}
use broker_proxy.Fcs.{fcs_init, fcs_write, fcs_result, fcs_of}

-- `PPP_MASK_CHAR`, `PPP_ESC_CHAR`, `PPP_FLAG_CHAR`
abbrev pub mask_char : ℕ
mask_char = 0x20

abbrev pub esc_char : ℕ
esc_char = 0x7D

abbrev pub flag_char : ℕ
flag_char = 0x7E

-- `addEscaped`
unfoldable pub add_escaped : List ℕ → ℕ → List ℕ
add_escaped out c =
    if c == esc_char || c == flag_char
    then (out ++ esc_char ∷ []) ++ bit_xor c mask_char ∷ []
    else out ++ c ∷ []

-- The loop of `ppp_frame` over the payload: the buffer and the checksum so far.
unfoldable pub frame_loop : List ℕ → List ℕ → ℕ → List ℕ × ℕ
frame_loop [] out fcs = (out, fcs)
frame_loop (c ∷ cs) out fcs = frame_loop cs (add_escaped out c) (fcs_write fcs c)

unfoldable pub ppp_frame : List ℕ → List ℕ
ppp_frame bs =
    let (out, fcs) = frame_loop bs (flag_char ∷ []) fcs_init in
    add_escaped (add_escaped out (fcs_result fcs % 2 ^ 8)) (fcs_result fcs / 2 ^ 8)
    ++ flag_char ∷ []

-- The variables of the loop of `ppp_deframe`: `out`, `fcs`, `escFlag`.
pub record Deframer : Type 0 where
  pub out : List ℕ
  pub fcs : ℕ
  pub esc : Bool

abbrev pub deframer_init : Deframer
deframer_init = record { out = []; fcs = fcs_init; esc = false }

-- One round of the loop; `none` is the early return at an unexpected flag.
pub deframe_step : ℕ → Deframer → Option Deframer
deframe_step c s =
    if c == esc_char
    then some (record s { esc = true })
    else if c == flag_char
    then none
    else if s.esc
    then some (record {
      out = s.out ++ bit_xor c mask_char ∷ [];
      fcs = fcs_write s.fcs (bit_xor c mask_char);
      esc = false;
    })
    else some (record s { out = s.out ++ c ∷ []; fcs = fcs_write s.fcs c })

-- Whether the loop ran to its end, and its variables when it stopped.
pub deframe_loop : List ℕ → Deframer → Bool × Deframer
deframe_loop [] s = (true, s)
deframe_loop (c ∷ cs) s = elim (deframe_step c s) [
  | none ↦ (false, s)
  | some s' ↦ deframe_loop cs s'
]

-- `std::vector::pop_back`; on an empty vector its behaviour is undefined (`none`).
pub pop_back : List ℕ → Option (List ℕ)
pop_back [] = none
pop_back (x ∷ []) = some []
pop_back (x ∷ y ∷ ys) = elim (pop_back (y ∷ ys)) [ none ↦ none | some zs ↦ some (x ∷ zs) ]

-- How `ppp_deframe` ends: it returns a truth value and leaves bytes in `out`, or it meets
-- undefined behaviour.
pub data Deframed : Type 0 where
  returned : Bool → List ℕ → Deframed
  undefined : Deframed

-- After the loop: the two checksum bytes are dropped, whatever `fcsCheck` says.
pub deframe_end : Deframer → Deframed
deframe_end s = elim (pop_back s.out) [
  | none ↦ undefined
  | some o ↦ elim (pop_back o) [
    | none ↦ undefined
    | some o' ↦ returned (not s.esc && (fcs_result s.fcs == 0x0F47)) o'
  ]
]

unfoldable pub ppp_deframe : List ℕ → Deframed
unfolding deframe_loop deframe_step deframe_end pop_back fcs_of
ppp_deframe bs =
    if ltb (length bs) 3
    then returned false []
    else (let (done, s) = deframe_loop bs deframer_init in
        if done then deframe_end s else returned false s.out)
