-- ===== src/Serial/Lines.antt =====
-- proxy/src/serial.cpp: where `modeRun` and `modeProgram` take the two modem lines.
use broker_proxy.Base.{
  ◌≡◌, sym, ap, Bool, true, false, List, [], ◌∷◌, Bool-cases, inl, inr, if◌then◌else◌,
}
use broker_proxy.Serial.{
  Line, dtr, rts, LineCall, wait, set_bit, clr_bit, all_calls, run_calls, program_calls, mode_run,
  mode_program,
}

-- The modes of the table in serial.cpp, by TIOCM_DTR and TIOCM_RTS.
pub data Mode : Type 0 where
  run reset program : Mode

abbrev pub mode_of : Bool → Bool → Mode
mode_of true true = run
mode_of true false = reset
mode_of false true = program
mode_of false false = run

-- A board: its two lines, and the modes in which it was left for a while, the last first.
pub record Board : Type 0 where
  pub dtr_line : Bool
  pub rts_line : Bool
  pub held : List Mode

abbrev pub set_line : Line → Bool → Board → Board
set_line dtr level b = record b { dtr_line = level }
set_line rts level b = record b { rts_line = level }

abbrev pub effect : LineCall → Board → Board
effect (wait n) b = record b { held = mode_of b.dtr_line b.rts_line ∷ b.held }
effect (set_bit l) b = set_line l true b
effect (clr_bit l) b = set_line l false b

abbrev pub effects : List LineCall → Board → Board
effects [] b = b
effects (c ∷ cs) b = effects cs (effect c b)

-- A port on which a call has its effect if `ok` says that it succeeds.
abbrev pub board_port : (LineCall → Board → Bool) → LineCall → Board → Board × Bool
board_port ok c b = if ok c b then (effect c b, true) else (b, false)

all_calls-effects :
    (ok : LineCall → Board → Bool) (cs : List LineCall) (b b' : Board)
    → all_calls (board_port ok) cs b ≡ (b', true)
    → b' ≡ effects cs b
all_calls-effects ok [] b b' e = sym (ap (λ p. p.0) e)
all_calls-effects ok (c ∷ cs) b b' e = elim (Bool-cases (ok c b)) [
  | inl y ↦ all_calls-effects ok cs (effect c b) b' (rw y at e)
  | inr n ↦ absurd (failed (ap (λ p. p.1) (rw n at e)))
]
  where
    failed : false ≡ true → ⊥
    failed h = absurd (cc)

-- Where `modeRun` returns true, the board was left in reset and then in the mode to run; where
-- `modeProgram` does, in reset and then in the mode to program; before that both leave it for a
-- while in the mode it was in. This is so on any board, whichever calls fail.
pub mode_run-and-mode_program :
    (ok : LineCall → Board → Bool) (b b₁ b₂ : Board)
    → mode_run (board_port ok) b ≡ (b₁, true)
    → mode_program (board_port ok) b ≡ (b₂, true)
    → (b₁.held ≡ run ∷ reset ∷ mode_of b.dtr_line b.rts_line ∷ b.held)
      × (b₂.held ≡ program ∷ reset ∷ mode_of b.dtr_line b.rts_line ∷ b.held)
unfolding mode_run mode_program
mode_run-and-mode_program ok b b₁ b₂ e₁ e₂ = (
  ap (λ x. x.held) (all_calls-effects ok run_calls b b₁ e₁),
  ap (λ x. x.held) (all_calls-effects ok program_calls b b₂ e₂),
)
