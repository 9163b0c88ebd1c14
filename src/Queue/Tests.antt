-- ===== src/Queue/Tests.antt =====
-- Runs of the lock-free queue, and its theorems at them.
use broker_proxy.Base.{ℕ, ◌%◌, ◌≤◌, ◌<◌, ◌≡◌, ◌≢◌, refl, Option, none, some, [], ◌∷◌, All, arith}
use broker_proxy.Queue.Ticket.{
  idle, push_loaded, pop_loaded, World, update, empty, start, step, act, begin_push, begin_pop,
  go_on, Reach, at_start, then_step,
}
use broker_proxy.Queue.Ticket.Invariant.{AreDistinct}
use broker_proxy.Queue.Ticket.Safety.{pops_match_pushes, no_race}

-- Thread 0 pushes 7 and takes a ticket for 8, and thread 1 a ticket to read the 7.
abbrev pushing : World ℕ
pushing = record (start {A = ℕ}) { pc = update (start {A = ℕ}).pc 0 (push_loaded 7 0) }

abbrev pushed : World ℕ
pushed = act 2 0 (act 2 0 (act 2 0 (act 2 0 pushing)))

abbrev again : World ℕ
again = record pushed { pc = update pushed.pc 0 (push_loaded 8 1) }

abbrev claimed : World ℕ
claimed = act 2 0 (act 2 0 again)

abbrev popping : World ℕ
popping = record claimed { pc = update claimed.pc 1 (pop_loaded 0) }

abbrev both : World ℕ
both = act 2 1 (act 2 1 popping)

abbrev popped : World ℕ
popped = act 2 1 (act 2 1 both)

pushed-idle : pushed.pc 0 ≡ idle
unfolding step empty
pushed-idle = refl

Reach-claimed : Reach 2 claimed
unfolding empty step
Reach-claimed =
    then_step
      (then_step
        (then_step
          (then_step
            (then_step
              (then_step
                (then_step (then_step at_start (begin_push 0 7 start refl)) (go_on 0 pushing))
                (go_on 0 (act 2 0 pushing)))
              (go_on 0 (act 2 0 (act 2 0 pushing))))
            (go_on 0 (act 2 0 (act 2 0 (act 2 0 pushing)))))
          (begin_push 0 8 pushed pushed-idle))
        (go_on 0 again))
      (go_on 0 (act 2 0 again))

Reach-both : Reach 2 both
unfolding step empty
Reach-both =
    then_step (then_step (then_step Reach-claimed (begin_pop 1 claimed refl)) (go_on 1 popping))
      (go_on 1 (act 2 1 popping))

Reach-popped : Reach 2 popped
Reach-popped = then_step (then_step Reach-both (go_on 1 both)) (go_on 1 (act 2 1 both))

-- The pop with the ticket 0 has delivered the 7.
popped-taken : popped.shared.taken ≡ (0, some 7) ∷ []
unfolding step empty
popped-taken = refl

pops_match_pushes_example :
    (popped.shared.head ≤ popped.shared.tail)
    × AreDistinct popped.shared.taken
    × All
        (λ (p : ℕ × Option ℕ).
          (p.0 < popped.shared.head) × (p.1 ≡ popped.shared.log p.0) × (p.1 ≡ none → ⊥))
        popped.shared.taken
pops_match_pushes_example = pops_match_pushes 2 (omega arith) Reach-popped

no_race_example : 1 % 2 ≢ 0 % 2
unfolding step empty
no_race_example = no_race 2 (omega arith) 0 1 1 0 Reach-both refl refl
