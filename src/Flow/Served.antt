-- ===== src/Flow/Served.antt =====
-- Schedules of an asynchronous flow of common/src/limero.h on which no value is lost and all are
-- emitted.
use broker_proxy.Base.{
  ℕ, zero, suc, ◌≡◌, refl, ap, ◌∙◌, Bool, true, List, [], ◌∷◌, ◌++◌, if◌then◌else◌, length,
  length-append, append_assoc, append-nil, ltb, arith,
}
use broker_proxy.Queue.Fifo.{Fifo}
use broker_proxy.Flow.{QueueFlow, FlowEvent, arrive, work, happen_all}
use broker_proxy.Flow.Order.{Abstract, flow_spec_all, IsSteady, happen_all_refines}
use broker_proxy.Flow.Accepted.{arrive-room}

-- A turn of a schedule: the next value comes, while the thread's work has room or not, or the
-- thread works.
pub data Slot : Type 0 where
  comes : Bool → Slot
  works : Slot

-- How many values come.
abbrev pub comings : List Slot → ℕ
comings [] = 0
comings (comes r ∷ ss) = suc (comings ss)
comings (works ∷ ss) = comings ss

-- What happens if these values come.
abbrev pub fill : {A : Type 0} → List Slot → List A → List (FlowEvent A)
fill [] vs = []
fill (comes r ∷ ss) [] = fill ss []
fill (comes r ∷ ss) (v ∷ vs) = arrive v r ∷ fill ss vs
fill (works ∷ ss) vs = work ∷ fill ss vs

-- Whenever a value comes, fewer than `limit` wait, and at the end none does. At the start `n` wait
-- and `p` entries stand in the thread's work.
abbrev pub IsServed : ℕ → List Slot → ℕ → ℕ → Type 0
IsServed limit [] n p = n ≡ 0
IsServed limit (comes r ∷ ss) n p =
    (ltb n limit ≡ true) × IsServed limit ss (suc n) (if r then suc p else p)
IsServed limit (works ∷ ss) zero p = IsServed limit ss zero p
IsServed limit (works ∷ ss) (suc n) zero = IsServed limit ss (suc n) zero
IsServed limit (works ∷ ss) (suc n) (suc p) = IsServed limit ss n p

-- Nothing waits at the end, and all was emitted.
abbrev IsEmptied : {A : Type 0} → List A → Abstract A → Type 0
IsEmptied out s = (s.waiting ≡ []) × (s.output ≡ out)

flow_spec_all-IsEmptied :
    {A : Type 0} (limit : ℕ) (ss : List Slot) (vs w : List A) (p : ℕ) (o : List A)
    → IsServed limit ss (length w) p
    → comings ss ≡ length vs
    → IsEmptied
        ((o ++ w) ++ vs)
        (flow_spec_all limit (fill ss vs) (record { waiting = w; entries = p; output = o }))
flow_spec_all-IsEmptied limit [] [] [] p o h k = (refl, simp append-nil)
flow_spec_all-IsEmptied limit [] [] (x ∷ w) p o h k = absurd (omega (arith, h))
flow_spec_all-IsEmptied limit [] (v ∷ vs) w p o h k = absurd (omega (arith, k))
flow_spec_all-IsEmptied limit (comes r ∷ ss) [] w p o h k = absurd (omega (arith, k))
flow_spec_all-IsEmptied {A} limit (comes r ∷ ss) (v ∷ vs) w p o h k =
    let s : Abstract A = record { waiting = w; entries = p; output = o } in
    let longer : length (w ++ v ∷ []) ≡ suc (length w) = omega (arith, length-append w (v ∷ [])) in
    let rest =
      flow_spec_all-IsEmptied limit ss vs (w ++ v ∷ []) (if r then suc p else p) o (rw longer h.1)
        (omega (arith, k)) in
    let first = ap (flow_spec_all limit (fill ss vs)) (arrive-room limit v r s h.0) in
    (ap (λ a. a.waiting) first ∙ rest.0, ap (λ a. a.output) first ∙ rest.1 ∙ simp append_assoc)
flow_spec_all-IsEmptied limit (works ∷ ss) vs [] p o h k =
    flow_spec_all-IsEmptied limit ss vs [] p o h k
flow_spec_all-IsEmptied limit (works ∷ ss) vs (x ∷ w) zero o h k =
    flow_spec_all-IsEmptied limit ss vs (x ∷ w) zero o h k
flow_spec_all-IsEmptied limit (works ∷ ss) vs (x ∷ w) (suc p) o h k =
    let rest = flow_spec_all-IsEmptied limit ss vs w p (o ++ x ∷ []) h k in
    (rest.0, rest.1 ∙ simp append_assoc)

-- An idle flow that is served on a schedule emits the values that come, all and in order.
pub emitted-IsServed :
    {A : Type 0} (fifo : Fifo A) (f : QueueFlow A fifo.State) (ss : List Slot) (vs : List A)
    → IsSteady fifo f
    → fifo.items f.queue ≡ []
    → f.emitted ≡ []
    → IsServed (fifo.limit f.queue) ss 0 f.pending
    → comings ss ≡ length vs
    → (happen_all fifo (fill ss vs) f).emitted ≡ vs
emitted-IsServed fifo f ss vs steady nothing fresh served k =
    let done =
      flow_spec_all-IsEmptied (fifo.limit f.queue) ss vs (fifo.items f.queue) f.pending f.emitted
        (rw nothing served) k in
    ap (λ s. s.output) (happen_all_refines fifo (fill ss vs) f steady).1
    ∙ done.1
    ∙ rw (nothing, fresh) refl
