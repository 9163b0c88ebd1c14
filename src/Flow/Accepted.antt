-- ===== src/Flow/Accepted.antt =====
-- What an asynchronous flow emits is what it has accepted.
use broker_proxy.Base.{
  ℕ, zero, suc, ◌≡◌, refl, ap, sym, ◌∙◌, Bool, true, false, List, [], ◌∷◌, ◌++◌, if◌then◌else◌,
  length, length-append, append_assoc, append-nil, ltb, Bool-cases, inl, inr, arith,
}
use broker_proxy.Queue.Fifo.{Fifo, push_spec}
use broker_proxy.Flow.{QueueFlow, FlowEvent, arrive, work, happen_all}
use broker_proxy.Flow.Order.{Abstract, flow_spec, flow_spec_all, IsSteady, happen_all_refines}

module _ {A : Type 0} where
  -- The values that arrive while fewer than `limit` wait, if `n` wait and `p` entries stand in the
  -- thread's work at the start.
  abbrev pub accepted : ℕ → List (FlowEvent A) → ℕ → ℕ → List A
  accepted limit [] n p = []
  accepted limit (arrive t r ∷ es) n p =
      if ltb n limit
      then t ∷ accepted limit es (suc n) (if r then suc p else p)
      else accepted limit es n p
  accepted limit (work ∷ es) zero p = accepted limit es zero p
  accepted limit (work ∷ es) (suc n) zero = accepted limit es (suc n) zero
  accepted limit (work ∷ es) (suc n) (suc p) = accepted limit es n p

  -- All that was emitted and all that waits.
  abbrev all_values : Abstract A → List A
  all_values s = s.output ++ s.waiting

  pub arrive-room :
      (limit : ℕ) (t : A) (r : Bool) (s : Abstract A)
      → ltb (length s.waiting) limit ≡ true
      → flow_spec limit (arrive t r) s ≡ record s {
        waiting = s.waiting ++ t ∷ [];
        entries = if r then suc s.entries else s.entries;
      }
  unfolding push_spec
  arrive-room limit t r s room = rw room refl

  arrive-full :
      (limit : ℕ) (t : A) (r : Bool) (s : Abstract A)
      → ltb (length s.waiting) limit ≡ false
      → flow_spec limit (arrive t r) s ≡ s
  unfolding push_spec
  arrive-full limit t r s full = rw full refl

  all_values-flow_spec_all :
      (limit : ℕ) (es : List (FlowEvent A)) (w : List A) (p : ℕ) (o : List A)
      → all_values (flow_spec_all limit es (record { waiting = w; entries = p; output = o }))
        ≡ (o ++ w) ++ accepted limit es (length w) p
  all_values-flow_spec_all limit [] w p o = sym (append-nil (o ++ w))
  all_values-flow_spec_all limit (arrive t r ∷ es) w p o =
      elim (Bool-cases (ltb (length w) limit)) [
        | inl room ↦
            let s : Abstract A = record { waiting = w; entries = p; output = o } in
            let longer : length (w ++ t ∷ []) ≡ suc (length w) =
              omega (arith, length-append w (t ∷ [])) in
            ap (λ v. all_values (flow_spec_all limit es v)) (arrive-room limit t r s room)
            ∙ all_values-flow_spec_all limit es (w ++ t ∷ []) (if r then suc p else p) o
            ∙ rw (longer, room) (simp append_assoc)
        | inr full ↦
            let s : Abstract A = record { waiting = w; entries = p; output = o } in
            ap (λ v. all_values (flow_spec_all limit es v)) (arrive-full limit t r s full)
            ∙ all_values-flow_spec_all limit es w p o
            ∙ rw full refl
      ]
  all_values-flow_spec_all limit (work ∷ es) [] p o = all_values-flow_spec_all limit es [] p o
  all_values-flow_spec_all limit (work ∷ es) (t ∷ w) zero o =
      all_values-flow_spec_all limit es (t ∷ w) zero o
  all_values-flow_spec_all limit (work ∷ es) (t ∷ w) (suc p) o =
      all_values-flow_spec_all limit es w p (o ++ t ∷ []) ∙ simp append_assoc

-- What an asynchronous flow has emitted, followed by what still waits in its queue, is what it had
-- emitted and what waited at the start, followed by the values that arrived while there was room
-- in the queue: in order, none lost, none doubled, none made up, if at the start there were no more
-- entries in the thread's work than values that waited.
pub happen_all-keeps_order :
    {A : Type 0} (fifo : Fifo A) (es : List (FlowEvent A)) (f : QueueFlow A fifo.State)
    → IsSteady fifo f
    → let f' = happen_all fifo es f in
      f'.emitted ++ fifo.items f'.queue
      ≡ (f.emitted ++ fifo.items f.queue)
        ++ accepted (fifo.limit f.queue) es (length (fifo.items f.queue)) f.pending
happen_all-keeps_order fifo es f s =
    ap all_values (happen_all_refines fifo es f s).1
    ∙ all_values-flow_spec_all (fifo.limit f.queue) es (fifo.items f.queue) f.pending f.emitted
