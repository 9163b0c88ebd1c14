-- ===== src/Flow/Order.antt =====
-- An asynchronous flow emits what it has accepted, in order, however its thread is scheduled.
use broker_proxy.Base.{
  ℕ, zero, suc, ◌≡◌, ◌≤◌, refl, ap, ◌∙◌, Bool, true, false, ◌&&◌, List, [], ◌∷◌, ◌++◌,
  if◌then◌else◌, length, length-append, ltb, Bool-cases, inl, inr, arith,
}
use broker_proxy.Queue.Fifo.{Fifo, push_spec, push_room, push_full, pop_some}
use broker_proxy.Flow.{
  QueueFlow, on, emit_popped, invoke, take_work, FlowEvent, arrive, work, happen, happen_all,
}

-- The abstract flow: the values that wait, for how many of them an entry stands in the thread's
-- work, and what was emitted. A value that finds the queue full is lost.
pub record Abstract (A : Type 0) : Type 0 where
  pub waiting : List A
  pub entries : ℕ
  pub output : List A

module _ {A : Type 0} where
  abbrev pub deliver : List A → ℕ → List A → Abstract A
  deliver (t ∷ w) (suc n) o = record { waiting = w; entries = n; output = o ++ t ∷ [] }
  deliver [] n o = record { waiting = []; entries = n; output = o }
  deliver (t ∷ w) zero o = record { waiting = t ∷ w; entries = 0; output = o }

  abbrev pub flow_spec : ℕ → FlowEvent A → Abstract A → Abstract A
  flow_spec limit (arrive t room) s =
      let (w, stored) = push_spec limit t s.waiting in
      record s { waiting = w; entries = if stored && room then suc s.entries else s.entries }
  flow_spec limit work s = deliver s.waiting s.entries s.output

  abbrev pub flow_spec_all : ℕ → List (FlowEvent A) → Abstract A → Abstract A
  flow_spec_all limit [] s = s
  flow_spec_all limit (e ∷ es) s = flow_spec_all limit es (flow_spec limit e s)

module _ {A : Type 0} (fifo : Fifo A) where
  -- An asynchronous flow has no more entries in its thread's work than values in its queue.
  pub record IsSteady (f : QueueFlow A fifo.State) : Type 0 where
    pub asynchronous : f.is_async ≡ true
    pub queue_valid : fifo.IsValid f.queue
    pub one_each : f.pending ≤ length (fifo.items f.queue)

  abbrev pub view : QueueFlow A fifo.State → Abstract A
  view f = record { waiting = fifo.items f.queue; entries = f.pending; output = f.emitted }

  -- What one event does to a steady flow.
  abbrev pub Follows : FlowEvent A → QueueFlow A fifo.State → Type 0
  Follows e f =
      let f' = happen fifo e f in
      IsSteady f'
      × (fifo.limit f'.queue ≡ fifo.limit f.queue)
      × (view f' ≡ flow_spec (fifo.limit f.queue) e (view f))
      × (f'.starved ≡ f.starved)

  -- A value for which there is room in both places, in the queue alone, and in none.
  arrived :
      (t : A) (f : QueueFlow A fifo.State)
      → IsSteady f
      → ltb (length (fifo.items f.queue)) (fifo.limit f.queue) ≡ true
      → Follows (arrive t true) f
  unfolding on push_spec
  arrived t f s room =
      let (put, pushed) = push_room fifo t f.queue s.queue_valid room in
      rw (s.asynchronous, pushed, room, put)
        (
          record {
            asynchronous = refl;
            queue_valid = fifo.push_valid t f.queue s.queue_valid;
            one_each =
                rw put (omega (arith, s.one_each, length-append (fifo.items f.queue) (t ∷ [])));
          },
          fifo.push_limit t f.queue s.queue_valid,
          refl,
          refl,
        )

  unannounced :
      (t : A) (f : QueueFlow A fifo.State)
      → IsSteady f
      → ltb (length (fifo.items f.queue)) (fifo.limit f.queue) ≡ true
      → Follows (arrive t false) f
  unfolding on push_spec
  unannounced t f s room =
      let (put, pushed) = push_room fifo t f.queue s.queue_valid room in
      rw (s.asynchronous, pushed, room, put)
        (
          record {
            asynchronous = refl;
            queue_valid = fifo.push_valid t f.queue s.queue_valid;
            one_each =
                rw put (omega (arith, s.one_each, length-append (fifo.items f.queue) (t ∷ [])));
          },
          fifo.push_limit t f.queue s.queue_valid,
          refl,
          refl,
        )

  refused :
      (t : A) (r : Bool) (f : QueueFlow A fifo.State)
      → IsSteady f
      → ltb (length (fifo.items f.queue)) (fifo.limit f.queue) ≡ false
      → Follows (arrive t r) f
  unfolding on push_spec
  refused t r f s full =
      let (put, pushed) = push_full fifo t f.queue s.queue_valid full in
      rw (s.asynchronous, pushed, full, put)
        (
          record {
            asynchronous = refl;
            queue_valid = fifo.push_valid t f.queue s.queue_valid;
            one_each = rw put s.one_each;
          },
          fifo.push_limit t f.queue s.queue_valid,
          refl,
          refl,
        )

  arrive-Follows :
      (t : A) (r : Bool) (f : QueueFlow A fifo.State) → IsSteady f → Follows (arrive t r) f
  arrive-Follows t true f s =
      elim (Bool-cases (ltb (length (fifo.items f.queue)) (fifo.limit f.queue))) [
        | inl room ↦ arrived t f s room
        | inr full ↦ refused t true f s full
      ]
  arrive-Follows t false f s =
      elim (Bool-cases (ltb (length (fifo.items f.queue)) (fifo.limit f.queue))) [
        | inl room ↦ unannounced t f s room
        | inr full ↦ refused t false f s full
      ]

  -- The thread's next entry emits the oldest value.
  worked :
      (xs : List A) (n : ℕ) (f : QueueFlow A fifo.State)
      → IsSteady f
      → fifo.items f.queue ≡ xs
      → f.pending ≡ n
      → Follows work f
  unfolding take_work invoke emit_popped
  worked [] (suc n) f s e p = absurd (omega (arith, s.one_each, ap length e))
  worked [] zero f s e p =
      rw (p, e)
        (
          record {
            asynchronous = s.asynchronous;
            queue_valid = s.queue_valid;
            one_each = omega arith;
          },
          refl,
          refl,
          refl,
        )
  worked (t ∷ xs) zero f s e p =
      rw (p, e)
        (
          record {
            asynchronous = s.asynchronous;
            queue_valid = s.queue_valid;
            one_each = omega arith;
          },
          refl,
          refl,
          refl,
        )
  worked (t ∷ xs) (suc n) f s e p =
      let (left, found) = pop_some fifo t xs f.queue s.queue_valid e in
      let fits : n ≤ length xs = omega (arith, s.one_each, p, ap length e) in
      rw (p, found, e)
        (
          record {
            asynchronous = s.asynchronous;
            queue_valid = fifo.pop_valid f.queue s.queue_valid;
            one_each = rw left fits;
          },
          fifo.pop_limit f.queue s.queue_valid,
          rw left refl,
          refl,
        )

  happen-Follows : (e : FlowEvent A) (f : QueueFlow A fifo.State) → IsSteady f → Follows e f
  happen-Follows (arrive t r) f s = arrive-Follows t r f s
  happen-Follows work f s = worked (fifo.items f.queue) f.pending f s refl refl

  -- An asynchronous flow over a valid queue, with no more entries in its thread's work than values
  -- that wait, is the abstract flow of the queue's bound: after any sequence of arrivals and of
  -- turns of its thread, the same values wait, the same have been emitted, in the same order, as
  -- many entries stand in the thread's work, no more than values wait, and no turn has found the
  -- queue empty.
  pub happen_all_refines :
      (es : List (FlowEvent A)) (f : QueueFlow A fifo.State)
      → IsSteady f
      → let f' = happen_all fifo es f in
        IsSteady f'
        × (view f' ≡ flow_spec_all (fifo.limit f.queue) es (view f))
        × (f'.starved ≡ f.starved)
  happen_all_refines [] f s = (s, refl, refl)
  happen_all_refines (e ∷ es) f s =
      let (steady, limit, seen, starved) = happen-Follows e f s in
      let (s', v', n') = happen_all_refines es (happen fifo e f) steady in
      (s', v' ∙ rw (limit, seen) refl, n' ∙ starved)
