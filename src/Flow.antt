-- ===== src/Flow.antt =====
-- common/src/limero.h, the flows that hand values from one thread to another: `QueueFlow`.
-- `SinkQueue` is the same code with a handler in place of `emit`. A flow calls its queue, any
-- bounded FIFO, and `Thread::enqueue`, which appends the flow to the work of its thread if that has
-- room (on Linux a pipe, into which all flows of the thread write); the flow does not look at the
-- result. An invocation of the thread's work calls `invoke`.
pub mod Order
pub mod Accepted
pub mod Served
mod Tests
use broker_proxy.Base.{
  ℕ, zero, suc, ◌+◌, ◌≡◌, Bool, true, false, Option, none, some, List, [], ◌∷◌, ◌++◌, if◌then◌else◌,
}
use broker_proxy.Queue.Fifo.{Fifo}

-- The flow. `pending` counts the entries of this flow in the work of its thread, and `failed` the
-- warnings "push failed", `overflow` those of `Thread::enqueue`; `starved` counts the warnings "no data". `emitted` holds what was emitted,
-- in order.
pub record QueueFlow (A Q : Type 0) : Type 0 where
  pub queue : Q
  pub is_async : Bool
  pub pending : ℕ
  pub emitted : List A
  pub failed : ℕ
  pub overflow : ℕ
  pub starved : ℕ

module _ {A : Type 0} (fifo : Fifo A) where
  -- `Thread::enqueue`
  abbrev pub enqueue : Bool → QueueFlow A fifo.State → QueueFlow A fifo.State
  enqueue room f =
      if room then record f { pending = suc f.pending } else record f { overflow = suc f.overflow }

  -- `QueueFlow::on`; `_thread` is set exactly if the flow is asynchronous. `room` tells whether the
  -- thread's work has room.
  unfoldable pub on : A → Bool → QueueFlow A fifo.State → QueueFlow A fifo.State
  on t room f =
      let (q, pushed) = fifo.push t f.queue in
      if f.is_async
      then if pushed
        then enqueue room (record f { queue = q })
        else record f { queue = q; failed = suc f.failed }
      else record f { emitted = f.emitted ++ t ∷ [] }

  unfoldable pub emit_popped :
      fifo.State → Option A → QueueFlow A fifo.State → QueueFlow A fifo.State
  emit_popped q (some value) f = record f { queue = q; emitted = f.emitted ++ value ∷ [] }
  emit_popped q none f = record f { queue = q; starved = suc f.starved }

  -- `QueueFlow::invoke`
  unfoldable pub invoke : QueueFlow A fifo.State → QueueFlow A fifo.State
  invoke f = let (q, value) = fifo.pop f.queue in emit_popped q value f

  -- The thread takes the next entry of its work, if there is one.
  unfoldable pub take_work : ℕ → QueueFlow A fifo.State → QueueFlow A fifo.State
  take_work zero f = f
  take_work (suc n) f = invoke (record f { pending = n })

  abbrev pub run_pending : QueueFlow A fifo.State → QueueFlow A fifo.State
  run_pending f = take_work f.pending f

-- What happens to a flow: a value comes in, while the thread's work has room or not, or the
-- thread goes on.
pub data FlowEvent (A : Type 0) : Type 0 where
  arrive : A → Bool → FlowEvent A
  work : FlowEvent A

module _ {A : Type 0} (fifo : Fifo A) where
  abbrev pub happen : FlowEvent A → QueueFlow A fifo.State → QueueFlow A fifo.State
  happen (arrive t room) f = on fifo t room f
  happen work f = run_pending fifo f

  abbrev pub happen_all : List (FlowEvent A) → QueueFlow A fifo.State → QueueFlow A fifo.State
  happen_all [] f = f
  happen_all (e ∷ es) f = happen_all es (happen e f)
