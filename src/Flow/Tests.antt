-- ===== src/Flow/Tests.antt =====
-- Runs of a flow over the ring of the Arduino build.
use broker_proxy.Base.{ℕ, ◌≡◌, refl, true, false, List, [], ◌∷◌, ◌++◌, arith}
use broker_proxy.Queue.Fifo.{Fifo, push_spec}
use broker_proxy.Queue.Ring.{Ring}
use broker_proxy.Queue.Ring.Refine.{items}
use broker_proxy.Queue.Ring.Interface.{ring_fifo}
use broker_proxy.Flow.{QueueFlow, FlowEvent, arrive, work, happen_all}
use broker_proxy.Flow.Order.{IsSteady, view, happen_all_refines}
use broker_proxy.Flow.Accepted.{happen_all-keeps_order}

abbrev fifo : Fifo ℕ
fifo = ring_fifo

abbrev ring : Ring ℕ
ring = record { array = 0 ∷ 0 ∷ 0 ∷ []; size = 3; read_ptr = 0; write_ptr = 0; overflow = 0 }

abbrev flow : QueueFlow ℕ (Ring ℕ)
flow = record {
  queue = ring;
  is_async = true;
  pending = 0;
  emitted = [];
  failed = 0;
  overflow = 0;
  starved = 0;
}

-- Two slots: the third value is lost, the fourth comes after a turn of the
-- thread and stays, since the thread's work had no room for its entry.
abbrev story : List (FlowEvent ℕ)
story = arrive 1 true ∷ arrive 2 true ∷ arrive 3 true ∷ work ∷ arrive 4 false ∷ work ∷ work ∷ []

flow-IsSteady : IsSteady fifo flow
flow-IsSteady = record {
  asynchronous = refl;
  queue_valid = record { slots_fit = refl; read_in = omega arith; write_in = omega arith };
  one_each = omega arith;
}

happen_all_refines_example :
    let f = happen_all fifo story flow in
    IsSteady fifo f
    × (view fifo f ≡ record { waiting = 4 ∷ []; entries = 0; output = 1 ∷ 2 ∷ [] })
    × (f.starved ≡ 0)
unfolding push_spec
happen_all_refines_example = happen_all_refines fifo story flow flow-IsSteady

happen_all-keeps_order_example :
    let f = happen_all fifo story flow in f.emitted ++ items f.queue ≡ 1 ∷ 2 ∷ 4 ∷ []
happen_all-keeps_order_example = happen_all-keeps_order fifo story flow flow-IsSteady
