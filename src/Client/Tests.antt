-- ===== src/Client/Tests.antt =====
-- Messages of a micro-controller on their way to the broker, and the theorems there.
use broker_proxy.Base.{ℕ, append-nil, ◌≡◌, refl, true, some, List, [], ◌∷◌, arith, false}
use broker_proxy.Cbor.{pos}
use broker_proxy.Cbor.Toy.{toy, toy-Contract}
use broker_proxy.Proxy.{Proxy, PubMsg}
use broker_proxy.Client.{
  Client, outgoing, reset_connect_timer, publish_uint, on_incoming, on_outgoing, send_node,
}
use broker_proxy.Fcs.{fcs_of}
use broker_proxy.Ppp.{add_escaped, frame_loop, ppp_frame, ppp_deframe}
use broker_proxy.Rx.{Receiver, handle_chunks}
use broker_proxy.Rx.Cut.{IsQuiet}
use broker_proxy.Proxy.Messages.{publication, announcement}
use broker_proxy.Client.Delivery.{
  send_all, on_frames, frames_of, logs_of, IsIdle, calls_of_all, send_all-on_frames,
}
use broker_proxy.Queue.Ring.{Ring}
use broker_proxy.Queue.Ring.Interface.{ring_fifo}
use broker_proxy.Flow.{QueueFlow, happen_all}
use broker_proxy.Flow.Served.{Slot, comes, works, fill}
use broker_proxy.Client.Keepalive.{started, loopback_message, latency_message, on_incoming-loopback}

abbrev client : Client (List ℕ) (List ℕ)
client = record {
  node = [];
  src_prefix = [];
  dst_prefix = [];
  loopback_topic = [];
  latency_publisher = [];
  loopback_publisher = [];
  loopback_subscriber = [];
  is_connected = false;
  to_cbor = record { capacity = 100; size = 0; err = 0; encoder = [] };
  from_cbor = record { capacity = 100; content = []; err = 0; it = [] };
}

-- The name is "n".
on_incoming-loopback_example :
    ((publish_uint toy
        (started toy toy-Contract (110 ∷ []) client).loopback_publisher
        3
        (started toy toy-Contract (110 ∷ []) client)).1
      ≡ outgoing (loopback_message toy toy-Contract (110 ∷ []) 3) ∷ [])
    × ((on_incoming toy 8 0
          (loopback_message toy toy-Contract (110 ∷ []) 3)
          (started toy toy-Contract (110 ∷ []) client)).1
        ≡ outgoing (latency_message toy toy-Contract (started toy toy-Contract (110 ∷ []) client) 5)
          ∷ reset_connect_timer
          ∷ [])
    × ((on_incoming toy 8 0
          (loopback_message toy toy-Contract (110 ∷ []) 3)
          (started toy toy-Contract (110 ∷ []) client)).0.is_connected
        ≡ true)
on_incoming-loopback_example =
    on_incoming-loopback toy toy-Contract (110 ∷ []) client 3 8 0 (omega arith) (omega arith)
      (omega arith) (omega arith) (omega arith)

abbrev proxy : Proxy (List ℕ) (List ℕ)
proxy = record {
  from_cbor = record { capacity = 1024; content = []; err = 0; it = [] };
  to_cbor = record { capacity = 1024; size = 0; err = 0; encoder = [] };
  node_name = [];
  log_buffer = [];
}

abbrev receiver : Receiver
receiver = record { input_frame = []; clean_data = []; last_frame_flag = 0; calls = 0; events = [] }

abbrev clock : ℕ → ℕ
clock n = n

-- Topic "t" with the payload 5.
abbrev five : PubMsg
five = record { topic = 3 ∷ []; payload = 5 ∷ [] }

abbrev line : List ℕ
line = (send_all toy (announcement (2 ∷ []) ∷ publication five ∷ []) client).1

line-IsQuiet : IsQuiet clock (line ∷ []) receiver
unfolding on_outgoing send_node handle_chunks ppp_frame ppp_deframe frame_loop add_escaped fcs_of
line-IsQuiet = (refl, tt)

-- A ring of 11 slots, which holds 10.
abbrev ring : Ring (List ℕ)
ring = record {
  array = [] ∷ [] ∷ [] ∷ [] ∷ [] ∷ [] ∷ [] ∷ [] ∷ [] ∷ [] ∷ [] ∷ [];
  size = 11;
  read_ptr = 0;
  write_ptr = 0;
  overflow = 0;
}

abbrev flow : QueueFlow (List ℕ) (Ring (List ℕ))
flow = record {
  queue = ring;
  is_async = true;
  pending = 0;
  emitted = [];
  failed = 0;
  overflow = 0;
  starved = 0;
}

flow-IsIdle : IsIdle ring_fifo 10 flow
flow-IsIdle = (
  record {
    asynchronous = refl;
    queue_valid = record { slots_fit = refl; read_in = omega arith; write_in = omega arith };
    one_each = omega arith;
  },
  refl,
  refl,
  refl,
  refl,
)

-- One chunk, and two frames that come before the thread works.
abbrev frame_slots : List Slot
frame_slots = comes true ∷ comes true ∷ works ∷ works ∷ []

send_all-on_frames_example :
    (r' : Receiver) × (p' : Proxy (List ℕ) (List ℕ)) × (handle_chunks clock
        (happen_all ring_fifo (fill (comes true ∷ works ∷ []) (line ∷ [])) flow).emitted
        receiver
      ≡ some r')
    × (logs_of r'.events ≡ [])
    × (on_frames toy
          (pos 0)
          (happen_all ring_fifo (fill frame_slots (frames_of r'.events)) flow).emitted
          proxy
        ≡ some (p', calls_of_all (announcement (2 ∷ []) ∷ publication five ∷ [])))
send_all-on_frames_example =
    send_all-on_frames toy toy-Contract clock (pos 0) ring_fifo flow flow (comes true ∷ works ∷ [])
      frame_slots (line ∷ []) (announcement (2 ∷ [])) (publication five ∷ []) client proxy receiver
      (
        (((λ e. absurd (omega arith)), tt), omega arith),
        ((((λ e. absurd (omega arith)), tt), omega arith), tt),
      )
      (omega arith) (append-nil line) refl refl line-IsQuiet flow-IsIdle (refl, refl) refl
      flow-IsIdle (refl, (refl, refl)) refl
