-- ===== src/Client/Delivery.antt =====
-- From the micro-controller to the broker: what arduino_client/src/BrokerSerial.cpp writes on the
-- serial line, what common/src/Frame.cpp cuts out of it, and what proxy/src/serialProxy.cpp does.
-- In between are two flows of proxy/src/SessionSerial.cpp, each with a queue: `_incomingSerial`,
-- from which the receiver takes chunks, and `_incomingMessage`, to which it gives frames.
use broker_proxy.Base.{
  ℕ, suc, sym, ◌≤◌, ◌≡◌, refl, ap, ◌∙◌, Option, some, List, [], ◌∷◌, ◌++◌, length, All, map,
  append-nil, ◌>>=◌, arith,
}
use broker_proxy.Ppp.{ppp_frame}
use broker_proxy.Rx.{Event, frame, log, Receiver, handle_chunks}
use broker_proxy.Rx.View.{events_of}
use broker_proxy.Rx.Stream.{wire, IsPayload}
use broker_proxy.Rx.Cut.{concat, IsQuiet, handle_chunks-wire}
use broker_proxy.Queue.Fifo.{Fifo}
use broker_proxy.Flow.{QueueFlow, happen_all}
use broker_proxy.Flow.Order.{IsSteady}
use broker_proxy.Flow.Served.{Slot, IsServed, comings, fill, emitted-IsServed}
use broker_proxy.Cbor.{ℤ, TinyCbor, CborSerializer, to_bytes}
use broker_proxy.Cbor.Contract.{Contract, IsWritten, write_array, write_array-IsWritten}
use broker_proxy.Proxy.{Call, Proxy, on_frame}
use broker_proxy.Proxy.Messages.{
  Message, publication, subscription, announcement, items_of, calls_of, IsSendable,
  on_frame-IsHandled,
}
use broker_proxy.Client.{
  Client, Output, to_serial, outgoing, incoming, reset_connect_timer, send_encoded, on_outgoing,
  subscribe, send_node,
}

-- The bytes for the serial line among the outputs.
abbrev pub serial_bytes : List Output → List ℕ
serial_bytes [] = []
serial_bytes (to_serial bs ∷ out) = bs ++ serial_bytes out
serial_bytes (outgoing m ∷ out) = serial_bytes out
serial_bytes (incoming m ∷ out) = serial_bytes out
serial_bytes (reset_connect_timer ∷ out) = serial_bytes out

abbrev pub calls_of_all : List Message → List Call
calls_of_all [] = []
calls_of_all (m ∷ ms) = calls_of m ++ calls_of_all ms

-- What the receiver emits on its main output, and what on `logs`.
abbrev pub frames_of : List Event → List (List ℕ)
frames_of [] = []
frames_of (frame bs ∷ es) = bs ∷ frames_of es
frames_of (log bs ∷ es) = frames_of es

abbrev pub logs_of : List Event → List (List ℕ)
logs_of [] = []
logs_of (frame bs ∷ es) = logs_of es
logs_of (log bs ∷ es) = bs ∷ logs_of es

frames_of-frame : (fs : List (List ℕ)) → frames_of (map frame fs) ≡ fs
frames_of-frame [] = refl
frames_of-frame (f ∷ fs) = ap (◌∷◌ f) (frames_of-frame fs)

logs_of-frame : (fs : List (List ℕ)) → logs_of (map frame fs) ≡ []
logs_of-frame [] = refl
logs_of-frame (f ∷ fs) = logs_of-frame fs

length-map : {A B : Type 0} (g : A → B) (xs : List A) → length (map g xs) ≡ length xs
length-map g [] = refl
length-map g (x ∷ xs) = ap suc (length-map g xs)

-- A flow in which nothing waits, and its limit.
abbrev pub IsIdle : {A : Type 0} (fifo : Fifo A) → ℕ → QueueFlow A fifo.State → Type 0
IsIdle fifo n f =
    IsSteady fifo f
    × (fifo.items f.queue ≡ [])
    × (f.emitted ≡ [])
    × (f.pending ≡ 0)
    × (fifo.limit f.queue ≡ n)

IsIdle-emits :
    {A : Type 0} (fifo : Fifo A) (n : ℕ) (f : QueueFlow A fifo.State) (ss : List Slot) (vs : List A)
    → IsIdle fifo n f
    → IsServed n ss 0 0
    → comings ss ≡ length vs
    → (happen_all fifo (fill ss vs) f).emitted ≡ vs
IsIdle-emits fifo n f ss vs (steady, nothing, fresh, none_due, limit) served k =
    emitted-IsServed fifo f ss vs steady nothing fresh (rw (none_due, limit) served) k

module _ {E V : Type 0} (lib : TinyCbor E V) where
  -- The client's call for a message.
  abbrev pub send : Message → Client E V → Client E V × List Output
  send (publication m) = on_outgoing lib m
  send (subscription pattern) = subscribe lib pattern
  send (announcement name) = send_node lib name

  abbrev pub send_all : List Message → Client E V → Client E V × List ℕ
  send_all [] c = (c, [])
  send_all (m ∷ ms) c =
      let first = send m c in
      let rest = send_all ms first.0 in (rest.0, serial_bytes first.1 ++ rest.1)

  -- The handlers of `incoming()` on the frames that it emits.
  abbrev pub on_frames : ℤ → List (List ℕ) → Proxy E V → Option (Proxy E V × List Call)
  on_frames t [] p = some (p, [])
  on_frames t (bs ∷ fs) p =
      on_frame lib t bs p >>= λ r. on_frames t fs r.0 >>= λ s. some (s.0, r.1 ++ s.1)

module _ {E V : Type 0} (lib : TinyCbor E V) (law : Contract lib) where
  -- The message can be sent, and its encoding fits into a buffer of `n` bytes.
  abbrev pub Fits : ℕ → Message → Type 0
  Fits n m = IsSendable m × (length (law.encoding (items_of m)) ≤ n)

  abbrev pub encoded_message : Message → List ℕ
  encoded_message m = law.encoding (items_of m)

  send_encoded-written :
      (m : Message) (s : CborSerializer E) (c : Client E V)
      → IsWritten lib law c.to_cbor.capacity (items_of m) s
      → (serial_bytes (send_encoded lib s c).1 ≡ ppp_frame (encoded_message m))
        × ((send_encoded lib s c).0.to_cbor.capacity ≡ c.to_cbor.capacity)
  send_encoded-written m s c h =
      (rw h.0 (append-nil (ppp_frame (to_bytes lib s)) ∙ ap ppp_frame h.1), h.2)

  send-written :
      (m : Message) (c : Client E V)
      → length (encoded_message m) ≤ c.to_cbor.capacity
      → (serial_bytes (send lib m c).1 ≡ ppp_frame (encoded_message m))
        × ((send lib m c).0.to_cbor.capacity ≡ c.to_cbor.capacity)
  unfolding on_outgoing subscribe send_node
  send-written (publication m) c room =
      send_encoded-written (publication m)
        (write_array lib law (items_of (publication m)) c.to_cbor) c
        (write_array-IsWritten lib law (items_of (publication m)) c.to_cbor room)
  send-written (subscription s) c room =
      send_encoded-written (subscription s)
        (write_array lib law (items_of (subscription s)) c.to_cbor) c
        (write_array-IsWritten lib law (items_of (subscription s)) c.to_cbor room)
  send-written (announcement s) c room =
      send_encoded-written (announcement s)
        (write_array lib law (items_of (announcement s)) c.to_cbor) c
        (write_array-IsWritten lib law (items_of (announcement s)) c.to_cbor room)

  send_all-wire :
      (n : ℕ) (ms : List Message) (c : Client E V)
      → c.to_cbor.capacity ≡ n
      → All (Fits n) ms
      → (send_all lib ms c).1 ≡ wire (map encoded_message ms)
  send_all-wire n [] c same fits = refl
  send_all-wire n (m ∷ ms) c same fits =
      let first = send-written m c (rw same fits.0.1) in
      rw first.0 (
        ap (◌++◌ (ppp_frame (encoded_message m)))
          (send_all-wire n ms (send lib m c).0 (first.1 ∙ same) fits.1))

  -- The calls for a list of frames, and a proxy that is as ready as before.
  abbrev pub Handles : ℕ → List Call → Option (Proxy E V × List Call) → Type 0
  Handles n calls o = (p : Proxy E V) × (o ≡ some (p, calls)) × (p.from_cbor.capacity ≡ n)

  on_frames-Handles :
      (n : ℕ) (t : ℤ) (ms : List Message) (p : Proxy E V)
      → p.from_cbor.capacity ≡ n
      → All (Fits n) ms
      → Handles n (calls_of_all ms) (on_frames lib t (map encoded_message ms) p)
  on_frames-Handles n t [] p same fits = (p, refl, same)
  on_frames-Handles n t (m ∷ ms) p same fits =
      let first = on_frame-IsHandled lib law t m p fits.0.0 (rw same fits.0.1) in
      let rest = on_frames-Handles n t ms first.0 (first.2 ∙ same) fits.1 in
      (rest.0, rw (first.1, rest.1) refl, rest.2)

  Fits-mono : (n k : ℕ) (ms : List Message) → n ≤ k → All (Fits n) ms → All (Fits k) ms
  Fits-mono n k [] le fits = tt
  Fits-mono n k (m ∷ ms) le fits = ((fits.0.0, omega (arith, fits.0.1)), Fits-mono n k ms le fits.1)

  payloads : (n : ℕ) (ms : List Message) → All (Fits n) ms → All IsPayload (map encoded_message ms)
  payloads n [] fits = tt
  payloads n (m ∷ ms) fits = (law.are_bytes (items_of m), payloads n ms fits.1)

  -- The messages that a micro-controller puts on the line reach the broker. They are any
  -- publications that its flow `_outgoing` emits, subscriptions and node names, one at least, of which
  -- each fits into its own buffer and has no string with a NUL, and the proxy's buffer is no
  -- smaller. The bytes on the line are cut into chunks in any way. If the two flows of the session,
  -- of which each can hold 10, are served such that none is full when a chunk or a frame comes and
  -- nothing waits in them at the end, and no time-out of the receiver fires, then the receiver emits
  -- no log, and the proxy publishes and subscribes what the messages say, in order, and does nothing
  -- else.
  pub send_all-on_frames :
      (millis : ℕ → ℕ) (t : ℤ) (fifo : Fifo (List ℕ))
      (serial message : QueueFlow (List ℕ) fifo.State) (chunk_slots frame_slots : List Slot)
      (chunks : List (List ℕ)) (m : Message) (ms : List Message) (c : Client E V) (p : Proxy E V)
      (r : Receiver)
      → All (Fits c.to_cbor.capacity) (m ∷ ms)
      → c.to_cbor.capacity ≤ p.from_cbor.capacity
      → concat chunks ≡ (send_all lib (m ∷ ms) c).1
      → r.input_frame ≡ []
      → r.events ≡ []
      → IsQuiet millis chunks r
      → IsIdle fifo 10 serial
      → IsServed 10 chunk_slots 0 0
      → comings chunk_slots ≡ length chunks
      → IsIdle fifo 10 message
      → IsServed 10 frame_slots 0 0
      → comings frame_slots ≡ length (m ∷ ms)
      → (r' : Receiver) × (p' : Proxy E V) × (handle_chunks millis
            (happen_all fifo (fill chunk_slots chunks) serial).emitted
            r
          ≡ some r')
        × (logs_of r'.events ≡ [])
        × (on_frames lib t
              (happen_all fifo (fill frame_slots (frames_of r'.events)) message).emitted
              p
            ≡ some (p', calls_of_all (m ∷ ms)))
  unfolding events_of
  send_all-on_frames millis t fifo serial message chunk_slots frame_slots chunks m ms c p r fits
        wider same clean fresh quiet idle served all_chunks idle' served' all_frames =
      let n = c.to_cbor.capacity in
      let sent : List (List ℕ) = map encoded_message (m ∷ ms) in
      let got =
        handle_chunks-wire millis chunks (encoded_message m) (map encoded_message ms) r []
          (same ∙ send_all-wire n (m ∷ ms) c refl fits) (payloads n (m ∷ ms) fits)
          (ap events_of clean) quiet in
      let seen : got.0.events ≡ map frame sent =
        got.2 ∙ ap (λ es. (es ++ []) ++ map frame sent) fresh in
      let done =
        on_frames-Handles p.from_cbor.capacity t (m ∷ ms) p refl
          (Fits-mono n p.from_cbor.capacity (m ∷ ms) wider fits) in
      let found : frames_of got.0.events ≡ sent = ap frames_of seen ∙ frames_of-frame sent in
      (
        got.0,
        done.0,
        ap (λ cs. handle_chunks millis cs r)
              (IsIdle-emits fifo 10 serial chunk_slots chunks idle served all_chunks)
            ∙ got.1,
        ap logs_of seen ∙ logs_of-frame sent,
        ap (λ fs. on_frames lib t fs p)
              (ap (λ fs. (happen_all fifo (fill frame_slots fs) message).emitted) found
                ∙ IsIdle-emits fifo 10 message frame_slots sent idle' served'
                    (all_frames ∙ sym (length-map encoded_message (m ∷ ms))))
            ∙ done.1,
      )
