-- ===== src/Client/Keepalive.antt =====
-- arduino_client/src/BrokerSerial.cpp: the loopback message, by which the micro-controller knows that
-- it is connected.
use broker_proxy.Base.{
  ℕ, ◌+◌, ◌-◌, ◌%◌, ◌≤◌, ◌<◌, ◌^◌, ◌≡◌, refl, ap, ◌∙◌, true, some, List, [], ◌∷◌, ◌++◌, length,
  arith,
}
use broker_proxy.Redis.Texts.{same_text_self}
use broker_proxy.Cbor.{TinyCbor, CborSerializer, CborDeserializer, from_bytes, begin_read}
use broker_proxy.Cbor.Contract.{Contract, IsWritten, uint, write_array, write_array-IsWritten}
use broker_proxy.Cbor.Read.{begin_read-IsReading, get_uint64-IsReading}
use broker_proxy.Proxy.{PubMsg, dst_slash}
use broker_proxy.Client.{
  Client, outgoing, reset_connect_timer, system_loopback, init, set_node, publish_encoded,
  publish_uint, then_do, connect_again, on_number, subscriber_uint, on_incoming,
}

module _ {E V : Type 0} (lib : TinyCbor E V) (law : Contract lib) where
  publish_encoded_lem :
      (n k : ℕ) (topic : List ℕ) (s : CborSerializer E) (c : Client E V)
      → IsWritten lib law n (uint k ∷ []) s
      → publish_encoded lib topic s c ≡ (
        record c { to_cbor = s },
        outgoing (record { topic = topic; payload = law.encoding (uint k ∷ []) }) ∷ [],
      )
  publish_encoded_lem n k topic s c h = rw h.0 (
      ap (λ bs. (record c { to_cbor = s }, outgoing (record { topic = topic; payload = bs }) ∷ []))
        h.1)

  pub publish_uint_lem :
      (topic : List ℕ) (k : ℕ) (c : Client E V)
      → length (law.encoding (uint k ∷ [])) ≤ c.to_cbor.capacity
      → publish_uint lib topic k c ≡ (
        record c { to_cbor = write_array lib law (uint k ∷ []) c.to_cbor },
        outgoing (record { topic = topic; payload = law.encoding (uint k ∷ []) }) ∷ [],
      )
  unfolding publish_uint
  publish_uint_lem topic k c room =
      publish_encoded_lem c.to_cbor.capacity k topic (write_array lib law (uint k ∷ []) c.to_cbor) c
        (write_array-IsWritten lib law (uint k ∷ []) c.to_cbor room)

  -- The topic to which a client with the name sends its loopback message.
  abbrev pub loopback_topic_of : List ℕ → List ℕ
  loopback_topic_of name = dst_slash ++ name ++ 47 ∷ system_loopback

  subscriber_uint_lem :
      (t k : ℕ) (topic : List ℕ) (c : Client E V)
      → k < 2 ^ 64
      → length (law.encoding (uint k ∷ [])) ≤ c.from_cbor.capacity
      → (d : CborDeserializer V) × (subscriber_uint lib topic t
            (record { topic = topic; payload = law.encoding (uint k ∷ []) })
            c
          ≡ (record c { from_cbor = d }, some k))
  subscriber_uint_lem t k topic c small room =
      let n = c.from_cbor.capacity in
      let b = begin_read-IsReading lib law n (uint k ∷ []) c.from_cbor refl room in
      let r =
        get_uint64-IsReading lib law n k t []
          (begin_read lib (from_bytes lib (law.encoding (uint k ∷ [])) c.from_cbor)) small b in
      (r.0, rw (same_text_self topic, r.1, r.2.1) refl)

  -- The client named `name` that has been initialised.
  abbrev pub started : List ℕ → Client E V → Client E V
  started name c = init lib (set_node lib name c)

  -- What it publishes there at a time, and what it publishes of the way that took so long.
  abbrev pub loopback_message : List ℕ → ℕ → PubMsg
  loopback_message name sent = record {
    topic = loopback_topic_of name;
    payload = law.encoding (uint sent ∷ []);
  }

  abbrev pub latency_message : Client E V → ℕ → PubMsg
  latency_message c time = record {
    topic = c.latency_publisher;
    payload = law.encoding (uint time ∷ []);
  }

  -- A client publishes its loopback message to a topic of its own, and when it comes back the
  -- client is connected, resets the timer of its connection, and publishes the time that the message
  -- was under way, as long as the numbers fit into its buffers and the clock has not gone back.
  pub on_incoming-loopback :
      (name : List ℕ) (c : Client E V) (sent now t : ℕ)
      → sent ≤ now
      → now < 2 ^ 64
      → length (law.encoding (uint sent ∷ [])) ≤ c.from_cbor.capacity
      → length (law.encoding (uint sent ∷ [])) ≤ c.to_cbor.capacity
      → length (law.encoding (uint (now - sent) ∷ [])) ≤ c.to_cbor.capacity
      → ((publish_uint lib (started name c).loopback_publisher sent (started name c)).1
          ≡ outgoing (loopback_message name sent) ∷ [])
        × ((on_incoming lib now t (loopback_message name sent) (started name c)).1
            ≡ outgoing (latency_message (started name c) (now - sent)) ∷ reset_connect_timer ∷ [])
        × ((on_incoming lib now t (loopback_message name sent) (started name c)).0.is_connected
            ≡ true)
  unfolding init set_node on_incoming
  on_incoming-loopback name c sent now t le small room_in room_sent room_out = (
    ap (λ r. r.1) (publish_uint_lem (loopback_topic_of name) sent (started name c) room_sent),
    ap (λ r. r.1) handled,
    ap (λ r. r.0.is_connected) handled,
  )
    where
      read :
          (d : CborDeserializer V) × (subscriber_uint lib
              (loopback_topic_of name)
              t
              (record { topic = loopback_topic_of name; payload = law.encoding (uint sent ∷ []) })
              (started name c)
            ≡ (record (started name c) { from_cbor = d }, some sent))
      read =
          subscriber_uint_lem t sent (loopback_topic_of name) (started name c) (omega arith) room_in

      difference : (now + 2 ^ 64 - sent) % 2 ^ 64 ≡ now - sent
      difference = omega arith

      ready : Client E V
      ready = record (started name c) { from_cbor = read.0 }

      handled : on_incoming lib now t (loopback_message name sent) (started name c) ≡ (
        record ready {
          to_cbor = write_array lib law (uint (now - sent) ∷ []) ready.to_cbor;
          is_connected = true;
        },
        outgoing (latency_message (started name c) (now - sent)) ∷ reset_connect_timer ∷ [],
      )
      handled =
          ap (on_number lib now) read.1
          ∙ ap
              (λ k.
                then_do lib (publish_uint lib ready.latency_publisher k ready) (connect_again lib))
              difference
          ∙ ap (λ r. then_do lib r (connect_again lib))
              (publish_uint_lem ready.latency_publisher (now - sent) ready room_out)
