-- ===== src/Client.antt =====
-- arduino_client/src/BrokerSerial.cpp and BrokerSerial.h: the broker of the micro-controller. What a
-- handler asks of others is a list of outputs: bytes for the serial line, messages for its two
-- queues, the reset of a timer. Log messages are left out, and `onRxd`, which hands on what has come.
pub mod Delivery
pub mod Keepalive
mod Tests
use broker_proxy.Base.{
  ℕ, ◌+◌, ◌-◌, ◌%◌, ◌^◌, ◌≡◌, Bool, true, false, not, ◌&&◌, ◌||◌, Option, none, some, List, [], ◌∷◌,
  ◌++◌, ◌==◌, ltb, if◌then◌else◌, ◌>>=◌,
}
use broker_proxy.Ppp.{ppp_frame}
use broker_proxy.Serial.{starts_with}
use broker_proxy.Redis.{same_text}
use broker_proxy.Cbor.{
  ℤ, pos, TinyCbor, CborSerializer, add_int, add_uint, add_string, add_bytes, begin_array,
  end_array, is_encoded, to_bytes, CborDeserializer, from_bytes, begin_read, end_read, is_decoded,
  get_int, get_string, get_bytes, get_uint64,
}
use broker_proxy.Proxy.{b_publish, b_subscribe, b_node, is_type, PubMsg, dst_slash}

-- "src/" and "system/loopback"
abbrev pub src_slash : List ℕ
src_slash = 115 ∷ 114 ∷ 99 ∷ 47 ∷ []

abbrev pub system_loopback : List ℕ
system_loopback =
    115 ∷ 121 ∷ 115 ∷ 116 ∷ 101 ∷ 109 ∷ 47 ∷ 108 ∷ 111 ∷ 111 ∷ 112 ∷ 98 ∷ 97 ∷ 99 ∷ 107 ∷ []

-- "system/latency"
abbrev pub system_latency : List ℕ
system_latency = 115 ∷ 121 ∷ 115 ∷ 116 ∷ 101 ∷ 109 ∷ 47 ∷ 108 ∷ 97 ∷ 116 ∷ 101 ∷ 110 ∷ 99 ∷ 121 ∷ []

-- The topic that `publisher` and `subscriber` use, here and in BrokerBase.h.
abbrev pub abs_topic : List ℕ → List ℕ → List ℕ
abs_topic prefix topic =
    if starts_with topic src_slash || starts_with topic dst_slash then topic else prefix ++ topic

-- The fields of `BrokerSerial` that its handlers read and write.
pub record Client (E V : Type 0) : Type 0 where
  pub node : List ℕ
  pub src_prefix : List ℕ
  pub dst_prefix : List ℕ
  pub loopback_topic : List ℕ
  -- The topics that the flows of `init` keep.
  pub latency_publisher : List ℕ
  pub loopback_publisher : List ℕ
  pub loopback_subscriber : List ℕ
  pub is_connected : Bool
  pub to_cbor : CborSerializer E
  pub from_cbor : CborDeserializer V

pub data Output : Type 0 where
  to_serial : List ℕ → Output
  outgoing : PubMsg → Output
  incoming : PubMsg → Output
  reset_connect_timer : Output

module _ {E V : Type 0} (lib : TinyCbor E V) where
  -- `node`
  unfoldable pub set_node : List ℕ → Client E V → Client E V
  set_node n c = record c {
    node = n;
    src_prefix = src_slash ++ n ++ 47 ∷ [];
    dst_prefix = dst_slash ++ n ++ 47 ∷ [];
    loopback_topic = dst_slash ++ n ++ 47 ∷ system_loopback;
    is_connected = false;
  }

  -- The publishers and the subscriber of `init` whose messages the handlers below use.
  unfoldable pub init : Client E V → Client E V
  init c = record c {
    latency_publisher = abs_topic c.src_prefix system_latency;
    loopback_publisher = abs_topic c.src_prefix c.loopback_topic;
    loopback_subscriber = abs_topic c.dst_prefix c.loopback_topic;
  }

  -- `if (...success()) _toSerialFrame.on(_toCbor.toBytes());`, and the flow behind it, which frames
  -- the bytes and writes them.
  abbrev pub send_encoded : CborSerializer E → Client E V → Client E V × List Output
  send_encoded s c = (
    record c { to_cbor = s },
    if is_encoded lib s then to_serial (ppp_frame (to_bytes lib s)) ∷ [] else [],
  )

  -- The handler of `_outgoing`.
  unfoldable pub on_outgoing : PubMsg → Client E V → Client E V × List Output
  on_outgoing msg c =
      send_encoded
        (end_array lib (
          add_bytes lib msg.payload
            (add_string lib msg.topic (add_int lib (pos b_publish) (begin_array lib c.to_cbor)))))
        c

  unfoldable pub publish : List ℕ → List ℕ → Client E V → Client E V × List Output
  publish topic bs c = (c, outgoing (record { topic = topic; payload = bs }) ∷ [])

  unfoldable pub subscribe : List ℕ → Client E V → Client E V × List Output
  subscribe pattern c =
      send_encoded
        (end_array lib
          (add_string lib pattern (add_int lib (pos b_subscribe) (begin_array lib c.to_cbor))))
        c

  unfoldable pub send_node : List ℕ → Client E V → Client E V × List Output
  send_node name c =
      send_encoded
        (end_array lib (add_string lib name (add_int lib (pos b_node) (begin_array lib c.to_cbor))))
        c

  -- `if (...success()) _outgoing.on({absTopic, _toCbor.toBytes()});`
  abbrev pub publish_encoded : List ℕ → CborSerializer E → Client E V → Client E V × List Output
  publish_encoded topic s c = (
    record c { to_cbor = s },
    if is_encoded lib s
        then outgoing (record { topic = topic; payload = to_bytes lib s }) ∷ []
        else [],
  )

  -- What the publisher of a topic does with a number.
  unfoldable pub publish_uint : List ℕ → ℕ → Client E V → Client E V × List Output
  publish_uint topic n c =
      publish_encoded topic (end_array lib (add_uint lib n (begin_array lib c.to_cbor))) c

  -- The handler of `_fromSerialFrame`.
  unfoldable pub on_serial_frame : ℤ → List ℕ → Client E V → Option (Client E V × List Output)
  on_serial_frame t msg c =
      let r = get_int lib t (begin_read lib (from_bytes lib msg c.from_cbor)) in
      get_string lib [] r.0 >>= λ topic. get_bytes lib [] topic.0 >>= λ payload. some (
        record c { from_cbor = end_read lib payload.0 },
        if is_decoded lib (end_read lib payload.0) && is_type r.1 b_publish
            then incoming (record { topic = topic.1; payload = payload.1 }) ∷ []
            else [],
      )

  -- `MsgFilter`: a message of the type passes.
  unfoldable pub msg_filter :
      ℕ → ℤ → List ℕ → CborDeserializer V → CborDeserializer V × Option (List ℕ)
  msg_filter type t bs d =
      let r = get_int lib t (begin_read lib (from_bytes lib bs d)) in
      (r.0, if is_decoded lib r.0 && is_type r.1 type then some bs else none)

  -- What the subscriber of a topic makes of a message; `t` is the uninitialised value.
  abbrev pub subscriber_uint : List ℕ → ℕ → PubMsg → Client E V → Client E V × Option ℕ
  subscriber_uint topic t msg c =
      let r = get_uint64 lib t (begin_read lib (from_bytes lib msg.payload c.from_cbor)) in
      if same_text topic msg.topic
      then (record c { from_cbor = r.0 }, if is_decoded lib r.0 then some r.1 else none)
      else (c, none)

  -- Two handlers, one after the other.
  abbrev pub then_do :
      Client E V × List Output → (Client E V → Client E V × List Output) → Client E V × List Output
  then_do (c, out) next = let r = next c in (r.0, out ++ r.1)

  -- The handler of `_loopbackTimer`, at the time `now`, on a host with the name.
  unfoldable pub on_loopback_timer : List ℕ → ℕ → Client E V → Client E V × List Output
  on_loopback_timer hostname now c =
      then_do (if c.is_connected then (c, []) else send_node hostname c)
        (λ c'. publish_uint c'.loopback_publisher now c')

  abbrev pub connect_again : Client E V → Client E V × List Output
  connect_again c = (record c { is_connected = true }, reset_connect_timer ∷ [])

  -- The handler of the loopback message: `Sys::millis() - in`, in 64 bits.
  abbrev pub on_loopback : ℕ → ℕ → Client E V → Client E V × List Output
  on_loopback now sent c =
      then_do (publish_uint c.latency_publisher ((now + 2 ^ 64 - sent) % 2 ^ 64) c) connect_again

  -- An incoming message at the flow of `_loopbackTopic`.
  abbrev pub on_number : ℕ → Client E V × Option ℕ → Client E V × List Output
  on_number now (c, none) = (c, [])
  on_number now (c, some sent) = on_loopback now sent c

  unfoldable pub on_incoming : ℕ → ℕ → PubMsg → Client E V → Client E V × List Output
  on_incoming now t msg c = on_number now (subscriber_uint c.loopback_subscriber t msg c)

  -- The handler of `_connectTimer`.
  unfoldable pub on_connect_timer : Client E V → Client E V × List Output
  on_connect_timer c = (record c { is_connected = false }, [])
