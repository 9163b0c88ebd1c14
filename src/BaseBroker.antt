-- ===== src/BaseBroker.antt =====
-- common/src/BrokerBase.h: what a publisher and a subscriber of numbers do in every broker. `match` of
-- the broker is a parameter; an incoming message and an outgoing one are values.
pub mod Passed
mod Tests
use broker_proxy.Base.{
  ℕ, ◌≡◌, Bool, true, false, ◌||◌, Option, none, some, List, [], ◌∷◌, ◌++◌, if◌then◌else◌,
}
use broker_proxy.Cbor.{
  TinyCbor, CborSerializer, CborDeserializer, begin_array, add_uint, end_array, to_bytes,
  from_bytes, begin_read, get_uint64, is_decoded,
}
use broker_proxy.Proxy.{PubMsg}
use broker_proxy.Redis.{same_text, src_text, dst_text}
use broker_proxy.Split.{take}

pub record BrokerBase (E V : Type 0) : Type 0 where
  pub src_prefix : List ℕ
  pub dst_prefix : List ℕ
  pub to_cbor : CborSerializer E
  pub from_cbor : CborDeserializer V

-- A topic that begins with "src/" or "dst/" is used as it is.
abbrev pub absolute : List ℕ → List ℕ → List ℕ
absolute prefix topic =
    if same_text (take 4 topic) src_text || same_text (take 4 topic) dst_text
    then topic
    else prefix ++ topic

module _ {E V : Type 0} (lib : TinyCbor E V) (match_topic : List ℕ → List ℕ → Bool) where
  abbrev pub sent_with : List ℕ → CborSerializer E → BrokerBase E V → BrokerBase E V × PubMsg
  sent_with topic s b =
      (record b { to_cbor = s }, record { topic = topic; payload = to_bytes lib s })

  -- What the sink of `publisher` gives to `_outgoing` for a number, whether it could be encoded or
  -- not.
  unfoldable pub publisher : List ℕ → ℕ → BrokerBase E V → BrokerBase E V × PubMsg
  publisher topic n b =
      sent_with (absolute b.src_prefix topic)
        (end_array lib (add_uint lib n (begin_array lib b.to_cbor))) b

  abbrev pub decoded : BrokerBase E V → CborDeserializer V × ℕ → BrokerBase E V × Option ℕ
  decoded b (d, n) = (record b { from_cbor = d }, if is_decoded lib d then some n else none)

  -- What the flow of `subscriber` makes of an incoming message; `t` is the number before.
  unfoldable pub subscriber : List ℕ → ℕ → PubMsg → BrokerBase E V → BrokerBase E V × Option ℕ
  subscriber pattern t msg b =
      if same_text msg.topic (absolute b.dst_prefix pattern)
        || match_topic (absolute b.dst_prefix pattern) msg.topic
      then decoded b (get_uint64 lib t (begin_read lib (from_bytes lib msg.payload b.from_cbor)))
      else (b, none)
