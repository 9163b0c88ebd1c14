-- ===== src/BaseBroker/Passed.antt =====
-- common/src/BrokerBase.h: a number on its way from a publisher to a subscriber.
use broker_proxy.Base.{ℕ, ◌≤◌, ◌<◌, ◌^◌, ◌≡◌, refl, ap, Bool, some, List, [], ◌∷◌, length}
use broker_proxy.Cbor.{TinyCbor, from_bytes, begin_read}
use broker_proxy.Cbor.Contract.{Contract, uint, write_array-IsWritten}
use broker_proxy.Cbor.Read.{begin_read-IsReading, get_uint64-IsReading}
use broker_proxy.Redis.Texts.{same_text_self}
use broker_proxy.BaseBroker.{BrokerBase, absolute, publisher, subscriber}

module _ {E V : Type 0} (lib : TinyCbor E V) (law : Contract lib)
    (match_topic : List ℕ → List ℕ → Bool) where
  publisher_lem :
      (topic : List ℕ) (n : ℕ) (b : BrokerBase E V)
      → length (law.encoding (uint n ∷ [])) ≤ b.to_cbor.capacity
      → (publisher lib match_topic topic n b).1
        ≡ record { topic = absolute b.src_prefix topic; payload = law.encoding (uint n ∷ []) }
  unfolding publisher
  publisher_lem topic n b room =
      ap (λ bs. record { topic = absolute b.src_prefix topic; payload = bs })
        (write_array-IsWritten lib law (uint n ∷ []) b.to_cbor room).1

  -- Of the message that the publisher of a broker makes of a number of 64 bits, the subscriber of the
  -- same or another broker makes that number, whatever `match` says and whatever number it had
  -- before: if the topic, behind the source prefix of the one unless it begins with "src/" or
  -- "dst/", is the pattern, behind the destination prefix of the other unless it begins so, and the
  -- encoding fits into both buffers.
  pub publisher-subscriber :
      (topic pattern : List ℕ) (n t : ℕ) (b c : BrokerBase E V)
      → n < 2 ^ 64
      → absolute b.src_prefix topic ≡ absolute c.dst_prefix pattern
      → length (law.encoding (uint n ∷ [])) ≤ b.to_cbor.capacity
      → length (law.encoding (uint n ∷ [])) ≤ c.from_cbor.capacity
      → (subscriber lib match_topic pattern t (publisher lib match_topic topic n b).1 c).1 ≡ some n
  unfolding subscriber
  publisher-subscriber topic pattern n t b c small same room room' =
      let size = c.from_cbor.capacity in
      let start = begin_read-IsReading lib law size (uint n ∷ []) c.from_cbor refl room' in
      let r =
        get_uint64-IsReading lib law size n t []
          (begin_read lib (from_bytes lib (law.encoding (uint n ∷ [])) c.from_cbor)) small start in
      rw
        (
          publisher_lem topic n b room,
          same,
          same_text_self (absolute c.dst_prefix pattern),
          r.1,
          r.2.1,
        )
        refl
