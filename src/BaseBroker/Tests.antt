-- ===== src/BaseBroker/Tests.antt =====
-- A number from one broker to the subscriber of another, and the theorem there.
use broker_proxy.Base.{◌≡◌, refl, ◌++◌, Bool, false, none, some, ℕ, List, [], ◌∷◌, arith}
use broker_proxy.Cbor.Toy.{toy, toy-Contract}
use broker_proxy.BaseBroker.{BrokerBase, publisher, subscriber}
use broker_proxy.BaseBroker.Passed.{publisher-subscriber}

abbrev no_match : List ℕ → List ℕ → Bool
no_match pattern topic = false

-- The prefixes "src/a/" and "dst/a/".
abbrev sender : BrokerBase (List ℕ) (List ℕ)
sender = record {
  src_prefix = 115 ∷ 114 ∷ 99 ∷ 47 ∷ 97 ∷ 47 ∷ [];
  dst_prefix = 100 ∷ 115 ∷ 116 ∷ 47 ∷ 97 ∷ 47 ∷ [];
  to_cbor = record { capacity = 100; size = 0; err = 0; encoder = [] };
  from_cbor = record { capacity = 100; content = []; err = 0; it = [] };
}

-- The topic "t" of the sender, which another broker subscribes to as "src/a/t".
abbrev pattern_t : List ℕ
pattern_t = sender.src_prefix ++ 116 ∷ []

publisher-subscriber_example :
    (subscriber toy no_match pattern_t 0 (publisher toy no_match (116 ∷ []) 42 sender).1 sender).1
    ≡ some 42
publisher-subscriber_example =
    publisher-subscriber toy toy-Contract no_match (116 ∷ []) pattern_t 42 0 sender sender
      (omega arith) refl (omega arith) (omega arith)

-- Another topic of the same broker is not taken.
other-topic :
    (subscriber toy no_match pattern_t 0 (publisher toy no_match (117 ∷ []) 42 sender).1 sender).1
    ≡ none
unfolding publisher subscriber
other-topic = refl
