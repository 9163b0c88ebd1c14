-- ===== src/Brain/Tests.antt =====
-- Commands for messages and keys, and the theorems there.
use broker_proxy.Base.{ℕ, ◌≡◌, refl, false, none, some, List, [], ◌∷◌, map, arith}
use broker_proxy.Cbor.{CborDeserializer}
use broker_proxy.Cbor.Toy.{toy, toy-Contract}
use broker_proxy.Client.{Client, outgoing, publish_uint}
use broker_proxy.Proxy.{PubMsg}
use broker_proxy.Redis.Replies.{array}
use broker_proxy.Redis.Replies.Handled.{strings}
use broker_proxy.Split.{split}
use broker_proxy.Text.{decimal}
use broker_proxy.Brain.{set_number, add_sample, on_incoming, on_ticker_reply, latency}
use broker_proxy.Brain.Labels.{Key, series, other, key_text, labels, on_ticker_reply-labels}
use broker_proxy.Brain.Recorded.{publish_uint-recorded}

abbrev show : ℕ → List ℕ
show x = 35 ∷ []

abbrev client : Client (List ℕ) (List ℕ)
client = record {
  node = [];
  src_prefix = [];
  dst_prefix = [];
  loopback_topic = [];
  latency_publisher = [];
  loopback_publisher = [];
  loopback_subscriber = [];
  is_connected = false;
  to_cbor = record { capacity = 100; size = 0; err = 0; encoder = [] };
  from_cbor = record { capacity = 100; content = []; err = 0; it = [] };
}

abbrev reader : CborDeserializer (List ℕ)
reader = record { capacity = 100; content = []; err = 0; it = [] }

publish_uint-recorded_example :
    (msg : PubMsg) × (d' : CborDeserializer (List ℕ)) × (c' : Client (List ℕ) (List ℕ))
    × (publish_uint toy (116 ∷ []) 42 client ≡ (c', outgoing msg ∷ []))
    × (on_incoming toy show 7 8 msg reader
        ≡ some (d', set_number (116 ∷ []) (decimal 42) ∷ add_sample (116 ∷ []) 7 (decimal 42) ∷ []))
unfolding decimal
publish_uint-recorded_example =
    publish_uint-recorded toy toy-Contract show 7 8 42 (116 ∷ []) client reader (omega arith)
      (omega arith) (omega arith) (omega arith) (omega arith)

-- "ts:s/n/o/p" and "s"
abbrev keys : List Key
keys = series (115 ∷ []) (110 ∷ []) (111 ∷ []) (112 ∷ []) [] ∷ other (115 ∷ []) ∷ []

on_ticker_reply-labels_example :
    on_ticker_reply (array (strings (map key_text keys))) ≡ some (labels keys)
on_ticker_reply-labels_example = on_ticker_reply-labels keys (
  (
    (
      (λ e. absurd (omega arith)),
      (
        (λ e. absurd (omega arith)),
        (
          (λ e. absurd (omega arith)),
          (
            (λ e. absurd (omega arith)),
            (
              (λ e. absurd (omega arith)),
              (
                (λ e. absurd (omega arith)),
                (
                  (λ e. absurd (omega arith)),
                  (
                    (λ e. absurd (omega arith)),
                    ((λ e. absurd (omega arith)), ((λ e. absurd (omega arith)), tt)),
                  ),
                ),
              ),
            ),
          ),
        ),
      ),
    ),
    (
      ((λ e. absurd (omega arith)), tt),
      (
        ((λ e. absurd (omega arith)), tt),
        (((λ e. absurd (omega arith)), tt), (((λ e. absurd (omega arith)), tt), tt)),
      ),
    ),
    omega arith,
  ),
  ((((λ e. absurd (omega arith)), tt), refl), tt),
)

-- "ts:s" has too few parts.
short_series : on_ticker_reply (array (strings ((116 ∷ 115 ∷ 58 ∷ 115 ∷ []) ∷ []))) ≡ none
unfolding on_ticker_reply split
short_series = refl

latency_wraps : latency 3 5 ≡ 18446744073709551614
unfolding latency
latency_wraps = refl
