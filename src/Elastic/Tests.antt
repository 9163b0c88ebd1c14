-- ===== src/Elastic/Tests.antt =====
-- Documents for messages and for entries of a stream, and the theorems there.
use broker_proxy.Base.{
  ℕ, ◌+◌, ◌≡◌, refl, true, if◌then◌else◌, false, some, List, [], ◌∷◌, length, arith,
}
use broker_proxy.Cbor.{pos, CborDeserializer}
use broker_proxy.Cbor.Contract.{uint}
use broker_proxy.Cbor.Toy.{toy, toy-Contract, write_items}
use broker_proxy.Client.{Client, outgoing, publish_uint}
use broker_proxy.Proxy.{PubMsg}
use broker_proxy.Redis.Replies.{array, integer, string, nil}
use broker_proxy.Split.{split}
use broker_proxy.Split.Join.{join}
use broker_proxy.Text.{decimal, decimal_int}
use broker_proxy.Elastic.{Json, incoming_puts, Document, on_incoming, on_xread, url}
use broker_proxy.Elastic.Record.{IsRecord, on_incoming-IsRecord}
use broker_proxy.Elastic.Stream.{
  Stream, stream_replies, all_entries, AreEntries, on_xread-AreEntries,
}
use broker_proxy.Elastic.Indexed.{number_document, publish_uint-on_incoming}

abbrev show : ℕ → List ℕ
show x = 35 ∷ []

-- Every document is large enough.
abbrev large : Json
large = record { fits = λ n puts. true; spoiled = λ n puts. [] }

abbrev client : Client (List ℕ) (List ℕ)
client = record {
  node = [];
  src_prefix = [];
  dst_prefix = [];
  loopback_topic = [];
  latency_publisher = [];
  loopback_publisher = [];
  loopback_subscriber = [];
  is_connected = false;
  to_cbor = record { capacity = 100; size = 0; err = 0; encoder = [] };
  from_cbor = record { capacity = 100; content = []; err = 0; it = [] };
}

abbrev reader : CborDeserializer (List ℕ)
reader = record { capacity = 100; content = []; err = 0; it = [] }

-- The number 42 under "src/n/o/p".
abbrev topic : List ℕ
topic = join 47 ((115 ∷ 114 ∷ 99 ∷ []) ∷ (110 ∷ []) ∷ (111 ∷ []) ∷ (112 ∷ []) ∷ [])

abbrev answer : PubMsg
answer = record { topic = topic; payload = 9 ∷ write_items (uint 42 ∷ []) }

abbrev document : Document
document = number_document 7 topic (110 ∷ []) (111 ∷ []) (112 ∷ []) 42

abbrev reader_after : CborDeserializer (List ℕ)
reader_after = record { capacity = 100; content = 9 ∷ write_items (uint 42 ∷ []); err = 0; it = [] }

answer-indexed : on_incoming toy show large 7 answer reader ≡ some (reader_after, some document)
unfolding on_incoming incoming_puts decimal_int decimal split
answer-indexed = refl

on_incoming-IsRecord_example :
    (puts : Document) × IsRecord 7 answer puts
    × (document ≡ (if large.fits 1024 puts then puts else large.spoiled 1024 puts))
on_incoming-IsRecord_example =
    on_incoming-IsRecord toy show large 7 answer reader reader_after document answer-indexed

publish_uint-on_incoming_example :
    (msg : PubMsg) × (d' : CborDeserializer (List ℕ)) × (c' : Client (List ℕ) (List ℕ))
    × (publish_uint toy topic 42 client ≡ (c', outgoing msg ∷ []))
    × (on_incoming toy show large 7 msg reader ≡ some (d', some document))
publish_uint-on_incoming_example =
    publish_uint-on_incoming toy toy-Contract large show 7 42 (115 ∷ 114 ∷ 99 ∷ []) (110 ∷ [])
      (111 ∷ []) (112 ∷ []) [] client reader
      (
        (λ e. absurd (omega arith), (λ e. absurd (omega arith), (λ e. absurd (omega arith), tt))),
        (
          (λ e. absurd (omega arith), tt),
          ((λ e. absurd (omega arith), tt), ((λ e. absurd (omega arith), tt), tt)),
        ),
      )
      (omega arith) (omega arith) (omega arith) refl

-- A stream "s" with two entries; the second field of the first is given twice.
abbrev streams : List Stream
streams =
    (
      115 ∷ [],
      (
        49 ∷ [],
        (97 ∷ [], string (120 ∷ [])) ∷ (98 ∷ [], integer (pos 1)) ∷ (98 ∷ [], integer (pos 2)) ∷ [],
      )
          ∷ (50 ∷ [], (97 ∷ [], nil) ∷ [])
          ∷ [],
    )
    ∷ []

abbrev clock : ℕ → ℕ
clock n = 1000 + n

on_xread-AreEntries_example :
    (docs : List Document) × (on_xread large clock (some (array (stream_replies streams))) 0
      ≡ some (0 + length (all_entries streams), docs))
    × AreEntries clock 0 (all_entries streams) docs
on_xread-AreEntries_example = on_xread-AreEntries large clock streams 0 (refl, (refl, tt))

-- A stream without entries.
stream_without_entries :
    on_xread large clock (some (array (stream_replies ((115 ∷ [], []) ∷ [])))) 0 ≡ some (0, [])
unfolding on_xread
stream_without_entries = refl

-- "http://h:9200/l/log?pipeline=add-timestamp"
url-index :
    url (104 ∷ []) 9200 (108 ∷ [])
    ≡ some (
        104 ∷ 116 ∷ 116 ∷ 112 ∷ 58 ∷ 47 ∷ 47 ∷ 104 ∷ 58 ∷ 57 ∷ 50 ∷ 48 ∷ 48 ∷ 47 ∷ 108 ∷ 47 ∷ 108
        ∷ 111 ∷ 103 ∷ 63 ∷ 112 ∷ 105 ∷ 112 ∷ 101 ∷ 108 ∷ 105 ∷ 110 ∷ 101 ∷ 61 ∷ 97 ∷ 100 ∷ 100 ∷ 45
        ∷ 116 ∷ 105 ∷ 109 ∷ 101 ∷ 115 ∷ 116 ∷ 97 ∷ 109 ∷ 112 ∷ [])
unfolding url decimal
url-index = refl
