-- ===== src/Elastic.antt =====
-- redis2elastic/src/redis2elastic.cpp (proxy/src/redis-elastic.cpp is an earlier copy): messages and
-- entries of streams as documents for an index. A document is the list of its members; how it is
-- written as text, how a double is, and curl are parameters; so is which assignments fit into a
-- document of ArduinoJson of a capacity, and what it has where they do not. `none` is undefined
-- behaviour: an element out of range, a string that is NULL, or a text that its buffer cannot hold.
pub mod Record
pub mod Stream
pub mod Indexed
mod Tests
use broker_proxy.Base.{
  ℕ, zero, suc, ◌+◌, ◌≡◌, Bool, true, false, Option, none, some, List, [], ◌∷◌, ◌++◌, ◌==◌,
  if◌then◌else◌, get_elem?, ◌>>=◌,
}
use broker_proxy.Cbor.{
  ℤ, pos, negsuc, TinyCbor, CborDeserializer, from_bytes, begin_read, is_decoded, get_double,
  get_int64, get_string, c_string,
}
use broker_proxy.Text.{decimal, decimal_int, formatted}
use broker_proxy.Timer.{TimerSource, start}
use broker_proxy.Split.{split}
use broker_proxy.Proxy.{PubMsg}
use broker_proxy.Redis.{same_text}
use broker_proxy.Redis.Replies.{
  RedisReply, Replies, array, integer, string, status, failure, nil, other_type, no_replies,
  reply_and, str_of, element, str_at,
}
use broker_proxy.Serial.{and_then}

pub data JsonValue : Type 0 where
  text : List ℕ → JsonValue
  number : ℤ → JsonValue
  real time : ℕ → JsonValue

abbrev pub Document : Type 0
Document = List (List ℕ × JsonValue)

-- `json[key] = value`, which replaces a member
abbrev pub put_json : List ℕ → JsonValue → Document → Document
put_json key v [] = (key, v) ∷ []
put_json key v ((k, w) ∷ doc) =
    let rest = put_json key v doc in if same_text k key then (k, v) ∷ doc else (k, w) ∷ rest

-- Assignments one after the other, to a document.
abbrev pub put_all : Document → Document → Document
put_all [] doc = doc
put_all ((k, v) ∷ puts) doc = put_all puts (put_json k v doc)

-- `StaticJsonDocument`: whether assignments fit into a capacity, and what the document has of them
-- if they do not.
pub record Json : Type 0 where
  pub fits : ℕ → Document → Bool
  pub spoiled : ℕ → Document → Document

abbrev pub built : Json → ℕ → Document → Document
built json capacity puts =
    if json.fits capacity puts then put_all puts [] else json.spoiled capacity puts

-- The keys.
abbrev pub node_key : List ℕ
node_key = 110 ∷ 111 ∷ 100 ∷ 101 ∷ []

abbrev pub object_key : List ℕ
object_key = 111 ∷ 98 ∷ 106 ∷ 101 ∷ 99 ∷ 116 ∷ []

abbrev pub property_key : List ℕ
property_key = 112 ∷ 114 ∷ 111 ∷ 112 ∷ 101 ∷ 114 ∷ 116 ∷ 121 ∷ []

abbrev pub timestamp_key : List ℕ
timestamp_key = 116 ∷ 105 ∷ 109 ∷ 101 ∷ 115 ∷ 116 ∷ 97 ∷ 109 ∷ 112 ∷ []

abbrev pub key_key : List ℕ
key_key = 107 ∷ 101 ∷ 121 ∷ []

abbrev pub value_key : List ℕ
value_key = 118 ∷ 97 ∷ 108 ∷ 117 ∷ 101 ∷ []

abbrev pub msg_key : List ℕ
msg_key = 109 ∷ 115 ∷ 103 ∷ []

abbrev pub stream_key : List ℕ
stream_key = 115 ∷ 116 ∷ 114 ∷ 101 ∷ 97 ∷ 109 ∷ []

-- `replyToMap`, as the assignments behind those before.
abbrev pub put_reply : List ℕ → RedisReply → Document → Document
put_reply key (string s) doc = doc ++ (c_string key, text (c_string s)) ∷ []
put_reply key (integer n) doc = doc ++ (c_string key, number n) ∷ []
put_reply key (array rs) doc = doc
put_reply key (status s) doc = doc
put_reply key (failure s) doc = doc
put_reply key nil doc = doc
put_reply key (other_type n) doc = doc

abbrev pub put_pairs : Replies → Document → Option Document
put_pairs no_replies doc = some doc
put_pairs (reply_and k no_replies) doc = none
put_pairs (reply_and k (reply_and v rs)) doc =
    str_of k >>= λ key. put_pairs rs (put_reply key v doc)

abbrev pub reply_to_map : RedisReply → Document → Option Document
reply_to_map (array rs) doc = put_pairs rs doc
reply_to_map (integer n) doc = some doc
reply_to_map (string s) doc = some doc
reply_to_map (status s) doc = some doc
reply_to_map (failure s) doc = some doc
reply_to_map nil doc = some doc
reply_to_map (other_type n) doc = some doc

-- The elements of a reply that is looped over; one that is no array has none.
abbrev pub elements_of : RedisReply → Replies
elements_of (array rs) = rs
elements_of (integer n) = no_replies
elements_of (string s) = no_replies
elements_of (status s) = no_replies
elements_of (failure s) = no_replies
elements_of nil = no_replies
elements_of (other_type n) = no_replies

-- The loop of `main` over the entries of a stream, with the documents that it hands to `putIndex()`;
-- `now` is what the clock says at each of them. What the flow behind `putIndex()`, whose queue has
-- 20 places, drops is not part of it.
module _ (json : Json) (now : ℕ → ℕ) where
  -- The body for one entry: its identifier and its fields.
  abbrev pub on_record : ℕ → List ℕ → RedisReply → Option Document
  on_record n stream entry = str_at (elements_of entry) 0 >>= λ id.
      element (elements_of entry) 1 >>= λ fields. reply_to_map fields [] >>= λ doc. some (
        built json 10240
          (doc ++ (stream_key, text (c_string stream)) ∷ (timestamp_key, time (now n)) ∷ []))

  -- The entries from the n-th that is indexed on: how many there are then, and the documents.
  abbrev pub on_records : List ℕ → Replies → ℕ → Option (ℕ × List Document)
  on_records stream no_replies n = some (n, [])
  on_records stream (reply_and r rs) n = on_record n stream r >>= λ doc.
      on_records stream rs (suc n) >>= λ rest. some (rest.0, doc ∷ rest.1)

  abbrev pub on_stream : RedisReply → ℕ → Option (ℕ × List Document)
  on_stream (array rs) n =
      str_at rs 0 >>= λ key. element rs 1 >>= λ records. on_records key (elements_of records) n
  on_stream (integer i) n = some (n, [])
  on_stream (string s) n = some (n, [])
  on_stream (status s) n = some (n, [])
  on_stream (failure s) n = some (n, [])
  on_stream nil n = some (n, [])
  on_stream (other_type i) n = some (n, [])

  abbrev pub on_streams : Replies → ℕ → Option (ℕ × List Document)
  on_streams no_replies n = some (n, [])
  on_streams (reply_and r rs) n =
      on_stream r n >>= λ first. on_streams rs first.0 >>= λ rest. some (rest.0, first.1 ++ rest.1)

  -- A turn of the loop: what `xread` returns, if it is an array.
  unfoldable pub on_xread : Option RedisReply → ℕ → Option (ℕ × List Document)
  on_xread none n = some (n, [])
  on_xread (some reply) n = on_streams (elements_of reply) n

-- What is known of a message before its payload is looked at.
abbrev pub header : ℕ → PubMsg → List (List ℕ) → Option Document
header now msg parts = get_elem? parts 1 >>= λ node. get_elem? parts 2 >>= λ object.
    get_elem? parts 3 >>= λ property. some (
      (node_key, text node)
      ∷ (object_key, text object)
      ∷ (property_key, text property)
      ∷ (timestamp_key, time now)
      ∷ (key_key, text msg.topic)
      ∷ [])

module _ {E V : Type 0} (lib : TinyCbor E V) (show_double : ℕ → List ℕ) where
  abbrev pub first_double : PubMsg → CborDeserializer V → CborDeserializer V × ℕ
  first_double msg d = get_double lib 0 (begin_read lib (from_bytes lib msg.payload d))

  abbrev pub first_int64 : PubMsg → CborDeserializer V → CborDeserializer V × ℤ
  first_int64 msg d = get_int64 lib (pos 0) (begin_read lib (from_bytes lib msg.payload d))

  abbrev pub first_string : PubMsg → CborDeserializer V → Option (CborDeserializer V × List ℕ)
  first_string msg d = get_string lib [] (begin_read lib (from_bytes lib msg.payload d))

  -- The three tries, each behind the one that failed.
  abbrev pub add_string_value :
      Document → CborDeserializer V × List ℕ → CborDeserializer V × Option Document
  add_string_value doc (d, s) =
      (d, if is_decoded lib d then some (doc ++ (msg_key, text s) ∷ []) else none)

  abbrev pub add_int64_value :
      Document → PubMsg → CborDeserializer V × ℤ → Option (CborDeserializer V × Option Document)
  add_int64_value doc msg (d, n) =
      if is_decoded lib d
      then some (d, some (doc ++ (value_key, number n) ∷ (msg_key, text (decimal_int n)) ∷ []))
      else (first_string msg d >>= λ r. some (add_string_value doc r))

  abbrev pub add_value :
      Document → PubMsg → CborDeserializer V × ℕ → Option (CborDeserializer V × Option Document)
  add_value doc msg (d, x) =
      if is_decoded lib d
      then some (d, some (doc ++ (value_key, real x) ∷ (msg_key, text (show_double x)) ∷ []))
      else add_int64_value doc msg (first_int64 msg d)

  -- The assignments of the handler of `broker.incoming()`.
  unfoldable pub incoming_puts :
      ℕ → PubMsg → CborDeserializer V → Option (CborDeserializer V × Option Document)
  incoming_puts now msg d =
      header now msg (split msg.topic 47) >>= λ doc. add_value doc msg (first_double msg d)

  abbrev pub built_of :
      Json → CborDeserializer V × Option Document → CborDeserializer V × Option Document
  built_of json (d, none) = (d, none)
  built_of json (d, some puts) = (d, some (built json 1024 puts))

  -- The handler, and the document that it hands to `putIndex()`.
  unfoldable pub on_incoming :
      Json → ℕ → PubMsg → CborDeserializer V → Option (CborDeserializer V × Option Document)
  on_incoming json now msg d = incoming_puts now msg d >>= λ r. some (built_of json r)

-- `TimeoutFlow`, and what it emits. A value is answered with `true` and then with the output of the
-- function, which it never sets: `garbage`.
unfoldable pub timeout_created : ℕ → TimerSource → TimerSource × List Bool
timeout_created now t = (start now t, false ∷ [])

unfoldable pub timeout_on : ℕ → Bool → TimerSource → TimerSource × List Bool
timeout_on now garbage t = (start now t, true ∷ garbage ∷ [])

unfoldable pub timeout_expired : TimerSource → TimerSource × List Bool
timeout_expired t = (t, false ∷ [])

-- `ElasticIndex`: the address, the options of curl that `init` sets, and those of each request.
abbrev pub http_text : List ℕ
http_text = 104 ∷ 116 ∷ 116 ∷ 112 ∷ 58 ∷ 47 ∷ 47 ∷ []

abbrev pub pipeline_text : List ℕ
pipeline_text =
    47 ∷ 108 ∷ 111 ∷ 103 ∷ 63 ∷ 112 ∷ 105 ∷ 112 ∷ 101 ∷ 108 ∷ 105 ∷ 110 ∷ 101 ∷ 61 ∷ 97 ∷ 100 ∷ 100
    ∷ 45 ∷ 116 ∷ 105 ∷ 109 ∷ 101 ∷ 115 ∷ 116 ∷ 97 ∷ 109 ∷ 112 ∷ []

-- The format has 42 characters.
unfoldable pub url : List ℕ → ℕ → List ℕ → Option (List ℕ)
url host port index =
    formatted 42
      (http_text ++ c_string host ++ 58 ∷ decimal port ++ 47 ∷ c_string index ++ pipeline_text)

pub data CurlCall : Type 0 where
  set_verbose set_post : ℕ → CurlCall
  set_url set_post_fields : List ℕ → CurlCall
  set_headers set_write_function perform : CurlCall
  set_post_field_size : ℕ → CurlCall

-- A chain of calls, of which each is made if those before it have succeeded.
abbrev pub all_curl {ℓ} : {W : Type ℓ} → (CurlCall → W → W × Bool) → List CurlCall → W → W × Bool
all_curl curl [] w = (w, true)
all_curl curl (c ∷ cs) w = and_then (curl c w) (all_curl curl cs)

unfoldable pub init_index : {W : Type 0} → (CurlCall → W → W × Bool) → List ℕ → W → W × Bool
init_index curl address w =
    all_curl curl
      (set_verbose 0 ∷ set_url address ∷ set_post 1 ∷ set_headers ∷ set_write_function ∷ []) w

unfoldable pub put_index : {W : Type 0} → (CurlCall → W → W × Bool) → List ℕ → ℕ → W → W × Bool
put_index curl request size w =
    all_curl curl (set_post_fields request ∷ set_post_field_size size ∷ perform ∷ []) w
