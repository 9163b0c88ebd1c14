-- ===== src/Brain.antt =====
-- brain/src/brain.cpp: the handlers of main, as the commands that they give to the broker. A command
-- is a text; the broker takes it as a format, in which this model supposes no directive. `none` is
-- undefined behaviour. How a double is written is a parameter.
pub mod Recorded
pub mod Labels
mod Tests
use broker_proxy.Base.{
  ℕ, zero, suc, ◌+◌, ◌-◌, ◌%◌, ◌^◌, ◌≡◌, Bool, true, false, Option, none, some, List, [], ◌∷◌, ◌++◌,
  if◌then◌else◌, get_elem?, ◌>>=◌,
}
use broker_proxy.Cbor.{
  ℤ, pos, TinyCbor, CborDeserializer, from_bytes, begin_read, is_decoded, get_double, get_int64,
  get_string, c_string,
}
use broker_proxy.Proxy.{PubMsg}
use broker_proxy.Redis.Replies.{RedisReply, Replies, no_replies, reply_and, str_of}
use broker_proxy.Elastic.{elements_of}
use broker_proxy.Split.{take, split}
use broker_proxy.Redis.{same_text}
use broker_proxy.Text.{decimal, decimal_int, formatted}

-- "SET ", "SET  ", "TS.ADD ts:", " " and "\""
abbrev pub set_text : List ℕ
set_text = 83 ∷ 69 ∷ 84 ∷ 32 ∷ []

abbrev pub set_string_text : List ℕ
set_string_text = 83 ∷ 69 ∷ 84 ∷ 32 ∷ 32 ∷ []

abbrev pub add_text : List ℕ
add_text = 84 ∷ 83 ∷ 46 ∷ 65 ∷ 68 ∷ 68 ∷ 32 ∷ 116 ∷ 115 ∷ 58 ∷ []

abbrev pub set_number : List ℕ → List ℕ → List ℕ
set_number key value = set_text ++ c_string key ++ 32 ∷ value ++ 32 ∷ []

abbrev pub add_sample : List ℕ → ℕ → List ℕ → List ℕ
add_sample key now value = add_text ++ c_string key ++ 32 ∷ decimal now ++ 32 ∷ value

abbrev pub set_string : List ℕ → List ℕ → List ℕ
set_string key s = set_string_text ++ c_string key ++ 32 ∷ 34 ∷ c_string s ++ 34 ∷ 32 ∷ []

module _ {E V : Type 0} (lib : TinyCbor E V) (show_double : ℕ → List ℕ) where
  abbrev pub opened : PubMsg → CborDeserializer V → CborDeserializer V
  opened msg d = begin_read lib (from_bytes lib msg.payload d)

  -- The two commands for a number, of which each must fit the buffer of its format.
  abbrev pub number_commands :
      ℕ → ℕ → ℕ → List ℕ → List ℕ → CborDeserializer V → Option (CborDeserializer V × List (List ℕ))
  number_commands set_length add_length now key value d =
      formatted set_length (set_number key value) >>= λ set.
      formatted add_length (add_sample key now value) >>= λ add. some (d, set ∷ add ∷ [])

  -- "SET %s %ld " and "TS.ADD ts:%s %lu %ld" have 11 and 20 characters.
  abbrev pub on_int64 :
      ℕ → PubMsg → CborDeserializer V × ℤ → Option (CborDeserializer V × List (List ℕ))
  on_int64 now msg (d, n) =
      if is_decoded lib d
      then number_commands 11 20 now msg.topic (decimal_int n) d
      else some (d, [])

  -- "SET %s %f " and "TS.ADD ts:%s %lu %f"
  abbrev pub on_double :
      ℕ → PubMsg → CborDeserializer V × ℕ → Option (CborDeserializer V × List (List ℕ))
  on_double now msg (d, x) =
      if is_decoded lib d
      then number_commands 10 19 now msg.topic (show_double x) d
      else some (d, [])

  -- "SET  %s \"%s\" "
  abbrev pub on_string :
      PubMsg → CborDeserializer V × List ℕ → Option (CborDeserializer V × List (List ℕ))
  on_string msg (d, s) =
      if is_decoded lib d
      then (formatted 13 (set_string msg.topic s) >>= λ cmd. some (d, cmd ∷ []))
      else some (d, [])

  -- The handler of `broker.incoming()`: all three are tried; the clock is read before each sample.
  unfoldable pub on_incoming :
      ℕ → ℕ → PubMsg → CborDeserializer V → Option (CborDeserializer V × List (List ℕ))
  on_incoming now now' msg d = on_int64 now msg (get_int64 lib (pos 0) (opened msg d)) >>= λ first.
      on_double now' msg (get_double lib 0 (opened msg first.0)) >>= λ second.
      get_string lib [] (opened msg second.0) >>= λ s.
      on_string msg s >>= λ third. some (third.0, first.1 ++ second.1 ++ third.1)

-- `key.rfind("ts:", 0) == 0`
abbrev pub is_series : List ℕ → Bool
is_series key = same_text (take 3 key) (116 ∷ 115 ∷ 58 ∷ [])

-- "ts.alter ", " labels node ", " object " and " property "
abbrev pub alter_text : List ℕ
alter_text = 116 ∷ 115 ∷ 46 ∷ 97 ∷ 108 ∷ 116 ∷ 101 ∷ 114 ∷ 32 ∷ []

abbrev pub node_text : List ℕ
node_text = 32 ∷ 108 ∷ 97 ∷ 98 ∷ 101 ∷ 108 ∷ 115 ∷ 32 ∷ 110 ∷ 111 ∷ 100 ∷ 101 ∷ 32 ∷ []

abbrev pub object_text : List ℕ
object_text = 32 ∷ 111 ∷ 98 ∷ 106 ∷ 101 ∷ 99 ∷ 116 ∷ 32 ∷ []

abbrev pub property_text : List ℕ
property_text = 32 ∷ 112 ∷ 114 ∷ 111 ∷ 112 ∷ 101 ∷ 114 ∷ 116 ∷ 121 ∷ 32 ∷ []

abbrev pub alter : List ℕ → List ℕ → List ℕ → List ℕ → List ℕ
alter key node object property =
    alter_text
    ++ c_string key
    ++ node_text
    ++ c_string node
    ++ object_text
    ++ c_string object
    ++ property_text
    ++ c_string property

-- The format has 48 characters.
abbrev pub alter_parts : List ℕ → List (List ℕ) → Option (List ℕ)
alter_parts key parts = get_elem? parts 1 >>= λ node. get_elem? parts 2 >>= λ object.
    get_elem? parts 3 >>= λ property. formatted 48 (alter key node object property)

-- The function that is called with the reply to "keys *".
abbrev pub on_key : List ℕ → Option (List (List ℕ))
on_key key =
    if is_series key then (alter_parts key (split key 47) >>= λ cmd. some (cmd ∷ [])) else some []

abbrev pub on_keys : Replies → Option (List (List ℕ))
on_keys no_replies = some []
on_keys (reply_and r rs) =
    str_of r >>= λ s. on_key (c_string s) >>= λ cmds. on_keys rs >>= λ rest. some (cmds ++ rest)

unfoldable pub on_ticker_reply : RedisReply → Option (List (List ℕ))
on_ticker_reply reply = on_keys (elements_of reply)

-- The flow from the uptime that was sent to its latency, in 64 bits.
unfoldable pub latency : ℕ → ℕ → ℕ
latency now sent = (now + 2 ^ 64 - sent) % 2 ^ 64
