-- ===== src/Elastic/Indexed.antt =====
-- redis2elastic/src/redis2elastic.cpp on what arduino_client/src/BrokerSerial.cpp publishes.
use broker_proxy.Base.{
  ℕ, ◌≤◌, ◌<◌, ◌^◌, ◌≡◌, refl, ap, ◌∙◌, some, List, [], ◌∷◌, ◌++◌, length, All, ◌>>=◌, true,
  if◌then◌else◌, ==_of_ne, ==_of_eq,
}
use broker_proxy.Cbor.{pos, TinyCbor, CborDeserializer, from_bytes, begin_read, refused}
use broker_proxy.Cbor.Contract.{Contract, uint, write_array}
use broker_proxy.Cbor.Read.{begin_read-IsReading, get_double-of_uint, get_int64-IsReading}
use broker_proxy.Client.{Client, outgoing, publish_uint}
use broker_proxy.Client.Keepalive.{publish_uint_lem}
use broker_proxy.Split.Join.{join, IsWord, split-join}
use broker_proxy.Proxy.{PubMsg}
use broker_proxy.Text.{decimal, decimal_int}
use broker_proxy.Elastic.Record.{add_value-refused, add_int64_value-decoded}
use broker_proxy.Elastic.{
  text, number, time, Document, node_key, object_key, property_key, timestamp_key, key_key,
  value_key, msg_key, incoming_puts, Json, built_of, header, first_double, add_int64_value,
  add_value, on_incoming,
}

-- The document for a number under a topic of these words.
abbrev pub number_document : ℕ → List ℕ → List ℕ → List ℕ → List ℕ → ℕ → Document
number_document now topic node object property n =
    (node_key, text node)
    ∷ (object_key, text object)
    ∷ (property_key, text property)
    ∷ (timestamp_key, time now)
    ∷ (key_key, text topic)
    ∷ (value_key, number (pos n))
    ∷ (msg_key, text (decimal n))
    ∷ []

module _ {E V : Type 0} (lib : TinyCbor E V) (law : Contract lib) where
  -- The reader of a message with one number in it is refused a double, and then has the number.
  add_value-of_uint :
      (show_double : ℕ → List ℕ) (doc : Document) (topic : List ℕ) (n : ℕ) (d : CborDeserializer V)
      → n < 2 ^ 63
      → length (law.encoding (uint n ∷ [])) ≤ d.capacity
      → (d' : CborDeserializer V) × (add_value lib show_double doc
            (record { topic = topic; payload = law.encoding (uint n ∷ []) })
            (first_double lib show_double
              (record { topic = topic; payload = law.encoding (uint n ∷ []) })
              d)
          ≡ some (
            d',
            some (doc ++ (value_key, number (pos n)) ∷ (msg_key, text (decimal_int (pos n))) ∷ []),
          ))
  add_value-of_uint show_double doc topic n d small room =
      let bs = law.encoding (uint n ∷ []) in
      let b = begin_read-IsReading lib law d.capacity (uint n ∷ []) d refl room in
      let no =
        get_double-of_uint lib law d.capacity n 0 [] (begin_read lib (from_bytes lib bs d)) small
          b in
      let d2 : CborDeserializer V = refused lib (begin_read lib (from_bytes lib bs d)) in
      let b2 = begin_read-IsReading lib law d.capacity (uint n ∷ []) d2 b.0 room in
      let refusal = ==_of_ne lib.illegal_type 0 law.illegal in
      let yes =
        get_int64-IsReading lib law d.capacity n (pos 0) [] (begin_read lib (from_bytes lib bs d2))
          small b2 in
      (
        yes.0,
        ap (add_value lib show_double doc (record { topic = topic; payload = bs })) no
            ∙ add_value-refused lib show_double doc (record { topic = topic; payload = bs }) d2 0
                refusal
            ∙ ap (add_int64_value lib show_double doc (record { topic = topic; payload = bs }))
                yes.1
            ∙ add_int64_value-decoded lib show_double doc (record { topic = topic; payload = bs })
                yes.0 (pos n) (==_of_eq yes.0.err 0 yes.2.1),
      )

  -- A number below 2^63 that a micro-controller publishes, under a topic of four words or more, is
  -- handed to the index: the client sends one message, and the handler on it, whose reader has room for it, has
  -- one document, with the words, the topic, the time, the number and its decimal digits. The
  -- encoding fits into the buffer of the client, and the document into its 1024 bytes.
  pub publish_uint-on_incoming :
      (json : Json) (show_double : ℕ → List ℕ) (now n : ℕ) (src node object property : List ℕ)
      (words : List (List ℕ)) (c : Client E V) (d : CborDeserializer V)
      → All (IsWord 47) (src ∷ node ∷ object ∷ property ∷ words)
      → n < 2 ^ 63
      → length (law.encoding (uint n ∷ [])) ≤ c.to_cbor.capacity
      → length (law.encoding (uint n ∷ [])) ≤ d.capacity
      → json.fits 1024 (
          number_document now
            (join 47 (src ∷ node ∷ object ∷ property ∷ words))
            node
            object
            property
            n)
        ≡ true
      → (msg : PubMsg) × (d' : CborDeserializer V) × (c' : Client E V) × (publish_uint lib
            (join 47 (src ∷ node ∷ object ∷ property ∷ words))
            n
            c
          ≡ (c', outgoing msg ∷ []))
        × (on_incoming lib show_double json now msg d
            ≡ some (
              d',
              some (
                  number_document now
                    (join 47 (src ∷ node ∷ object ∷ property ∷ words))
                    node
                    object
                    property
                    n),
            ))
  unfolding on_incoming incoming_puts decimal_int
  publish_uint-on_incoming json show_double now n src node object property words c d free small room
        room' fits =
      let topic = join 47 (src ∷ node ∷ object ∷ property ∷ words) in
      let msg : PubMsg = record { topic = topic; payload = law.encoding (uint n ∷ []) } in
      let doc : Document =
        (node_key, text node)
        ∷ (object_key, text object)
        ∷ (property_key, text property)
        ∷ (timestamp_key, time now)
        ∷ (key_key, text topic)
        ∷ [] in
      let parts = split-join 47 src (node ∷ object ∷ property ∷ words) free in
      let value = add_value-of_uint show_double doc topic n d small room' in
      (
        msg,
        value.0,
        record c { to_cbor = write_array lib law (uint n ∷ []) c.to_cbor },
        publish_uint_lem lib law topic n c room,
        ap (λ o. o >>= λ r. some (built_of lib show_double json r))
              (ap
                  (λ ps. header now msg ps >>= λ h.
                    add_value lib show_double h msg (first_double lib show_double msg d))
                  parts
                ∙ value.1)
            ∙ ap
                (λ b. some (
                  value.0,
                  some (
                      if b
                      then number_document now topic node object property n
                      else json.spoiled 1024 (number_document now topic node object property n)),
                ))
                fits,
      )
