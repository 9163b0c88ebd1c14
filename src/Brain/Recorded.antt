-- ===== src/Brain/Recorded.antt =====
-- brain/src/brain.cpp on what arduino_client/src/BrokerSerial.cpp publishes.
use broker_proxy.Base.{
  ◌+◌, ◌*◌, leb_of_le, ℕ, ◌≤◌, ◌<◌, ◌^◌, ◌≡◌, refl, some, List, [], ◌∷◌, length, ==_of_ne, ==_of_eq,
}
use broker_proxy.Cbor.{pos, TinyCbor, CborDeserializer, from_bytes, begin_read, refused}
use broker_proxy.Cbor.Contract.{Contract, uint, write_array}
use broker_proxy.Cbor.Read.{
  begin_read-IsReading, get_double-of_uint, get_int64-IsReading, get_string-of_uint,
}
use broker_proxy.Client.{Client, outgoing, publish_uint}
use broker_proxy.Client.Keepalive.{publish_uint_lem}
use broker_proxy.Proxy.{PubMsg}
use broker_proxy.Text.{decimal, decimal_int, formatted}
use broker_proxy.Brain.{set_number, add_sample, on_incoming}

module _ {E V : Type 0} (lib : TinyCbor E V) (law : Contract lib) (show_double : ℕ → List ℕ) where
  -- A text that fits the buffer of its format.
  formatted-fits : (k : ℕ) (text : List ℕ) → length text ≤ k * 2 + 50 → formatted k text ≡ some text
  formatted-fits k text h = rw (leb_of_le (length text) (k * 2 + 50) h) refl

  -- The three tries on a message with one number in it: the number, and then nothing twice.
  tries :
      (now now' n : ℕ) (msg : PubMsg) (d : CborDeserializer V)
      → msg.payload ≡ law.encoding (uint n ∷ [])
      → n < 2 ^ 63
      → length (law.encoding (uint n ∷ [])) ≤ d.capacity
      → length (set_number msg.topic (decimal n)) ≤ 72
      → length (add_sample msg.topic now (decimal n)) ≤ 90
      → (d' : CborDeserializer V) × (on_incoming lib show_double now now' msg d
          ≡ some (d', set_number msg.topic (decimal n) ∷ add_sample msg.topic now (decimal n) ∷ []))
  unfolding on_incoming decimal_int
  tries now now' n msg d e small room fits_set fits_add =
      let bs = law.encoding (uint n ∷ []) in
      let r = begin_read-IsReading lib law d.capacity (uint n ∷ []) in
      let yes =
        get_int64-IsReading lib law d.capacity n (pos 0) [] (begin_read lib (from_bytes lib bs d))
          small (r d refl room) in
      let d2 : CborDeserializer V = yes.0 in
      let no =
        get_double-of_uint lib law d.capacity n 0 [] (begin_read lib (from_bytes lib bs d2)) small
          (r d2 yes.2.0 room) in
      let d3 : CborDeserializer V = refused lib (begin_read lib (from_bytes lib bs d2)) in
      let none_left =
        get_string-of_uint lib law d.capacity n [] [] (begin_read lib (from_bytes lib bs d3)) small
          (r d3 (r d2 yes.2.0 room).0 room) in
      let refusal = ==_of_ne lib.illegal_type 0 law.illegal in
      (
        refused lib (begin_read lib (from_bytes lib bs d3)),
        rw
            (
              e,
              yes.1,
              ==_of_eq d2.err 0 yes.2.1,
              formatted-fits 11 (set_number msg.topic (decimal n)) fits_set,
              formatted-fits 20 (add_sample msg.topic now (decimal n)) fits_add,
              no,
              refusal,
              none_left,
              refusal,
            )
            refl,
      )

  -- A number below 2^63 that a micro-controller publishes is recorded: the client sends one message,
  -- and the handler on it, whose reader has room for it, gives exactly two commands, which store
  -- the number's decimal digits under the topic and append them to its time series at the time. The
  -- encoding fits into the buffer of the client, and the commands into those of `stringFormat`, of
  -- 72 and 90 characters.
  pub publish_uint-recorded :
      (now now' n : ℕ) (topic : List ℕ) (c : Client E V) (d : CborDeserializer V)
      → n < 2 ^ 63
      → length (law.encoding (uint n ∷ [])) ≤ c.to_cbor.capacity
      → length (law.encoding (uint n ∷ [])) ≤ d.capacity
      → length (set_number topic (decimal n)) ≤ 72
      → length (add_sample topic now (decimal n)) ≤ 90
      → (msg : PubMsg) × (d' : CborDeserializer V) × (c' : Client E V) × (publish_uint lib topic n c
          ≡ (c', outgoing msg ∷ []))
        × (on_incoming lib show_double now now' msg d
            ≡ some (d', set_number topic (decimal n) ∷ add_sample topic now (decimal n) ∷ []))
  publish_uint-recorded now now' n topic c d small room room' fits_set fits_add =
      let msg : PubMsg = record { topic = topic; payload = law.encoding (uint n ∷ []) } in
      let r = tries now now' n msg d refl small room' fits_set fits_add in
      (
        msg,
        r.0,
        record c { to_cbor = write_array lib law (uint n ∷ []) c.to_cbor },
        publish_uint_lem lib law topic n c room,
        r.1,
      )
