-- ===== src/Proxy/Messages.antt =====
-- proxy/src/serialProxy.cpp: what the proxy makes of a message of the micro-controller.
use broker_proxy.Base.{
  ℕ, ◌≤◌, ◌<◌, ◌^◌, ◌≡◌, ◌≢◌, refl, Option, none, some, List, [], ◌∷◌, ◌++◌, ◌==◌, ==_of_ne, length,
  All, if◌then◌else◌, arith,
}
use broker_proxy.Cbor.{ℤ, pos, TinyCbor, CborDeserializer, from_bytes, begin_read, refused}
use broker_proxy.Cbor.Contract.{Item, int, text, blob, Contract}
use broker_proxy.Cbor.Read.{
  begin_read-IsReading, get_int-IsReading, get_string-IsReading, get_bytes-IsReading,
  get_bytes-at_end,
}
use broker_proxy.Proxy.{
  b_publish, b_subscribe, b_node, PubMsg, Call, publish, subscribe, subscribe_proxy, dst_slash,
  slash_star, proxy_slash_star, Proxy, get_pub_msg, get_typed_string, on_frame,
}

-- What a micro-controller sends.
pub data Message : Type 0 where
  publication : PubMsg → Message
  subscription : List ℕ → Message
  announcement : List ℕ → Message

-- The array that it is encoded as.
abbrev pub items_of : Message → List Item
items_of (publication m) = int (pos b_publish) ∷ text m.topic ∷ blob m.payload ∷ []
items_of (subscription pattern) = int (pos b_subscribe) ∷ text pattern ∷ []
items_of (announcement node) = int (pos b_node) ∷ text node ∷ []

-- What the proxy is to do about it.
abbrev pub calls_of : Message → List Call
calls_of (publication m) = publish m ∷ []
calls_of (subscription pattern) = subscribe pattern ∷ []
calls_of (announcement node) =
    subscribe (dst_slash ++ node ++ slash_star)
    ∷ subscribe_proxy (dst_slash ++ node ++ proxy_slash_star)
    ∷ []

-- Its string, a topic, a pattern or a name, has no NUL.
abbrev pub IsText : List ℕ → Type 0
IsText s = All (λ x. x ≢ 0) s

abbrev pub IsSendable : Message → Type 0
IsSendable (publication m) = IsText m.topic
IsSendable (subscription pattern) = IsText pattern
IsSendable (announcement node) = IsText node

module _ {E V : Type 0} (lib : TinyCbor E V) (c : Contract lib) where
  get_typed_string-read :
      (n type k : ℕ) (t : ℤ) (s : List ℕ) (rest : List Item) (d : CborDeserializer V)
      → k < 2 ^ 31
      → IsText s
      → d.capacity ≡ n
      → length (c.encoding (int (pos k) ∷ text s ∷ rest)) ≤ n
      → (d' : CborDeserializer V) × (get_typed_string lib type t
            (c.encoding (int (pos k) ∷ text s ∷ rest))
            d
          ≡ some (d', if k == type then some s else none))
        × (d'.capacity ≡ n)
  get_typed_string-read n type k t s rest d small nul same room =
      let b = begin_read-IsReading lib c n (int (pos k) ∷ text s ∷ rest) d same room in
      let i =
        get_int-IsReading lib c n k t (text s ∷ rest)
          (begin_read lib (from_bytes lib (c.encoding (int (pos k) ∷ text s ∷ rest)) d)) small b in
      let x = get_string-IsReading lib c n s [] rest i.0 nul i.2 in
      (x.0, rw (i.1, x.1, x.2.1) refl, x.2.0)

  get_pub_msg-read :
      (n : ℕ) (t : ℤ) (m : PubMsg) (d : CborDeserializer V)
      → IsText m.topic
      → d.capacity ≡ n
      → length (c.encoding (items_of (publication m))) ≤ n
      → (d' : CborDeserializer V) × (get_pub_msg lib t (c.encoding (items_of (publication m))) d
          ≡ some (d', some m))
        × (d'.capacity ≡ n)
  get_pub_msg-read n t m d nul same room =
      let b = begin_read-IsReading lib c n (items_of (publication m)) d same room in
      let i =
        get_int-IsReading lib c n b_publish t (text m.topic ∷ blob m.payload ∷ [])
          (begin_read lib (from_bytes lib (c.encoding (items_of (publication m))) d)) (omega arith)
          b in
      let x = get_string-IsReading lib c n m.topic [] (blob m.payload ∷ []) i.0 nul i.2 in
      let y = get_bytes-IsReading lib c n m.payload [] [] x.0 x.2 in
      (y.0, rw (i.1, x.1, y.1, y.2.1) refl, y.2.0)

  get_pub_msg-other :
      (n k : ℕ) (t : ℤ) (s : List ℕ) (d : CborDeserializer V)
      → k < 2 ^ 31
      → IsText s
      → d.capacity ≡ n
      → length (c.encoding (int (pos k) ∷ text s ∷ [])) ≤ n
      → (d' : CborDeserializer V) × (get_pub_msg lib t (c.encoding (int (pos k) ∷ text s ∷ [])) d
          ≡ some (d', none))
        × (d'.capacity ≡ n)
  get_pub_msg-other n k t s d small nul same room =
      let b = begin_read-IsReading lib c n (int (pos k) ∷ text s ∷ []) d same room in
      let i =
        get_int-IsReading lib c n k t (text s ∷ [])
          (begin_read lib (from_bytes lib (c.encoding (int (pos k) ∷ text s ∷ [])) d)) small b in
      let x = get_string-IsReading lib c n s [] [] i.0 nul i.2 in
      (
        refused lib x.0,
        rw (i.1, x.1, get_bytes-at_end lib c n [] x.0 x.2, ==_of_ne lib.illegal_type 0 c.illegal)
            refl,
        x.2.0,
      )

  -- The name that the proxy has after a message.
  abbrev pub name_after : Message → List ℕ → List ℕ
  name_after (publication m) name = name
  name_after (subscription pattern) name = name
  name_after (announcement node) name = node

  -- What a frame leads to: those calls, that name, and a reader of the same size.
  abbrev pub IsHandled : ℕ → List ℕ → List Call → Option (Proxy E V × List Call) → Type 0
  IsHandled n name calls o =
      (p : Proxy E V) × (o ≡ some (p, calls)) × (p.from_cbor.capacity ≡ n) × (p.node_name ≡ name)

  -- The frame of a message makes the proxy do what the message asks for and nothing else, and is
  -- defined, where the encoding fits into the reader's buffer and the string has no NUL.
  pub on_frame-IsHandled :
      (t : ℤ) (m : Message) (p : Proxy E V)
      → IsSendable m
      → length (c.encoding (items_of m)) ≤ p.from_cbor.capacity
      → IsHandled p.from_cbor.capacity
          (name_after m p.node_name)
          (calls_of m)
          (on_frame lib t (c.encoding (items_of m)) p)
  unfolding on_frame
  on_frame-IsHandled t (publication m) p nul room =
      let n = p.from_cbor.capacity in
      let x = get_pub_msg-read n t m p.from_cbor nul refl room in
      let y =
        get_typed_string-read n b_subscribe b_publish t m.topic (blob m.payload ∷ []) x.0
          (omega arith) nul x.2 room in
      let z =
        get_typed_string-read n b_node b_publish t m.topic (blob m.payload ∷ []) y.0 (omega arith)
          nul y.2 room in
      (record p { from_cbor = z.0 }, rw (x.1, y.1, z.1) refl, z.2, refl)
  on_frame-IsHandled t (subscription s) p nul room =
      let n = p.from_cbor.capacity in
      let x = get_pub_msg-other n b_subscribe t s p.from_cbor (omega arith) nul refl room in
      let y =
        get_typed_string-read n b_subscribe b_subscribe t s [] x.0 (omega arith) nul x.2 room in
      let z = get_typed_string-read n b_node b_subscribe t s [] y.0 (omega arith) nul y.2 room in
      (record p { from_cbor = z.0 }, rw (x.1, y.1, z.1) refl, z.2, refl)
  on_frame-IsHandled t (announcement s) p nul room =
      let n = p.from_cbor.capacity in
      let x = get_pub_msg-other n b_node t s p.from_cbor (omega arith) nul refl room in
      let y = get_typed_string-read n b_subscribe b_node t s [] x.0 (omega arith) nul x.2 room in
      let z = get_typed_string-read n b_node b_node t s [] y.0 (omega arith) nul y.2 room in
      (record p { from_cbor = z.0; node_name = s }, rw (x.1, y.1, z.1) refl, z.2, refl)
