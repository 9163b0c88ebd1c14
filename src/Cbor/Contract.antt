-- ===== src/Cbor/Contract.antt =====
-- common/src/CborSerializer.cpp and CborDeserializer.cpp: what they rely on in TinyCBOR, for an
-- array of values of indefinite length.
use broker_proxy.Base.{
  ℕ, ◌≤◌, ◌<◌, ◌^◌, ◌≡◌, ◌≢◌, refl, true, false, List, [], ◌∷◌, ◌++◌, length, IsBytes, sym,
  append_assoc, append-nil, arith,
}
use mathlib.Core.Path.{subst}
use broker_proxy.Split.{take}
use broker_proxy.Cbor.{
  ℤ, pos, ok, TinyCbor, CborSerializer, encoded, add_int, add_uint, add_string, add_double,
  add_bytes, begin_array, sized, end_array, is_encoded, to_bytes,
}

pub data Item : Type 0 where
  int : ℤ → Item
  uint : ℕ → Item
  text : List ℕ → Item
  double : ℕ → Item
  blob : List ℕ → Item

abbrev pub encode_item : {E V : Type 0} → TinyCbor E V → Item → E → E × ℕ
encode_item lib (int t) e = lib.encode_int t e
encode_item lib (uint t) e = lib.encode_uint t e
encode_item lib (text t) e = lib.encode_text_string t e
encode_item lib (double t) e = lib.encode_double t e
encode_item lib (blob t) e = lib.encode_byte_string t e

-- `encoding` is the encoding of an array, `Holds e n items` an encoder with a buffer of `n` bytes
-- that has the values so far, and `IsAt v items` an iterator in front of the values that are left.
-- A value that has room is encoded without an error; an array that has been encoded is a container
-- whose values the iterator meets in order; a value has the type and the content it was encoded
-- from, and a message type, which is small, is read as an `int`; behind
-- the
-- last value there is no string.
pub record Contract {E V : Type 0} (lib : TinyCbor E V) : Type 1 where
  pub encoding : List Item → List ℕ
  pub Holds : E → ℕ → List Item → Type 0
  pub IsAt : V → List Item → Type 0
  pub illegal : lib.illegal_type ≢ 0
  pub are_bytes : (items : List Item) → IsBytes (encoding items) × (encoding items ≢ [])
  pub create :
      (n : ℕ)
      → length (encoding []) ≤ n
      → ((lib.create_array (lib.encoder_init n)).1 ≡ 0)
        × Holds (lib.create_array (lib.encoder_init n)).0 n []
  pub encode :
      (i : Item) (e : E) (n : ℕ) (items : List Item)
      → Holds e n items
      → length (encoding (items ++ i ∷ [])) ≤ n
      → ((encode_item lib i e).1 ≡ 0) × Holds (encode_item lib i e).0 n (items ++ i ∷ [])
  pub close :
      (e : E) (n : ℕ) (items : List Item)
      → Holds e n items
      → length (encoding items) ≤ n
      → ((lib.close_container e).1 ≡ 0)
        × (take (lib.buffer_size (lib.close_container e).0) (lib.buffer (lib.close_container e).0)
            ≡ encoding items)
  pub longer :
      (i : Item) (items : List Item) → length (encoding items) ≤ length (encoding (items ++ i ∷ []))
  pub parse :
      (items : List Item)
      → (lib.is_container (lib.parser_init (encoding items)).0 ≡ true)
        × ((lib.enter_container (lib.parser_init (encoding items)).0).1 ≡ 0)
        × IsAt (lib.enter_container (lib.parser_init (encoding items)).0).0 items
  pub at_int :
      (n : ℕ) (v : V) (items : List Item)
      → n < 2 ^ 31
      → IsAt v (int (pos n) ∷ items)
      → (lib.is_integer v ≡ true)
        × (lib.get_int v ≡ ok (pos n))
        × ((lib.advance_fixed v).1 ≡ 0)
        × IsAt (lib.advance_fixed v).0 items
  pub at_uint :
      (n : ℕ) (v : V) (items : List Item)
      → n < 2 ^ 64
      → IsAt v (uint n ∷ items)
      → (lib.is_unsigned_integer v ≡ true)
        × (lib.get_uint64 v ≡ ok n)
        × ((lib.advance_fixed v).1 ≡ 0)
        × IsAt (lib.advance_fixed v).0 items
  pub at_int64 :
      (n : ℕ) (v : V) (items : List Item)
      → n < 2 ^ 63
      → IsAt v (uint n ∷ items)
      → (lib.is_double v ≡ false)
        × (lib.is_text_string v ≡ false)
        × (lib.is_integer v ≡ true)
        × (lib.get_int64 v ≡ ok (pos n))
        × ((lib.advance v).1 ≡ 0)
        × IsAt (lib.advance v).0 items
  pub at_text :
      (t : List ℕ) (v : V) (items : List Item)
      → IsAt v (text t ∷ items)
      → (lib.is_text_string v ≡ true)
        × (lib.dup_text_string v ≡ ok t)
        × ((lib.advance v).1 ≡ 0)
        × IsAt (lib.advance v).0 items
  pub at_blob :
      (t : List ℕ) (v : V) (items : List Item)
      → IsAt v (blob t ∷ items)
      → (lib.is_byte_string v ≡ true)
        × (lib.calculate_string_length v ≡ 0)
        × (lib.dup_byte_string v ≡ ok t)
        × ((lib.advance v).1 ≡ 0)
        × IsAt (lib.advance v).0 items
  pub at_end : (v : V) → IsAt v [] → lib.is_byte_string v ≡ false

module _ {E V : Type 0} (lib : TinyCbor E V) (c : Contract lib) where
  -- `add` of a value of any type.
  abbrev pub add_item : Item → CborSerializer E → CborSerializer E
  add_item (int t) s = add_int lib t s
  add_item (uint t) s = add_uint lib t s
  add_item (text t) s = add_string lib t s
  add_item (double t) s = add_double lib t s
  add_item (blob t) s = add_bytes lib t s

  -- A serializer that has encoded the values without an error.
  abbrev pub IsWriting : ℕ → CborSerializer E → List Item → Type 0
  IsWriting n s items = (s.err ≡ 0) × (s.capacity ≡ n) × c.Holds s.encoder n items

  add_item-encoded :
      (i : Item) (s : CborSerializer E)
      → s.err ≡ 0
      → add_item i s ≡ encoded lib s (encode_item lib i s.encoder)
  add_item-encoded (int t) s e = refl
  add_item-encoded (uint t) s e = refl
  add_item-encoded (text t) s e = refl
  add_item-encoded (double t) s e = refl
  add_item-encoded (blob t) s e = rw e refl

  encoded-IsWriting :
      (n : ℕ) (s : CborSerializer E) (r : E × ℕ) (items : List Item)
      → s.capacity ≡ n
      → (r.1 ≡ 0) × c.Holds r.0 n items
      → IsWriting n (encoded lib s r) items
  encoded-IsWriting n s (e, err) items room h = (h.0, room, h.1)

  pub begin_array-IsWriting :
      (n : ℕ) (s : CborSerializer E)
      → s.capacity ≡ n
      → length (c.encoding []) ≤ n
      → IsWriting n (begin_array lib s) []
  begin_array-IsWriting n s cap room =
      encoded-IsWriting n s (lib.create_array (lib.encoder_init s.capacity)) [] cap
        (rw cap (c.create n room))

  pub add_item-IsWriting :
      (n : ℕ) (i : Item) (s : CborSerializer E) (items : List Item)
      → IsWriting n s items
      → length (c.encoding (items ++ i ∷ [])) ≤ n
      → IsWriting n (add_item i s) (items ++ i ∷ [])
  add_item-IsWriting n i s items h room =
      let r = c.encode i s.encoder n items h.2 room in
      subst (λ x. IsWriting n x (items ++ i ∷ [])) (sym (add_item-encoded i s h.0))
        (encoded-IsWriting n s (encode_item lib i s.encoder) (items ++ i ∷ []) h.1 r)

  abbrev pub add_items : List Item → CborSerializer E → CborSerializer E
  add_items [] s = s
  add_items (i ∷ is) s = add_items is (add_item i s)

  encoding_mono :
      (is items : List Item) → length (c.encoding items) ≤ length (c.encoding (items ++ is))
  encoding_mono [] items = rw (append-nil items) (omega arith)
  encoding_mono (i ∷ is) items = omega (
    arith,
    c.longer i items,
    subst (λ l. length (c.encoding (items ++ i ∷ [])) ≤ length (c.encoding l))
        (append_assoc items (i ∷ []) is) (encoding_mono is (items ++ i ∷ [])),
  )

  add_items-IsWriting :
      (n : ℕ) (is : List Item) (s : CborSerializer E) (items : List Item)
      → IsWriting n s items
      → length (c.encoding (items ++ is)) ≤ n
      → IsWriting n (add_items is s) (items ++ is)
  add_items-IsWriting n [] s items h room = rw (append-nil items) h
  add_items-IsWriting n (i ∷ is) s items h room =
      let assoc = append_assoc items (i ∷ []) is in
      let fits = subst (λ l. length (c.encoding l) ≤ n) (sym assoc) room in
      subst (IsWriting n (add_items is (add_item i s))) assoc (
        add_items-IsWriting n is (add_item i s) (items ++ i ∷ [])
          (add_item-IsWriting n i s items h
            (omega (arith, encoding_mono is (items ++ i ∷ []), fits)))
          fits)

  -- What the serializer has for an array of values that has room in its buffer.
  abbrev pub write_array : List Item → CborSerializer E → CborSerializer E
  write_array is s = end_array lib (add_items is (begin_array lib s))

  abbrev pub IsWritten : ℕ → List Item → CborSerializer E → Type 0
  IsWritten n items s =
      (is_encoded lib s ≡ true) × (to_bytes lib s ≡ c.encoding items) × (s.capacity ≡ n)

  end_array-IsWritten :
      (n : ℕ) (s : CborSerializer E) (items : List Item)
      → IsWriting n s items
      → length (c.encoding items) ≤ n
      → IsWritten n items (end_array lib s)
  end_array-IsWritten n s items h room =
      let r = c.close s.encoder n items h.2 room in
      rw h.0 (sized_after (lib.close_container s.encoder) r)
    where
      sized_after :
          (p : E × ℕ)
          → (p.1 ≡ 0) × (take (lib.buffer_size p.0) (lib.buffer p.0) ≡ c.encoding items)
          → IsWritten n items (sized lib (encoded lib s p))
      sized_after (e, err) g = (rw g.0 refl, g.1, h.1)

  -- An array of values whose encoding fits into the buffer is written without an error, and the
  -- bytes are its encoding.
  pub write_array-IsWritten :
      (is : List Item) (s : CborSerializer E)
      → length (c.encoding is) ≤ s.capacity
      → IsWritten s.capacity is (write_array is s)
  write_array-IsWritten is s room =
      end_array-IsWritten s.capacity (add_items is (begin_array lib s)) is
        (add_items-IsWriting s.capacity is (begin_array lib s) []
          (begin_array-IsWriting s.capacity s refl (omega (arith, encoding_mono is []))) room)
        room
