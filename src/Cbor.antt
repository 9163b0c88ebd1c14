-- ===== src/Cbor.antt =====
-- common/src/CborSerializer.cpp and common/src/CborDeserializer.cpp, over TinyCBOR, which is a
-- parameter: its functions on a state of the encoders with their buffer, and on an iterator. An
-- error is a number, 0 for CborNoError. Numbers of type double are known by their bits.
pub mod Contract
pub mod Read
pub mod Toy
use broker_proxy.Base.{
  ℕ, zero, suc, ◌≡◌, Bool, true, false, ◌&&◌, Option, none, some, List, [], ◌∷◌, ◌==◌, ltb,
  if◌then◌else◌, length, ◌>>=◌,
}
use broker_proxy.Split.{take}

pub data ℤ : Type 0 where
  pos negsuc : ℕ → ℤ

-- A value that a function has stored, or the error with which it stores none.
pub data Answer {ℓ} (A : Type ℓ) : Type ℓ where
  ok : A → Answer A
  error : ℕ → Answer A

pub record TinyCbor (E V : Type 0) : Type 0 where
  pub encoder_init : ℕ → E
  pub create_array : E → E × ℕ
  pub encode_int : ℤ → E → E × ℕ
  pub encode_uint : ℕ → E → E × ℕ
  pub encode_text_string : List ℕ → E → E × ℕ
  pub encode_double : ℕ → E → E × ℕ
  pub encode_byte_string : List ℕ → E → E × ℕ
  pub close_container : E → E × ℕ
  pub buffer_size : E → ℕ
  pub buffer : E → List ℕ
  pub illegal_type : ℕ
  pub parser_init : List ℕ → V × ℕ
  pub is_container : V → Bool
  pub enter_container : V → V × ℕ
  pub is_byte_string : V → Bool
  pub is_text_string : V → Bool
  pub is_integer : V → Bool
  pub is_unsigned_integer : V → Bool
  pub is_double : V → Bool
  pub calculate_string_length : V → ℕ
  pub dup_byte_string : V → Answer (List ℕ)
  pub dup_text_string : V → Answer (List ℕ)
  pub get_int : V → Answer ℤ
  pub get_int64 : V → Answer ℤ
  pub get_uint64 : V → Answer ℕ
  pub get_double : V → Answer ℕ
  pub advance : V → V × ℕ
  pub advance_fixed : V → V × ℕ

-- The fields of `CborSerializer`; the encoders and the buffer are one.
pub record CborSerializer (E : Type 0) : Type 0 where
  pub capacity : ℕ
  pub size : ℕ
  pub err : ℕ
  pub encoder : E

-- The fields of `CborDeserializer`; `content` is the buffer up to its size.
pub record CborDeserializer (V : Type 0) : Type 0 where
  pub capacity : ℕ
  pub content : List ℕ
  pub err : ℕ
  pub it : V

-- The characters before the first NUL, as in the assignment of a `char *`.
abbrev pub c_string : List ℕ → List ℕ
c_string [] = []
c_string (c ∷ cs) = let rest = c_string cs in if c == 0 then [] else c ∷ rest

module _ {E V : Type 0} (lib : TinyCbor E V) where
  -- The constructor; what it leaves uninitialised are arguments.
  abbrev pub cbor_serializer : ℕ → ℕ → ℕ → E → CborSerializer E
  cbor_serializer size size₀ err₀ encoder₀ = record {
    capacity = size;
    size = size₀;
    err = err₀;
    encoder = encoder₀;
  }

  abbrev pub encoded : CborSerializer E → E × ℕ → CborSerializer E
  encoded s (e, err) = record s { encoder = e; err = err }

  -- `add`, by the type of its argument: `int` and `int64_t`, `uint32_t` and `uint64_t`,
  -- `std::string`, `double`, `Bytes`.
  abbrev pub add_int : ℤ → CborSerializer E → CborSerializer E
  add_int t s = encoded s (lib.encode_int t s.encoder)

  abbrev pub add_uint : ℕ → CborSerializer E → CborSerializer E
  add_uint t s = encoded s (lib.encode_uint t s.encoder)

  abbrev pub add_string : List ℕ → CborSerializer E → CborSerializer E
  add_string t s = encoded s (lib.encode_text_string t s.encoder)

  abbrev pub add_double : ℕ → CborSerializer E → CborSerializer E
  add_double t s = encoded s (lib.encode_double t s.encoder)

  abbrev pub add_bytes : List ℕ → CborSerializer E → CborSerializer E
  add_bytes t s = if s.err == 0 then encoded s (lib.encode_byte_string t s.encoder) else s

  abbrev pub begin_array : CborSerializer E → CborSerializer E
  begin_array s = encoded s (lib.create_array (lib.encoder_init s.capacity))

  abbrev pub sized : CborSerializer E → CborSerializer E
  sized s = record s { size = lib.buffer_size s.encoder }

  abbrev pub end_array : CborSerializer E → CborSerializer E
  end_array s = sized (if s.err == 0 then encoded s (lib.close_container s.encoder) else s)

  abbrev pub is_encoded : CborSerializer E → Bool
  is_encoded s = s.err == 0

  abbrev pub to_bytes : CborSerializer E → List ℕ
  to_bytes s = take s.size (lib.buffer s.encoder)

  abbrev pub cbor_deserializer : ℕ → List ℕ → ℕ → V → CborDeserializer V
  cbor_deserializer size content₀ err₀ it₀ = record {
    capacity = size;
    content = content₀;
    err = err₀;
    it = it₀;
  }

  abbrev pub from_bytes : List ℕ → CborDeserializer V → CborDeserializer V
  from_bytes bs d = record d {
    content = take (if ltb (length bs) d.capacity then length bs else d.capacity) bs;
  }

  abbrev pub moved : CborDeserializer V → V × ℕ → CborDeserializer V
  moved d (v, err) = record d { it = v; err = err }

  abbrev pub refused : CborDeserializer V → CborDeserializer V
  refused d = record d { err = lib.illegal_type }

  -- `begin`, after `cbor_parser_init`.
  abbrev pub parsed : CborDeserializer V → V × ℕ → CborDeserializer V
  parsed d (root, err) =
      if lib.is_container root then moved d (lib.enter_container root) else refused d

  abbrev pub begin_read : CborDeserializer V → CborDeserializer V
  begin_read d = parsed d (lib.parser_init d.content)

  abbrev pub end_read : CborDeserializer V → CborDeserializer V
  end_read d = d

  abbrev pub is_decoded : CborDeserializer V → Bool
  is_decoded d = d.err == 0

  -- A `get` leaves its argument as it is where it stores no value. It is undefined where the library
  -- does not store the copy of a string that the code then uses.
  abbrev pub copied : CborDeserializer V → Answer (List ℕ) → Option (CborDeserializer V × List ℕ)
  copied d (ok t) = some (moved d (lib.advance d.it), t)
  copied d (error e) = none

  abbrev pub get_bytes : List ℕ → CborDeserializer V → Option (CborDeserializer V × List ℕ)
  get_bytes t d =
      if d.err == 0 && lib.is_byte_string d.it && (lib.calculate_string_length d.it == 0)
      then copied d (lib.dup_byte_string d.it)
      else some (refused d, t)

  abbrev pub get_string : List ℕ → CborDeserializer V → Option (CborDeserializer V × List ℕ)
  get_string t d =
      if d.err == 0 && lib.is_text_string d.it
      then (copied d (lib.dup_text_string d.it) >>= λ r. some (r.0, c_string r.1))
      else some (refused d, t)

  -- The value of a number, and the step behind it if there is one.
  abbrev pub stored {ℓ} :
      {A : Type ℓ} → A → CborDeserializer V → (V → V × ℕ) → Answer A → CborDeserializer V × A
  stored t d step (ok x) = (moved d (step d.it), x)
  stored t d step (error e) = (record d { err = e }, t)

  abbrev pub get_int : ℤ → CborDeserializer V → CborDeserializer V × ℤ
  get_int t d =
      if d.err == 0 && lib.is_integer d.it
      then stored t d lib.advance_fixed (lib.get_int d.it)
      else (refused d, t)

  -- `get(const int &)`, whose value is dropped.
  abbrev pub skip_int : CborDeserializer V → CborDeserializer V
  skip_int d = (get_int (pos 0) d).0

  abbrev pub get_int64 : ℤ → CborDeserializer V → CborDeserializer V × ℤ
  get_int64 t d =
      if d.err == 0 && lib.is_integer d.it
      then stored t d lib.advance (lib.get_int64 d.it)
      else (refused d, t)

  abbrev pub get_uint64 : ℕ → CborDeserializer V → CborDeserializer V × ℕ
  get_uint64 t d =
      if d.err == 0 && lib.is_unsigned_integer d.it
      then stored t d lib.advance_fixed (lib.get_uint64 d.it)
      else (refused d, t)

  abbrev pub get_double : ℕ → CborDeserializer V → CborDeserializer V × ℕ
  get_double t d =
      if d.err == 0 && lib.is_double d.it
      then stored t d lib.advance (lib.get_double d.it)
      else (refused d, t)
