-- ===== src/Dump/Tests.antt =====
-- What is printed of a few values, which are their own iterators.
use broker_proxy.Base.{ℕ, zero, suc, ◌≡◌, refl, Bool, true, false, some, List, [], ◌∷◌, ◌==◌}
use broker_proxy.Cbor.{ok, error}
use broker_proxy.Dump.{
  CborType, array_type, integer_type, invalid_type, text, unsigned, CborIterator, cbor_dump,
  char_dump, array_open,
}

char_dump_line : char_dump (72 ∷ 105 ∷ 10 ∷ 1 ∷ []) ≡ 72 ∷ 105 ∷ 92 ∷ 110 ∷ 46 ∷ []
char_dump_line = refl

-- A flat list: 0 opens an array, 1 closes it, and another number is itself.
abbrev type_at : List ℕ → CborType
type_at [] = invalid_type
type_at (zero ∷ v) = array_type
type_at (suc n ∷ v) = integer_type

abbrev ends : List ℕ → Bool
ends [] = true
ends (zero ∷ v) = false
ends (suc n ∷ v) = n == 0

abbrev tail_of : List ℕ → List ℕ
tail_of [] = []
tail_of (n ∷ v) = v

abbrev head_of : List ℕ → ℕ
head_of [] = 0
head_of (n ∷ v) = n

abbrev flat : CborIterator (List ℕ)
flat = record {
  at_end = ends;
  get_type = type_at;
  enter_container = λ v. ok (tail_of v);
  leave_container = λ v inner. ok (tail_of inner);
  get_raw_integer = λ v. ok (head_of v);
  is_unsigned_integer = λ v. true;
  dup_byte_string = λ v. error 1;
  dup_text_string = λ v. error 1;
  get_tag = λ v. error 1;
  get_simple_type = λ v. error 1;
  get_boolean = λ v. error 1;
  get_half_float = λ v. error 1;
  get_float = λ v. error 1;
  get_double = λ v. error 1;
  advance_fixed = λ v. ok (tail_of v);
  unknown_type = 2;
}

-- "Array[ 7 ,8]": the space of the level stands in front of the comma.
dump_nested :
    cbor_dump flat 6 (0 ∷ 7 ∷ 8 ∷ 1 ∷ [])
    ≡ some (
        text array_open
        ∷ text (32 ∷ [])
        ∷ unsigned 7
        ∷ text (32 ∷ [])
        ∷ text (44 ∷ [])
        ∷ unsigned 8
        ∷ text (93 ∷ [])
        ∷ [])
unfolding cbor_dump
dump_nested = refl
