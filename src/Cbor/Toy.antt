-- ===== src/Cbor/Toy.antt =====
-- A small encoding that keeps the contract of common/src/CborSerializer.cpp and
-- CborDeserializer.cpp with TinyCBOR, on which their theorems can be run. A value is a byte for its
-- type and its characters, each as that many bytes 1 and a byte 2, with a byte 0 at the end.
use broker_proxy.Base.{
  All-append, if◌then◌else◌, ℕ, zero, suc, ◌≤◌, ◌≡◌, ◌≢◌, refl, sym, ap, ◌∙◌, true, List, [], ◌∷◌,
  ◌++◌, ◌==◌, length, length-append, IsBytes, IsByte, append_assoc, append-nil, arith,
}
use broker_proxy.Split.{take}
use broker_proxy.Cbor.{ℤ, pos, negsuc, Answer, ok, error, TinyCbor}
use broker_proxy.Cbor.Contract.{Item, int, uint, text, double, blob, encode_item, Contract}

abbrev pub write_char : ℕ → List ℕ → List ℕ
write_char zero rest = 2 ∷ rest
write_char (suc n) rest = 1 ∷ write_char n rest

abbrev pub write_chars : List ℕ → List ℕ
write_chars [] = 0 ∷ []
write_chars (c ∷ cs) = write_char c (write_chars cs)

abbrev pub type_of : Item → ℕ
type_of (int (pos n)) = 1
type_of (int (negsuc n)) = 2
type_of (uint n) = 3
type_of (text t) = 4
type_of (double n) = 5
type_of (blob t) = 6

abbrev pub chars_of : Item → List ℕ
chars_of (int (pos n)) = n ∷ []
chars_of (int (negsuc n)) = n ∷ []
chars_of (uint n) = n ∷ []
chars_of (text t) = t
chars_of (double n) = n ∷ []
chars_of (blob t) = t

abbrev pub write_item : Item → List ℕ
write_item i = type_of i ∷ write_chars (chars_of i)

abbrev pub write_items : List Item → List ℕ
write_items [] = []
write_items (i ∷ is) = write_item i ++ write_items is

-- The first character is one more.
abbrev pub bump : List ℕ → List ℕ
bump [] = []
bump (c ∷ cs) = suc c ∷ cs

abbrev pub read_chars : List ℕ → List ℕ × List ℕ
read_chars [] = ([], [])
read_chars (zero ∷ bs) = ([], bs)
read_chars (suc zero ∷ bs) = let r = read_chars bs in (bump r.0, r.1)
read_chars (suc (suc n) ∷ bs) = let r = read_chars bs in (zero ∷ r.0, r.1)

read_char :
    (n : ℕ) (rest cs more : List ℕ)
    → read_chars rest ≡ (cs, more)
    → read_chars (write_char n rest) ≡ (n ∷ cs, more)
read_char zero rest cs more e = rw e refl
read_char (suc n) rest cs more e = rw (read_char n rest cs more e) refl

write_char-append :
    (n : ℕ) (rest more : List ℕ) → write_char n rest ++ more ≡ write_char n (rest ++ more)
write_char-append zero rest more = refl
write_char-append (suc n) rest more = ap (◌∷◌ 1) (write_char-append n rest more)

read_chars-write_chars : (cs more : List ℕ) → read_chars (write_chars cs ++ more) ≡ (cs, more)
read_chars-write_chars [] more = refl
read_chars-write_chars (c ∷ cs) more =
    ap read_chars (write_char-append c (write_chars cs) more)
    ∙ read_char c (write_chars cs ++ more) cs more (read_chars-write_chars cs more)

write_items-append : (is js : List Item) → write_items (is ++ js) ≡ write_items is ++ write_items js
write_items-append [] js = refl
write_items-append (i ∷ is) js =
    ap (◌++◌ (write_item i)) (write_items-append is js)
    ∙ sym (append_assoc (write_item i) (write_items is) (write_items js))

write_char-IsBytes : (n : ℕ) (rest : List ℕ) → IsBytes rest → IsBytes (write_char n rest)
write_char-IsBytes zero rest h = (omega arith, h)
write_char-IsBytes (suc n) rest h = (omega arith, write_char-IsBytes n rest h)

write_chars-IsBytes : (cs : List ℕ) → IsBytes (write_chars cs)
write_chars-IsBytes [] = (omega arith, tt)
write_chars-IsBytes (c ∷ cs) = write_char-IsBytes c (write_chars cs) (write_chars-IsBytes cs)

type_of-IsByte : (i : Item) → IsByte (type_of i)
type_of-IsByte (int (pos n)) = omega arith
type_of-IsByte (int (negsuc n)) = omega arith
type_of-IsByte (uint n) = omega arith
type_of-IsByte (text t) = omega arith
type_of-IsByte (double n) = omega arith
type_of-IsByte (blob t) = omega arith

pub write_items-IsBytes : (is : List Item) → IsBytes (write_items is)
write_items-IsBytes [] = tt
write_items-IsBytes (i ∷ is) = (
  type_of-IsByte i,
  All-append IsByte (write_chars (chars_of i)) (write_items is) (write_chars-IsBytes (chars_of i))
      (write_items-IsBytes is),
)

-- The type and the characters of the value in front, and what is behind it.
abbrev pub head_type : List ℕ → ℕ
head_type [] = 0
head_type (b ∷ bs) = b

abbrev pub head_chars : List ℕ → List ℕ
head_chars [] = []
head_chars (b ∷ bs) = (read_chars bs).0

abbrev pub behind : List ℕ → List ℕ
behind [] = []
behind (b ∷ bs) = (read_chars bs).1

abbrev pub first_number : List ℕ → Answer ℕ
first_number [] = error 1
first_number (n ∷ ns) = ok n

abbrev pub signed : ℕ → Answer ℕ → Answer ℤ
signed type (error e) = error e
signed type (ok n) = if type == 2 then ok (negsuc n) else ok (pos n)

abbrev pub toy : TinyCbor (List ℕ) (List ℕ)
toy = record {
  encoder_init = λ n. [];
  create_array = λ e. (9 ∷ [], 0);
  encode_int = λ t e. (e ++ write_item (int t), 0);
  encode_uint = λ t e. (e ++ write_item (uint t), 0);
  encode_text_string = λ t e. (e ++ write_item (text t), 0);
  encode_double = λ t e. (e ++ write_item (double t), 0);
  encode_byte_string = λ t e. (e ++ write_item (blob t), 0);
  close_container = λ e. (e, 0);
  buffer_size = λ e. length e;
  buffer = λ e. e;
  illegal_type = 1;
  parser_init = λ bs. (bs, 0);
  is_container = λ v. head_type v == 9;
  enter_container = λ v. elim v [ [] ↦ ([], 0) | b ∷ bs ↦ (bs, 0) ];
  is_byte_string = λ v. head_type v == 6;
  is_text_string = λ v. head_type v == 4;
  is_integer =
      λ v. if head_type v == 1 then true else if head_type v == 2 then true else head_type v == 3;
  is_unsigned_integer = λ v. head_type v == 3;
  is_double = λ v. head_type v == 5;
  calculate_string_length = λ v. 0;
  dup_byte_string = λ v. ok (head_chars v);
  dup_text_string = λ v. ok (head_chars v);
  get_int = λ v. signed (head_type v) (first_number (head_chars v));
  get_int64 = λ v. signed (head_type v) (first_number (head_chars v));
  get_uint64 = λ v. first_number (head_chars v);
  get_double = λ v. first_number (head_chars v);
  advance = λ v. (behind v, 0);
  advance_fixed = λ v. (behind v, 0);
}

pub read-item :
    (i : Item) (v : List ℕ) (is : List Item)
    → v ≡ write_items (i ∷ is)
    → (head_type v ≡ type_of i) × (head_chars v ≡ chars_of i) × (behind v ≡ write_items is)
read-item i v is e =
    let r = read_chars-write_chars (chars_of i) (write_items is) in
    (ap head_type e, ap head_chars e ∙ ap (λ x. x.0) r, ap behind e ∙ ap (λ x. x.1) r)

pub encode_item_lem : (i : Item) (e : List ℕ) → encode_item toy i e ≡ (e ++ write_item i, 0)
encode_item_lem (int t) e = refl
encode_item_lem (uint t) e = refl
encode_item_lem (text t) e = refl
encode_item_lem (double t) e = refl
encode_item_lem (blob t) e = refl

pub write_items-snoc :
    (items : List Item) (i : Item)
    → write_items items ++ write_item i ≡ write_items (items ++ i ∷ [])
write_items-snoc items i =
    sym (
      write_items-append items (i ∷ []) ∙ ap (◌++◌ (write_items items)) (append-nil (write_item i)))

pub take-whole : (xs : List ℕ) → take (length xs) xs ≡ xs
take-whole [] = refl
take-whole (x ∷ xs) = ap (◌∷◌ x) (take-whole xs)

pub not_empty : (items : List Item) → (9 ∷ write_items items) ≢ []
not_empty items e = absurd (cc)

pub longer_lem :
    (items : List Item) (i : Item)
    → length (9 ∷ write_items items) ≤ length (9 ∷ write_items (items ++ i ∷ []))
longer_lem items i =
    rw (← write_items-snoc items i)
      (omega (arith, length-append (write_items items) (write_item i)))

abbrev pub toy-Contract : Contract toy
toy-Contract = record {
  encoding = λ items. 9 ∷ write_items items;
  Holds = λ e n items. e ≡ 9 ∷ write_items items;
  IsAt = λ v items. v ≡ write_items items;
  illegal = λ e. absurd (omega arith);
  are_bytes = λ items. ((omega arith, write_items-IsBytes items), not_empty items);
  create = λ n room. (refl, refl);
  encode = λ i e n items h room. (
    ap (λ r. r.1) (encode_item_lem i e),
    ap (λ r. r.0) (encode_item_lem i e)
        ∙ ap (λ x. x ++ write_item i) h
        ∙ ap (◌∷◌ 9) (write_items-snoc items i),
  );
  close = λ e n items h room. (refl, take-whole e ∙ h);
  longer = λ i items. longer_lem items i;
  parse = λ items. (refl, refl, refl);
  at_int = λ n v items small h.
      let r = read-item (int (pos n)) v items h in (rw r.0 refl, rw (r.0, r.1) refl, refl, r.2);
  at_uint = λ n v items small h.
      let r = read-item (uint n) v items h in (rw r.0 refl, rw r.1 refl, refl, r.2);
  at_int64 = λ n v items small h.
      let r = read-item (uint n) v items h in
      (rw r.0 refl, rw r.0 refl, rw r.0 refl, rw (r.0, r.1) refl, refl, r.2);
  at_text =
      λ t v items h. let r = read-item (text t) v items h in (rw r.0 refl, rw r.1 refl, refl, r.2);
  at_blob = λ t v items h.
      let r = read-item (blob t) v items h in (rw r.0 refl, refl, rw r.1 refl, refl, r.2);
  at_end = λ v h. rw h refl;
}
