-- ===== src/Dump.antt =====
-- common/src/CborDump.cpp, and `hexDump` and `charDump` of linux/src/logger.cpp: how values are
-- printed for the log. The iterators of TinyCBOR and the printing of numbers by the string stream
-- are parameters: what is put into the stream is a list. The recursion over an iterator is on fuel, and
-- `none` is a recursion that has used it up.
pub mod Hex
mod Tests
use broker_proxy.Base.{
  ℕ, zero, suc, ◌+◌, ◌-◌, ◌*◌, ◌/◌, ◌%◌, ◌^◌, ◌≡◌, Bool, true, false, ◌&&◌, Option, none, some,
  List, [], ◌∷◌, ◌++◌, ◌==◌, leb, ltb, if◌then◌else◌, get_or, ◌>>=◌,
}
use broker_proxy.Split.{take}
use broker_proxy.Cbor.{ℤ, pos, negsuc, Answer, ok, error, c_string}

-- "0123456789ABCDEF"
abbrev pub hex_digits : List ℕ
hex_digits = 48 ∷ 49 ∷ 50 ∷ 51 ∷ 52 ∷ 53 ∷ 54 ∷ 55 ∷ 56 ∷ 57 ∷ 65 ∷ 66 ∷ 67 ∷ 68 ∷ 69 ∷ 70 ∷ []

abbrev pub hex_dump : List ℕ → List ℕ → List ℕ
hex_dump spacer [] = []
hex_dump spacer (b ∷ bs) =
    get_or hex_digits (b / 16) 0 ∷ get_or hex_digits (b % 16) 0 ∷ spacer ++ hex_dump spacer bs

-- `isprint` in the C locale
abbrev pub is_print : ℕ → Bool
is_print b = leb 32 b && ltb b 127

abbrev pub char_dump : List ℕ → List ℕ
char_dump [] = []
char_dump (b ∷ bs) =
    (if is_print b
      then b ∷ []
      else if b == 10
      then 92 ∷ 110 ∷ []
      else if b == 13
      then 92 ∷ 114 ∷ []
      else 46 ∷ [])
    ++ char_dump bs

-- `CborType`
pub data CborType : Type 0 where
  array_type map_type integer_type byte_string_type text_string_type tag_type simple_type : CborType
  null_type undefined_type boolean_type half_float_type float_type double_type : CborType
  invalid_type : CborType

-- What is put into the stream: texts, numbers, floating point numbers by their bits, a `uint8_t`, and
-- `etl::hex`, which changes the base of the numbers that follow.
pub data Put : Type 0 where
  text : List ℕ → Put
  unsigned float_bits double_bits small : ℕ → Put
  signed : ℤ → Put
  hex : Put

-- An iterator that has been moved, or the error with which it was not.
pub record CborIterator (V : Type 0) : Type 0 where
  pub at_end : V → Bool
  pub get_type : V → CborType
  pub enter_container : V → Answer V
  pub leave_container : V → V → Answer V
  pub get_raw_integer : V → Answer ℕ
  pub is_unsigned_integer : V → Bool
  pub dup_byte_string : V → Answer (List ℕ × V)
  pub dup_text_string : V → Answer (List ℕ × V)
  pub get_tag : V → Answer ℕ
  pub get_simple_type : V → Answer ℕ
  pub get_boolean : V → Answer Bool
  pub get_half_float : V → Answer ℕ
  pub get_float : V → Answer ℕ
  pub get_double : V → Answer ℕ
  pub advance_fixed : V → Answer V
  pub unknown_type : ℕ

-- `indent`
abbrev pub indent : ℕ → List Put
indent zero = []
indent (suc n) = text (32 ∷ []) ∷ indent n

-- The texts "Array[", "]", "Map{", "}", "h'", "'", "Tag(", ")", "simple(", "null", "undefined",
-- "true", "false" and "__f16(".
abbrev pub array_open : List ℕ
array_open = 65 ∷ 114 ∷ 114 ∷ 97 ∷ 121 ∷ 91 ∷ []

abbrev pub map_open : List ℕ
map_open = 77 ∷ 97 ∷ 112 ∷ 123 ∷ []

abbrev pub tag_open : List ℕ
tag_open = 84 ∷ 97 ∷ 103 ∷ 40 ∷ []

abbrev pub simple_open : List ℕ
simple_open = 115 ∷ 105 ∷ 109 ∷ 112 ∷ 108 ∷ 101 ∷ 40 ∷ []

abbrev pub null_text : List ℕ
null_text = 110 ∷ 117 ∷ 108 ∷ 108 ∷ []

abbrev pub undefined_text : List ℕ
undefined_text = 117 ∷ 110 ∷ 100 ∷ 101 ∷ 102 ∷ 105 ∷ 110 ∷ 101 ∷ 100 ∷ []

abbrev pub true_text : List ℕ
true_text = 116 ∷ 114 ∷ 117 ∷ 101 ∷ []

abbrev pub false_text : List ℕ
false_text = 102 ∷ 97 ∷ 108 ∷ 115 ∷ 101 ∷ []

abbrev pub half_open : List ℕ
half_open = 95 ∷ 95 ∷ 102 ∷ 49 ∷ 54 ∷ 40 ∷ []

-- What was put so far, and the iterator at the end of the container or an error.
abbrev pub Dumped : Type 0 → Type 0
Dumped V = List Put × Answer V

module _ {V : Type 0} (lib : CborIterator V) where
  -- A negative number is stored as the -1 - X of it; `++val` wraps in 64 bits.
  abbrev pub integer_text : Bool → ℕ → List Put
  integer_text true val = unsigned val ∷ []
  integer_text false val =
      if (val + 1) % 2 ^ 64 == 0
      then signed (negsuc 1234567890123455) ∷ []
      else signed
          (if ltb (val + 1) (2 ^ 63) then pos (val + 1) else negsuc (2 ^ 64 - (val + 1) - 1))
        ∷ []

  -- A value that takes the text and the step to the next: `break`, or `continue`, which the value
  -- of a string has already stepped behind.
  abbrev pub step_behind :
      (V → List Put → Option (Dumped V)) → List Put → Answer V → Option (Dumped V)
  step_behind next out (ok it) = next it out
  step_behind next out (error e) = some (out, error e)

  abbrev pub break_with :
      (V → List Put → Option (Dumped V)) → V → List Put → List Put → Option (Dumped V)
  break_with next it out value = step_behind next (out ++ value) (lib.advance_fixed it)

  -- A value that was read, if it was.
  abbrev pub print_read {ℓ} :
      {A : Type ℓ}
      → (V → List Put → Option (Dumped V))
      → V
      → List Put
      → (A → List Put)
      → Answer A
      → Option (Dumped V)
  print_read next it out text_of (ok a) = break_with next it out (text_of a)
  print_read next it out text_of (error e) = some (out, error e)

  abbrev pub print_string :
      (V → List Put → Option (Dumped V))
      → List Put
      → (List ℕ → List Put)
      → Answer (List ℕ × V)
      → Option (Dumped V)
  print_string next out text_of (ok (s, it)) = next it (out ++ text_of s)
  print_string next out text_of (error e) = some (out, error e)

  -- A container behind its opening: the recursive call, and the closing.
  abbrev pub close_with :
      (V → List Put → Option (Dumped V)) → V → List Put → Dumped V → Option (Dumped V)
  close_with next it closing (out, error e) = some (out, error e)
  close_with next it closing (out, ok inner) = elim (lib.leave_container it inner) [
    | error e ↦ some (out, error e)
    | ok it' ↦ next it' (out ++ closing)
  ]

  abbrev pub print_container :
      (V → List Put → Option (Dumped V))
      → (V → List Put → Option (Dumped V))
      → V
      → List Put
      → List Put
      → Answer V
      → Option (Dumped V)
  print_container recurse next it out closing (error e) = some (out, error e)
  print_container recurse next it out closing (ok inner) =
      recurse inner out >>= close_with next it closing

  -- The switch over the type of the value, in front of which `out` stands.
  abbrev pub print_value :
      (V → List Put → Option (Dumped V))
      → (V → List Put → Option (Dumped V))
      → ℕ
      → V
      → List Put
      → CborType
      → Option (Dumped V)
  print_value recurse next level it out array_type =
      print_container recurse next it (out ++ text array_open ∷ [])
        (indent level ++ text (93 ∷ []) ∷ []) (lib.enter_container it)
  print_value recurse next level it out map_type =
      print_container recurse next it (out ++ text map_open ∷ [])
        (indent level ++ text (125 ∷ []) ∷ []) (lib.enter_container it)
  print_value recurse next level it out integer_type =
      print_read next it out (integer_text (lib.is_unsigned_integer it)) (lib.get_raw_integer it)
  print_value recurse next level it out byte_string_type =
      print_string next out
        (λ s. text (104 ∷ 39 ∷ []) ∷ text (hex_dump (32 ∷ []) s) ∷ text (39 ∷ []) ∷ [])
        (lib.dup_byte_string it)
  print_value recurse next level it out text_string_type =
      print_string next out (λ s. text (39 ∷ []) ∷ text (c_string s) ∷ text (39 ∷ []) ∷ [])
        (lib.dup_text_string it)
  print_value recurse next level it out tag_type =
      print_read next it out (λ t. text tag_open ∷ unsigned t ∷ text (41 ∷ []) ∷ [])
        (lib.get_tag it)
  print_value recurse next level it out simple_type =
      print_read next it out (λ t. text simple_open ∷ small t ∷ text (41 ∷ []) ∷ [])
        (lib.get_simple_type it)
  print_value recurse next level it out null_type = break_with next it out (text null_text ∷ [])
  print_value recurse next level it out undefined_type =
      break_with next it out (text undefined_text ∷ [])
  print_value recurse next level it out boolean_type =
      print_read next it out (λ b. text (if b then true_text else false_text) ∷ [])
        (lib.get_boolean it)
  print_value recurse next level it out half_float_type =
      print_read next it out (λ v. text half_open ∷ hex ∷ unsigned v ∷ text (41 ∷ []) ∷ [])
        (lib.get_half_float it)
  print_value recurse next level it out float_type =
      print_read next it out (λ v. float_bits v ∷ []) (lib.get_float it)
  print_value recurse next level it out double_type =
      print_read next it out (λ v. double_bits v ∷ text (44 ∷ []) ∷ []) (lib.get_double it)
  print_value recurse next level it out invalid_type = some (out, error lib.unknown_type)

  -- The loop of `dumpCborRecursive`.
  abbrev pub dump : ℕ → ℕ → Bool → V → List Put → Option (Dumped V)
  dump zero level first it out = none
  dump (suc fuel) level first it out =
      if lib.at_end it
      then some (out, ok it)
      else print_value (dump fuel (suc level) true) (dump fuel level false) level it
          (out ++ indent level ++ (if first then [] else text (44 ∷ []) ∷ [])) (lib.get_type it)

  -- `cborDump`, whose result is not looked at.
  unfoldable pub cbor_dump : ℕ → V → Option (List Put)
  cbor_dump fuel it = dump fuel 0 true it [] >>= λ r. some r.0
