-- ===== src/Cbor/Read.antt =====
-- common/src/CborDeserializer.cpp: what it reads of an array that was encoded.
use broker_proxy.Base.{
  ℕ, ◌≤◌, ◌<◌, ◌^◌, ◌≡◌, ◌≢◌, refl, sym, ap, true, some, List, [], ◌∷◌, ltb, if◌then◌else◌, length,
  ==_of_ne, All, Bool-cases, inl, inr, le_of_ltb, arith,
}
use mathlib.Core.Path.{subst}
use broker_proxy.Split.{take}
use broker_proxy.Cbor.{
  ℤ, pos, TinyCbor, CborDeserializer, from_bytes, moved, refused, parsed, begin_read, c_string,
  get_bytes, get_string, get_int, get_int64, get_uint64, get_double,
}
use broker_proxy.Cbor.Contract.{Item, int, uint, text, blob, Contract}

take-all : (xs : List ℕ) → take (length xs) xs ≡ xs
take-all [] = refl
take-all (x ∷ xs) = ap (◌∷◌ x) (take-all xs)

take-shorter :
    (xs : List ℕ) (n : ℕ)
    → length xs ≤ n
    → take (if ltb (length xs) n then length xs else n) xs ≡ xs
take-shorter xs n h = elim (Bool-cases (ltb (length xs) n)) [
  | inl e ↦ rw e (take-all xs)
  | inr e ↦ rw e (rw (← same (le_of_ltb (length xs) n e)) (take-all xs))
]
  where
    same : n ≤ length xs → length xs ≡ n
    same k = omega arith

pub c_string-same : (t : List ℕ) → All (λ c. c ≢ 0) t → c_string t ≡ t
c_string-same [] h = refl
c_string-same (c ∷ cs) h = rw (==_of_ne c 0 h.0, c_string-same cs h.1) refl

module _ {E V : Type 0} (lib : TinyCbor E V) (c : Contract lib) where
  abbrev pub IsReading : ℕ → CborDeserializer V → List Item → Type 0
  IsReading n d items = (d.capacity ≡ n) × (d.err ≡ 0) × c.IsAt d.it items

  moved-IsReading :
      (n : ℕ) (d : CborDeserializer V) (r : V × ℕ) (items : List Item)
      → d.capacity ≡ n
      → (r.1 ≡ 0) × c.IsAt r.0 items
      → IsReading n (moved lib d r) items
  moved-IsReading n d (v, err) items room h = (room, h.0, h.1)

  pub begin_read-IsReading :
      (n : ℕ) (items : List Item) (d : CborDeserializer V)
      → d.capacity ≡ n
      → length (c.encoding items) ≤ n
      → IsReading n (begin_read lib (from_bytes lib (c.encoding items) d)) items
  begin_read-IsReading n items d same room =
      subst (λ bs. IsReading n (parsed lib (record d { content = bs }) (lib.parser_init bs)) items)
        (sym (take-shorter (c.encoding items) d.capacity (rw same room)))
        (enter (lib.parser_init (c.encoding items)) (c.parse items))
    where
      enter :
          (r : V × ℕ)
          → (lib.is_container r.0 ≡ true)
            × ((lib.enter_container r.0).1 ≡ 0)
            × c.IsAt (lib.enter_container r.0).0 items
          → IsReading n (parsed lib (record d { content = c.encoding items }) r) items
      enter (v, err) h = rw h.0 (same, h.1, h.2)

  pub get_int-IsReading :
      (n k : ℕ) (t : ℤ) (items : List Item) (d : CborDeserializer V)
      → k < 2 ^ 31
      → IsReading n d (int (pos k) ∷ items)
      → (d' : CborDeserializer V) × (get_int lib t d ≡ (d', pos k)) × IsReading n d' items
  get_int-IsReading n k t items d small h =
      let r = c.at_int k d.it items small h.2 in
      (
        moved lib d (lib.advance_fixed d.it),
        rw (h.1, r.0, r.1) refl,
        moved-IsReading n d (lib.advance_fixed d.it) items h.0 (r.2, r.3),
      )

  pub get_uint64-IsReading :
      (n k t : ℕ) (items : List Item) (d : CborDeserializer V)
      → k < 2 ^ 64
      → IsReading n d (uint k ∷ items)
      → (d' : CborDeserializer V) × (get_uint64 lib t d ≡ (d', k)) × IsReading n d' items
  get_uint64-IsReading n k t items d small h =
      let r = c.at_uint k d.it items small h.2 in
      (
        moved lib d (lib.advance_fixed d.it),
        rw (h.1, r.0, r.1) refl,
        moved-IsReading n d (lib.advance_fixed d.it) items h.0 (r.2, r.3),
      )

  pub get_int64-IsReading :
      (n k : ℕ) (t : ℤ) (items : List Item) (d : CborDeserializer V)
      → k < 2 ^ 63
      → IsReading n d (uint k ∷ items)
      → (d' : CborDeserializer V) × (get_int64 lib t d ≡ (d', pos k)) × IsReading n d' items
  get_int64-IsReading n k t items d small h =
      let r = c.at_int64 k d.it items small h.2 in
      (
        moved lib d (lib.advance d.it),
        rw (h.1, r.2, r.3) refl,
        moved-IsReading n d (lib.advance d.it) items h.0 (r.4, r.5),
      )

  -- An unsigned number is neither a double nor a text.
  pub get_double-of_uint :
      (n k t : ℕ) (items : List Item) (d : CborDeserializer V)
      → k < 2 ^ 63
      → IsReading n d (uint k ∷ items)
      → get_double lib t d ≡ (refused lib d, t)
  get_double-of_uint n k t items d small h =
      let r = c.at_int64 k d.it items small h.2 in rw (h.1, r.0) refl

  pub get_string-of_uint :
      (n k : ℕ) (t : List ℕ) (items : List Item) (d : CborDeserializer V)
      → k < 2 ^ 63
      → IsReading n d (uint k ∷ items)
      → get_string lib t d ≡ some (refused lib d, t)
  get_string-of_uint n k t items d small h =
      let r = c.at_int64 k d.it items small h.2 in rw (h.1, r.1) refl

  pub get_string-IsReading :
      (n : ℕ) (s t : List ℕ) (items : List Item) (d : CborDeserializer V)
      → All (λ x. x ≢ 0) s
      → IsReading n d (text s ∷ items)
      → (d' : CborDeserializer V) × (get_string lib t d ≡ some (d', s)) × IsReading n d' items
  get_string-IsReading n s t items d nul h =
      let r = c.at_text s d.it items h.2 in
      (
        moved lib d (lib.advance d.it),
        rw (h.1, r.0, r.1) (rw (c_string-same s nul) refl),
        moved-IsReading n d (lib.advance d.it) items h.0 (r.2, r.3),
      )

  pub get_bytes-IsReading :
      (n : ℕ) (s t : List ℕ) (items : List Item) (d : CborDeserializer V)
      → IsReading n d (blob s ∷ items)
      → (d' : CborDeserializer V) × (get_bytes lib t d ≡ some (d', s)) × IsReading n d' items
  get_bytes-IsReading n s t items d h =
      let r = c.at_blob s d.it items h.2 in
      (
        moved lib d (lib.advance d.it),
        rw (h.1, r.0, r.1, r.2) refl,
        moved-IsReading n d (lib.advance d.it) items h.0 (r.3, r.4),
      )

  pub get_bytes-at_end :
      (n : ℕ) (t : List ℕ) (d : CborDeserializer V)
      → IsReading n d []
      → get_bytes lib t d ≡ some (refused lib d, t)
  get_bytes-at_end n t d h = rw (h.1, c.at_end d.it h.2) refl
