-- ===== src/Queue/Ring/Refine.antt =====
-- The ring of the Arduino build holds at most `_size - 1` items, first in, first out.
use broker_proxy.Base.{
  ℕ, suc, ◌+◌, ◌-◌, ◌<◌, ◌≡◌, ◌↔◌, inl, inr, refl, true, false, List, ◌==◌, leb, if◌then◌else◌,
  length, length-set, Bool-cases, ltb_of_le, ltb_of_lt, arith,
}
use broker_proxy.Queue.Fifo.{push_spec, pop_spec}
use broker_proxy.Queue.Ring.{Ring, next, push, pop, used}
use broker_proxy.Queue.Ring.Slots.{next_cases, IsNext, slots, get_elem?-lt, length-slots, slots-set}

module _ {A : Type 0} where
  pub record IsValid (q : Ring A) : Type 0 where
    pub slots_fit : length q.array ≡ q.size
    pub read_in : q.read_ptr < q.size
    pub write_in : q.write_ptr < q.size

  -- How many items stand behind the read pointer.
  abbrev pub count : Ring A → ℕ
  count q =
      if leb q.read_ptr q.write_ptr
      then q.write_ptr - q.read_ptr
      else q.write_ptr + q.size - q.read_ptr

  abbrev pub items : Ring A → List A
  items q = slots q.size q.array q.read_ptr (count q)

  pub length-items : (q : Ring A) → IsValid q → length (items q) ≡ count q
  length-items q v = length-slots q.size q.array q.read_ptr (count q) v.slots_fit (omega arith)

  -- The ring is full exactly if the next write index is the read index.
  pub full_iff :
      (q : Ring A)
      → IsValid q
      → ((next q q.write_ptr == q.read_ptr) ≡ true) ↔ (suc (count q) ≡ q.size)
  full_iff q v = ground (arith, next_cases q.write_ptr q.size v.write_in)

  pub push-IsValid : (x : A) (q : Ring A) → IsValid q → IsValid (push x q).0
  unfolding push
  push-IsValid x q v =
      ground
        (arith, next_cases q.write_ptr q.size v.write_in, length-set q.array (next q q.write_ptr) x)

  pub pop-IsValid : (q : Ring A) → IsValid q → IsValid (pop q).0
  unfolding pop
  pop-IsValid q v = ground (arith, next_cases q.read_ptr q.size v.read_in)

  -- With room, one more item stands behind the read index.
  count-push :
      (q : Ring A)
      → IsValid q
      → (next q q.write_ptr == q.read_ptr) ≡ false
      → (suc (count q) < q.size)
        × IsNext q.size q.read_ptr (count q) (next q q.write_ptr)
        × (count (record q { write_ptr = next q q.write_ptr }) ≡ suc (count q))
  count-push q v room = (
    ground (arith, next_cases q.write_ptr q.size v.write_in),
    ground (arith, next_cases q.write_ptr q.size v.write_in),
    ground (arith, next_cases q.write_ptr q.size v.write_in),
  )

  -- `push` succeeds exactly if fewer than `_size - 1` items are in the ring; it then puts the item
  -- behind them, and otherwise leaves them as they are.
  pub push_refines :
      (x : A) (q : Ring A)
      → IsValid q
      → (items (push x q).0, (push x q).1) ≡ push_spec (q.size - 1) x (items q)
  unfolding push push_spec
  push_refines x q v = elim (Bool-cases (next q q.write_ptr == q.read_ptr)) [
    | inl full ↦ rw full (
        rw
          (
            length-items q v,
            ltb_of_le (count q) (q.size - 1) (omega (arith, (full_iff q v).0 full)),
          )
          refl)
    | inr room ↦
        let (below, at, grown) = count-push q v room in
        rw
          (
            room,
            length-items q v,
            ltb_of_lt (count q) (q.size - 1) (omega arith),
            grown,
            slots-set q.size q.array x (count q) q.read_ptr (next q q.write_ptr) v.slots_fit
                v.read_in below at,
          )
          refl
  ]

  -- `pop` takes the oldest item, and fails exactly if there is none.
  pub pop_refines : (q : Ring A) → IsValid q → (items (pop q).0, (pop q).1) ≡ pop_spec (items q)
  unfolding pop pop_spec
  pop_refines q v = elim (Bool-cases (q.read_ptr == q.write_ptr)) [
    | inl empty ↦ let none_left : count q ≡ 0 = ground arith in rw (empty, none_left)
    | inr some_left ↦
        let one_more : count q ≡ suc (count (record q { read_ptr = next q q.read_ptr })) =
          ground (arith, next_cases q.read_ptr q.size v.read_in) in
        let (x, found) =
          get_elem?-lt q.array (next q q.read_ptr)
            (ground (arith, next_cases q.read_ptr q.size v.read_in)) in
        rw (some_left, one_more, found)
  ]

  -- `size()` is the number of items, except that of an empty ring it is `_size`.
  pub used_lem :
      (q : Ring A)
      → IsValid q
      → used q ≡ (if length (items q) == 0 then q.size else length (items q))
  unfolding used
  used_lem q v = rw (length-items q v) (ground arith)
