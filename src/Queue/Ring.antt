-- ===== src/Queue/Ring.antt =====
-- common/src/limero.h, the `ArrayQueue` of the Arduino build: a ring of `_size` slots of which one
-- stays free. Interrupts are off from the first statement to the last of `push` and of `pop`, so
-- each is one step. `int` holds every index, since an index is below `_size`.
pub mod Slots
pub mod Refine
pub mod Interface
use broker_proxy.Base.{
  ℕ, ◌+◌, ◌-◌, ◌%◌, ◌≤◌, ◌<◌, ◌≡◌, Bool, true, false, Option, none, some, List, ◌==◌, ltb,
  if◌then◌else◌, length, get_elem?, set,
}

pub record Ring (A : Type 0) : Type 0 where
  pub array : List A
  pub size : ℕ
  pub read_ptr : ℕ
  pub write_ptr : ℕ
  -- `stats.bufferOverflow`
  pub overflow : ℕ

module _ {A : Type 0} where
  -- `next`
  abbrev pub next : Ring A → ℕ → ℕ
  next q idx = (idx + 1) % q.size

  -- A write out of range changes nothing; `Refine.IsValid` rules it out.
  pub push : A → Ring A → Ring A × Bool
  push t q =
      let desired = next q q.write_ptr in
      if desired == q.read_ptr
      then (record q { overflow = q.overflow + 1 }, false)
      else (record q { write_ptr = desired; array = set q.array desired t }, true)

  pub pop : Ring A → Ring A × Option A
  pop q =
      let desired = next q q.read_ptr in
      if q.read_ptr == q.write_ptr
      then (q, none)
      else (record q { read_ptr = desired }, get_elem? q.array desired)

  -- `size()`
  pub used : Ring A → ℕ
  used q =
      if ltb q.read_ptr q.write_ptr
      then q.write_ptr - q.read_ptr
      else q.write_ptr + q.size - q.read_ptr
