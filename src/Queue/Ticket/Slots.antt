-- ===== src/Queue/Ticket/Slots.antt =====
-- Tickets that share a slot are far apart.
use native.Mathlib.Nat.{div-add-mod}
use broker_proxy.Base.{ℕ, suc, ◌+◌, ◌%◌, ◌≤◌, ◌<◌, ◌≡◌, ◌≢◌, arith}

module _ (cap : ℕ) where
  pub slot_gap : (a b : ℕ) → a % cap ≡ b % cap → a < b → a + cap ≤ b
  slot_gap a b e h = grind (arith, div-add-mod a cap, div-add-mod b cap)

  -- The slots of neighbours differ if there are two slots at least.
  pub slot_ne_suc : (a : ℕ) → 2 ≤ cap → a % cap ≢ suc a % cap
  slot_ne_suc a h e = absurd (omega (arith, slot_gap a (suc a) e (omega arith)))
