-- ===== src/Queue/Fifo.antt =====
-- A bounded FIFO: the interface between the queues and the flows that use them.
use broker_proxy.Base.{
  ℕ, ◌≡◌, refl, ap, ◌∙◌, Bool, true, false, Option, none, some, List, [], ◌∷◌, ◌++◌, ltb,
  if◌then◌else◌, length,
}

-- What `push` promises of a queue that holds `xs` and can hold `cap` items.
unfoldable pub push_spec {ℓ} : {A : Type ℓ} → ℕ → A → List A → List A × Bool
push_spec cap x xs = if ltb (length xs) cap then (xs ++ x ∷ [], true) else (xs, false)

-- What `pop` promises.
unfoldable pub pop_spec {ℓ} : {A : Type ℓ} → List A → List A × Option A
pop_spec [] = ([], none)
pop_spec (x ∷ xs) = (xs, some x)

-- A queue of items of type `A`: operations on states, the items that a state holds, and the laws.
-- `push` and `pop` return whether they succeed, and `pop` the item that goes through `t`.
pub record Fifo (A : Type 0) : Type 1 where
  pub State : Type 0
  pub IsValid : State → Type 0
  pub limit : State → ℕ
  pub items : State → List A
  pub push : A → State → State × Bool
  pub pop : State → State × Option A
  pub push_valid : (x : A) (q : State) → IsValid q → IsValid (push x q).0
  pub push_limit : (x : A) (q : State) → IsValid q → limit (push x q).0 ≡ limit q
  pub push_items :
      (x : A) (q : State)
      → IsValid q
      → (items (push x q).0, (push x q).1) ≡ push_spec (limit q) x (items q)
  pub pop_valid : (q : State) → IsValid q → IsValid (pop q).0
  pub pop_limit : (q : State) → IsValid q → limit (pop q).0 ≡ limit q
  pub pop_items : (q : State) → IsValid q → (items (pop q).0, (pop q).1) ≡ pop_spec (items q)

module _ {A : Type 0} (fifo : Fifo A) where
  -- With room, `push` puts the item at the end; without, it fails and keeps the items.
  pub push_room :
      (x : A) (q : fifo.State)
      → fifo.IsValid q
      → ltb (length (fifo.items q)) (fifo.limit q) ≡ true
      → (fifo.items (fifo.push x q).0 ≡ fifo.items q ++ x ∷ []) × ((fifo.push x q).1 ≡ true)
  unfolding push_spec
  push_room x q v room = (
    ap (λ p. p.0) (fifo.push_items x q v) ∙ rw room refl,
    ap (λ p. p.1) (fifo.push_items x q v) ∙ rw room refl,
  )

  pub push_full :
      (x : A) (q : fifo.State)
      → fifo.IsValid q
      → ltb (length (fifo.items q)) (fifo.limit q) ≡ false
      → (fifo.items (fifo.push x q).0 ≡ fifo.items q) × ((fifo.push x q).1 ≡ false)
  unfolding push_spec
  push_full x q v full = (
    ap (λ p. p.0) (fifo.push_items x q v) ∙ rw full refl,
    ap (λ p. p.1) (fifo.push_items x q v) ∙ rw full refl,
  )

  pub pop_some :
      (x : A) (xs : List A) (q : fifo.State)
      → fifo.IsValid q
      → fifo.items q ≡ x ∷ xs
      → (fifo.items (fifo.pop q).0 ≡ xs) × ((fifo.pop q).1 ≡ some x)
  unfolding pop_spec
  pop_some x xs q v e = (
    ap (λ p. p.0) (fifo.pop_items q v) ∙ rw e refl,
    ap (λ p. p.1) (fifo.pop_items q v) ∙ rw e refl,
  )
