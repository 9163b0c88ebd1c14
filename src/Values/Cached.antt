-- ===== src/Values/Cached.antt =====
-- common/src/limero.h: a `Cache` sends on the last value.
use broker_proxy.Base.{
  ℕ, zero, suc, ◌+◌, ◌%◌, ◌^◌, ◌≡◌, refl, ap, ◌∙◌, Bool, true, false, List, [], ◌∷◌, ◌++◌,
  append_assoc, ltb, Bool-cases, inl, inr,
}
use broker_proxy.Values.{Cache, send_value, cache_on, send_if, overdue, cache_on_timer}

abbrev pub copies {ℓ} : {A : Type ℓ} → ℕ → A → List A
copies zero v = []
copies (suc n) v = v ∷ copies n v

pub copies_snoc {ℓ} : {A : Type ℓ} (n : ℕ) (v : A) → copies n v ++ v ∷ [] ≡ copies (suc n) v
copies_snoc zero v = refl
copies_snoc (suc n) v = ap (◌∷◌ v) (copies_snoc n v)

module _ {A : Type 0} where
  -- The timer, each time with the times of its two looks at the clock.
  abbrev pub ticks : List (ℕ × ℕ) → Cache A → Cache A
  ticks [] c = c
  ticks (t ∷ ts) c = ticks ts (cache_on_timer t.0 t.1 c)

  -- After `e` the value was sent once or more, and nothing else; or it is still to be sent.
  abbrev pub IsSent : List A → A → Cache A → Type 0
  IsSent e v c =
      (k : ℕ) × (c.emitted ≡ e ++ copies (suc k) v) × (c.unsend_value ≡ false) × (c.value ≡ v)

  abbrev pub IsUnsent : List A → A → Cache A → Type 0
  IsUnsent e v c = (c.emitted ≡ e) × (c.unsend_value ≡ true) × (c.value ≡ v)

  send_value-of_IsUnsent :
      (now : ℕ) (e : List A) (v : A) (c : Cache A) → IsUnsent e v c → IsSent e v (send_value now c)
  send_value-of_IsUnsent now e v c h = (0, rw (h.0, h.2) refl, refl, h.2)

  send_value-of_IsSent :
      (now : ℕ) (e : List A) (v : A) (c : Cache A) → IsSent e v c → IsSent e v (send_value now c)
  send_value-of_IsSent now e v c (k, h, u, same) = (
    suc k,
    rw (h, same) (append_assoc e (copies (suc k) v) (v ∷ []) ∙ ap (◌++◌ e) (copies_snoc (suc k) v)),
    refl,
    same,
  )

  send_if-IsSent :
      (b : Bool) (now : ℕ) (e : List A) (v : A) (c : Cache A)
      → IsSent e v c
      → IsSent e v (send_if b now c)
  send_if-IsSent true now e v c h = send_value-of_IsSent now e v c h
  send_if-IsSent false now e v c h = h

  tick-of_IsSent :
      (now later : ℕ) (e : List A) (v : A) (c : Cache A)
      → IsSent e v c
      → IsSent e v (cache_on_timer now later c)
  unfolding cache_on_timer
  tick-of_IsSent now later e v c h =
      let c₁ = send_if c.unsend_value now c in
      send_if-IsSent (overdue now c₁) now e v c₁ (send_if-IsSent c.unsend_value now e v c h)

  tick-of_IsUnsent :
      (now later : ℕ) (e : List A) (v : A) (c : Cache A)
      → IsUnsent e v c
      → IsSent e v (cache_on_timer now later c)
  unfolding cache_on_timer
  tick-of_IsUnsent now later e v c h =
      let c₁ = send_if c.unsend_value now c in
      send_if-IsSent (overdue now c₁) now e v c₁ (rw h.1 (send_value-of_IsUnsent now e v c h))

  ticks-IsSent :
      (ts : List (ℕ × ℕ)) (e : List A) (v : A) (c : Cache A)
      → IsSent e v c
      → IsSent e v (ticks ts c)
  ticks-IsSent [] e v c h = h
  ticks-IsSent (t ∷ ts) e v c h =
      ticks-IsSent ts e v (cache_on_timer t.0 t.1 c) (tick-of_IsSent t.0 t.1 e v c h)

  -- When a value has come to a cache and its timer has then expired once or more, the cache has sent
  -- that value, once or more, and nothing else since, and has nothing left to send; whatever the
  -- clock says.
  pub ticks-cache_on :
      (now : ℕ) (v : A) (c : Cache A) (t : ℕ × ℕ) (ts : List (ℕ × ℕ))
      → IsSent c.emitted v (ticks (t ∷ ts) (cache_on now v c))
  unfolding cache_on
  ticks-cache_on now v c t ts = elim (Bool-cases (ltb ((c.last_send + c.minimum) % 2 ^ 64) now)) [
    | inl e ↦
        ticks-IsSent ts c.emitted v (cache_on_timer t.0 t.1 (cache_on now v c))
          (tick-of_IsSent t.0 t.1 c.emitted v (cache_on now v c) (rw e (0, refl, refl, refl)))
    | inr e ↦
        ticks-IsSent ts c.emitted v (cache_on_timer t.0 t.1 (cache_on now v c))
          (tick-of_IsUnsent t.0 t.1 c.emitted v (cache_on now v c) (rw e (refl, refl, refl)))
  ]
