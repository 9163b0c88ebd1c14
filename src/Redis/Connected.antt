-- ===== src/Redis/Connected.antt =====
-- A broker that says it is connected has its two contexts and listens to the first.
use mathlib.Core.Path.{subst}
use broker_proxy.Base.{
  ℕ, ◌≡◌, refl, true, false, Option, none, some, List, [], ◌++◌, ==_of_eq, Bool-cases, ◌⊎◌, inl,
  inr,
}
use broker_proxy.Redis.{
  Hiredis, Broker, has_fd, add_invoker, dst_text, src_text, slash_text, usable, publish_opened,
  subscribe_opened, open_both, connect, release, disconnect,
}

has_fd-add_invoker : (n : ℕ) (ms : List ℕ) → has_fd n (add_invoker n ms) ≡ true
has_fd-add_invoker n ms = elim (Bool-cases (has_fd n ms)) [
  | inl e ↦ rw (e, e) refl
  | inr e ↦ rw (e, ==_of_eq n n refl) refl
]

module _ {W : Type 0} (redis : Hiredis W) where
  abbrev pub IsListening : Broker → Type 0
  IsListening b =
      (s p : ℕ) × (b.subscribe_context ≡ some s)
      × (b.publish_context ≡ some p)
      × (has_fd (redis.fd s) b.read_invokers ≡ true)

  abbrev pub IsValid : Broker → Type 0
  IsValid b = (b.is_connected ≡ false) ⊎ IsListening b

  pub IsListening-of_connected : (b : Broker) → IsValid b → b.is_connected ≡ true → IsListening b
  IsListening-of_connected b (inl off) on = absurd (cc)
  IsListening-of_connected b (inr l) on = l

  publish_opened-IsValid :
      (b : Broker) (s : ℕ) (got : W × Option ℕ) (o : Option ℕ)
      → b.is_connected ≡ false
      → b.subscribe_context ≡ some s
      → has_fd (redis.fd s) b.read_invokers ≡ true
      → IsValid (publish_opened redis b got o).0
  publish_opened-IsValid b s got none off sub listen = inl off
  publish_opened-IsValid b s got (some p) off sub listen = inr (s, p, sub, refl, listen)

  subscribe_opened-IsValid :
      (b : Broker) (got : W × Option ℕ) (o : Option ℕ)
      → b.is_connected ≡ false
      → IsValid (subscribe_opened redis b got o).0
  subscribe_opened-IsValid b got none off = inl off
  subscribe_opened-IsValid b got (some s) off =
      publish_opened-IsValid
        (record b {
          subscribe_context = some s;
          read_invokers = add_invoker (redis.fd s) b.read_invokers;
        })
        s (redis.connect_with got.0) (usable redis (redis.connect_with got.0)) off refl
        (has_fd-add_invoker (redis.fd s) b.read_invokers)

  -- The fields that `connect` sets first.
  abbrev pub named : List ℕ → Broker → Broker
  named node b = record b {
    node = node;
    dst_prefix = dst_text ++ node ++ slash_text;
    src_prefix = src_text ++ node ++ slash_text;
  }

  pub connect-on :
      (node : List ℕ) (b : Broker) (w : W)
      → b.is_connected ≡ true
      → (named node b, w, 0) ≡ connect redis node b w
  unfolding connect
  connect-on node b w on = rw on refl

  pub connect-off :
      (node : List ℕ) (b : Broker) (w : W)
      → b.is_connected ≡ false
      → open_both redis (named node b) w ≡ connect redis node b w
  unfolding connect
  connect-off node b w off = rw off refl

  -- `connect` leads to a valid state, whatever the outcome.
  pub connect-IsValid :
      (node : List ℕ) (b : Broker) (w : W) → IsValid b → IsValid (connect redis node b w).0
  connect-IsValid node b w v = elim (Bool-cases b.is_connected) [
    | inl on ↦ subst (λ (r : Broker × W × ℕ). IsValid r.0) (connect-on node b w on) v
    | inr off ↦
        subst (λ (r : Broker × W × ℕ). IsValid r.0) (connect-off node b w off)
          (subscribe_opened-IsValid (named node b) (redis.connect_with w)
            (usable redis (redis.connect_with w)) off)
  ]

  -- In a valid state `disconnect` is defined.
  pub disconnect_lem :
      (b : Broker) (w : W)
      → IsValid b
      → (b' : Broker) × (w' : W) × (disconnect redis b w ≡ some (b', w'))
        × (b'.is_connected ≡ false)
        × (b'.node ≡ b.node)
        × (b.is_connected ≡ true → b'.subscribers ≡ [])
        × (b.is_connected ≡ false → b' ≡ b)
  unfolding disconnect
  disconnect_lem b w v = elim (Bool-cases b.is_connected) [
    | inl on ↦
        let (s, p, sub, published, listen) = IsListening-of_connected b v on in
        let (b', w') = release redis s p b w in
        (b', w', rw (on, sub, published) refl, refl, refl, λ e. refl, λ off. absurd (cc))
    | inr off ↦ (b, w, rw off refl, off, refl, λ on. absurd (cc), λ e. refl)
  ]
