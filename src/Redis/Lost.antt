-- ===== src/Redis/Lost.antt =====
-- What a failed command does to the connection and to the subscriptions.
use mathlib.Core.Path.{subst}
use broker_proxy.Base.{
  ℕ, ◌≡◌, ◌↔◌, refl, ap, sym, ◌∙◌, Bool, true, false, Option, none, some, List, [], ◌>>=◌,
  Bool-cases, Option-cases, inl, inr, arith,
}
use broker_proxy.Redis.{
  Hiredis, Command, Broker, enotconn, add_invoker, has_text, usable, publish_opened,
  subscribe_opened, connect, reconnect, psubscribe, subscribed, subscribe, sent, send,
}
use broker_proxy.Redis.Connected.{
  IsValid, IsListening-of_connected, named, connect-on, connect-off, connect-IsValid,
  disconnect_lem,
}

same_context : {o : Option ℕ} {p c : ℕ} → o ≡ some p → o ≡ some c → p ≡ c
same_context e f = let both = sym e ∙ f in cc

module _ {W : Type 0} (redis : Hiredis W) where
  subscribers-publish_opened :
      (b : Broker) (got : W × Option ℕ) (o : Option ℕ)
      → (publish_opened redis b got o).0.subscribers ≡ b.subscribers
  subscribers-publish_opened b got none = refl
  subscribers-publish_opened b got (some p) = refl

  subscribers-subscribe_opened :
      (b : Broker) (got : W × Option ℕ) (o : Option ℕ)
      → (subscribe_opened redis b got o).0.subscribers ≡ b.subscribers
  subscribers-subscribe_opened b got none = refl
  subscribers-subscribe_opened b got (some s) =
      subscribers-publish_opened
        (record b {
          subscribe_context = some s;
          read_invokers = add_invoker (redis.fd s) b.read_invokers;
        })
        (redis.connect_with got.0) (usable redis (redis.connect_with got.0))

  -- `connect` subscribes to nothing.
  subscribers-connect :
      (node : List ℕ) (b : Broker) (w : W) → (connect redis node b w).0.subscribers ≡ b.subscribers
  subscribers-connect node b w = elim (Bool-cases b.is_connected) [
    | inl on ↦ ap (λ (r : Broker × W × ℕ). r.0.subscribers) (sym (connect-on redis node b w on))
    | inr off ↦
        ap (λ (r : Broker × W × ℕ). r.0.subscribers) (sym (connect-off redis node b w off))
        ∙ subscribers-subscribe_opened (named redis node b) (redis.connect_with w)
            (usable redis (redis.connect_with w))
  ]

  -- In a valid state a reconnection is defined and leads to a valid state; if there was a
  -- connection, no subscription is left.
  pub reconnect_lem :
      (b : Broker) (w : W)
      → IsValid redis b
      → (r : Broker × W × ℕ) × (reconnect redis b w ≡ some r)
        × IsValid redis r.0
        × (b.is_connected ≡ true → r.0.subscribers ≡ [])
  unfolding reconnect
  reconnect_lem b w v =
      let (b', w', done, off, kept, cleared, same) = disconnect_lem redis b w v in
      (
        connect redis b'.node b' w',
        rw done refl,
        connect-IsValid redis b'.node b' w' (inl off),
        λ on. subscribers-connect b'.node b' w' ∙ cleared on,
      )

  sent_lem :
      (failure : ℕ) (b : Broker) (got : W × Bool)
      → IsValid redis b
      → b.is_connected ≡ true
      → (r : Broker × W × ℕ) × (sent redis failure b got ≡ some r)
        × IsValid redis r.0
        × (got.1 ≡ true → r ≡ (b, got.0, 0))
        × (got.1 ≡ false → (r.2 ≡ failure) × (r.0.subscribers ≡ []))
  sent_lem failure b (w, true) v on = ((b, w, 0), refl, v, λ e. refl, λ e. absurd (cc))
  sent_lem failure b (w, false) v on =
      let (r, done, valid, cleared) = reconnect_lem b w v in
      ((r.0, r.1, failure), rw done refl, valid, λ e. absurd (cc), λ e. (refl, cleared on))

  sent-send :
      (failure p : ℕ) (cmd : Command) (b : Broker) (w : W)
      → b.is_connected ≡ true
      → b.publish_context ≡ some p
      → sent redis failure b (redis.command p cmd w) ≡ send redis failure cmd b w
  unfolding send
  sent-send failure p cmd b w on published = rw (on, published) refl

  -- What a command does, on every path.
  send_lem :
      (failure : ℕ) (cmd : Command) (b : Broker) (w : W)
      → IsValid redis b
      → (r : Broker × W × ℕ) × (send redis failure cmd b w ≡ some r)
        × IsValid redis r.0
        × (b.is_connected ≡ false → r ≡ (b, w, enotconn))
        × ((c : ℕ)
            → b.is_connected ≡ true
            → b.publish_context ≡ some c
            → (redis.command c cmd w).1 ≡ true
            → r ≡ (b, (redis.command c cmd w).0, 0))
        × ((c : ℕ)
            → b.is_connected ≡ true
            → b.publish_context ≡ some c
            → (redis.command c cmd w).1 ≡ false
            → (r.2 ≡ failure) × (r.0.subscribers ≡ []))
  unfolding send
  send_lem failure cmd b w v = elim (Bool-cases b.is_connected) [
    | inl on ↦
        let (s, p, sub, published, listen) = IsListening-of_connected redis b v on in
        let (r, done, valid, kept, lost) = sent_lem failure b (redis.command p cmd w) v on in
        (
          r,
          sym (sent-send failure p cmd b w on published) ∙ done,
          valid,
          λ off. absurd (cc),
          λ c e f.
              subst
                (λ c'. (redis.command c' cmd w).1 ≡ true → r ≡ (b, (redis.command c' cmd w).0, 0))
                (same_context published f) kept,
          λ c e f.
              subst
                (λ c'.
                  (redis.command c' cmd w).1 ≡ false → (r.2 ≡ failure) × (r.0.subscribers ≡ []))
                (same_context published f) lost,
        )
    | inr off ↦ (
      (b, w, enotconn),
      rw off refl,
      v,
      λ e. refl,
      λ c on f g. absurd (cc),
      λ c on f g. absurd (cc),
    )
  ]

  -- A command in a valid state, whether it is `publish` or another, is defined and leads to a valid
  -- state, whatever the server and the network do.
  pub send-IsValid :
      (failure : ℕ) (cmd : Command) (b : Broker) (w : W)
      → IsValid redis b
      → (r : Broker × W × ℕ) × (send redis failure cmd b w ≡ some r) × IsValid redis r.0
  send-IsValid failure cmd b w v =
      let (r, done, valid, off, kept, lost) = send_lem failure cmd b w v in (r, done, valid)

  -- A command that gets no reply on the connection of a valid state returns the result given for
  -- that, which is 0 for `publish`, and no subscription is left, connected again or not.
  pub send-lost :
      (failure c : ℕ) (cmd : Command) (b : Broker) (w : W)
      → IsValid redis b
      → b.is_connected ≡ true
      → b.publish_context ≡ some c
      → (redis.command c cmd w).1 ≡ false
      → (r : Broker × W × ℕ) × (send redis failure cmd b w ≡ some r)
        × (r.2 ≡ failure)
        × (r.0.subscribers ≡ [])
  send-lost failure c cmd b w v on published silent =
      let (r, done, valid, off, kept, lost) = send_lem failure cmd b w v in
      let (result, none_left) = lost c on published silent in (r, done, result, none_left)

  -- What `subscribe` does, by the pattern and the context.
  subscribe-known :
      (pattern : List ℕ) (b : Broker) (w : W)
      → has_text pattern b.subscribers ≡ true
      → subscribe redis pattern b w ≡ some (b, w)
  unfolding subscribe
  subscribe-known pattern b w known = rw known refl

  subscribe-new :
      (pattern : List ℕ) (b : Broker) (w : W)
      → has_text pattern b.subscribers ≡ false
      → subscribe redis pattern b w
        ≡ b.subscribe_context >>= λ c.
            some (subscribed redis pattern b (redis.command c (psubscribe pattern) w))
  unfolding subscribe
  subscribe-new pattern b w new = rw new refl

  -- `subscribe` looks at no connection: it is undefined exactly if the pattern is new and there is
  -- no context for subscriptions, as before the first connection and after `disconnect`.
  pub subscribe-undefined_iff :
      (pattern : List ℕ) (b : Broker) (w : W)
      → (subscribe redis pattern b w ≡ none)
        ↔ ((has_text pattern b.subscribers ≡ false) × (b.subscribe_context ≡ none))
  subscribe-undefined_iff pattern b w = elim (Bool-cases (has_text pattern b.subscribers)) [
    | inl known ↦ (
      λ e. let wrong = sym e ∙ subscribe-known pattern b w known in absurd (cc),
      λ both. absurd (ground arith),
    )
    | inr new ↦ elim (Option-cases b.subscribe_context) [
      | inl missing ↦ (λ e. (new, missing), λ both. subscribe-new pattern b w new ∙ rw missing refl)
      | inr (c, there) ↦ (
        λ e.
            let wrong : none
                ≡ some (subscribed redis pattern b (redis.command c (psubscribe pattern) w)) =
              sym e ∙ subscribe-new pattern b w new ∙ rw there refl in
            absurd (cc),
        λ both. absurd (cc),
      )
    ]
  ]
