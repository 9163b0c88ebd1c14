-- ===== src/Redis/Actions.antt =====
-- Every action that is defined leads from a valid state to a valid state.
use mathlib.Core.Path.{subst}
use broker_proxy.Base.{
  ℕ, ◌≡◌, inl, sym, Bool, true, false, Option, none, some, List, [], ◌∷◌, ◌>>=◌, if◌then◌else◌,
}
use broker_proxy.Redis.{
  Hiredis, Reply, array, other, psubscribe, punsubscribe, Broker, subscribed, unsubscribed,
  subscribe, unsubscribe, connect, on_timer, on_message, on_reply, on_got, on_readable, has_text,
  same_text, pmessage, Action, do_connect, do_subscribe, do_unsubscribe, do_disconnect, tick,
  readable, do_send, without_result, perform,
}
use broker_proxy.Redis.Connected.{IsValid, connect-IsValid, disconnect_lem}
use broker_proxy.Redis.Lost.{reconnect_lem, send-IsValid}

module _ {W : Type 0} (redis : Hiredis W) where
  -- A result, if there is one, is valid.
  abbrev Ends : Option (Broker × W) → Type 0
  Ends none = Unit {0}
  Ends (some (b, w)) = IsValid redis b

  Ends-subscribed :
      (pattern : List ℕ) (b : Broker) (got : W × Bool)
      → IsValid redis b
      → IsValid redis (subscribed redis pattern b got).0
  Ends-subscribed pattern b (w, true) v = v
  Ends-subscribed pattern b (w, false) v = v

  Ends-unsubscribed :
      (pattern : List ℕ) (b : Broker) (got : W × Bool)
      → IsValid redis b
      → IsValid redis (unsubscribed redis pattern b got).0
  Ends-unsubscribed pattern b (w, true) v = v
  Ends-unsubscribed pattern b (w, false) v = v

  Ends-bind : (o : Option ℕ) (f : ℕ → Option (Broker × W)) → ((c : ℕ) → Ends (f c)) → Ends (o >>= f)
  Ends-bind none f all = tt
  Ends-bind (some c) f all = all c

  Ends-if : (t : Bool) (x y : Option (Broker × W)) → Ends x → Ends y → Ends (if t then x else y)
  Ends-if true x y p q = p
  Ends-if false x y p q = q

  -- A broker that is there is valid.
  abbrev Stays : Option Broker → Type 0
  Stays none = Unit {0}
  Stays (some b) = IsValid redis b

  Stays-on_message :
      (es : List (List ℕ)) (b : Broker) → IsValid redis b → Stays (on_message redis es b)
  Stays-on_message [] b v = tt
  Stays-on_message (k ∷ []) b v = tt
  Stays-on_message (k ∷ p ∷ []) b v = tt
  Stays-on_message (k ∷ p ∷ t ∷ []) b v = tt
  Stays-on_message (k ∷ p ∷ t ∷ m ∷ es) b v = v

  Stays-if : (t : Bool) (x y : Option Broker) → Stays x → Stays y → Stays (if t then x else y)
  Stays-if true x y p q = p
  Stays-if false x y p q = q

  Stays-on_reply : (r : Reply) (b : Broker) → IsValid redis b → Stays (on_reply redis r b)
  Stays-on_reply (array []) b v = tt
  Stays-on_reply (array (k ∷ es)) b v =
      Stays-if (same_text k pmessage) (on_message redis (k ∷ es) b) (some b)
        (Stays-on_message (k ∷ es) b v) v
  Stays-on_reply other b v = v

  Ends-of_Stays : (o : Option Broker) (w : W) → Stays o → Ends (o >>= λ b. some (b, w))
  Ends-of_Stays none w s = tt
  Ends-of_Stays (some b) w s = s

  Ends-on_got : (b : Broker) (got : W × Option Reply) → IsValid redis b → Ends (on_got redis b got)
  Ends-on_got b (w, some r) v = Ends-of_Stays (on_reply redis r b) w (Stays-on_reply r b v)
  Ends-on_got b (w, none) v =
      let (r, done, valid, cleared) = reconnect_lem redis b w v in
      subst (λ (o : Option (Broker × W × ℕ)). Ends (o >>= λ (b', w', rc). some (b', w'))) (sym done)
        valid

  IsValid-on_timer : (b : Broker) (w : W) → IsValid redis b → IsValid redis (on_timer redis b w).0
  unfolding on_timer
  IsValid-on_timer b w v = pick b.is_connected
    where
      pick : (t : Bool) → IsValid redis (if t then (b, w, 0) else connect redis [] b w).0
      pick true = v
      pick false = connect-IsValid redis [] b w v

  perform-Ends : (a : Action) (b : Broker) (w : W) → IsValid redis b → Ends (perform redis a b w)
  unfolding subscribe unsubscribe on_readable
  perform-Ends (do_connect node) b w v = connect-IsValid redis node b w v
  perform-Ends (do_subscribe pattern) b w v =
      Ends-if (has_text pattern b.subscribers) (some (b, w)) _ v (
        Ends-bind b.subscribe_context _
          (λ c. Ends-subscribed pattern b (redis.command c (psubscribe pattern) w) v))
  perform-Ends (do_unsubscribe pattern) b w v =
      Ends-if (has_text pattern b.subscribers) _ (some (b, w))
        (Ends-bind b.subscribe_context _
          (λ c. Ends-unsubscribed pattern b (redis.command c (punsubscribe pattern) w) v))
        v
  perform-Ends do_disconnect b w v =
      let (b', w', done, off, kept, cleared, same) = disconnect_lem redis b w v in
      subst Ends (sym done) (inl off)
  perform-Ends tick b w v = IsValid-on_timer b w v
  perform-Ends readable b w v =
      Ends-bind b.subscribe_context _ (λ c. Ends-on_got b (redis.get_reply c w) v)
  perform-Ends (do_send failure cmd) b w v =
      let (r, done, valid) = send-IsValid redis failure cmd b w v in
      subst (λ (o : Option (Broker × W × ℕ)). Ends (o >>= λ r'. some (without_result redis r')))
        (sym done) valid

  -- Calls, ticks of the timer and bytes on the connection, one after the other.
  abbrev pub perform_all : List Action → Broker → W → Option (Broker × W)
  perform_all [] b w = some (b, w)
  perform_all (a ∷ more) b w = perform redis a b w >>= λ (b', w'). perform_all more b' w'

  Ends-perform_all :
      (more : List Action) (b : Broker) (w : W) → IsValid redis b → Ends (perform_all more b w)
  Ends-perform_all [] b w v = v
  Ends-perform_all (a ∷ more) b w v =
      go (perform redis a b w) (perform-Ends a b w v) (λ b' w'. Ends-perform_all more b' w')
    where
      go :
          (o : Option (Broker × W))
          → Ends o
          → ((b' : Broker) (w' : W) → IsValid redis b' → Ends (perform_all more b' w'))
          → Ends (o >>= λ (b', w'). perform_all more b' w')
      go none e rest = tt
      go (some (b', w')) e rest = rest b' w' e

  -- From a state in which the broker is disconnected, or has both contexts and listens to the
  -- first, every sequence of calls, ticks of the timer and bytes on the connection that meets no
  -- undefined behaviour leads to such a state.
  pub perform_all-IsValid :
      (more : List Action) (b b' : Broker) (w w' : W)
      → IsValid redis b
      → perform_all more b w ≡ some (b', w')
      → IsValid redis b'
  perform_all-IsValid more b b' w w' v e = subst Ends e (Ends-perform_all more b w v)
