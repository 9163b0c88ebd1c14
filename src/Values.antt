-- ===== src/Values.antt =====
-- common/src/limero.h: the sources, flows and sinks without a queue, and the poller. A source calls
-- its listeners; what it calls them with is a list. `SinkQueue` has the queue of Flow and a handler.
pub mod Cached
pub mod Latest
mod Tests
use broker_proxy.Base.{
  ℕ, zero, suc, ◌+◌, ◌%◌, ◌^◌, ◌≡◌, Bool, true, false, ◌&&◌, not, Option, none, some, List, [], ◌∷◌,
  ◌++◌, ◌==◌, ltb, if◌then◌else◌, length, map, get_elem?,
}
use broker_proxy.Queue.Fifo.{Fifo}
use broker_proxy.Timer.{TimerSource, start, start_with}

-- The listeners, in the order of their subscription, and the last value.
pub record Source (A L : Type 0) : Type 0 where
  pub listeners : List L
  pub last : Option A

module _ {A L : Type 0} where
  -- `subscribe`, and the operators `>>` of a source
  unfoldable pub subscribe : L → Source A L → Source A L
  subscribe l s = record s { listeners = s.listeners ++ l ∷ [] }

  -- `emit`: the calls of `on`
  unfoldable pub emit : A → Source A L → Source A L × List (L × A)
  emit t s = (record s { last = some t }, map (λ l. (l, t)) s.listeners)

-- `LambdaSource::request` and `RefSource`, whose variable is the first component.
unfoldable pub lambda_request {ℓ} : {A W : Type ℓ} → (W → W × A) → W → W × List A
lambda_request handler w = let r = handler w in (r.0, r.1 ∷ [])

unfoldable pub ref_request {ℓ} : {A : Type ℓ} → A → A × List A
ref_request t = (t, t ∷ [])

unfoldable pub ref_assign {ℓ} : {A : Type ℓ} → A → A → A × List A
ref_assign new t = (new, new ∷ [])

-- `LambdaFlow::on`, whose function returns its output and whether there is one, and `Filter::on`
unfoldable pub lambda_on {ℓ} : {A B : Type ℓ} → (A → B × Bool) → A → List B
lambda_on func t = let r = func t in if r.1 then r.0 ∷ [] else []

unfoldable pub filter_on {ℓ} : {A : Type ℓ} → (A → Bool) → A → List A
filter_on func t = if func t then t ∷ [] else []

-- `ValueFlow`, with the entries that it has in the work of its thread and what it has emitted.
pub record ValueFlow (A : Type 0) : Type 0 where
  pub value : A
  pub is_async : Bool
  pub pending : ℕ
  pub emitted : List A

module _ {A : Type 0} where
  unfoldable pub value_on : A → ValueFlow A → ValueFlow A
  value_on t f =
      if f.is_async
      then record f { value = t; pending = suc f.pending }
      else record f { value = t; emitted = f.emitted ++ t ∷ [] }

  unfoldable pub value_request : ValueFlow A → ValueFlow A
  value_request f = record f { emitted = f.emitted ++ f.value ∷ [] }

  -- The thread takes an entry of the flow from its work and calls `invoke`.
  abbrev pub take_entry : ℕ → ValueFlow A → ValueFlow A
  take_entry zero f = f
  take_entry (suc n) f = record f { pending = n; emitted = f.emitted ++ f.value ∷ [] }

  unfoldable pub value_invoke : ValueFlow A → ValueFlow A
  value_invoke f = take_entry f.pending f

-- `Cache`, with what it has emitted.
pub record Cache (A : Type 0) : Type 0 where
  pub minimum : ℕ
  pub maximum : ℕ
  pub unsend_value : Bool
  pub last_send : ℕ
  pub value : A
  pub timer : TimerSource
  pub emitted : List A

module _ {A : Type 0} where
  -- The constructor; `last_send` and `value` are uninitialised.
  abbrev pub new_cache : ℕ → ℕ → ℕ → ℕ → A → TimerSource → Cache A
  new_cache now minimum maximum last_send₀ value₀ timer = record {
    minimum = minimum;
    maximum = maximum;
    unsend_value = false;
    last_send = last_send₀;
    value = value₀;
    timer = start_with now minimum timer;
    emitted = [];
  }

  abbrev pub send_value : ℕ → Cache A → Cache A
  send_value now c = record c {
    emitted = c.emitted ++ c.value ∷ [];
    unsend_value = false;
    last_send = now;
  }

  unfoldable pub cache_on : ℕ → A → Cache A → Cache A
  cache_on now t c =
      let c' = record c { value = t; unsend_value = true } in
      if ltb ((c.last_send + c.minimum) % 2 ^ 64) now then send_value now c' else c'

  -- The two tests of `on(const TimerMsg &)`.
  abbrev pub send_if : Bool → ℕ → Cache A → Cache A
  send_if true now c = send_value now c
  send_if false now c = c

  abbrev pub overdue : ℕ → Cache A → Bool
  overdue now c = ltb ((c.last_send + c.maximum) % 2 ^ 64) now

  -- `later` is the time at which `reset` looks at the clock.
  unfoldable pub cache_on_timer : ℕ → ℕ → Cache A → Cache A
  cache_on_timer now later c =
      let c₁ = send_if c.unsend_value now c in
      let c₂ = send_if (overdue now c₁) now c₁ in record c₂ { timer = start later c₂.timer }

  unfoldable pub cache_request : Cache A → Cache A
  cache_request c = record c { emitted = c.emitted ++ c.value ∷ [] }

-- `SinkQueue` over a queue, with the values for which it has called its handler.
pub record SinkQueue (A Q : Type 0) : Type 0 where
  pub queue : Q
  pub is_async : Bool
  pub pending : ℕ
  pub handled : List A
  pub overflow : ℕ

module _ {A : Type 0} (fifo : Fifo A) where
  -- `room` tells whether the thread's work has room for an entry.
  abbrev pub sink_pushed :
      Bool → SinkQueue A fifo.State → fifo.State × Bool → SinkQueue A fifo.State
  sink_pushed room s (q, true) = record s {
    queue = q;
    pending = if room then suc s.pending else s.pending;
  }
  sink_pushed room s (q, false) = record s { queue = q; overflow = suc s.overflow }

  unfoldable pub sink_on : A → Bool → SinkQueue A fifo.State → SinkQueue A fifo.State
  sink_on t room s =
      if s.is_async
      then sink_pushed room s (fifo.push t s.queue)
      else record s { handled = s.handled ++ t ∷ [] }

  abbrev pub sink_popped : SinkQueue A fifo.State → fifo.State × Option A → SinkQueue A fifo.State
  sink_popped s (q, some t) = record s { queue = q; handled = s.handled ++ t ∷ [] }
  sink_popped s (q, none) = record s { queue = q }

  unfoldable pub sink_invoke : SinkQueue A fifo.State → SinkQueue A fifo.State
  sink_invoke s = sink_popped s (fifo.pop s.queue)

-- `Poller`: how many sources it has, and the counter, of 32 bits.
pub record Poller : Type 0 where
  pub requestables : ℕ
  pub idx : ℕ
  pub is_connected : Bool

abbrev pub add_requestable : Poller → Poller
add_requestable p = record p { requestables = suc p.requestables }

-- The handler of `_pollInterval`: the source that it requests. The remainder by 0 is not taken.
unfoldable pub poll : Poller → Poller × Option ℕ
poll p =
    if not (p.requestables == 0) && p.is_connected
    then (record p { idx = (p.idx + 1) % 2 ^ 32 }, some (p.idx % p.requestables))
    else (p, none)
