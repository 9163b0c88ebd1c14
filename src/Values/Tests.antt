-- ===== src/Values/Tests.antt =====
-- A cache and a flow of numbers, and their theorems there.
use broker_proxy.Base.{ℕ, ◌≡◌, refl, true, false, [], ◌∷◌, some}
use broker_proxy.Timer.{timer_source}
use broker_proxy.Values.{Source, subscribe, emit, poll, Cache, new_cache, cache_on, ValueFlow}
use broker_proxy.Values.Cached.{ticks, IsSent, ticks-cache_on}

abbrev source : Source ℕ ℕ
source = record { listeners = 1 ∷ []; last = some 0 }

two_listeners : (emit 5 (subscribe 2 source)).1 ≡ (1, 5) ∷ (2, 5) ∷ []
unfolding emit subscribe
two_listeners = refl

poll_second : (poll (record { requestables = 3; idx = 4; is_connected = true })).1 ≡ some 1
unfolding poll
poll_second = refl

abbrev cache : Cache ℕ
cache = new_cache 0 100 1000 0 0 (timer_source 0 100 false)

ticks-cache_on_example : IsSent [] 7 (ticks ((150, 150) ∷ (1200, 1201) ∷ []) (cache_on 50 7 cache))
ticks-cache_on_example = ticks-cache_on 50 7 cache (150, 150) ((1200, 1201) ∷ [])

abbrev flow : ValueFlow ℕ
flow = record { value = 0; is_async = true; pending = 0; emitted = [] }
