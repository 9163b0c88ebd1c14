-- ===== src/Redis/Tests.antt =====
-- A run of the broker against a server that answers five calls, and its theorems there.
use broker_proxy.Base.{List, ℕ, ◌+◌, ◌≡◌, refl, inl, false, none, some, [], ◌∷◌, ltb}
use broker_proxy.Redis.{
  Hiredis, publish_to, raw, Broker, connect, disconnect, reconnect, subscribe, send, on_timer,
  on_readable, Action, do_connect, do_subscribe, do_send, readable, tick,
}
use broker_proxy.Redis.Actions.{perform_all-IsValid}
use broker_proxy.Redis.Connected.{IsValid, connect-IsValid}
use broker_proxy.Redis.Lost.{send-lost}

-- The state counts the calls.
abbrev server : Hiredis ℕ
server = record {
  connect_with = λ n. (n + 1, some n);
  err = λ c n. false;
  fd = λ c. c + 3;
  free = λ c n. n;
  command = λ c cmd n. (n + 1, ltb n 5);
  get_reply = λ c n. (n + 1, none);
}

abbrev fresh : Broker
fresh = record {
  is_connected = false;
  node = [];
  src_prefix = [];
  dst_prefix = [];
  subscribers = [];
  subscribe_context = none;
  publish_context = none;
  read_invokers = [];
  incoming = [];
}

fresh-IsValid : IsValid server fresh
fresh-IsValid = inl refl

abbrev connected : Broker
connected = record (connect server (110 ∷ []) fresh 0).0 { subscribers = (42 ∷ []) ∷ [] }

connected-IsValid : IsValid server connected
connected-IsValid = connect-IsValid server (110 ∷ []) fresh 0 fresh-IsValid

connect-IsValid_example : IsValid server (connect server (110 ∷ []) fresh 0).0
connect-IsValid_example = connect-IsValid server (110 ∷ []) fresh 0 fresh-IsValid

-- The sixth call gets no answer.
send-lost_example :
    (r : Broker × ℕ × ℕ) × (send server 0 (publish_to (97 ∷ []) (1 ∷ [])) connected 6 ≡ some r)
    × (r.2 ≡ 0)
    × (r.0.subscribers ≡ [])
unfolding connect
send-lost_example =
    send-lost server 0 1 (publish_to (97 ∷ []) (1 ∷ [])) connected 6 connected-IsValid refl refl
      refl

-- A connection, a subscription, a command without a reply, and a tick of the timer.
abbrev story : List Action
story =
    do_connect (110 ∷ [])
    ∷ do_subscribe (42 ∷ [])
    ∷ do_send 22 (raw (120 ∷ []))
    ∷ readable
    ∷ tick
    ∷ []

abbrev ended : Broker
ended = record connected {
  subscribers = [];
  subscribe_context = some 5;
  publish_context = some 6;
  read_invokers = 8 ∷ [];
}

perform_all-IsValid_example : IsValid server ended
unfolding connect subscribe send reconnect disconnect on_readable on_timer
perform_all-IsValid_example = perform_all-IsValid server story fresh ended 0 7 fresh-IsValid refl
