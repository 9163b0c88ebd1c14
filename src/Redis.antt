-- ===== src/Redis.antt =====
-- broker/src/BrokerRedis.cpp: the connection to the broker, its subscriptions, and what happens to
-- them when a call fails. The client library hiredis is a parameter. Two undefined uses of a
-- context are results of the model (`none`): of one that is NULL or was never set, and of one that
-- `disconnect` has freed, where the source keeps the pointer and the model forgets it.
pub mod Connected
pub mod Lost
pub mod Actions
pub mod Texts
pub mod Replies
mod Tests
use broker_proxy.Base.{
  ℕ, ◌≡◌, Bool, true, false, not, Option, none, some, List, [], ◌∷◌, ◌++◌, ◌==◌, if◌then◌else◌,
  ◌>>=◌,
}

-- A reply as the message handlers see it: the strings of an array's elements, or another type.
pub data Reply : Type 0 where
  array : List (List ℕ) → Reply
  other : Reply

-- The commands that the broker sends. `raw` is the text that `command` or `request` is given.
pub data Command : Type 0 where
  psubscribe punsubscribe : List ℕ → Command
  publish_to : List ℕ → List ℕ → Command
  raw : List ℕ → Command

-- What the broker uses of hiredis. The state of the library, the server and the network is a `W`.
pub record Hiredis (W : Type 0) : Type 0 where
  -- `redisConnectWithOptions`: a context, or NULL
  pub connect_with : W → W × Option ℕ
  -- `err` of a context
  pub err : ℕ → W → Bool
  -- `fd` of a context
  pub fd : ℕ → ℕ
  pub free : ℕ → W → W
  -- `redisCommand`: whether there is a reply
  pub command : ℕ → Command → W → W × Bool
  -- `redisGetReply`
  pub get_reply : ℕ → W → W × Option Reply

-- The fields of `BrokerRedis`, with the descriptors that its thread listens to, and the messages
-- that `_incoming` got, each a topic and a payload.
pub record Broker : Type 0 where
  pub is_connected : Bool
  pub node : List ℕ
  pub src_prefix : List ℕ
  pub dst_prefix : List ℕ
  pub subscribers : List (List ℕ)
  pub subscribe_context : Option ℕ
  pub publish_context : Option ℕ
  pub read_invokers : List ℕ
  pub incoming : List (List ℕ × List ℕ)

-- Results.
abbrev pub enotconn : ℕ
enotconn = 107

abbrev pub einval : ℕ
einval = 22

-- "dst/", "src/", "/" and "pmessage"
abbrev pub dst_text : List ℕ
dst_text = 100 ∷ 115 ∷ 116 ∷ 47 ∷ []

abbrev pub src_text : List ℕ
src_text = 115 ∷ 114 ∷ 99 ∷ 47 ∷ []

abbrev pub slash_text : List ℕ
slash_text = 47 ∷ []

abbrev pub pmessage : List ℕ
pmessage = 112 ∷ 109 ∷ 101 ∷ 115 ∷ 115 ∷ 97 ∷ 103 ∷ 101 ∷ []

-- Equality of strings.
abbrev pub same_text : List ℕ → List ℕ → Bool
same_text [] [] = true
same_text [] (b ∷ bs) = false
same_text (a ∷ xs) [] = false
same_text (a ∷ xs) (b ∷ bs) = if a == b then same_text xs bs else false

abbrev pub has_text : List ℕ → List (List ℕ) → Bool
has_text p [] = false
has_text p (q ∷ qs) = if same_text p q then true else has_text p qs

abbrev pub erase_text : List ℕ → List (List ℕ) → List (List ℕ)
erase_text p [] = []
erase_text p (q ∷ qs) = if same_text p q then erase_text p qs else q ∷ erase_text p qs

abbrev pub has_fd : ℕ → List ℕ → Bool
has_fd n [] = false
has_fd n (m ∷ ms) = if n == m then true else has_fd n ms

-- `emplace` on the map of read invokers, and `erase`.
abbrev pub add_invoker : ℕ → List ℕ → List ℕ
add_invoker n ms = if has_fd n ms then ms else n ∷ ms

abbrev pub delete_invoker : ℕ → List ℕ → List ℕ
delete_invoker n [] = []
delete_invoker n (m ∷ ms) = if n == m then delete_invoker n ms else m ∷ delete_invoker n ms

module _ {W : Type 0} (redis : Hiredis W) where
  -- The context that `redisConnectWithOptions` gave, if it is neither NULL nor in error.
  abbrev pub usable : W × Option ℕ → Option ℕ
  usable (w, none) = none
  usable (w, some c) = if redis.err c w then none else some c

  -- `connect`, after the second context, which is `opened`, and then after the first.
  abbrev pub publish_opened : Broker → W × Option ℕ → Option ℕ → Broker × W × ℕ
  publish_opened b opened none = (record b { publish_context = opened.1 }, opened.0, enotconn)
  publish_opened b opened (some p) =
      (record b { publish_context = some p; is_connected = true }, opened.0, 0)

  abbrev pub open_publish : Broker → W → Broker × W × ℕ
  open_publish b w = publish_opened b (redis.connect_with w) (usable (redis.connect_with w))

  abbrev pub subscribe_opened : Broker → W × Option ℕ → Option ℕ → Broker × W × ℕ
  subscribe_opened b opened none = (record b { subscribe_context = opened.1 }, opened.0, enotconn)
  subscribe_opened b opened (some s) =
      open_publish
        (record b {
          subscribe_context = some s;
          read_invokers = add_invoker (redis.fd s) b.read_invokers;
        })
        opened.0

  abbrev pub open_both : Broker → W → Broker × W × ℕ
  open_both b w = subscribe_opened b (redis.connect_with w) (usable (redis.connect_with w))

  -- `connect`
  unfoldable pub connect : List ℕ → Broker → W → Broker × W × ℕ
  connect node b w =
      let b' : Broker = record b {
        node = node;
        dst_prefix = dst_text ++ node ++ slash_text;
        src_prefix = src_text ++ node ++ slash_text;
      } in
      if b.is_connected then (b', w, 0) else open_both b' w

  -- `disconnect`
  abbrev pub release : ℕ → ℕ → Broker → W → Broker × W
  release s p b w = (
    record b {
      read_invokers = delete_invoker (redis.fd s) b.read_invokers;
      subscribers = [];
      subscribe_context = none;
      publish_context = none;
      is_connected = false;
    },
    redis.free s (redis.free p w),
  )

  unfoldable pub disconnect : Broker → W → Option (Broker × W)
  disconnect b w =
      if b.is_connected
      then (b.subscribe_context >>= λ s. (b.publish_context >>= λ p. some (release s p b w)))
      else some (b, w)

  -- `disconnect(); connect(_node);`
  unfoldable pub reconnect : Broker → W → Option (Broker × W × ℕ)
  reconnect b w = disconnect b w >>= λ (b', w'). some (connect b'.node b' w')

  -- `subscribe` and `unSubscribe`; both return 0 on every path.
  abbrev pub subscribed : List ℕ → Broker → W × Bool → Broker × W
  subscribed pattern b (w, replied) =
      (if replied then record b { subscribers = pattern ∷ b.subscribers } else b, w)

  unfoldable pub subscribe : List ℕ → Broker → W → Option (Broker × W)
  subscribe pattern b w =
      if has_text pattern b.subscribers
      then some (b, w)
      else (b.subscribe_context >>= λ c.
          some (subscribed pattern b (redis.command c (psubscribe pattern) w)))

  abbrev pub unsubscribed : List ℕ → Broker → W × Bool → Broker × W
  unsubscribed pattern b (w, replied) =
      (if replied then record b { subscribers = erase_text pattern b.subscribers } else b, w)

  unfoldable pub unsubscribe : List ℕ → Broker → W → Option (Broker × W)
  unsubscribe pattern b w =
      if has_text pattern b.subscribers
      then (b.subscribe_context >>= λ c.
          some (unsubscribed pattern b (redis.command c (punsubscribe pattern) w)))
      else some (b, w)

  -- A command on the publish context, after which a failure leads to a new connection: `publish`
  -- returns 0 even then, `command` and `request` return EINVAL.
  abbrev pub sent : ℕ → Broker → W × Bool → Option (Broker × W × ℕ)
  sent failure b (w, true) = some (b, w, 0)
  sent failure b (w, false) = reconnect b w >>= λ (b', w', rc). some (b', w', failure)

  unfoldable pub send : ℕ → Command → Broker → W → Option (Broker × W × ℕ)
  send failure cmd b w =
      if b.is_connected
      then (b.publish_context >>= λ c. sent failure b (redis.command c cmd w))
      else some (b, w, enotconn)

  abbrev pub publish : List ℕ → List ℕ → Broker → W → Option (Broker × W × ℕ)
  publish topic bs b w = send 0 (publish_to topic bs) b w

  abbrev pub command : List ℕ → Broker → W → Option (Broker × W × ℕ)
  command text b w = send einval (raw text) b w

  -- The handler of the timer `_reconnectTimer`.
  unfoldable pub on_timer : Broker → W → Broker × W × ℕ
  on_timer b w = if b.is_connected then (b, w, 0) else connect [] b w

  -- `onMessage`, for the replies that its caller hands to it.
  abbrev pub on_message : List (List ℕ) → Broker → Option Broker
  on_message (kind ∷ pattern ∷ topic ∷ payload ∷ rest) b =
      some (record b { incoming = b.incoming ++ (topic, payload) ∷ [] })
  on_message es b = none

  -- The read invoker: a reply that is no `pmessage` is dropped, and an array without elements is
  -- read out of range.
  abbrev pub on_reply : Reply → Broker → Option Broker
  on_reply (array []) b = none
  on_reply (array (kind ∷ es)) b =
      if same_text kind pmessage then on_message (kind ∷ es) b else some b
  on_reply other b = some b

  abbrev pub on_got : Broker → W × Option Reply → Option (Broker × W)
  on_got b (w, some r) = on_reply r b >>= λ b'. some (b', w)
  on_got b (w, none) = reconnect b w >>= λ (b', w', rc). some (b', w')

  unfoldable pub on_readable : Broker → W → Option (Broker × W)
  on_readable b w = b.subscribe_context >>= λ c. on_got b (redis.get_reply c w)

-- What happens to a broker: a call, a tick of its timer, or bytes on its connection.
pub data Action : Type 0 where
  do_connect do_subscribe do_unsubscribe : List ℕ → Action
  do_disconnect tick readable : Action
  do_send : ℕ → Command → Action

module _ {W : Type 0} (redis : Hiredis W) where
  abbrev pub without_result : Broker × W × ℕ → Broker × W
  without_result (b, w, rc) = (b, w)

  abbrev pub perform : Action → Broker → W → Option (Broker × W)
  perform (do_connect node) b w = some (without_result (connect redis node b w))
  perform (do_subscribe pattern) b w = subscribe redis pattern b w
  perform (do_unsubscribe pattern) b w = unsubscribe redis pattern b w
  perform do_disconnect b w = disconnect redis b w
  perform tick b w = some (without_result (on_timer redis b w))
  perform readable b w = on_readable redis b w
  perform (do_send failure cmd) b w = send redis failure cmd b w >>= λ r. some (without_result r)
