-- ===== src/Redis/Replies.antt =====
-- broker/src/BrokerRedis.cpp: the replies of hiredis as trees, what is printed of them, and the
-- message handlers on them. A reply that has no string has a NULL pointer, which the handlers do not
-- look for: `none` is the undefined behaviour.
mod Tests
pub mod Handled
use broker_proxy.Base.{
  ℕ, zero, suc, ◌≡◌, Bool, true, false, Option, none, some, List, [], ◌∷◌, ◌++◌, if◌then◌else◌,
  ◌>>=◌,
}
use broker_proxy.Cbor.{ℤ, pos, negsuc, c_string}
use broker_proxy.Text.{decimal_int}
use broker_proxy.Redis.{Broker, Hiredis, same_text, pmessage, raw, send, einval}

-- `redisReply`, by its type.
mutual
  pub data RedisReply : Type 0 where
    array : Replies → RedisReply
    integer : ℤ → RedisReply
    string status failure : List ℕ → RedisReply
    nil : RedisReply
    other_type : ℤ → RedisReply

  pub data Replies : Type 0 where
    no_replies : Replies
    reply_and : RedisReply → Replies → Replies

-- "Reply failed ", "(status) ", "(nill)", " (error) " and "unexpected redisReply type : "
abbrev pub failed_text : List ℕ
failed_text = 82 ∷ 101 ∷ 112 ∷ 108 ∷ 121 ∷ 32 ∷ 102 ∷ 97 ∷ 105 ∷ 108 ∷ 101 ∷ 100 ∷ 32 ∷ []

abbrev pub status_text : List ℕ
status_text = 40 ∷ 115 ∷ 116 ∷ 97 ∷ 116 ∷ 117 ∷ 115 ∷ 41 ∷ 32 ∷ []

abbrev pub nil_text : List ℕ
nil_text = 40 ∷ 110 ∷ 105 ∷ 108 ∷ 108 ∷ 41 ∷ []

abbrev pub error_text : List ℕ
error_text = 32 ∷ 40 ∷ 101 ∷ 114 ∷ 114 ∷ 111 ∷ 114 ∷ 41 ∷ 32 ∷ []

abbrev pub unexpected_text : List ℕ
unexpected_text =
    117 ∷ 110 ∷ 101 ∷ 120 ∷ 112 ∷ 101 ∷ 99 ∷ 116 ∷ 101 ∷ 100 ∷ 32 ∷ 114 ∷ 101 ∷ 100 ∷ 105 ∷ 115 ∷ 82
    ∷ 101 ∷ 112 ∷ 108 ∷ 121 ∷ 32 ∷ 116 ∷ 121 ∷ 112 ∷ 101 ∷ 32 ∷ 58 ∷ 32 ∷ []

-- `replyToString`, of a reply that is there.
unfoldable mutual
  pub reply_to_string : RedisReply → List ℕ
  reply_to_string (array rs) = 91 ∷ replies_to_string rs ++ 93 ∷ []
  reply_to_string (integer n) = decimal_int n
  reply_to_string (string s) = 39 ∷ c_string s ++ 39 ∷ []
  reply_to_string (status s) = status_text ++ c_string s
  reply_to_string nil = nil_text
  reply_to_string (failure s) = error_text ++ c_string s
  reply_to_string (other_type n) = unexpected_text ++ decimal_int n

  pub replies_to_string : Replies → List ℕ
  replies_to_string no_replies = []
  replies_to_string (reply_and r rs) = reply_to_string r ++ 44 ∷ replies_to_string rs

abbrev pub print_reply : Option RedisReply → List ℕ
print_reply none = failed_text
print_reply (some r) = reply_to_string r

-- `str` of a reply, NULL where it has none, and `element[i]`, undefined out of range.
abbrev pub str_of : RedisReply → Option (List ℕ)
str_of (string s) = some s
str_of (status s) = some s
str_of (failure s) = some s
str_of (array rs) = none
str_of (integer n) = none
str_of nil = none
str_of (other_type n) = none

abbrev pub element : Replies → ℕ → Option RedisReply
element no_replies i = none
element (reply_and r rs) zero = some r
element (reply_and r rs) (suc i) = element rs i

abbrev pub str_at : Replies → ℕ → Option (List ℕ)
str_at rs i = element rs i >>= str_of

-- `onMessage` of an array; `strcmp` and `string topic = ...->str` stop at a NUL.
abbrev pub on_pmessage : Replies → Broker → Option Broker
on_pmessage rs b = str_at rs 2 >>= λ topic. str_at rs 3 >>= λ payload.
    some (record b { incoming = b.incoming ++ (c_string topic, payload) ∷ [] })

abbrev pub on_message_kind : Replies → Broker → List ℕ → Option Broker
on_message_kind rs b kind = if same_text (c_string kind) pmessage then on_pmessage rs b else some b

unfoldable pub on_message_reply : RedisReply → Broker → Option Broker
on_message_reply (array rs) b = str_at rs 0 >>= on_message_kind rs b
on_message_reply (integer n) b = some b
on_message_reply (string s) b = some b
on_message_reply (status s) b = some b
on_message_reply (failure s) b = some b
on_message_reply nil b = some b
on_message_reply (other_type n) b = some b

-- The test in front of `onMessage` in the read invoker.
unfoldable pub on_readable_reply : RedisReply → Broker → Option Broker
on_readable_reply (array rs) b = str_at rs 0 >>= λ kind.
    if same_text (c_string kind) pmessage then on_message_reply (array rs) b else some b
on_readable_reply (integer n) b = some b
on_readable_reply (string s) b = some b
on_readable_reply (status s) b = some b
on_readable_reply (failure s) b = some b
on_readable_reply nil b = some b
on_readable_reply (other_type n) b = some b

-- `findSub`, for the patterns of the subscribers.
unfoldable pub find_sub : List ℕ → List (List ℕ) → Option (List ℕ)
find_sub pattern [] = none
find_sub pattern (p ∷ ps) =
    let rest = find_sub pattern ps in if same_text p pattern then some p else rest

-- "XREAD BLOCK 0 STREAMS " and " $"
abbrev pub xread_text : List ℕ → List ℕ
xread_text key =
    (88 ∷ 82 ∷ 69 ∷ 65 ∷ 68 ∷ 32 ∷ 66 ∷ 76 ∷ 79 ∷ 67 ∷ 75 ∷ 32 ∷ 48 ∷ 32 ∷ 83 ∷ 84 ∷ 82 ∷ 69 ∷ 65
      ∷ 77 ∷ 83 ∷ 32 ∷ [])
    ++ c_string key
    ++ 32 ∷ 36 ∷ []

module _ {W : Type 0} (redis : Hiredis W) where
  -- `request`: the function is called with the reply, which is what the server answers to the
  -- command, where there is one.
  abbrev pub requested :
      (W → RedisReply) → Option (Broker × W × ℕ) → Option (Broker × W × ℕ × Option RedisReply)
  requested reply none = none
  requested reply (some (b, w, zero)) = some (b, w, 0, some (reply w))
  requested reply (some (b, w, suc e)) = some (b, w, suc e, none)

  unfoldable pub request :
      (W → RedisReply) → List ℕ → Broker → W → Option (Broker × W × ℕ × Option RedisReply)
  request reply cmd b w = requested reply (send redis einval (raw cmd) b w)

  -- `xread`, which reports no failure: there is no reply then, and no new connection.
  unfoldable pub xread : (W → RedisReply) → List ℕ → Broker → W → Option (W × Option RedisReply)
  xread reply key b w =
      if b.is_connected
      then (b.publish_context >>= λ c.
          let r = redis.command c (raw (xread_text key)) w in
          some (r.0, if r.1 then some (reply r.0) else none))
      else some (w, none)
