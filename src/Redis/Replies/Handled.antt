-- ===== src/Redis/Replies/Handled.antt =====
-- broker/src/BrokerRedis.cpp: replies that are arrays of strings.
use broker_proxy.Base.{ℕ, ◌≢◌, List, [], ◌∷◌, All}
use broker_proxy.Redis.Replies.{Replies, string, no_replies, reply_and}

abbrev pub strings : List (List ℕ) → Replies
strings [] = no_replies
strings (s ∷ ss) = reply_and (string s) (strings ss)

abbrev pub IsText : List ℕ → Type 0
IsText s = All (λ c. c ≢ 0) s
