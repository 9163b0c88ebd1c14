-- ===== src/Redis/Replies/Tests.antt =====
-- What is printed of a reply, and the handler of a message.
use broker_proxy.Base.{◌≡◌, refl, some, none, [], ◌∷◌, ◌++◌}
use broker_proxy.Cbor.{negsuc}
use broker_proxy.Text.{decimal, decimal_int}
use broker_proxy.Redis.{Broker, pmessage}
use broker_proxy.Redis.Replies.Handled.{strings}
use broker_proxy.Redis.Replies.{
  array, integer, string, nil, no_replies, reply_and, reply_to_string, on_readable_reply,
  on_message_reply, find_sub,
}

-- "[-12,'a',(nill),]"
print_array :
    reply_to_string (
      array
        (reply_and (integer (negsuc 11)) (reply_and (string (97 ∷ [])) (reply_and nil no_replies))))
    ≡ 91 ∷ 45 ∷ 49 ∷ 50 ∷ 44 ∷ 39 ∷ 97 ∷ 39 ∷ 44 ∷ 40 ∷ 110 ∷ 105 ∷ 108 ∷ 108 ∷ 41 ∷ 44 ∷ 93 ∷ []
unfolding reply_to_string decimal_int decimal
print_array = refl

find_second : find_sub (98 ∷ []) ((97 ∷ []) ∷ (98 ∷ []) ∷ []) ≡ some (98 ∷ [])
unfolding find_sub
find_second = refl

-- An array that begins with nil has no string to compare.
nil_undefined : (b : Broker) → on_readable_reply (array (reply_and nil no_replies)) b ≡ none
unfolding on_readable_reply
nil_undefined b = refl

-- A message with the payload 5 under the topic "t".
message_taken :
    (b : Broker)
    → on_readable_reply (array (strings (pmessage ∷ (42 ∷ []) ∷ (116 ∷ []) ∷ (5 ∷ []) ∷ []))) b
      ≡ some (record b { incoming = b.incoming ++ (116 ∷ [], 5 ∷ []) ∷ [] })
unfolding on_readable_reply on_message_reply
message_taken b = refl
