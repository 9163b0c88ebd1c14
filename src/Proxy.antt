-- ===== src/Proxy.antt =====
-- proxy/src/serialProxy.cpp, of which proxy/src/udpProxy.cpp is a copy: what `main` does with the
-- frames, the log lines and the messages of the brokers. What it asks of others is a list of calls.
-- The command line and the files of `flashFileToDevice` are left out.
pub mod Messages
pub mod LogLines
pub mod Flash
mod Tests
use broker_proxy.Base.{
  ℕ, zero, suc, ◌≡◌, Bool, true, false, ◌&&◌, Option, none, some, List, [], ◌∷◌, ◌++◌, ◌==◌,
  if◌then◌else◌, ◌>>=◌,
}
use broker_proxy.Redis.{same_text}
use broker_proxy.Cbor.{
  c_string, ℤ, pos, negsuc, TinyCbor, CborSerializer, add_int, add_string, add_bytes, begin_array,
  end_array, is_encoded, to_bytes, CborDeserializer, from_bytes, begin_read, end_read, is_decoded,
  get_int, get_string, get_bytes,
}

-- `MsgType`
abbrev pub b_publish : ℕ
b_publish = 0

abbrev pub b_subscribe : ℕ
b_subscribe = 1

abbrev pub b_unsubscribe : ℕ
b_unsubscribe = 2

abbrev pub b_node : ℕ
b_node = 3

abbrev pub b_log : ℕ
b_log = 4

abbrev pub is_type : ℤ → ℕ → Bool
is_type (pos n) k = n == k
is_type (negsuc n) k = false

pub record PubMsg : Type 0 where
  pub topic : List ℕ
  pub payload : List ℕ

-- What the flows ask of `broker`, `brokerProxy` and the session.
pub data Call : Type 0 where
  publish : PubMsg → Call
  subscribe : List ℕ → Call
  subscribe_proxy : List ℕ → Call
  log_line : List ℕ → List ℕ → Call
  disconnect_session : Call
  write_image : List ℕ → Call
  flash_device : Call
  connect_session : Call

-- "dst/", "/*", "-proxy/*", "-proxy/" and "prog/flash"
abbrev pub dst_slash : List ℕ
dst_slash = 100 ∷ 115 ∷ 116 ∷ 47 ∷ []

abbrev pub slash_star : List ℕ
slash_star = 47 ∷ 42 ∷ []

abbrev pub proxy_slash : List ℕ
proxy_slash = 45 ∷ 112 ∷ 114 ∷ 111 ∷ 120 ∷ 121 ∷ 47 ∷ []

abbrev pub proxy_slash_star : List ℕ
proxy_slash_star = proxy_slash ++ 42 ∷ []

abbrev pub prog_flash : List ℕ
prog_flash = 112 ∷ 114 ∷ 111 ∷ 103 ∷ 47 ∷ 102 ∷ 108 ∷ 97 ∷ 115 ∷ 104 ∷ []

-- The variables of `main` that its handlers use.
pub record Proxy (E V : Type 0) : Type 0 where
  pub from_cbor : CborDeserializer V
  pub to_cbor : CborSerializer E
  pub node_name : List ℕ
  pub log_buffer : List ℕ

module _ {E V : Type 0} (lib : TinyCbor E V) where
  -- `getPubMsg`, `getSubMsg` and `getNodeMsg`: a LambdaFlow emits what its function returns with
  -- true. `t` is the uninitialised message type.
  abbrev pub get_pub_msg :
      ℤ → List ℕ → CborDeserializer V → Option (CborDeserializer V × Option PubMsg)
  get_pub_msg t frame d =
      let r = get_int lib t (begin_read lib (from_bytes lib frame d)) in
      get_string lib [] r.0 >>= λ topic. get_bytes lib [] topic.0 >>= λ payload. some (
        end_read lib payload.0,
        if is_decoded lib (end_read lib payload.0) && is_type r.1 b_publish
            then some (record { topic = topic.1; payload = payload.1 })
            else none,
      )

  -- The message type and one string, as in `getSubMsg` and `getNodeMsg`.
  abbrev pub get_typed_string :
      ℕ → ℤ → List ℕ → CborDeserializer V → Option (CborDeserializer V × Option (List ℕ))
  get_typed_string type t frame d =
      let r = get_int lib t (begin_read lib (from_bytes lib frame d)) in
      get_string lib [] r.0 >>= λ s.
      some (s.0, if is_decoded lib s.0 && is_type r.1 type then some s.1 else none)

  abbrev pub get_sub_msg :
      ℤ → List ℕ → CborDeserializer V → Option (CborDeserializer V × Option (List ℕ))
  get_sub_msg = get_typed_string b_subscribe

  abbrev pub get_node_msg :
      ℤ → List ℕ → CborDeserializer V → Option (CborDeserializer V × Option (List ℕ))
  get_node_msg = get_typed_string b_node

  -- The handlers behind the three flows.
  abbrev pub on_pub_msg : Option PubMsg → List Call
  on_pub_msg none = []
  on_pub_msg (some msg) = publish msg ∷ []

  abbrev pub on_sub_msg : Option (List ℕ) → List Call
  on_sub_msg none = []
  on_sub_msg (some pattern) = subscribe pattern ∷ []

  abbrev pub on_node_msg : Option (List ℕ) → Proxy E V → Proxy E V × List Call
  on_node_msg none p = (p, [])
  on_node_msg (some node) p = (
    record p { node_name = node },
    subscribe (dst_slash ++ node ++ slash_star)
        ∷ subscribe_proxy (dst_slash ++ node ++ proxy_slash_star)
        ∷ [],
  )

  -- A frame, which the session emits to the three flows in turn.
  unfoldable pub on_frame : ℤ → List ℕ → Proxy E V → Option (Proxy E V × List Call)
  on_frame t frame p = get_pub_msg t frame p.from_cbor >>= λ pub_msg.
      get_sub_msg t frame pub_msg.0 >>= λ sub_msg. get_node_msg t frame sub_msg.0 >>= λ node_msg.
      let r = on_node_msg node_msg.1 (record p { from_cbor = node_msg.0 }) in
      some (r.0, on_pub_msg pub_msg.1 ++ on_sub_msg sub_msg.1 ++ r.1)

  -- A message of the broker, as the frame for the session.
  unfoldable pub on_broker : PubMsg → Proxy E V → Proxy E V × Option (List ℕ)
  on_broker msg p =
      let s = end_array lib (
        add_bytes lib msg.payload
          (add_string lib msg.topic (add_int lib (pos b_publish) (begin_array lib p.to_cbor)))) in
      (record p { to_cbor = s }, if is_encoded lib s then some (to_bytes lib s) else none)

-- A message for the proxy itself; `written` is the result of `writeBytesToFile`.
unfoldable pub on_broker_proxy : {E V : Type 0} → Bool → PubMsg → Proxy E V → List Call
on_broker_proxy written msg p =
    if same_text msg.topic (dst_slash ++ p.node_name ++ proxy_slash ++ prog_flash)
    then disconnect_session ∷ write_image msg.payload ∷ (if written then flash_device ∷ [] else [])
      ++ connect_session ∷ []
    else []

-- One byte in `redisLogStream`, with the buffer and the lines that it has sent off: a name and a
-- text end at their first NUL.
abbrev pub log_byte : List ℕ → ℕ → List ℕ × List Call → List ℕ × List Call
log_byte node b (buffer, calls) =
    if b == 10
    then ([], calls ++ log_line (c_string node) (c_string buffer) ∷ [])
    else if b == 13
    then (buffer, calls)
    else (buffer ++ b ∷ [], calls)

abbrev pub log_bytes : List ℕ → List ℕ → List ℕ × List Call → List ℕ × List Call
log_bytes node [] s = s
log_bytes node (b ∷ bs) s = log_bytes node bs (log_byte node b s)

unfoldable pub on_log : {E V : Type 0} → List ℕ → Proxy E V → Proxy E V × List Call
on_log bs p =
    let r = log_bytes p.node_name bs (p.log_buffer, []) in (record p { log_buffer = r.0 }, r.1)
