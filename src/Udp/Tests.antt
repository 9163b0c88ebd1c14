-- ===== src/Udp/Tests.antt =====
-- A network that has one datagram from the port 1883, and the theorems there.
use broker_proxy.Base.{
  ℕ, ◌/◌, ◌%◌, ◌≡◌, ◌≢◌, ◌↔◌, ◌⊎◌, refl, true, false, Option, none, some, List, [], ◌∷◌, arith,
}
use broker_proxy.Address.{isdigit, UdpAddress, from_uri}
use broker_proxy.Split.{split}
use broker_proxy.Udp.{
  swap_bytes, UdpMsg, dst_port, Datagram, SocketCalls, Udp, init, receive, outgoing, no_addr,
  first_char, get_inet_addr, UdpSession, init_session, invoke_session,
}
use broker_proxy.Udp.Reply.{answer, answer-port_iff}
use broker_proxy.Udp.Resolve.{get_inet_addr-true_iff}

abbrev datagram : Datagram
datagram = record { ip = 16777343; net_port = swap_bytes 1883; bytes = 7 ∷ [] }

-- The state is the port that is bound.
abbrev network : SocketCalls ℕ
network = record {
  socket = λ w. (w, some 3);
  set_reuse = λ fd w. w;
  bind = λ fd port w. (port, true);
  close = λ fd w. (0, 0);
  recvfrom = λ fd n w. (w, some datagram);
  sendto = λ fd g w. (w, true);
  errno = λ w. 9;
}

abbrev nowhere : UdpAddress
nowhere = record { ip = 0; port = 0 }

abbrev message : UdpMsg
message = record { src = nowhere; dst = nowhere; message = [] }

abbrev socket : Udp
socket = record { my_port = 1883; sockfd = some 3 }

answer-port_iff_example :
    let got = (receive network message socket 0).0 in
    ((outgoing (answer (8 ∷ []) got)).ip ≡ 16777343)
    × (((outgoing (answer (8 ∷ []) got)).net_port ≡ swap_bytes 1883) ↔ (1883 / 256 ≡ 1883 % 256))
    × ((outgoing (dst_port got.src.port (answer (8 ∷ []) got))).net_port ≡ swap_bytes 1883)
answer-port_iff_example =
    answer-port_iff network message socket 0 0 datagram 1883 (8 ∷ []) (omega arith) refl refl

-- No name is known.
abbrev unknown : List ℕ → Option (List (Option ℕ))
unknown s = none

abbrev localhost : List ℕ → ℕ
localhost s = 16777343

get_inet_addr-true_iff_example :
    let r = get_inet_addr localhost unknown (120 ∷ []) in
    (r.1 ≡ true)
    ↔ (((isdigit (first_char (120 ∷ [])) ≡ false) × (unknown (120 ∷ []) ≡ none)) ⊎ (r.0 ≢ no_addr))
get_inet_addr-true_iff_example = get_inet_addr-true_iff localhost unknown (120 ∷ [])

-- "x:" is then an address, 255.255.255.255 and port 0.
unknown_host :
    from_uri (get_inet_addr localhost unknown) nowhere (120 ∷ 58 ∷ [])
    ≡ (record { ip = no_addr; port = 0 }, true)
unfolding from_uri get_inet_addr split
unknown_host = refl

abbrev session : UdpSession
session = record {
  port = 67419;
  udp = socket;
  udp_msg = message;
  thread = record {
    read_invokers = [];
    error_invokers = [];
    rfds = [];
    efds = [];
    read_pipe = 0;
    max_fd = 0;
  };
}

-- A port of more than 16 bits loses its upper bits, and a datagram is handed on.
session_port : (init_session network session 0).1 ≡ swap_bytes 1883
unfolding init_session init
session_port = refl

session_hands : (invoke_session network session 0).2 ≡ some (7 ∷ [])
unfolding invoke_session receive
session_hands = refl
