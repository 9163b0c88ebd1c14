-- ===== src/Udp.antt =====
-- proxy/src/Udp.cpp, Udp.h and SessionUdp.cpp on a little-endian host, over the calls of the operating
-- system. A descriptor is a number, and `none` is -1; messages that are only printed are left out.
pub mod Reply
pub mod Resolve
mod Tests
use broker_proxy.Base.{
  ℕ, zero, suc, ◌+◌, ◌-◌, ◌*◌, ◌/◌, ◌%◌, ◌^◌, ◌≡◌, Bool, true, false, not, Option, none, some, List,
  [], ◌∷◌, ◌==◌, if◌then◌else◌,
}
use broker_proxy.Address.{isdigit, UdpAddress}
use broker_proxy.Session.{Watched, add_read_invoker, add_error_invoker, delete_invoker}

-- `htons` and `ntohs`
abbrev pub swap_bytes : ℕ → ℕ
swap_bytes p = p % 256 * 256 + p / 256 % 256

pub record UdpMsg : Type 0 where
  pub src : UdpAddress
  pub dst : UdpAddress
  pub message : List ℕ

-- `dstPort`: the port is kept in network order.
abbrev pub dst_port : ℕ → UdpMsg → UdpMsg
dst_port port m = record m { dst = record m.dst { port = swap_bytes port } }

-- A datagram: the address of its sender, with the port in network order, and its bytes.
pub record Datagram : Type 0 where
  pub ip : ℕ
  pub net_port : ℕ
  pub bytes : List ℕ

-- What `send` gives to `sendto`: the port of the destination as it is.
abbrev pub outgoing : UdpMsg → Datagram
outgoing m = record { ip = m.dst.ip; net_port = m.dst.port; bytes = m.message }

pub record SocketCalls (W : Type 0) : Type 0 where
  pub socket : W → W × Option ℕ
  pub set_reuse : ℕ → W → W
  pub bind : ℕ → ℕ → W → W × Bool
  pub close : Option ℕ → W → W × ℕ
  pub recvfrom : Option ℕ → ℕ → W → W × Option Datagram
  pub sendto : Option ℕ → Datagram → W → W × Bool
  pub errno : W → ℕ

-- `PORT` is not used; the buffer has `MAXLINE` bytes.
abbrev pub maxline : ℕ
maxline = 1500

pub record Udp : Type 0 where
  pub my_port : ℕ
  pub sockfd : Option ℕ

abbrev pub set_port : ℕ → Udp → Udp
set_port port u = record u { my_port = port % 2 ^ 16 }

module _ {W : Type 0} (os : SocketCalls W) where
  abbrev pub bound : Udp → W × Bool → Udp × W × ℕ
  bound u (w, true) = (u, w, 0)
  bound u (w, false) = (u, w, os.errno w)

  abbrev pub socket_opened : Udp → W × Option ℕ → Udp × W × ℕ
  socket_opened u (w, none) = (record u { sockfd = none }, w, os.errno w)
  socket_opened u (w, some fd) =
      bound (record u { sockfd = some fd }) (os.bind fd (swap_bytes u.my_port) (os.set_reuse fd w))

  unfoldable pub init : Udp → W → Udp × W × ℕ
  init u w = socket_opened u (os.socket w)

  abbrev pub de_init : Udp → W → W × ℕ
  de_init u w = os.close u.sockfd w

  -- What is read goes to the message, whose source has the port in host order.
  abbrev pub received : UdpMsg → W × Option Datagram → UdpMsg × W × ℕ
  received m (w, none) = (m, w, os.errno w)
  received m (w, some g) = (
    record m { src = record { ip = g.ip; port = swap_bytes g.net_port }; message = g.bytes },
    w,
    0,
  )

  unfoldable pub receive : UdpMsg → Udp → W → UdpMsg × W × ℕ
  receive m u w = received m (os.recvfrom u.sockfd maxline w)

  abbrev pub sent : W × Bool → W × ℕ
  sent (w, true) = (w, 0)
  sent (w, false) = (w, os.errno w)

  unfoldable pub send : UdpMsg → Udp → W → W × ℕ
  send m u w = sent (os.sendto u.sockfd (outgoing m) w)

-- `in_addr_t(-1)`
abbrev pub no_addr : ℕ
no_addr = 2 ^ 32 - 1

-- `hostname[0]`
abbrev pub first_char : List ℕ → ℕ
first_char [] = 0
first_char (c ∷ cs) = c

-- The loop over the answers of `getaddrinfo`, each an address of IPv4, or another one.
abbrev pub last_inet : ℕ → List (Option ℕ) → ℕ
last_inet addr [] = addr
last_inet addr (none ∷ infos) = last_inet addr infos
last_inet addr (some a ∷ infos) = last_inet a infos

abbrev pub resolved : Option (List (Option ℕ)) → ℕ × Bool
resolved none = (no_addr, true)
resolved (some infos) = let addr = last_inet no_addr infos in (addr, not (addr == no_addr))

-- `getInetAddr` over `inet_addr` and `getaddrinfo`: the address, and the result.
unfoldable pub get_inet_addr :
    (List ℕ → ℕ) → (List ℕ → Option (List (Option ℕ))) → List ℕ → ℕ × Bool
get_inet_addr inet_addr getaddrinfo hostname =
    if isdigit (first_char hostname)
    then (inet_addr hostname, not (inet_addr hostname == no_addr))
    else resolved (getaddrinfo hostname)

-- `SessionUdp`, with the files of its thread and what it hands to `_incomingMessage`.
pub record UdpSession : Type 0 where
  pub port : ℕ
  pub udp : Udp
  pub udp_msg : UdpMsg
  pub thread : Watched

module _ {W : Type 0} (os : SocketCalls W) where
  abbrev pub with_udp : UdpSession → Udp × W × ℕ → UdpSession × W
  with_udp s (u, w, rc) = (record s { udp = u }, w)

  -- `SessionUdp::init`, which does not look at the result of the socket.
  unfoldable pub init_session : UdpSession → W → UdpSession × W
  init_session s w = with_udp s (init os (set_port s.port s.udp) w)

  abbrev pub handed : UdpSession → UdpMsg × W × ℕ → UdpSession × W × Option (List ℕ)
  handed s (m, w, zero) = (record s { udp_msg = m }, w, some m.message)
  handed s (m, w, suc e) = (record s { udp_msg = m }, w, none)

  unfoldable pub invoke_session : UdpSession → W → UdpSession × W × Option (List ℕ)
  invoke_session s w = handed s (receive os s.udp_msg s.udp w)

  abbrev pub watched : Option ℕ → Watched → Watched
  watched none t = t
  watched (some fd) t = add_error_invoker fd (add_read_invoker fd t)

  abbrev pub unwatched : Option ℕ → Watched → Watched
  unwatched none t = t
  unwatched (some fd) t = delete_invoker fd t

  -- `connect` and `disconnect` of a session whose socket is open; a descriptor -1 is undefined there.
  unfoldable pub connect_session : UdpSession → UdpSession
  connect_session s = record s { thread = watched s.udp.sockfd s.thread }

  unfoldable pub disconnect_session : UdpSession → W → UdpSession × W
  disconnect_session s w =
      (record s { thread = unwatched s.udp.sockfd s.thread }, (de_init os s.udp w).0)
