-- ===== src/Udp/Reply.antt =====
-- proxy/src/Udp.cpp: where an answer to a datagram goes.
use broker_proxy.Base.{ℕ, ◌/◌, ◌%◌, ◌^◌, ◌<◌, ◌≡◌, ◌↔◌, refl, ap, sym, ◌∙◌, some, List, arith}
use broker_proxy.Udp.{
  swap_bytes, UdpMsg, dst_port, Datagram, SocketCalls, maxline, Udp, receive, outgoing,
}

swap_bytes_twice : (p : ℕ) → p < 2 ^ 16 → swap_bytes (swap_bytes p) ≡ p
swap_bytes_twice p h = omega arith

swap_bytes_fixed : (p : ℕ) → p < 2 ^ 16 → swap_bytes p ≡ p → p / 256 ≡ p % 256
swap_bytes_fixed p h e = omega (arith, e)

swap_bytes_same : (p : ℕ) → p < 2 ^ 16 → p / 256 ≡ p % 256 → swap_bytes p ≡ p
swap_bytes_same p h e = omega (arith, e)

-- The message that answers one, to the address that it came from.
abbrev pub answer : List ℕ → UdpMsg → UdpMsg
answer bs m = record m { dst = m.src; message = bs }

module _ {W : Type 0} (os : SocketCalls W) where
  -- A datagram has come from a port. An answer whose destination is the source of the message that
  -- was received goes back to that address, but to that port only if its two bytes are equal, since
  -- `send` does not put it into network order; if the port is then set by `dstPort`, it always does.
  pub answer-port_iff :
      (m : UdpMsg) (u : Udp) (w w' : W) (g : Datagram) (port : ℕ) (bs : List ℕ)
      → port < 2 ^ 16
      → g.net_port ≡ swap_bytes port
      → os.recvfrom u.sockfd maxline w ≡ (w', some g)
      → let got = (receive os m u w).0 in
        ((outgoing (answer bs got)).ip ≡ g.ip)
        × (((outgoing (answer bs got)).net_port ≡ g.net_port) ↔ (port / 256 ≡ port % 256))
        × ((outgoing (dst_port got.src.port (answer bs got))).net_port ≡ g.net_port)
  unfolding receive
  answer-port_iff m u w w' g port bs small from reads =
      let host = ap swap_bytes from ∙ swap_bytes_twice port small in
      rw reads (
        refl,
        (
          (λ e. swap_bytes_fixed port small (sym from ∙ sym e ∙ host)),
          (λ e. host ∙ sym (swap_bytes_same port small e) ∙ sym from),
        ),
        ap swap_bytes host ∙ sym from,
      )
