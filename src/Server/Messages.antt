-- ===== src/Server/Messages.antt =====
-- server_compose_msg() of server.c and UDP_server_recv() of UDP_server.c: from a datagram to the
-- message for the subscribers.
use tcp_udp_client_server.Base.{
  ℕ, ◌≡◌, refl, sym, ap, ◌∙◌, true, some, ◌++◌, take, drop, length, arith, length-replicate,
  take_whole, take_short,
}
use tcp_udp_client_server.CString.{Bytes}
use tcp_udp_client_server.Outcome.{Ends, Ends-eq, ok}
use tcp_udp_client_server.Packets.{
  TcpHeader, TcpStocMsg, UdpMsg, zeros, stoc_bytes, stoc_of, stoc_size, tcp_msg_maxlen, udp_bytes,
  udp_of, packet_maxlen,
}
use tcp_udp_client_server.Packets.Copies.{memcpy-some}
use tcp_udp_client_server.Packets.Layout.{
  IsUdp, IsStoc, stoc_of-bytes, udp_of-bytes, length-stoc_bytes, length-udp_bytes,
}
use tcp_udp_client_server.Server.{server_compose_msg}
use tcp_udp_client_server.UdpServer.{UdpServer, Datagram, udp_server_recv, received_packet}

-- The message of the last datagram.
abbrev pub stoc_msg : UdpServer → TcpStocMsg
stoc_msg u = record { src_ip = u.sin_addr; src_port = u.sin_port; content = u.msg }

abbrev zero_byte : ℕ
zero_byte = 0

pub composed :
    (u : UdpServer)
    → IsStoc (stoc_msg u)
    → server_compose_msg u
      ≡ some (record {
        msg_len = stoc_size;
        msg = stoc_bytes (stoc_msg u) ++ drop stoc_size (zeros tcp_msg_maxlen);
      })
unfolding server_compose_msg
composed u v =
    let size : length (stoc_bytes (stoc_msg u)) ≡ stoc_size = length-stoc_bytes (stoc_msg u) v in
    let copy =
      memcpy-some (zeros tcp_msg_maxlen) (stoc_bytes (stoc_msg u)) stoc_size
        (omega (arith, length-replicate tcp_msg_maxlen zero_byte)) (omega arith)
      ∙ ap (λ b. some (b ++ drop stoc_size (zeros tcp_msg_maxlen)))
          (take_whole (stoc_bytes (stoc_msg u)) (sym size)) in
    rw (copy, server_compose_msg) refl

-- What the UDP server holds after a datagram with all the bytes of a message.
abbrev pub holds_datagram : UdpServer → Datagram → UdpMsg → UdpServer
holds_datagram u d m = record u { sin_addr = d.sin_addr; sin_port = d.sin_port; msg = m }

pub udp_server_recv-whole :
    (junk : Bytes) (u : UdpServer) (d : Datagram) (m : UdpMsg)
    → d.bytes ≡ udp_bytes m
    → IsUdp m
    → udp_server_recv junk (some d) u ≡ ok true (holds_datagram u d m)
unfolding udp_server_recv
udp_server_recv-whole junk u d m e v =
    let all : take packet_maxlen (udp_bytes m) ≡ udp_bytes m =
      take_short packet_maxlen (udp_bytes m) (omega (arith, length-udp_bytes m v)) in
    let read : udp_of (received_packet junk d.bytes) ≡ m =
      rw (e, all) (udp_of-bytes m (drop (length (udp_bytes m)) junk) v) in
    rw read refl

-- A datagram with all the bytes of a message, from a sender whose address has four bytes and whose port
-- has sixteen bits: it is received, whatever lay in the buffer, and the header composed of it gives the
-- size of a message to a client, and is read back as the sender's address and port and the message.
pub udp_server_recv-compose :
    (junk : Bytes) (u : UdpServer) (d : Datagram) (m : UdpMsg)
    → d.bytes ≡ udp_bytes m
    → IsStoc (record { src_ip = d.sin_addr; src_port = d.sin_port; content = m })
    → Ends
        (λ received v.
          (received ≡ true)
          × ((h : TcpHeader) × (server_compose_msg v ≡ some h)
              × (h.msg_len ≡ stoc_size)
              × (stoc_of h.msg
                  ≡ record { src_ip = d.sin_addr; src_port = d.sin_port; content = m })))
        (udp_server_recv junk (some d) u)
udp_server_recv-compose junk u d m e v = Ends-eq (udp_server_recv-whole junk u d m e v.content) (
  refl,
  (
    record {
      msg_len = stoc_size;
      msg = stoc_bytes (stoc_msg (holds_datagram u d m)) ++ drop stoc_size (zeros tcp_msg_maxlen);
    },
    composed (holds_datagram u d m) v,
    refl,
    stoc_of-bytes (stoc_msg (holds_datagram u d m)) (drop stoc_size (zeros tcp_msg_maxlen)) v,
  ),
)
