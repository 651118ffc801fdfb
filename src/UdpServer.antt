-- ===== src/UdpServer.antt =====
-- UDP_server.h and UDP_server.c: the datagram that the UDP server keeps.
-- What recvfrom() gives is an argument: `none` for -1, else the bytes of the datagram, cut at the
-- size of the buffer, and the address of its sender, which it writes into `serv_addr`. `junk` is what
-- lies in the buffer, which no line initialises. `sin_port` is in network byte order.
use tcp_udp_client_server.Base.{
  ℕ, ◌+◌, ◌*◌, ◌/◌, ◌%◌, ◌++◌, Bool, true, false, Option, none, some, length, take, drop,
}
use tcp_udp_client_server.CString.{Bytes}
use tcp_udp_client_server.Outcome.{ok, Cmd}
use tcp_udp_client_server.Packets.Print.{UdpPrinted, udp_msg_print}
use tcp_udp_client_server.Packets.{UdpMsg, udp_of, packet_maxlen}

pub record UdpServer : Type 0 where
  pub fd : ℕ
  pub sin_addr : Bytes
  pub sin_port : ℕ
  pub msg : UdpMsg
  pub closed : Bool

pub record Datagram : Type 0 where
  pub sin_addr : Bytes
  pub sin_port : ℕ
  pub bytes : Bytes

-- UDP_server_create(), on what malloc() left.
unfoldable pub udp_server_create : (fd : ℕ) → (sin_addr : Bytes) (sin_port : ℕ) → UdpMsg → UdpServer
udp_server_create fd sin_addr sin_port msg = record {
  fd = fd;
  sin_addr = sin_addr;
  sin_port = sin_port;
  msg = msg;
  closed = false;
}

-- UDP_server_destroy(), but for the release of the struct.
unfoldable pub udp_server_destroy : Cmd UdpServer (Unit {0})
udp_server_destroy s = ok tt (record s { closed = true })

-- UDP_server_print(): the descriptor, the address, the port and the message.
pub record ServerPrinted : Type 0 where
  pub fd : ℕ
  pub sin_addr : Bytes
  pub port : ℕ
  pub msg : UdpPrinted

unfoldable pub udp_server_print : UdpServer → Option ServerPrinted
udp_server_print s = elim (udp_msg_print s.msg) [
  | none ↦ none
  | some m ↦ some (record {
    fd = s.fd;
    sin_addr = s.sin_addr;
    port = s.sin_port % 256 * 256 + s.sin_port / 256;
    msg = m;
  })
]

-- The buffer after recvfrom().
abbrev pub received_packet : (junk : Bytes) → Bytes → Bytes
received_packet junk bytes =
    take packet_maxlen bytes ++ drop (length (take packet_maxlen bytes)) junk

-- `false` is -1.
unfoldable pub udp_server_recv : (junk : Bytes) → Option Datagram → Cmd UdpServer Bool
udp_server_recv junk none s = ok false s
udp_server_recv junk (some d) s = ok true (record s {
  sin_addr = d.sin_addr;
  sin_port = d.sin_port;
  msg = udp_of (received_packet junk d.bytes);
})
