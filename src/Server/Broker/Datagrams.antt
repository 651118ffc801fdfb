-- ===== src/Server/Broker/Datagrams.antt =====
-- server.c: a datagram does to the broker what the specification says.
use tcp_udp_client_server.Base.{
  ◌≡◌, ◌<◌, refl, ℕ, Option, none, some, ◌++◌, arith, length, take, drop, length-append,
  length-take, length-drop,
}
use tcp_udp_client_server.CString.{Bytes}
use tcp_udp_client_server.Outcome.{Outcome, ok, exited, ends}
use tcp_udp_client_server.Packets.{
  TcpHeader, packet_maxlen, udp_of, stoc_size, stoc_bytes, zeros, tcp_msg_maxlen,
}
use tcp_udp_client_server.Sockets.{exit_failure}
use tcp_udp_client_server.Packets.Layout.{IsUdp}
use tcp_udp_client_server.Server.{
  Server, Answers, on_tcp, on_udp, send_composed, server_compose_msg, receive_udp,
}
use tcp_udp_client_server.Server.Broker.{Verdict, Broker, datagram_event}
use tcp_udp_client_server.Server.Broker.Represents.{broker_of, Represents, Refines}
use tcp_udp_client_server.Server.Invariant.{IsSound}
use tcp_udp_client_server.Server.Messages.{composed, stoc_msg}
use tcp_udp_client_server.TcpServer.{TcpServer}
use tcp_udp_client_server.TcpServer.Delivery.{send_to_subscribers-idle}
use tcp_udp_client_server.UdpServer.{UdpServer, Datagram, udp_server_recv, received_packet}

-- What recvfrom() tells of the sender: an address of four bytes and a port of 16 bits.
pub record IsSender (d : Datagram) : Type 0 where
  pub sin_addr : length d.sin_addr ≡ 4
  pub sin_port : d.sin_port < 65536

-- The answers have the sizes of the arrays they lie in.
pub record IsSized (a : Answers) : Type 0 where
  pub junk_packet : length a.junk_packet ≡ packet_maxlen
  pub sender : (d : Datagram) → a.datagram ≡ some d → IsSender d

received-IsUdp :
    (junk bytes : Bytes) → length junk ≡ packet_maxlen → IsUdp (udp_of (received_packet junk bytes))
unfolding udp_of
received-IsUdp junk bytes e =
    let all : length (received_packet junk bytes) ≡ packet_maxlen = omega (
      arith,
      length-append (take packet_maxlen bytes) (drop (length (take packet_maxlen bytes)) junk),
      length-take packet_maxlen bytes,
      length-drop (length (take packet_maxlen bytes)) junk,
    ) in
    record {
      topic = omega (arith, length-take 50 (received_packet junk bytes));
      content = omega (
        arith,
        length-take 1500 (drop 51 (received_packet junk bytes)),
        length-drop 51 (received_packet junk bytes),
      );
    }

-- The message that is composed.
abbrev message_of : UdpServer → TcpHeader
message_of u = record {
  msg_len = stoc_size;
  msg = stoc_bytes (stoc_msg u) ++ drop stoc_size (zeros tcp_msg_maxlen);
}

-- It goes to nobody.
sent_to_none :
    (s : Server) (i : IsSound s) (h : TcpHeader) (rc : Option ℕ)
    → send_composed rc (some h) s ≡ (elim rc as (λ _. Outcome Server (Unit {0})) [
      | none ↦ exited exit_failure s
      | some n ↦ ok tt s
    ])
unfolding send_composed on_tcp
sent_to_none s i h none = rw (send_to_subscribers-idle h none s.tcp_server i.tcp_server.cursor) refl
sent_to_none s i h (some n) =
    rw (send_to_subscribers-idle h (some n) s.tcp_server i.tcp_server.cursor) refl

module _ (s : Server) (i : IsSound s) where
  abbrev t : TcpServer
  t = s.tcp_server

  abbrev Does : Verdict Broker → Outcome Server (Unit {0}) → Type 0
  Does = Refines (Represents s.udp_server.fd s.tcp_server.fd)

  -- The server with a datagram.
  abbrev with_datagram : Bytes → Datagram → Server
  with_datagram junk d = record s {
    udp_server = record s.udp_server {
      sin_addr = d.sin_addr;
      sin_port = d.sin_port;
      msg = udp_of (received_packet junk d.bytes);
    };
  }

  composed_of :
      (a : Answers) (d : Datagram)
      → IsSender d
      → length a.junk_packet ≡ packet_maxlen
      → server_compose_msg (with_datagram a.junk_packet d).udp_server
        ≡ some (message_of (with_datagram a.junk_packet d).udp_server)
  composed_of a d from size = composed _ (record {
    src_ip = from.sin_addr;
    src_port = from.sin_port;
    content = received-IsUdp a.junk_packet d.bytes size;
  })

  pub datagram_event-Refines :
      (a : Answers) (o : Option Datagram) (rc : Option ℕ)
      → a.datagram ≡ o
      → a.junk_rc ≡ rc
      → IsSized a
      → Does (datagram_event o rc (broker_of s i)) (receive_udp a s)
  unfolding datagram_event receive_udp on_udp udp_server_recv
  datagram_event-Refines a none rc e f z = rw e (s, refl)
  datagram_event-Refines a (some d) none e f z =
      rw
        (
          e,
          f,
          composed_of a d (z.sender d e) z.junk_packet,
          sent_to_none (with_datagram a.junk_packet d)
              (record { poller = i.poller; tcp_server = i.tcp_server })
              (message_of (with_datagram a.junk_packet d).udp_server) none,
        )
        (with_datagram a.junk_packet d, refl)
  datagram_event-Refines a (some d) (some n) e f z =
      rw
        (
          e,
          f,
          composed_of a d (z.sender d e) z.junk_packet,
          sent_to_none (with_datagram a.junk_packet d)
              (record { poller = i.poller; tcp_server = i.tcp_server })
              (message_of (with_datagram a.junk_packet d).udp_server) (some n),
        )
        (ends (record {
          sound = (record { poller = i.poller; tcp_server = i.tcp_server });
          udp = refl;
          tcp = refl;
          same = refl;
        }))
