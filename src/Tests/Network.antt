-- ===== src/Tests/Network.antt =====
-- Messages between a client and the server, and a run of the server.
use tcp_udp_client_server.Base.{
  ◌<◌, ◌≡◌, refl, ap, ℕ, zero, suc, false, none, some, List, [], ◌∷◌, ◌++◌, arith, length,
  length-replicate, replicate, drop, ◌≤◌, true,
}
use tcp_udp_client_server.CString.{Bytes, c_str, scan_unsigned}
use tcp_udp_client_server.CString.Words.{IsWord, IsWord-IsText}
use tcp_udp_client_server.Outcome.{Ends, Holds}
use tcp_udp_client_server.Packets.{
  TcpHeader, TcpCtosMsg, TcpStocMsg, UdpMsg, zeros, udp_bytes, stoc_of, stoc_size, ctos_maxlen,
}
use tcp_udp_client_server.Packets.Layout.{IsUdp, IsStoc}
use tcp_udp_client_server.Server.{Answers, Round, run_server, server_compose_msg}
use tcp_udp_client_server.Server.Messages.{udp_server_recv-compose}
use tcp_udp_client_server.Server.Silence.{run_server-IsSilent}
use tcp_udp_client_server.Sockets.{Socket, recv_all}
use tcp_udp_client_server.Sockets.Sending.{Moves}
use tcp_udp_client_server.Sockets.Receiving.{recv_all-doubled}
use tcp_udp_client_server.TcpClient.{
  client_cmd_subscribe, CommandArgs, subscribe_packet, message_packet,
}
use tcp_udp_client_server.TcpClient.Commands.{carried}
use tcp_udp_client_server.TcpServer.{TcpServer, message, tcp_server_create, tcp_server_recv_all}
use tcp_udp_client_server.TcpServer.{tcp_server_packet}
use tcp_udp_client_server.Packets.{header_of}
use tcp_udp_client_server.TcpServer.Truncation.{header_with, cut, tcp_server_packet-cut}
use tcp_udp_client_server.TcpServer.Arguments.{
  args_of_packet, flag, subscribe-arrives, subscribe-flag_lost, message-arrives,
}
use tcp_udp_client_server.UdpServer.{UdpServer, Datagram, udp_server_recv}

-- %hhu keeps the number modulo 256.
wrapped_number : scan_unsigned 8 (b' ' ∷ b'2' ∷ b'5' ∷ b'7' ∷ []) ≡ some 1
unfolding scan_unsigned
wrapped_number = refl

abbrev zero_byte : ℕ
zero_byte = 0

abbrev pub quiet_net : ℕ → Socket
quiet_net d = record { answers = []; out = []; pending = [] }

abbrev pub empty_msg : TcpCtosMsg
empty_msg = record { msg_type = 0; payload = zeros ctos_maxlen }

abbrev server : TcpServer
server = tcp_server_create 4 empty_msg quiet_net

abbrev news : Bytes
news = b'n' ∷ b'e' ∷ b'w' ∷ b's' ∷ []

abbrev subscribe_news : CommandArgs
subscribe_news = record { cmd = client_cmd_subscribe; topic = news; store_and_forward = 1 }

news-IsWord : IsWord news
news-IsWord = (omega arith, refl, (omega arith, refl, (omega arith, refl, (omega arith, refl, tt))))

server_room : length server.recv_msg.payload ≡ ctos_maxlen
unfolding tcp_server_create
server_room = omega (arith, length-replicate ctos_maxlen zero_byte)

subscribe-arrives_example :
    (packet : Bytes) × (subscribe_packet 1 subscribe_news ≡ some packet)
    × Ends
        (λ got t.
          (got ≡ record { topic = news; store_and_forward = flag 1 }) × (t.recv_msg.msg_type ≡ 1))
        (args_of_packet 9 packet server)
subscribe-arrives_example =
    subscribe-arrives 1 subscribe_news 9 server (λ e. absurd (omega (arith, ap length e)))
      news-IsWord (omega arith) server_room

abbrev long_topic : Bytes
long_topic = replicate 49 b'a'

repeated-IsWord : (n : ℕ) → IsWord (replicate n b'a')
repeated-IsWord zero = tt
repeated-IsWord (suc n) = (omega arith, refl, repeated-IsWord n)

abbrev subscribe_long : CommandArgs
subscribe_long = record { cmd = client_cmd_subscribe; topic = long_topic; store_and_forward = 1 }

subscribe-flag_lost_example :
    (packet : Bytes) × (subscribe_packet 1 subscribe_long ≡ some packet)
    × Ends
        (λ got t.
          (got ≡ record { topic = long_topic; store_and_forward = 9 }) × (t.recv_msg.msg_type ≡ 1))
        (args_of_packet 9 packet server)
subscribe-flag_lost_example =
    subscribe-flag_lost 1 subscribe_long 9 server (repeated-IsWord 49)
      (length-replicate {A = ℕ} 49 b'a') server_room

message-arrives_example :
    (packet : Bytes) × (message_packet 0 news ≡ some packet)
    × Ends
        (λ got t.
          (got ≡ message) × (t.recv_msg.msg_type ≡ 0) × (c_str t.recv_msg.payload ≡ some news))
        (tcp_server_recv_all (some packet) server)
message-arrives_example =
    message-arrives 0 news server (IsWord-IsText news news-IsWord) (omega arith) server_room

abbrev news_msg : UdpMsg
news_msg = record { topic = news ++ zeros 46; data_type = 3; content = replicate 1500 b'x' }

news_msg-IsUdp : IsUdp news_msg
news_msg-IsUdp = record { topic = refl; content = length-replicate {A = ℕ} 1500 b'x' }

abbrev pub news_datagram : Datagram
news_datagram = record {
  sin_addr = 127 ∷ 0 ∷ 0 ∷ 1 ∷ [];
  sin_port = 4660;
  bytes = udp_bytes news_msg;
}

abbrev news_stoc : TcpStocMsg
news_stoc = record { src_ip = 127 ∷ 0 ∷ 0 ∷ 1 ∷ []; src_port = 4660; content = news_msg }

news_stoc-IsStoc : IsStoc news_stoc
news_stoc-IsStoc = record { src_ip = refl; src_port = omega arith; content = news_msg-IsUdp }

abbrev pub udp_server : UdpServer
udp_server = record {
  fd = 3;
  sin_addr = zeros 4;
  sin_port = 0;
  msg = record { topic = zeros 50; data_type = 0; content = zeros 1500 };
  closed = false;
}

udp_server_recv-compose_example :
    Ends
      (λ received v.
        (received ≡ true)
        × ((h : TcpHeader) × (server_compose_msg v ≡ some h)
            × (h.msg_len ≡ stoc_size)
            × (stoc_of h.msg ≡ news_stoc)))
      (udp_server_recv (zeros 1615) (some news_datagram) udp_server)
udp_server_recv-compose_example =
    udp_server_recv-compose (zeros 1615) udp_server news_datagram news_msg refl news_stoc-IsStoc

abbrev busy : Bytes → Socket
busy pending = record {
  answers = some 2 ∷ some 5 ∷ some 1 ∷ some 1 ∷ [];
  out = [];
  pending = pending;
}

busy-Moves : Moves (busy []).answers
busy-Moves = (omega arith, (omega arith, (omega arith, (omega arith, tt))))

abbrev twice : Bytes
twice = 1 ∷ 2 ∷ 3 ∷ 1 ∷ 2 ∷ 3 ∷ 9 ∷ []

recv_all-doubled_example :
    Ends
      (λ (rc, buffer) t.
        (n : ℕ) × (rc ≡ some n)
        × (0 < n)
        × (n ≤ 3)
        × (buffer ≡ 1 ∷ 2 ∷ 3 ∷ [])
        × (t.pending ≡ drop n (1 ∷ 2 ∷ 3 ∷ []) ++ (9 ∷ []))
        × (t.out ≡ []))
      (recv_all (0 ∷ 0 ∷ 0 ∷ []) (busy twice))
recv_all-doubled_example =
    recv_all-doubled (0 ∷ 0 ∷ 0 ∷ []) (1 ∷ 2 ∷ 3 ∷ []) (9 ∷ []) (busy twice) refl refl busy-Moves
      (omega arith) (omega arith)

abbrev pub no_answers : Answers
no_answers = record {
  input = [];
  accepted = none;
  bytes = none;
  datagram = none;
  fresh = 2;
  junk_packet = zeros 1615;
  junk_flag = 0;
  junk_rc = some 0;
}

-- A client connects, gives its id, subscribes to the topic, and a datagram on the topic comes. The answers
-- `spare` are left over in every round.
abbrev pub news_rounds : (spare : List Answers) → List Round
news_rounds spare =
    record {
      revents = some (0 ∷ 0 ∷ 1 ∷ []);
      turns =
          record no_answers {
            accepted = some (record { cli_fd = 5; sin_addr = 1; sin_port = 4000 });
          }
          ∷ no_answers
          ∷ spare;
    }
    ∷ record {
      revents = some (0 ∷ 0 ∷ 0 ∷ 1 ∷ []);
      turns =
          record no_answers { fresh = 3; bytes = some (carried 0 (b'a' ∷ b'n' ∷ b'n' ∷ [])) }
          ∷ no_answers
          ∷ spare;
    }
    ∷ record {
      revents = some (0 ∷ 0 ∷ 0 ∷ 1 ∷ []);
      turns =
          record no_answers { fresh = 3; bytes = some (carried 1 (news ++ (b' ' ∷ b'1' ∷ []))) }
          ∷ no_answers
          ∷ spare;
    }
    ∷ record {
      revents = some (0 ∷ 1 ∷ 0 ∷ 0 ∷ []);
      turns = record no_answers { fresh = 4; datagram = some news_datagram } ∷ no_answers ∷ spare;
    }
    ∷ []

run_server-IsSilent_example :
    Holds
      (λ s. (d : ℕ) → (s.tcp_server.net d).out ≡ [])
      (run_server udp_server (tcp_server_create 4 empty_msg quiet_net) (news_rounds []))
run_server-IsSilent_example = run_server-IsSilent udp_server 4 empty_msg quiet_net (news_rounds [])

tcp_server_packet-cut_example :
    (packet : Bytes) × (tcp_server_packet (header_with news_stoc (zeros 42)) ≡ some packet)
    × (stoc_of (header_of packet).msg ≡ cut news_stoc)
tcp_server_packet-cut_example = tcp_server_packet-cut news_stoc (zeros 42) news_stoc-IsStoc
