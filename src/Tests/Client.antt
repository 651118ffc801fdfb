-- ===== src/Tests/Client.antt =====
-- The client's theorems at concrete inputs: the lines of a user and the packets of the server.
use tcp_udp_client_server.Base.{
  ◌≡◌, refl, ap, ℕ, zero, suc, true, false, Option, some, [], ◌∷◌, ◌++◌, arith, length,
  length-replicate, replicate,
}
use tcp_udp_client_server.CString.{Bytes, c_str, scan_unsigned, digits_value}
use tcp_udp_client_server.CString.Words.{IsWord}
use tcp_udp_client_server.Exchange.Publishing.{line}
use tcp_udp_client_server.Outcome.{Ends, ok}
use tcp_udp_client_server.Packets.{udp_bytes, udp_of, header_of, stoc_of, packet_maxlen}
use tcp_udp_client_server.Poller.{poller_create}
use tcp_udp_client_server.Sockets.Sending.{Moves}
use tcp_udp_client_server.TcpClient.{client_cmd_subscribe}
use tcp_udp_client_server.TcpClient.Display.{Line, shown_of, print_subscription_message, line_of}
use tcp_udp_client_server.TcpClient.Display.Formats.{Value, int_value}
use tcp_udp_client_server.TcpClient.Input.{get_args, get_user_command}
use tcp_udp_client_server.TcpClient.Input.Parsing.{
  subscribe_line, newline, get_user_command-subscribe, get_args-dotted,
}
use tcp_udp_client_server.TcpClient.Run.{TcpClient, handle_event}
use tcp_udp_client_server.TcpClient.Run.Turns.{Shown as PacketShown, handle_event-print}
use tcp_udp_client_server.UdpServer.{Datagram}

abbrev pub sports : Bytes
sports = b's' ∷ b'p' ∷ b'o' ∷ b'r' ∷ b't' ∷ []

pub sports-IsWord : IsWord sports
sports-IsWord = (
  omega arith,
  refl,
  (omega arith, refl, (omega arith, refl, (omega arith, refl, (omega arith, refl, tt)))),
)

abbrev minus_seven : Value
minus_seven = int_value true 7

abbrev blank : ℕ → Bytes
blank n = replicate n 0

-- -7 on the topic, in a datagram of 56 bytes.
abbrev sports_datagram : Datagram
sports_datagram = record {
  sin_addr = 127 ∷ 0 ∷ 0 ∷ 1 ∷ [];
  sin_port = 4660;
  bytes = (sports ++ 0 ∷ blank 44) ++ 0 ∷ (1 ∷ 0 ∷ 0 ∷ 0 ∷ 7 ∷ []);
}

abbrev sports_line : Line
sports_line = line (127 ∷ 0 ∷ 0 ∷ 1 ∷ []) 4660 sports minus_seven

abbrev zero_byte : ℕ
zero_byte = 0

abbrev pub typing : Bytes → TcpClient
typing stdin = record {
  fd = 3;
  id = b'a' ∷ b'n' ∷ b'n' ∷ [];
  recv_packet = blank packet_maxlen;
  socket = record { answers = replicate 1620 (some 9); out = []; pending = [] };
  poller = poller_create;
  stdin = stdin;
  printed = [];
  closed = false;
}

pub steady-Moves : (n : ℕ) → Moves (replicate n (some 9))
steady-Moves zero = tt
steady-Moves (suc n) = (omega arith, steady-Moves n)

-- A packet with -7 on the topic.
abbrev sports_packet : Bytes
sports_packet =
    (46 ∷ 6 ∷ 127 ∷ 0 ∷ 0 ∷ 1 ∷ 52 ∷ 18 ∷ [])
    ++ (sports ++ blank 45)
    ++ (0 ∷ 1 ∷ 0 ∷ 0 ∷ 0 ∷ 7 ∷ [])
    ++ blank 1551

sports_packet-print : print_subscription_message sports_packet ≡ some sports_line
unfolding print_subscription_message line_of shown_of header_of stoc_of udp_of udp_bytes c_str
sports_packet-print = refl

abbrev twice_sent : TcpClient
twice_sent = record (typing []) {
  socket = record {
    answers = replicate 1620 (some 9);
    out = [];
    pending = sports_packet ++ (sports_packet ++ []);
  };
}

handle_event-print_example :
    Ends (λ _. PacketShown twice_sent sports_packet [] sports_line) (handle_event 3 twice_sent)
handle_event-print_example =
    handle_event-print twice_sent sports_packet [] refl (omega arith) refl (steady-Moves 1620)
      (omega (arith, length-replicate {A = Option ℕ} 1620 (some 9))) sports_line 3 (omega arith)
      sports_packet-print

get_user_command-subscribe_example :
    get_user_command (subscribe_line sports b'7' [])
    ≡ some
        (record { cmd = client_cmd_subscribe; topic = sports; store_and_forward = 7 }, newline ∷ [])
get_user_command-subscribe_example =
    get_user_command-subscribe sports b'7' [] (λ e. absurd (omega (arith, ap length e)))
      sports-IsWord (omega arith) refl

-- "127.0.0.1" is the address 127.0.0.0, whose first byte is the lowest.
get_args-dotted_example :
    get_args
      ([]
        ∷ sports
        ∷ ((b'1' ∷ b'2' ∷ b'7' ∷ []) ++ b'.' ∷ b'0' ∷ b'.' ∷ b'0' ∷ b'.' ∷ b'1' ∷ [])
        ∷ (b'8' ∷ b'0' ∷ [])
        ∷ [])
      tt
    ≡ ok (record { id = sports; server_ip = 127; server_port = 80 }) tt
unfolding scan_unsigned digits_value
get_args-dotted_example =
    get_args-dotted [] sports (b'8' ∷ b'0' ∷ []) b'1' (b'2' ∷ b'7' ∷ [])
      (b'0' ∷ b'.' ∷ b'0' ∷ b'.' ∷ b'1' ∷ []) 80 (λ e. absurd (omega (arith, ap length e)))
      sports-IsWord (omega arith) (refl, (refl, (refl, tt))) (omega arith) refl tt
