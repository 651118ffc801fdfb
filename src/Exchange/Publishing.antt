-- ===== src/Exchange/Publishing.antt =====
-- UDP_server_recv(), server_compose_msg(), the packet of TCP_server_send(), and
-- TCP_client_print_subscription_message(), one after the other.
use tcp_udp_client_server.Base.{
  ◌≡◌, ◌≤◌, ◌+◌, ◌-◌, ap, sym, ◌∙◌, length-append, length-take, take-append-drop, ℕ, some, ◌∷◌,
  ◌++◌, take, drop, length, arith, append_assoc,
}
use tcp_udp_client_server.CString.{Bytes}
use tcp_udp_client_server.Packets.{udp_of, UdpMsg, TcpHeader, udp_bytes}
use tcp_udp_client_server.Packets.Layout.{IsUdp, udp_of-bytes}
use tcp_udp_client_server.Server.{server_compose_msg}
use tcp_udp_client_server.TcpClient.Display.{Line}
use tcp_udp_client_server.TcpClient.Display.Formats.{Value, show, type_of, encode}
use tcp_udp_client_server.TcpServer.{tcp_server_packet}
use tcp_udp_client_server.UdpServer.{UdpServer}

-- The message of a publication: the topic's text and a NUL, the type, and the value.
abbrev pub published : (topic : Bytes) → Value → (behind_topic behind_value : Bytes) → UdpMsg
published topic v a b = record {
  topic = topic ++ 0 ∷ a;
  data_type = type_of v;
  content = encode v ++ b;
}

-- The line that shows it.
abbrev pub line : (ip : Bytes) (port : ℕ) (topic : Bytes) → Value → Line
line ip port topic v = record { src_ip = ip; src_port = port; topic = topic; shown = show v }

-- The packet of a message, as the server composes and sends it.
abbrev pub PacketOf : UdpServer → Bytes → Type 0
PacketOf u packet =
    (h : TcpHeader) × (server_compose_msg u ≡ some h) × (tcp_server_packet h ≡ some packet)

-- The buffer of 1615 bytes, at the front a datagram with all of the value: its message is the value's,
-- with behind it what else the datagram and the buffer hold.
module _ (topic a : Bytes) (v : Value) (c rest : Bytes) (named : length (topic ++ 0 ∷ a) ≡ 50)
    (short : length (encode v) ≤ 1498)
    (full : 1615 ≤ 51 + length (encode v) + length c + length rest) where
  abbrev pub behind : Bytes
  behind = take (1500 - length (encode v)) (c ++ rest)

  abbrev held_msg : UdpMsg
  held_msg = published topic v a behind

  pub held-IsUdp : IsUdp held_msg
  held-IsUdp = record {
    topic = named;
    content = omega (
      arith,
      length-append (encode v) behind,
      length-take (1500 - length (encode v)) (c ++ rest),
      length-append c rest,
      short,
      full,
    );
  }

  held_bytes :
      ((topic ++ 0 ∷ a) ++ type_of v ∷ (encode v ++ c)) ++ rest
      ≡ udp_bytes held_msg ++ drop (1500 - length (encode v)) (c ++ rest)
  unfolding udp_bytes
  held_bytes =
      let n : ℕ = 1500 - length (encode v) in
      append_assoc (topic ++ 0 ∷ a) (type_of v ∷ (encode v ++ c)) rest
      ∙ ap (λ b. (topic ++ 0 ∷ a) ++ type_of v ∷ b)
          (append_assoc (encode v) c rest
            ∙ ap (λ b. encode v ++ b) (sym (take-append-drop n (c ++ rest)))
            ∙ sym (append_assoc (encode v) behind (drop n (c ++ rest))))
      ∙ sym (append_assoc (topic ++ 0 ∷ a) (type_of v ∷ (encode v ++ behind)) (drop n (c ++ rest)))

  pub held_read : udp_of (((topic ++ 0 ∷ a) ++ type_of v ∷ (encode v ++ c)) ++ rest) ≡ held_msg
  held_read = ap udp_of held_bytes ∙ udp_of-bytes held_msg _ held-IsUdp
