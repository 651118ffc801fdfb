-- ===== src/TcpServer/Truncation.antt =====
-- TCP_server_send(): what a packet carries of a message to a client.
use tcp_udp_client_server.Base.{
  ◌≡◌, ◌≤◌, ◌+◌, ◌-◌, sym, ap, ◌∙◌, ℕ, suc, some, [], ◌∷◌, ◌++◌, take, length, arith, append_assoc,
  length-append, length-replicate, length-take, drop-replicate, take-append_more,
}
use tcp_udp_client_server.CString.{Bytes}
use tcp_udp_client_server.Packets.{
  TcpHeader, TcpStocMsg, zeros, memcpy, u16_bytes, header_bytes, header_of, stoc_bytes, stoc_of,
  udp_bytes, stoc_size, tcp_msg_maxlen, packet_maxlen,
}
use tcp_udp_client_server.Packets.Copies.{memcpy-some, take-padded, take_inside}
use tcp_udp_client_server.Packets.Layout.{IsStoc, stoc_of-bytes, length-stoc_bytes}
use tcp_udp_client_server.TcpServer.{tcp_server_packet}

abbrev zero_byte : ℕ
zero_byte = 0

-- The message with another content.
abbrev with_content : TcpStocMsg → Bytes → TcpStocMsg
with_content m b = record m { content = record m.content { content = b } }

-- The message without the last two bytes of its content, which are zero instead.
abbrev pub cut : TcpStocMsg → TcpStocMsg
cut m = with_content m (take 1498 m.content.content ++ (0 ∷ 0 ∷ []))

abbrev front : TcpStocMsg → Bytes
front m = m.src_ip ++ (u16_bytes m.src_port ++ (m.content.topic ++ (m.content.data_type ∷ [])))

front-append : (m : TcpStocMsg) (b : Bytes) → front m ++ b ≡ stoc_bytes (with_content m b)
unfolding stoc_bytes udp_bytes
front-append m b =
    let t : Bytes = m.content.topic in
    let d : Bytes = m.content.data_type ∷ [] in
    append_assoc m.src_ip (u16_bytes m.src_port ++ (t ++ d)) b
    ∙ ap (λ z. m.src_ip ++ (u16_bytes m.src_port ++ z)) (append_assoc t d b)

length-front : (m : TcpStocMsg) → IsStoc m → length (front m) ≡ 57
length-front m v = omega (
  arith,
  v.src_ip,
  v.content.topic,
  length-append m.src_ip (u16_bytes m.src_port ++ (m.content.topic ++ (m.content.data_type ∷ []))),
  length-append m.content.topic (m.content.data_type ∷ []),
)

-- The bytes of a message that a packet has room for.
take-stoc_bytes :
    (m : TcpStocMsg) → IsStoc m → take 1555 (stoc_bytes m) ≡ front m ++ take 1498 m.content.content
take-stoc_bytes m v =
    ap (take 1555) (sym (front-append m m.content.content))
    ∙ take-append_more (front m) m.content.content {n = 1555} 1498 (omega (arith, length-front m v))

-- Those bytes and zeros behind them are the bytes of the cut message.
cut-bytes :
    (m : TcpStocMsg)
    → IsStoc m
    → take 1555 (stoc_bytes m) ++ zeros 44 ≡ stoc_bytes (cut m) ++ zeros 42
cut-bytes m v =
    let c : Bytes = take 1498 m.content.content in
    ap (λ b. b ++ zeros 44) (take-stoc_bytes m v)
    ∙ append_assoc (front m) c (zeros 44)
    ∙ ap (◌++◌ (front m)) (sym (append_assoc c (0 ∷ 0 ∷ []) (zeros 42)))
    ∙ sym (append_assoc (front m) (c ++ (0 ∷ 0 ∷ [])) (zeros 42))
    ∙ ap (λ b. b ++ zeros 42) (front-append m (c ++ (0 ∷ 0 ∷ [])))

cut-IsStoc : (m : TcpStocMsg) → IsStoc m → IsStoc (cut m)
cut-IsStoc m v = record {
  src_ip = v.src_ip;
  src_port = v.src_port;
  content = record {
    topic = v.content.topic;
    content = omega (
      arith,
      v.content.content,
      length-take 1498 m.content.content,
      length-append (take 1498 m.content.content) (0 ∷ 0 ∷ []),
    );
  };
}

-- The packet of a message, for any room behind it.
packet-bytes :
    (a b : ℕ) (msg : Bytes) (j m : ℕ)
    → j ≤ length msg
    → 2 + j ≤ m
    → memcpy (zeros m) (a ∷ b ∷ msg) (suc (suc j))
      ≡ some (a ∷ b ∷ (take j msg ++ zeros (m - suc (suc j))))
packet-bytes a b msg j m inside room =
    memcpy-some (zeros m) (a ∷ b ∷ msg) (suc (suc j)) (omega (arith, length-replicate m zero_byte))
      (omega arith)
    ∙ ap (λ z. some (a ∷ b ∷ (take j msg ++ z))) (drop-replicate 0 (suc (suc j)) m)

-- The header of a message, with the bytes of the array that the message leaves.
abbrev pub header_with : TcpStocMsg → Bytes → TcpHeader
header_with m rest = record { msg_len = stoc_size; msg = stoc_bytes m ++ rest }

abbrev packet_of : TcpStocMsg → Bytes
packet_of m = 21 ∷ 6 ∷ (take 1555 (stoc_bytes m) ++ zeros 58)

sent-packet :
    (m : TcpStocMsg) (rest : Bytes)
    → IsStoc m
    → tcp_server_packet (header_with m rest) ≡ some (packet_of m)
unfolding tcp_server_packet header_bytes
sent-packet m rest v =
    let size = length-stoc_bytes m v in
    packet-bytes 21 6 (stoc_bytes m ++ rest) 1555 packet_maxlen
      (omega (arith, length-append (stoc_bytes m) rest)) (omega arith)
    ∙ ap (λ b. some (21 ∷ 6 ∷ (b ++ zeros 58))) (take_inside (stoc_bytes m) rest 1555 (omega arith))

received-msg :
    (m : TcpStocMsg) → IsStoc m → (header_of (packet_of m)).msg ≡ stoc_bytes (cut m) ++ zeros 42
unfolding header_of
received-msg m v =
    let size : length (take 1555 (stoc_bytes m)) ≡ 1555 =
      omega (arith, length-take 1555 (stoc_bytes m), length-stoc_bytes m v) in
    let room : tcp_msg_maxlen - length (take 1555 (stoc_bytes m)) ≡ 44 = omega arith in
    take-padded (take 1555 (stoc_bytes m)) 58 tcp_msg_maxlen (omega arith) (omega arith)
    ∙ ap (λ k. take 1555 (stoc_bytes m) ++ zeros k) room
    ∙ cut-bytes m v

-- A message with an address of four bytes, a port of sixteen bits, a topic of 50 and a content of 1500
-- bytes, at the front of a header's array: its packet is composed, and who reads the packet finds the
-- message with the last two bytes of its content set to zero.
pub tcp_server_packet-cut :
    (m : TcpStocMsg) (rest : Bytes)
    → IsStoc m
    → (packet : Bytes) × (tcp_server_packet (header_with m rest) ≡ some packet)
      × (stoc_of (header_of packet).msg ≡ cut m)
tcp_server_packet-cut m rest v = (
  packet_of m,
  sent-packet m rest v,
  ap stoc_of (received-msg m v) ∙ stoc_of-bytes (cut m) (zeros 42) (cut-IsStoc m v),
)
