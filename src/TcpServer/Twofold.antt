-- ===== src/TcpServer/Twofold.antt =====
-- TCP_server_recv_all1() of TCP_server.c, an older form of TCP_server_recv_all() that nothing calls: it receives the
-- length and then the packet. `first` and `second` are what the two calls of recv() give. The second writes
-- at `&recv_packet + 2`, two whole structs behind the packet, so a byte that it writes is undefined behaviour.
-- What sscanf() converts goes to a variable that nothing reads.
use tcp_udp_client_server.Base.{ℕ, Option, none, some, [], ◌∷◌, ◌++◌, length, take, drop}
use tcp_udp_client_server.CString.{Bytes}
use tcp_udp_client_server.Outcome.{ok, fault, Cmd, pure, ◌>>◌}
use tcp_udp_client_server.Packets.{
  TcpHeader, memcpy, zeros, header_of, ctos_bytes, ctos_of, u16_at, packet_maxlen,
}
use tcp_udp_client_server.Packets.Print.{tcp_ctos_msg_print}
use tcp_udp_client_server.TcpServer.{
  TcpServer, receiving, received, received_more, message_received, print, Received, failed, ended,
  message,
}

-- The zeroed packet, with the length in front.
abbrev length_packet : Bytes → Bytes
length_packet bytes = take 2 bytes ++ drop (length (take 2 bytes)) (zeros packet_maxlen)

-- The message, printed and then copied: as many bytes as the header says.
unfoldable pub take_printed : TcpHeader → Cmd TcpServer Received
take_printed h = do
  λ s. elim (tcp_ctos_msg_print (ctos_of h.msg)) [
    | none ↦ fault
    | some m ↦ print (message_received m) s
  ]
  λ s. elim (memcpy (ctos_bytes s.recv_msg) (ctos_bytes (ctos_of h.msg)) h.msg_len) [
    | none ↦ fault
    | some b ↦ ok message (record s { recv_msg = ctos_of b })
  ]

unfoldable pub recv_rest : TcpHeader → (second : Option Bytes) → Cmd TcpServer Received
recv_rest h none = pure failed
recv_rest h (some []) = do print (received_more 0 h.msg_len); take_printed h
recv_rest h (some (c ∷ bytes)) = λ _. fault

unfoldable pub tcp_server_recv_all1 :
    (fd : ℕ) → (first second : Option Bytes) → Cmd TcpServer Received
tcp_server_recv_all1 fd none second = do print (receiving fd); print (received none 0); pure failed
tcp_server_recv_all1 fd (some []) second = do
  print (receiving fd)
  print (received (some 0) 0)
  pure ended
tcp_server_recv_all1 fd (some (c ∷ bytes)) second = do
  print (receiving fd)
  print (received (some (length (take 2 (c ∷ bytes)))) (u16_at (length_packet (c ∷ bytes))))
  recv_rest (header_of (length_packet (c ∷ bytes))) second
