-- ===== src/TcpServer/Receive.antt =====
-- TCP_server_recv_all(), on the packets that TCP_client.c composes.
use tcp_udp_client_server.Base.{
  ◌≡◌, ◌≤◌, ◌+◌, ◌-◌, refl, ℕ, suc, some, length, take, drop, ◌++◌, ◌∷◌, [], arith, ap, sym, ◌∙◌,
  length-append, length-replicate, length-take, append-nil, drop-replicate, drop-append, take_whole,
}
use tcp_udp_client_server.CString.{Bytes}
use tcp_udp_client_server.Outcome.{ok}
use tcp_udp_client_server.Packets.{
  TcpHeader, TcpCtosMsg, zeros, memcpy, header_of, ctos_bytes, ctos_of, ctos_maxlen, packet_maxlen,
}
use tcp_udp_client_server.Packets.Copies.{memcpy-some, take-padded}
use tcp_udp_client_server.TcpClient.Commands.{carried}
use tcp_udp_client_server.TcpServer.{TcpServer, message, copy_message, tcp_server_recv_all}

abbrev zero_byte : ℕ
zero_byte = 0

-- The message that the server keeps of a payload: the first 50 bytes, and zeros.
abbrev pub kept : ℕ → Bytes → TcpCtosMsg
kept type s = record { msg_type = type; payload = take 50 s ++ zeros (52 - length (take 50 s)) }

padded_rest : (p : Bytes) (n : ℕ) → length p ≤ n → length (p ++ zeros (n - length p)) ≡ n
padded_rest p n h =
    omega (arith, length-append p (zeros (n - length p)), length-replicate (n - length p) zero_byte)

-- A buffer that is filled has nothing behind it.
filled : (b : Bytes) (m : ℕ) → length b ≡ m → b ++ drop (length b) (zeros m) ≡ b
filled b m e =
    let none_left : m - length b ≡ 0 = omega arith in
    ap (◌++◌ b) (drop-replicate 0 (length b) m ∙ ap zeros none_left) ∙ append-nil b

none_behind : (b : Bytes) {n : ℕ} → n ≡ length b → drop n b ≡ []
none_behind b {n} e = ap (drop n) (sym (append-nil b)) ∙ drop-append b [] {n = n} e

-- A copy over all of the message, for any size of the array.
copied_bytes :
    (old : Bytes) (type : ℕ) (p : Bytes) (c k : ℕ)
    → length old ≡ c
    → length p ≤ c
    → c ≤ length p + k
    → (x : ℕ)
    → memcpy (x ∷ old) (type ∷ (p ++ zeros k)) (suc c) ≡ some (type ∷ (p ++ zeros (c - length p)))
copied_bytes old type p c k e short many x =
    memcpy-some (x ∷ old) (type ∷ (p ++ zeros k)) (suc c) (omega arith)
      (omega (arith, length-append p (zeros k), length-replicate k zero_byte))
    ∙ ap some (
        ap (λ b. (type ∷ b) ++ drop c old) (take-padded p k c short many)
        ∙ ap (λ z. (type ∷ (p ++ zeros (c - length p))) ++ z) (none_behind old (sym e))
        ∙ append-nil (type ∷ (p ++ zeros (c - length p))))

copied :
    (h : TcpHeader) (s : TcpServer) (type : ℕ) (p : Bytes) (k : ℕ)
    → h.msg_len ≡ suc ctos_maxlen
    → h.msg ≡ type ∷ (p ++ zeros k)
    → length s.recv_msg.payload ≡ ctos_maxlen
    → length p ≤ ctos_maxlen
    → ctos_maxlen ≤ length p + k
    → copy_message h s
      ≡ ok message (record s {
        recv_msg = record { msg_type = type; payload = p ++ zeros (ctos_maxlen - length p) };
      })
unfolding copy_message ctos_bytes ctos_of
copied h s type p k len msg room short many =
    rw (len, msg)
      (rw
        (
          copied_bytes s.recv_msg.payload type p ctos_maxlen k room short many s.recv_msg.msg_type,
          copy_message,
          take_whole (p ++ zeros (ctos_maxlen - length p)) {n = ctos_maxlen}
              (sym (padded_rest p ctos_maxlen short)),
        )
        refl)

header_of-carried :
    (type : ℕ) (q : Bytes) (k m : ℕ)
    → length q ≤ k
    → m ≤ k
    → length q ≤ m
    → take (suc m) (type ∷ (q ++ zeros (k - length q))) ≡ type ∷ (q ++ zeros (m - length q))
header_of-carried type q k m short less more =
    ap (◌∷◌ type) (take-padded q (k - length q) m more (omega arith))

pub length-carried : (type : ℕ) (s : Bytes) → length (carried type s) ≡ packet_maxlen
length-carried type s =
    let cut : length (take 50 s) ≤ 50 = omega (arith, length-take 50 s) in
    let all = padded_rest (take 50 s) 1612 (omega arith) in omega arith

-- The state after the packet of a client's message.
abbrev pub receives : ℕ → Bytes → TcpServer → TcpServer
receives type text s = record s { recv_msg = kept type text }

-- A whole packet of a client leaves its type and the first 50 bytes of its text in `recv_msg`.
pub recv_all-carried :
    (type : ℕ) (text : Bytes) (s : TcpServer)
    → length s.recv_msg.payload ≡ ctos_maxlen
    → tcp_server_recv_all (some (carried type text)) s ≡ ok message (receives type text s)
unfolding tcp_server_recv_all header_of
recv_all-carried type text s room =
    let cut : length (take 50 text) ≤ 50 = omega (arith, length-take 50 text) in
    ap (λ b. copy_message (header_of b) s)
      (filled (carried type text) packet_maxlen (length-carried type text))
    ∙ copied (header_of (carried type text)) s type (take 50 text) (1598 - length (take 50 text))
        refl
        (header_of-carried type (take 50 text) 1612 1598 (omega arith) (omega arith) (omega arith))
        room (omega arith) (omega arith)
