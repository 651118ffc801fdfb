-- ===== src/Packets.antt =====
-- packets.h: the structs that travel over the sockets, and their bytes. They are packed, so a struct
-- is the bytes of its fields in order; a cast of a byte buffer reads the fields back. A uint16_t
-- lies in memory with its low byte first (the program's hosts are little-endian). `src_ip` is the
-- four bytes of the address. `memcpy` and `fill` are `none` where the C code leaves its buffers.
pub mod Layout
pub mod Print
pub mod Copies
use tcp_udp_client_server.Base.{
  ℕ, ◌+◌, ◌-◌, ◌*◌, ◌/◌, ◌%◌, Bool, true, false, ◌&&◌, Option, none, some, List, [], ◌∷◌, ◌++◌, ltb,
  leb, if◌then◌else◌, length, take, drop, replicate,
}
use tcp_udp_client_server.CString.{Bytes, fits}
use tcp_udp_client_server.Subscriptions.{topic_len}

abbrev pub content_maxlen : ℕ
content_maxlen = 1500

abbrev pub udp_msg_maxlen : ℕ
udp_msg_maxlen = 1551

abbrev pub tcp_msg_maxlen : ℕ
tcp_msg_maxlen = 1599

abbrev pub packet_maxlen : ℕ
packet_maxlen = 1615

abbrev pub ctos_maxlen : ℕ
ctos_maxlen = 52

-- enum TCP_msg_type
abbrev pub tcp_msg_new : ℕ
tcp_msg_new = 0

abbrev pub tcp_msg_subscribe : ℕ
tcp_msg_subscribe = 1

abbrev pub tcp_msg_unsubscribe : ℕ
tcp_msg_unsubscribe = 2

-- sizeof(struct TCP_ctos_msg), sizeof(struct TCP_stoc_msg), sizeof(struct TCP_header)
abbrev pub ctos_size : ℕ
ctos_size = 1 + ctos_maxlen

abbrev pub stoc_size : ℕ
stoc_size = 4 + 2 + udp_msg_maxlen

abbrev pub header_size : ℕ
header_size = 2 + tcp_msg_maxlen

pub record UdpMsg : Type 0 where
  pub topic : Bytes
  pub data_type : ℕ
  pub content : Bytes

pub record TcpHeader : Type 0 where
  pub msg_len : ℕ
  pub msg : Bytes

pub record TcpCtosMsg : Type 0 where
  pub msg_type : ℕ
  pub payload : Bytes

pub record TcpStocMsg : Type 0 where
  pub src_ip : Bytes
  pub src_port : ℕ
  pub content : UdpMsg

abbrev pub zeros : ℕ → Bytes
zeros n = replicate n 0

-- A uint16_t as two bytes, and back.
abbrev pub u16_bytes : ℕ → Bytes
u16_bytes n = (n % 256) ∷ (n / 256 % 256) ∷ []

abbrev pub u16_at : Bytes → ℕ
u16_at [] = 0
u16_at (a ∷ []) = a
u16_at (a ∷ b ∷ _) = a + 256 * b

abbrev pub u8_at : Bytes → ℕ
u8_at [] = 0
u8_at (a ∷ _) = a

unfoldable pub udp_bytes : UdpMsg → Bytes
udp_bytes m = m.topic ++ (m.data_type ∷ m.content)

unfoldable pub udp_of : Bytes → UdpMsg
udp_of b = record {
  topic = take topic_len b;
  data_type = u8_at (drop topic_len b);
  content = take content_maxlen (drop (topic_len + 1) b);
}

unfoldable pub header_bytes : TcpHeader → Bytes
header_bytes h = u16_bytes h.msg_len ++ h.msg

unfoldable pub header_of : Bytes → TcpHeader
header_of b = record { msg_len = u16_at b; msg = take tcp_msg_maxlen (drop 2 b) }

unfoldable pub ctos_bytes : TcpCtosMsg → Bytes
ctos_bytes m = m.msg_type ∷ m.payload

unfoldable pub ctos_of : Bytes → TcpCtosMsg
ctos_of b = record { msg_type = u8_at b; payload = take ctos_maxlen (drop 1 b) }

unfoldable pub stoc_bytes : TcpStocMsg → Bytes
stoc_bytes m = m.src_ip ++ (u16_bytes m.src_port ++ udp_bytes m.content)

unfoldable pub stoc_of : Bytes → TcpStocMsg
stoc_of b = record { src_ip = take 4 b; src_port = u16_at (drop 4 b); content = udp_of (drop 6 b) }

-- memcpy() of `n` bytes of `src` to the start of `dst`.
unfoldable pub memcpy : (dst src : Bytes) → ℕ → Option Bytes
memcpy dst src n =
    if leb n (length dst) && leb n (length src) then some (take n src ++ drop n dst) else none

-- A zeroed buffer of `n` bytes, with the string `s` copied to its start.
unfoldable pub fill : ℕ → Bytes → Option Bytes
fill n s = if fits n s then some (s ++ zeros (n - length s)) else none
