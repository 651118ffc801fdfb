-- ===== src/Packets/Layout.antt =====
-- The structs are read back from their bytes as they were.
use tcp_udp_client_server.Base.{
  ◌≡◌, ◌<◌, ◌+◌, ℕ, length, take, ◌++◌, ◌∷◌, take-append, drop-append, append_assoc,
  drop-append_more, length-append, arith, ap, sym, ◌∙◌,
}
use tcp_udp_client_server.CString.{Bytes}
use tcp_udp_client_server.Subscriptions.{topic_len}
use tcp_udp_client_server.Packets.{
  UdpMsg, TcpStocMsg, content_maxlen, udp_bytes, udp_of, stoc_bytes, stoc_of, u16_bytes, u16_at,
  u8_at, udp_msg_maxlen, stoc_size,
}

pub record IsUdp (m : UdpMsg) : Type 0 where
  pub topic : length m.topic ≡ topic_len
  pub content : length m.content ≡ content_maxlen

pub record IsStoc (m : TcpStocMsg) : Type 0 where
  pub src_ip : length m.src_ip ≡ 4
  pub src_port : m.src_port < 65536
  pub content : IsUdp m.content

pub u16_at-bytes : (n : ℕ) (b : Bytes) → n < 65536 → u16_at (u16_bytes n ++ b) ≡ n
u16_at-bytes n b small = omega arith

pub udp_of-bytes : (m : UdpMsg) (rest : Bytes) → IsUdp m → udp_of (udp_bytes m ++ rest) ≡ m
unfolding udp_of udp_bytes
udp_of-bytes m rest is =
    let tail : Bytes = m.data_type ∷ (m.content ++ rest) in
    let whole : (m.topic ++ (m.data_type ∷ m.content)) ++ rest ≡ m.topic ++ tail =
      append_assoc m.topic (m.data_type ∷ m.content) rest in
    rw whole (λ i. record {
      topic = take-append m.topic tail (sym is.topic) i;
      data_type = ap u8_at (drop-append m.topic tail (sym is.topic)) i;
      content =
          (ap (take content_maxlen)
                (drop-append_more m.topic tail {n = topic_len + 1} 1 (omega (arith, is.topic)))
              ∙ take-append m.content rest (sym is.content))
            i;
    })

-- A message with an address of four bytes, a port of sixteen bits, a topic of 50 and a content of 1500 bytes
-- is read back from its bytes, whatever follows them.
pub stoc_of-bytes : (m : TcpStocMsg) (rest : Bytes) → IsStoc m → stoc_of (stoc_bytes m ++ rest) ≡ m
unfolding stoc_of stoc_bytes
stoc_of-bytes m rest is =
    let tail : Bytes = u16_bytes m.src_port ++ (udp_bytes m.content ++ rest) in
    let whole : (m.src_ip ++ (u16_bytes m.src_port ++ udp_bytes m.content)) ++ rest
        ≡ m.src_ip ++ tail =
      append_assoc m.src_ip (u16_bytes m.src_port ++ udp_bytes m.content) rest in
    rw whole (λ i. record {
      src_ip = take-append m.src_ip tail (sym is.src_ip) i;
      src_port =
          (ap u16_at (drop-append m.src_ip tail (sym is.src_ip))
              ∙ u16_at-bytes m.src_port (udp_bytes m.content ++ rest) is.src_port)
            i;
      content =
          (ap udp_of (drop-append_more m.src_ip tail {n = 6} 2 (omega (arith, is.src_ip)))
              ∙ udp_of-bytes m.content rest is.content)
            i;
    })

pub length-udp_bytes : (m : UdpMsg) → IsUdp m → length (udp_bytes m) ≡ udp_msg_maxlen
unfolding udp_bytes
length-udp_bytes m is =
    omega (arith, length-append m.topic (m.data_type ∷ m.content), is.topic, is.content)

pub length-stoc_bytes : (m : TcpStocMsg) → IsStoc m → length (stoc_bytes m) ≡ stoc_size
unfolding stoc_bytes
length-stoc_bytes m is = omega (
  arith,
  length-append m.src_ip (u16_bytes m.src_port ++ udp_bytes m.content),
  is.src_ip,
  length-udp_bytes m.content is.content,
)
