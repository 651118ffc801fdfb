-- ===== src/Packets/Print.antt =====
-- util.c: the functions that print a message. What is given to printf() is returned: the text that it makes of
-- it is not computed. `none` is a string that is read on past the end of its struct.
use tcp_udp_client_server.Base.{ℕ, Option, none, some, ◌==◌, if◌then◌else◌}
use tcp_udp_client_server.CString.{Bytes, c_str}
use tcp_udp_client_server.Packets.{
  UdpMsg, TcpHeader, TcpCtosMsg, TcpStocMsg, udp_bytes, ctos_of, stoc_of, tcp_msg_new,
  tcp_msg_subscribe, tcp_msg_unsubscribe,
}

-- UDP_msg_print(). The string of the topic may run on over the fields behind it.
pub record UdpPrinted : Type 0 where
  pub topic : Bytes
  pub data_type : ℕ
  pub content : Bytes

unfoldable pub udp_msg_print : UdpMsg → Option UdpPrinted
udp_msg_print m = elim (c_str (udp_bytes m)) [
  | none ↦ none
  | some topic ↦ elim (c_str m.content) [
    | none ↦ none
    | some content ↦ some (record { topic = topic; data_type = m.data_type; content = content })
  ]
]

-- TCP_stoc_msg_print(): the address, the port as it lies in memory, and the content.
pub record StocPrinted : Type 0 where
  pub src_ip : Bytes
  pub src_port : ℕ
  pub content : UdpPrinted

unfoldable pub tcp_stoc_msg_print : TcpStocMsg → Option StocPrinted
tcp_stoc_msg_print m = elim (udp_msg_print m.content) [
  | none ↦ none
  | some content ↦ some (record { src_ip = m.src_ip; src_port = m.src_port; content = content })
]

-- The line of the type, where the switch has one.
pub data TypeLine : Type 0 where
  new_line subscribe_line unsubscribe_line no_line : TypeLine

abbrev pub type_line : (msg_type : ℕ) → TypeLine
type_line msg_type =
    if msg_type == tcp_msg_new
    then new_line
    else if msg_type == tcp_msg_subscribe
    then subscribe_line
    else if msg_type == tcp_msg_unsubscribe
    then unsubscribe_line
    else no_line

-- TCP_ctos_msg_print()
pub record CtosPrinted : Type 0 where
  pub type : TypeLine
  pub payload : Bytes

unfoldable pub tcp_ctos_msg_print : TcpCtosMsg → Option CtosPrinted
tcp_ctos_msg_print m = elim (c_str m.payload) [
  | none ↦ none
  | some payload ↦ some (record { type = type_line m.msg_type; payload = payload })
]

-- enum msg_type of util.h
pub data MsgType : Type 0 where
  tcp_ctos_msg tcp_stoc_msg : MsgType

-- TCP_header_print(): the length, and the message of the type that is given.
pub data HeaderPrinted : Type 0 where
  ctos_printed : (msg_len : ℕ) → CtosPrinted → HeaderPrinted
  stoc_printed : (msg_len : ℕ) → StocPrinted → HeaderPrinted

unfoldable pub tcp_header_print : TcpHeader → MsgType → Option HeaderPrinted
tcp_header_print h tcp_ctos_msg = elim (tcp_ctos_msg_print (ctos_of h.msg)) [
  | none ↦ none
  | some m ↦ some (ctos_printed h.msg_len m)
]
tcp_header_print h tcp_stoc_msg = elim (tcp_stoc_msg_print (stoc_of h.msg)) [
  | none ↦ none
  | some m ↦ some (stoc_printed h.msg_len m)
]
