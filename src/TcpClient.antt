-- ===== src/TcpClient.antt =====
-- TCP_client.c: the messages that a subscriber composes, and the packet that carries one.
-- A `none` is undefined behaviour: a string that overruns its array, or a copy that leaves a buffer.
-- `CommandArgs` is struct command_args; `topic` is the string of its array of TOPIC_LEN bytes.
pub mod Commands
pub mod Input
pub mod Run
pub mod Display
use tcp_udp_client_server.Base.{
  ℕ, ◌+◌, ◌≡◌, Bool, true, false, Option, none, some, List, [], ◌∷◌, ◌++◌, ◌==◌, if◌then◌else◌,
  length,
}
use tcp_udp_client_server.CString.{Bytes, c_str, fits}
use tcp_udp_client_server.Packets.{
  TcpHeader, TcpCtosMsg, memcpy, fill, zeros, header_bytes, ctos_bytes, ctos_maxlen, ctos_size,
  tcp_msg_maxlen, packet_maxlen,
}

-- enum command
pub data Command : Type 0 where
  client_cmd_exit client_cmd_subscribe client_cmd_unsubscribe client_cmd_undefined : Command

pub record CommandArgs : Type 0 where
  pub cmd : Command
  pub topic : Bytes
  pub store_and_forward : ℕ

infixl 5 ◌>>=◌
abbrev pub ◌>>=◌ {ℓ κ} : {A : Type ℓ} {B : Type κ} → Option A → (A → Option B) → Option B
none >>= f = none
some a >>= f = f a

-- " 1" or " 0"
abbrev pub sf_suffix : ℕ → Bytes
sf_suffix sf = if sf == 0 then b' ' ∷ b'0' ∷ [] else b' ' ∷ b'1' ∷ []

-- client_set_payload(): the payload buffer, "<TOPIC> <SF>".
unfoldable pub client_set_payload : CommandArgs → Option Bytes
client_set_payload args = fill ctos_maxlen (args.topic ++ sf_suffix args.store_and_forward)

-- client_compose_msg(), from the string that `payload` points to.
unfoldable pub client_compose_msg : (type : ℕ) → (payload : Bytes) → Option TcpHeader
client_compose_msg type payload = do
  field ← fill ctos_maxlen payload
  let msg = ctos_bytes (record { msg_type = type; payload = field })
  msg ← memcpy (zeros tcp_msg_maxlen) msg ctos_size
  some (record { msg_len = ctos_size; msg = msg })

-- The packet that TCP_client_send() hands to send_all(): the first `msg_len` bytes of the header.
unfoldable pub tcp_client_packet : TcpHeader → Option Bytes
tcp_client_packet h = memcpy (zeros packet_maxlen) (header_bytes h) h.msg_len

-- The packet of a subscribe command, as run_client() sends it: the payload buffer is read as a string.
unfoldable pub subscribe_packet : (type : ℕ) → CommandArgs → Option Bytes
subscribe_packet type args = do
  buffer ← client_set_payload args
  payload ← c_str buffer
  msg ← client_compose_msg type payload
  tcp_client_packet msg

-- The packet of any other message: run_client() and main() pass the string itself.
unfoldable pub message_packet : (type : ℕ) → Bytes → Option Bytes
message_packet type payload = do msg ← client_compose_msg type payload; tcp_client_packet msg
