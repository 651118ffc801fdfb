-- ===== src/TcpClient/Display.antt =====
-- TCP_client.c: what TCP_client_print_subscription_message() reads of a packet. The model stops at the
-- arguments of the calls of printf(): the text that the library makes of a number is not computed.
pub mod Formats
use tcp_udp_client_server.Base.{
  ℕ, ◌+◌, ◌-◌, ◌*◌, ◌^◌, ltb, ◌/◌, ◌%◌, Bool, true, false, not, Option, none, some, List, [], ◌∷◌,
  ◌++◌, ◌==◌, if◌then◌else◌, take, drop,
}
use tcp_udp_client_server.CString.{Bytes, c_str}
use tcp_udp_client_server.Packets.{TcpStocMsg, header_of, stoc_of, udp_bytes, u8_at}
use tcp_udp_client_server.TcpClient.{◌>>=◌}

-- A signed number.
pub data ℤ : Type 0 where
  pos : ℕ → ℤ
  negsuc : ℕ → ℤ

-- What %d makes of a uint32_t.
abbrev pub as_int : ℕ → ℤ
as_int n = if ltb n (2 ^ 31) then pos n else negsuc (2 ^ 32 - 1 - n)

-- A floating-point argument of printf(), as the expression that the code computes: an integer, pow(10, n), a
-- division in double or in float, and a conversion to float. How these round is left to the machine.
pub data Real : Type 0 where
  of_uint : ℕ → Real
  pow_of_ten : (n : ℕ) → Real
  double_quotient float_quotient : Real → Real → Real
  to_float : Real → Real

-- The branches of the switch, with the arguments of printf().
--   int_shown minus n             "INT - %d" of `n`, with a further "-" if `minus`
--   short_real_shown x            "SHORT_REAL - %.2f" of `x`
--   float_shown minus exponent x  "FLOAT - %.*f" of `exponent` and `x`, with a "-" if `minus`
pub data Shown : Type 0 where
  int_shown : Bool → ℤ → Shown
  short_real_shown : Real → Shown
  float_shown : Bool → (exponent : ℕ) → Real → Shown
  string_shown unknown_shown : Bytes → Shown

-- The line that is printed: inet_ntoa() of the address, and the port as the number lies in memory.
pub record Line : Type 0 where
  pub src_ip : Bytes
  pub src_port : ℕ
  pub topic : Bytes
  pub shown : Shown

-- ntohs() and ntohl() of the bytes at the front: the first byte is the highest.
abbrev pub u16_be : Bytes → ℕ
u16_be (a ∷ b ∷ _) = a * 256 + b
u16_be _ = 0

abbrev pub u32_be : Bytes → ℕ
u32_be (a ∷ b ∷ c ∷ d ∷ _) = ((a * 256 + b) * 256 + c) * 256 + d
u32_be _ = 0

-- A uint8_t that is tested.
abbrev pub is_set : ℕ → Bool
is_set n = not (n == 0)

abbrev pub text_shown : (Bytes → Shown) → Bytes → Option Shown
text_shown show content = elim (c_str content) [ none ↦ none | some t ↦ some (show t) ]

-- The switch on the type. A content without an end is read past its array: `none`.
unfoldable pub shown_of : (data_type : ℕ) → (content : Bytes) → Option Shown
shown_of data_type content =
    if data_type == 0
    then some (int_shown (is_set (u8_at content)) (as_int (u32_be (drop 1 content))))
    else if data_type == 1
    then some
        (short_real_shown (float_quotient (to_float (of_uint (u16_be content))) (of_uint 100)))
    else if data_type == 2
    then some (
        float_shown (is_set (u8_at content)) (u8_at (drop 5 content)) (
          to_float (
            double_quotient (of_uint (u32_be (drop 1 content)))
              (pow_of_ten (u8_at (drop 5 content))))))
    else if data_type == 3
    then text_shown string_shown content
    else text_shown unknown_shown content

-- The line of a message. The string of the topic may run on over the fields behind it; past the struct it
-- is undefined.
unfoldable pub line_of : TcpStocMsg → Option Line
line_of msg = do
  topic ← c_str (udp_bytes msg.content)
  shown ← shown_of msg.content.data_type msg.content.content
  some (record { src_ip = msg.src_ip; src_port = msg.src_port; topic = topic; shown = shown })

-- TCP_client_print_subscription_message(), on the packet.
unfoldable pub print_subscription_message : (packet : Bytes) → Option Line
print_subscription_message packet = line_of (stoc_of (header_of packet).msg)
