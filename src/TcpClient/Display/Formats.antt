-- ===== src/TcpClient/Display/Formats.antt =====
-- The contents of the datagrams, as those who publish write them, and what the client shows of them.
use tcp_udp_client_server.Base.{
  ℕ, ◌/◌, ◌%◌, ◌^◌, ◌≡◌, ◌<◌, refl, Bool, true, false, some, [], ◌∷◌, ◌++◌, if◌then◌else◌, arith,
  append_assoc, ltb,
}
use tcp_udp_client_server.CString.{Bytes, c_str}
use tcp_udp_client_server.CString.Words.{IsText, c_str-append}
use tcp_udp_client_server.TcpClient.Display.{
  pos, as_int, of_uint, pow_of_ten, double_quotient, float_quotient, to_float, text_shown, Shown,
  int_shown, short_real_shown, float_shown, string_shown, unknown_shown, u16_be, u32_be, is_set,
  shown_of,
}

abbrev pub be16 : ℕ → Bytes
be16 n = (n / 256) ∷ (n % 256) ∷ []

abbrev pub be32 : ℕ → Bytes
be32 n = (n / 16777216) ∷ (n / 65536 % 256) ∷ (n / 256 % 256) ∷ (n % 256) ∷ []

abbrev pub sign_byte : Bool → ℕ
sign_byte minus = if minus then 1 else 0

-- What is published: `n`, `n` / 100, `n` / 10^exponent, the first and the last with a sign; a text; or a text of
-- another type.
pub data Value : Type 0 where
  int_value : (minus : Bool) → ℕ → Value
  short_real_value : ℕ → Value
  float_value : (minus : Bool) → (n exponent : ℕ) → Value
  string_value unknown_value : Bytes → Value

-- The type and the content of a value; the types from 4 on have no value of their own. A text ends in a NUL.
unfoldable pub type_of : Value → ℕ
type_of (int_value minus n) = 0
type_of (short_real_value n) = 1
type_of (float_value minus n exponent) = 2
type_of (string_value t) = 3
type_of (unknown_value t) = 4

unfoldable pub encode : Value → Bytes
encode (int_value minus n) = sign_byte minus ∷ be32 n
encode (short_real_value n) = be16 n
encode (float_value minus n exponent) = sign_byte minus ∷ (be32 n ++ exponent ∷ [])
encode (string_value t) = t ++ 0 ∷ []
encode (unknown_value t) = t ++ 0 ∷ []

-- The numbers have 31, 16 and 32 bits, and a text has no NUL.
abbrev pub IsValue : Value → Type 0
IsValue (int_value minus n) = n < 2 ^ 31
IsValue (short_real_value n) = n < 2 ^ 16
IsValue (float_value minus n exponent) = n < 2 ^ 32
IsValue (string_value t) = IsText t
IsValue (unknown_value t) = IsText t

-- How a value is shown: the fraction of a FLOAT is a double that is narrowed to a float.
abbrev pub show : Value → Shown
show (int_value minus n) = int_shown minus (pos n)
show (short_real_value n) = short_real_shown (float_quotient (to_float (of_uint n)) (of_uint 100))
show (float_value minus n exponent) =
    float_shown minus exponent (to_float (double_quotient (of_uint n) (pow_of_ten exponent)))
show (string_value t) = string_shown t
show (unknown_value t) = unknown_shown t

is_set-sign_byte : (minus : Bool) → is_set (sign_byte minus) ≡ minus
is_set-sign_byte false = refl
is_set-sign_byte true = refl

u32_be-be32 : (n : ℕ) (rest : Bytes) → n < 2 ^ 32 → u32_be (be32 n ++ rest) ≡ n
u32_be-be32 n rest h = omega arith

u16_be-be16 : (n : ℕ) (rest : Bytes) → n < 2 ^ 16 → u16_be (be16 n ++ rest) ≡ n
u16_be-be16 n rest h = omega arith

text_read : (t rest : Bytes) → IsText t → c_str ((t ++ 0 ∷ []) ++ rest) ≡ some t
text_read t rest w = rw (append_assoc t (0 ∷ []) rest) (c_str-append t rest w)

as_int-pos : (n : ℕ) → n < 2 ^ 31 → as_int n ≡ pos n
as_int-pos n h = let small : ltb n (2 ^ 31) ≡ true = ground (arith, h) in rw small refl

-- The client decodes a value, whatever follows it in the content.
pub shown_of-encode :
    (v : Value) (rest : Bytes) → IsValue v → shown_of (type_of v) (encode v ++ rest) ≡ some (show v)
unfolding shown_of type_of encode
shown_of-encode (int_value minus n) rest h =
    rw (is_set-sign_byte minus, u32_be-be32 n rest (omega arith), as_int-pos n h) refl
shown_of-encode (short_real_value n) rest h = rw (u16_be-be16 n rest h) refl
shown_of-encode (float_value minus n exponent) rest h =
    rw (is_set-sign_byte minus, u32_be-be32 n (exponent ∷ rest) h) refl
shown_of-encode (string_value t) rest h = rw (text_read t rest h, text_shown) refl
shown_of-encode (unknown_value t) rest h = rw (text_read t rest h, text_shown) refl
