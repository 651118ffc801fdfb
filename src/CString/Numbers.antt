-- ===== src/CString/Numbers.antt =====
-- The conversion %d, what a numeric conversion leaves of the text, and decimal numbers in a text.
use tcp_udp_client_server.Base.{
  ℕ, ◌+◌, ◌-◌, ◌*◌, ◌%◌, ◌^◌, ◌<◌, ◌≡◌, refl, true, false, ◌||◌, Option, none, some, [], ◌∷◌, ◌++◌,
  arith, ltb, ◌==◌, lt→ltb, if◌then◌else◌,
}
use tcp_udp_client_server.CString.{Bytes, is_space, is_digit, has_digit, skip_spaces, digits_value}

-- The value of strtol(), out of range LONG_MAX or LONG_MIN, as the low 32 bits that an int keeps.
abbrev long_to_int : ℕ → ℕ
long_to_int n = (if ltb n (2 ^ 63) then n else 2 ^ 63 - 1) % 2 ^ 32

abbrev negative_to_int : ℕ → ℕ
negative_to_int n = (2 ^ 64 - (if ltb n (2 ^ 63) then n else 2 ^ 63)) % 2 ^ 32

plain_int : Bytes → Option ℕ
plain_int s = if has_digit s then some (long_to_int (digits_value 0 s)) else none

int_at : Bytes → Option ℕ
unfolding plain_int
int_at [] = none
int_at (c ∷ s) =
    if c == b'-'
    then (if has_digit s then some (negative_to_int (digits_value 0 s)) else none)
    else if c == b'+'
    then plain_int s
    else plain_int (c ∷ s)

-- %d: the 32 bits of the int, or a failure.
unfoldable pub scan_int : Bytes → Option ℕ
unfolding int_at skip_spaces digits_value
scan_int s = int_at (skip_spaces s)

drop_sign : Bytes → Bytes
drop_sign [] = []
drop_sign (c ∷ s) = if (c == b'-') || (c == b'+') then s else c ∷ s

drop_digits : Bytes → Bytes
drop_digits [] = []
drop_digits (c ∷ s) = if is_digit c then drop_digits s else c ∷ s

-- What %hhu leaves unread, whether it succeeds or not.
unfoldable pub after_number : Bytes → Bytes
unfolding drop_sign drop_digits skip_spaces
after_number s = drop_digits (drop_sign (skip_spaces s))

-- Every byte is a digit.
abbrev pub IsDigits : Bytes → Type 0
IsDigits [] = Unit {0}
IsDigits (c ∷ s) = (is_digit c ≡ true) × IsDigits s

-- What follows the digits does not count.
digits_value-append :
    (ds rest : Bytes) (acc : ℕ)
    → IsDigits ds
    → has_digit rest ≡ false
    → digits_value acc (ds ++ rest) ≡ digits_value acc ds
unfolding digits_value
digits_value-append [] [] acc d e = refl
digits_value-append [] (c ∷ rest) acc d e = rw e
digits_value-append (c ∷ ds) rest acc (h, d) e =
    rw h (digits_value-append ds rest (acc * 10 + (c - b'0')) d e)

digit_no_space : (c : ℕ) → is_digit c ≡ true → is_space c ≡ false
digit_no_space c h = ground arith

scan_int_first :
    (c : ℕ) (t : Bytes)
    → is_digit c ≡ true
    → scan_int (c ∷ t) ≡ some (long_to_int (digits_value 0 (c ∷ t)))
unfolding scan_int
scan_int_first c t h =
    let minus : (c == b'-') ≡ false = ground arith in
    let plus : (c == b'+') ≡ false = ground arith in rw (digit_no_space c h, minus, plus, h) refl

-- A number in front, of a value below 2^63, is the value of its digits.
pub scan_int-digits :
    (c : ℕ) (ds rest : Bytes)
    → IsDigits (c ∷ ds)
    → has_digit rest ≡ false
    → digits_value 0 (c ∷ ds) < 2 ^ 63
    → scan_int ((c ∷ ds) ++ rest) ≡ some (digits_value 0 (c ∷ ds) % 2 ^ 32)
scan_int-digits c ds rest (h, d) e small =
    rw
      (
        scan_int_first c (ds ++ rest) h,
        digits_value-append (c ∷ ds) rest 0 (h, d) e,
        lt→ltb _ _ small,
      )
      refl
