-- ===== src/CString.antt =====
-- C strings and the scanf conversions that the program uses. A string is the list of its bytes,
-- without the final NUL; a buffer is a list of bytes that may or may not hold one.
--   `fits n s`: strcpy() of `s` into an array of `n` bytes stays inside it
--   `c_str`: the string at the start of a buffer; `none` if no NUL ends it inside the buffer
pub mod Words
pub mod Numbers
use tcp_udp_client_server.Base.{
  ℕ, ◌+◌, ◌-◌, ◌*◌, ◌%◌, ◌^◌, ◌≡◌, ◌⊎◌, inl, inr, refl, Bool, true, false, ◌&&◌, ◌||◌, Option, none,
  some, List, [], ◌∷◌, ◌++◌, arith, ltb, leb, ◌==◌, if◌then◌else◌, length,
}

abbrev pub Bytes : Type 0
Bytes = List ℕ

-- strcmp(s, t) == 0
unfoldable pub str_eq : Bytes → Bytes → Bool
str_eq [] [] = true
str_eq [] (y ∷ ys) = false
str_eq (x ∷ xs) [] = false
str_eq (x ∷ xs) (y ∷ ys) = (x == y) && str_eq xs ys

pub str_eq_refl : (s : Bytes) → str_eq s s ≡ true
unfolding str_eq
str_eq_refl [] = refl
str_eq_refl (x ∷ xs) = ground (arith, str_eq_refl xs)

pub eq_of_str_eq : (s t : Bytes) → str_eq s t ≡ true → s ≡ t
unfolding str_eq
eq_of_str_eq [] [] e = refl
eq_of_str_eq [] (y ∷ ys) e = cc
eq_of_str_eq (x ∷ xs) [] e = cc
eq_of_str_eq (x ∷ xs) (y ∷ ys) e = ground (arith, eq_of_str_eq xs ys)

abbrev pub fits : ℕ → Bytes → Bool
fits n s = ltb (length s) n

unfoldable pub c_str : Bytes → Option Bytes
c_str [] = none
c_str (x ∷ xs) = if x == 0 then some [] else elim (c_str xs) [ none ↦ none | some s ↦ some (x ∷ s) ]

-- isspace() in the C locale.
abbrev pub is_space : ℕ → Bool
is_space c = (c == 32) || (leb 9 c && leb c 13)

unfoldable pub skip_spaces : Bytes → Bytes
skip_spaces [] = []
skip_spaces (c ∷ s) = if is_space c then skip_spaces s else c ∷ s

-- The word at the front, and what follows it.
unfoldable pub word : Bytes → Bytes
word [] = []
word (c ∷ s) = if is_space c then [] else c ∷ word s

unfoldable pub after_word : Bytes → Bytes
after_word [] = []
after_word (c ∷ s) = if is_space c then c ∷ s else after_word s

-- %s: the word and the rest, or a failure where no word is left.
unfoldable pub scan_word : Bytes → Option (Bytes × Bytes)
unfolding skip_spaces word after_word
scan_word s = elim (skip_spaces s) [ [] ↦ none | c ∷ t ↦ some (word (c ∷ t), after_word (c ∷ t)) ]

abbrev pub is_digit : ℕ → Bool
is_digit c = leb b'0' c && leb c b'9'

unfoldable pub digits_value : ℕ → Bytes → ℕ
digits_value acc [] = acc
digits_value acc (c ∷ s) = if is_digit c then digits_value (acc * 10 + (c - b'0')) s else acc

abbrev pub has_digit : Bytes → Bool
has_digit [] = false
has_digit (c ∷ s) = is_digit c

-- The value of strtoul(): out of range it is ULONG_MAX, else a sign `-` negates modulo 2^64.
abbrev clamp_ulong : ℕ → ℕ
clamp_ulong n = if ltb n (2 ^ 64) then n else 2 ^ 64 - 1

abbrev negate_ulong : ℕ → ℕ
negate_ulong n = if ltb n (2 ^ 64) then (2 ^ 64 - n) % 2 ^ 64 else 2 ^ 64 - 1

unsigned_at : Bytes → Option ℕ
unsigned_at s = if has_digit s then some (clamp_ulong (digits_value 0 s)) else none

signed_at : Bytes → Option ℕ
unfolding unsigned_at
signed_at [] = none
signed_at (c ∷ s) =
    if c == b'-'
    then (if has_digit s then some (negate_ulong (digits_value 0 s)) else none)
    else if c == b'+'
    then unsigned_at s
    else unsigned_at (c ∷ s)

-- %hhu and %hu: the value of the number in front, reduced to the width, or a failure.
unfoldable pub scan_unsigned : (width : ℕ) → Bytes → Option ℕ
unfolding signed_at skip_spaces digits_value
scan_unsigned width s = elim (signed_at (skip_spaces s)) [
  | none ↦ none
  | some n ↦ some (n % 2 ^ width)
]
