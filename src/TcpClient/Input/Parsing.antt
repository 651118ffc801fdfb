-- ===== src/TcpClient/Input/Parsing.antt =====
-- get_user_command() on the lines that a user types, and get_args() on an address.
use tcp_udp_client_server.Base.{
  ◌-◌, ◌∙◌, ℕ, ◌≡◌, ◌≢◌, ◌<◌, ◌%◌, ◌^◌, refl, ap, true, lt→ltb, none, some, [], ◌∷◌, ◌++◌, arith,
  length,
}
use tcp_udp_client_server.Clients.{id_maxlen}
use tcp_udp_client_server.CString.{
  Bytes, is_space, str_eq, scan_word, scan_unsigned, is_digit, digits_value,
}
use tcp_udp_client_server.CString.Numbers.{after_number, IsDigits, scan_int-digits}
use tcp_udp_client_server.CString.Words.{IsWord, scan_word-append, scan_word_whole}
use tcp_udp_client_server.Outcome.{ok}
use tcp_udp_client_server.Subscriptions.{topic_len}
use tcp_udp_client_server.TcpClient.{
  client_cmd_subscribe, client_cmd_unsubscribe, client_cmd_undefined,
}
use tcp_udp_client_server.TcpClient.Input.{
  get_args, get_user_command, command_of, read_flag, read_subscribe, read_unsubscribe,
  subscribe_word, unsubscribe_word, cmd_maxlen,
}

abbrev pub newline : ℕ
newline = 10

-- A line with a subscription, and one that ends one.
abbrev pub subscribe_line : Bytes → (digit : ℕ) → Bytes → Bytes
subscribe_line topic digit rest = subscribe_word ++ b' ' ∷ (topic ++ b' ' ∷ digit ∷ newline ∷ rest)

abbrev pub unsubscribe_line : Bytes → Bytes → Bytes
unsubscribe_line topic rest = unsubscribe_word ++ b' ' ∷ (topic ++ newline ∷ rest)

subscribe_word-IsWord : IsWord subscribe_word
subscribe_word-IsWord = ground arith

unsubscribe_word-IsWord : IsWord unsubscribe_word
unsubscribe_word-IsWord = ground arith

scan_word-space : (s : Bytes) → scan_word (b' ' ∷ s) ≡ scan_word s
unfolding scan_word
scan_word-space s = refl

subscribe_tests : (rest : Bytes) → command_of subscribe_word rest ≡ read_subscribe (scan_word rest)
unfolding command_of str_eq
subscribe_tests rest = refl

unsubscribe_tests :
    (rest : Bytes) → command_of unsubscribe_word rest ≡ read_unsubscribe (scan_word rest)
unfolding command_of str_eq
unsubscribe_tests rest = refl

-- The branch of a first word that fits its array.
get_command :
    (input cmd rest : Bytes)
    → scan_word input ≡ some (cmd, rest)
    → length cmd < cmd_maxlen
    → get_user_command input ≡ command_of cmd rest
unfolding get_user_command
get_command input cmd rest e short = rw (e, get_user_command, lt→ltb _ _ short) refl

get_subscribe :
    (rest : Bytes)
    → get_user_command (subscribe_word ++ b' ' ∷ rest) ≡ read_subscribe (scan_word rest)
get_subscribe rest =
    get_command _ subscribe_word (b' ' ∷ rest)
      (scan_word-append subscribe_word rest b' ' (λ e. absurd (omega (arith, ap length e)))
        subscribe_word-IsWord refl)
      (omega arith)
    ∙ subscribe_tests (b' ' ∷ rest)
    ∙ ap read_subscribe (scan_word-space rest)

get_unsubscribe :
    (rest : Bytes)
    → get_user_command (unsubscribe_word ++ b' ' ∷ rest) ≡ read_unsubscribe (scan_word rest)
get_unsubscribe rest =
    get_command _ unsubscribe_word (b' ' ∷ rest)
      (scan_word-append unsubscribe_word rest b' ' (λ e. absurd (omega (arith, ap length e)))
        unsubscribe_word-IsWord refl)
      (omega arith)
    ∙ unsubscribe_tests (b' ' ∷ rest)
    ∙ ap read_unsubscribe (scan_word-space rest)

digit_read :
    (digit : ℕ) (rest : Bytes)
    → is_digit digit ≡ true
    → scan_unsigned 8 (b' ' ∷ digit ∷ newline ∷ rest) ≡ some (digit - b'0')
unfolding scan_unsigned
digit_read digit rest h = ground arith

digit_after :
    (digit : ℕ) (rest : Bytes)
    → is_digit digit ≡ true
    → after_number (b' ' ∷ digit ∷ newline ∷ rest) ≡ newline ∷ rest
unfolding after_number
digit_after digit rest h = ground arith

-- A typed subscription is read as its topic and its digit, and what follows the line is left, from its
-- end on: for a topic that is a non-empty word of at most 49 bytes.
pub get_user_command-subscribe :
    (topic : Bytes) (digit : ℕ) (rest : Bytes)
    → topic ≢ []
    → IsWord topic
    → length topic < topic_len
    → is_digit digit ≡ true
    → get_user_command (subscribe_line topic digit rest)
      ≡ some (
        record { cmd = client_cmd_subscribe; topic = topic; store_and_forward = digit - b'0' },
        newline ∷ rest,
      )
unfolding read_subscribe
get_user_command-subscribe topic digit rest ne w short d =
    get_subscribe (topic ++ b' ' ∷ digit ∷ newline ∷ rest)
    ∙ ap read_subscribe (scan_word-append topic (digit ∷ newline ∷ rest) b' ' ne w refl)
    ∙ rw (lt→ltb _ _ short, read_flag, digit_read digit rest d, digit_after digit rest d) refl

-- A typed unsubscription, for such a topic.
pub get_user_command-unsubscribe :
    (topic rest : Bytes)
    → topic ≢ []
    → IsWord topic
    → length topic < topic_len
    → get_user_command (unsubscribe_line topic rest)
      ≡ some (
        record { cmd = client_cmd_unsubscribe; topic = topic; store_and_forward = 0 },
        newline ∷ rest,
      )
unfolding read_unsubscribe
get_user_command-unsubscribe topic rest ne w short =
    get_unsubscribe (topic ++ newline ∷ rest)
    ∙ ap read_unsubscribe (scan_word-append topic rest newline ne w refl)
    ∙ rw (lt→ltb _ _ short) refl

-- A subscription without a number after the topic is no command: nothing is sent.
pub get_user_command-no_flag :
    (topic : Bytes) (c : ℕ) (rest : Bytes)
    → topic ≢ []
    → IsWord topic
    → length topic < topic_len
    → scan_unsigned 8 (c ∷ rest) ≡ none
    → is_space c ≡ true
    → get_user_command (subscribe_word ++ b' ' ∷ (topic ++ c ∷ rest))
      ≡ some (
        record { cmd = client_cmd_undefined; topic = topic; store_and_forward = 0 },
        after_number (c ∷ rest),
      )
unfolding read_subscribe
get_user_command-no_flag topic c rest ne w short e sp =
    get_subscribe (topic ++ c ∷ rest)
    ∙ ap read_subscribe (scan_word-append topic rest c ne w sp)
    ∙ rw (lt→ltb _ _ short, read_flag, e) refl

-- The address of the server as it is typed, in dotted decimals: only the number before the first dot is
-- read, and the three others are zero.
pub get_args-dotted :
    (prog id port : Bytes) (c : ℕ) (ds rest : Bytes) (n : ℕ)
    → id ≢ []
    → IsWord id
    → length id < id_maxlen
    → IsDigits (c ∷ ds)
    → digits_value 0 (c ∷ ds) < 256
    → scan_unsigned 16 port ≡ some n
    → (s : Unit {0})
    → get_args (prog ∷ id ∷ ((c ∷ ds) ++ b'.' ∷ rest) ∷ port ∷ []) s
      ≡ ok (record { id = id; server_ip = digits_value 0 (c ∷ ds); server_port = n }) s
unfolding get_args
get_args-dotted prog id port c ds rest n ne w short d small p s =
    let low : digits_value 0 (c ∷ ds) % 2 ^ 32 ≡ digits_value 0 (c ∷ ds) = omega arith in
    rw
      (
        scan_word_whole id ne w,
        lt→ltb _ _ short,
        scan_int-digits c ds (b'.' ∷ rest) d refl (omega arith),
        low,
        p,
      )
      refl
