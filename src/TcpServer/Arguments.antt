-- ===== src/TcpServer/Arguments.antt =====
-- The messages of TCP_client.c as the server reads them: TCP_server_get_sub_args() on a received packet.
use tcp_udp_client_server.Base.{
  ◌≡◌, ◌≢◌, ◌<◌, ◌≤◌, ◌-◌, refl, ℕ, some, none, length, take, ◌++◌, ◌∷◌, [], arith, ap, ◌∙◌,
  length-append, length-take, if◌then◌else◌, ◌==◌, lt→ltb, take_short, take-append_more, Bool-cases,
  inl, inr,
}
use tcp_udp_client_server.CString.{Bytes, c_str, scan_unsigned}
use tcp_udp_client_server.CString.Words.{
  IsText, IsWord, IsWord-IsText, IsText-append, scan_word-append,
}
use tcp_udp_client_server.Outcome.{Cmd, Ends, Ends-eq, then_run, ◌>>◌, ok}
use tcp_udp_client_server.Packets.{zeros, ctos_maxlen}
use tcp_udp_client_server.Packets.Copies.{fill-some, c_str-padded}
use tcp_udp_client_server.TcpClient.{
  CommandArgs, sf_suffix, subscribe_packet, message_packet, client_set_payload,
}
use tcp_udp_client_server.Subscriptions.{topic_len}
use tcp_udp_client_server.TcpClient.Commands.{carried, message_packet-carried}
use tcp_udp_client_server.TcpServer.{
  TcpServer, sf_or, string_of, SubscribeArgs, sub_args_of, tcp_server_get_sub_args, message,
  tcp_server_recv_all,
}
use tcp_udp_client_server.TcpServer.Receive.{receives, recv_all-carried}

-- What the server makes of the SF argument of a command.
abbrev pub flag : ℕ → ℕ
flag sf = if sf == 0 then 0 else 1

suffix-IsText : (sf : ℕ) → IsText (sf_suffix sf)
suffix-IsText sf = elim (Bool-cases (sf == 0)) [
  | inl z ↦ rw z (omega arith, (omega arith, tt))
  | inr nz ↦ rw nz (omega arith, (omega arith, tt))
]

length-suffix : (sf : ℕ) → length (sf_suffix sf) ≡ 2
length-suffix sf = elim (Bool-cases (sf == 0)) [ inl z ↦ rw z refl | inr nz ↦ rw nz refl ]

args_at :
    (junk : ℕ) (topic : Bytes) (digit sf : ℕ)
    → topic ≢ []
    → IsWord topic
    → length topic < topic_len
    → scan_unsigned 8 (b' ' ∷ digit ∷ []) ≡ some sf
    → sub_args_of junk (topic ++ (b' ' ∷ digit ∷ []))
      ≡ some (record { topic = topic; store_and_forward = sf })
unfolding sub_args_of
args_at junk topic digit sf ne w short e =
    rw (scan_word-append topic (digit ∷ []) b' ' ne w refl, sub_args_of, lt→ltb _ _ short, sf_or, e)
      refl

zero_digit : scan_unsigned 8 (b' ' ∷ b'0' ∷ []) ≡ some 0
unfolding scan_unsigned
zero_digit = refl

one_digit : scan_unsigned 8 (b' ' ∷ b'1' ∷ []) ≡ some 1
unfolding scan_unsigned
one_digit = refl

-- The text of a command, read back.
sub_args_of-text :
    (junk : ℕ) (topic : Bytes) (sf : ℕ)
    → topic ≢ []
    → IsWord topic
    → length topic < topic_len
    → sub_args_of junk (topic ++ sf_suffix sf)
      ≡ some (record { topic = topic; store_and_forward = flag sf })
sub_args_of-text junk topic sf ne w short = elim (Bool-cases (sf == 0)) [
  | inl z ↦ rw z (args_at junk topic b'0' 0 ne w short zero_digit)
  | inr nz ↦ rw nz (args_at junk topic b'1' 1 ne w short one_digit)
]

-- A command's packet is that of its text.
pub subscribe_packet-carried :
    (type : ℕ) (args : CommandArgs)
    → IsText args.topic
    → length args.topic < topic_len
    → subscribe_packet type args
      ≡ some (carried type (args.topic ++ sf_suffix args.store_and_forward))
unfolding subscribe_packet client_set_payload message_packet
subscribe_packet-carried type args w short =
    let text : Bytes = args.topic ++ sf_suffix args.store_and_forward in
    let bound : length text < ctos_maxlen = omega (
      arith,
      length-append args.topic (sf_suffix args.store_and_forward),
      length-suffix args.store_and_forward,
    ) in
    rw
      (
        fill-some ctos_maxlen text bound,
        c_str-padded text (ctos_maxlen - length text)
            (IsText-append args.topic _ w (suffix-IsText args.store_and_forward)) (omega arith),
      )
      (message_packet-carried type text bound)

-- The state's string is that of the first 50 bytes.
string_of-kept :
    (text : Bytes)
    → IsText (take 50 text)
    → c_str (take 50 text ++ zeros (52 - length (take 50 text))) ≡ some (take 50 text)
string_of-kept text w =
    c_str-padded (take 50 text) (52 - length (take 50 text)) w (omega (arith, length-take 50 text))

get_args-kept :
    (type junk : ℕ) (text : Bytes) (args : SubscribeArgs) (s : TcpServer)
    → IsText (take 50 text)
    → sub_args_of junk (take 50 text) ≡ some args
    → tcp_server_get_sub_args junk (receives type text s) ≡ ok args (receives type text s)
unfolding tcp_server_get_sub_args
get_args-kept type junk text args s w e = rw (string_of-kept text w, string_of, then_run, e) refl

-- The server's view of a packet: what it reads, and the arguments it takes from it.
abbrev pub args_of_packet : (junk : ℕ) → Bytes → Cmd TcpServer SubscribeArgs
args_of_packet junk packet = do tcp_server_recv_all (some packet); tcp_server_get_sub_args junk

-- The text of a command with its flag.
abbrev pub command_text : CommandArgs → Bytes
command_text args = args.topic ++ sf_suffix args.store_and_forward

read_as :
    (type : ℕ) (text : Bytes) (junk : ℕ) (s : TcpServer) (got : SubscribeArgs)
    → length s.recv_msg.payload ≡ ctos_maxlen
    → IsText (take 50 text)
    → sub_args_of junk (take 50 text) ≡ some got
    → Ends
        (λ a t. (a ≡ got) × (t.recv_msg.msg_type ≡ type))
        (args_of_packet junk (carried type text) s)
read_as type text junk s got room cut e =
    Ends-eq
      (ap (λ r. then_run r (λ _. tcp_server_get_sub_args junk)) (recv_all-carried type text s room)
        ∙ get_args-kept type junk text got s cut e)
      (refl, refl)

-- A server that has received such a command, with a topic that is a non-empty word of at most 48 bytes,
-- reads its topic and its flag.
pub get_args-command :
    (type junk : ℕ) (args : CommandArgs) (s : TcpServer)
    → args.topic ≢ []
    → IsWord args.topic
    → length args.topic < topic_len - 1
    → tcp_server_get_sub_args junk (receives type (command_text args) s)
      ≡ ok
          (record { topic = args.topic; store_and_forward = flag args.store_and_forward })
          (receives type (command_text args) s)
get_args-command type junk args s ne w short =
    let size : length (command_text args) ≤ 50 = omega (
      arith,
      length-append args.topic (sf_suffix args.store_and_forward),
      length-suffix args.store_and_forward,
    ) in
    let whole : take 50 (command_text args) ≡ command_text args =
      take_short 50 (command_text args) size in
    get_args-kept type junk (command_text args) _ s
      (rw whole (
        IsText-append args.topic _ (IsWord-IsText args.topic w)
          (suffix-IsText args.store_and_forward)))
      (rw whole (sub_args_of-text junk args.topic args.store_and_forward ne w (omega arith)))

-- The packet of a command whose topic is a non-empty word of at most 48 bytes, received whole.
carried-arrives :
    (type : ℕ) (args : CommandArgs) (junk : ℕ) (s : TcpServer)
    → args.topic ≢ []
    → IsWord args.topic
    → length args.topic < topic_len - 1
    → length s.recv_msg.payload ≡ ctos_maxlen
    → Ends
        (λ got t.
          (got ≡ record { topic = args.topic; store_and_forward = flag args.store_and_forward })
          × (t.recv_msg.msg_type ≡ type))
        (args_of_packet junk (carried type (command_text args)) s)
carried-arrives type args junk s ne w short room =
    Ends-eq
      (ap (λ r. then_run r (λ _. tcp_server_get_sub_args junk))
          (recv_all-carried type (command_text args) s room)
        ∙ get_args-command type junk args s ne w short)
      (refl, refl)

-- A command whose topic is a non-empty word of at most 48 bytes: its packet is composed, and a server whose
-- payload array has 52 bytes and that receives the packet whole has the message type of it, and reads the
-- topic and the flag of the command from it, whatever its variables held before.
pub subscribe-arrives :
    (type : ℕ) (args : CommandArgs) (junk : ℕ) (s : TcpServer)
    → args.topic ≢ []
    → IsWord args.topic
    → length args.topic < topic_len - 1
    → length s.recv_msg.payload ≡ ctos_maxlen
    → (packet : Bytes) × (subscribe_packet type args ≡ some packet)
      × Ends
          (λ got t.
            (got ≡ record { topic = args.topic; store_and_forward = flag args.store_and_forward })
            × (t.recv_msg.msg_type ≡ type))
          (args_of_packet junk packet s)
subscribe-arrives type args junk s ne w short room = (
  carried type (command_text args),
  subscribe_packet-carried type args (IsWord-IsText args.topic w) (omega arith),
  carried-arrives type args junk s ne w short room,
)

cut_topic :
    (topic : Bytes) (sf : ℕ)
    → length topic ≡ 49
    → take 50 (topic ++ sf_suffix sf) ≡ topic ++ (b' ' ∷ [])
cut_topic topic sf e =
    take-append_more topic (sf_suffix sf) {n = 50} 1 (omega arith)
    ∙ ap (◌++◌ topic) (elim (Bool-cases (sf == 0)) [ inl z ↦ rw z refl | inr nz ↦ rw nz refl ])

no_digit : scan_unsigned 8 (b' ' ∷ []) ≡ none
unfolding scan_unsigned
no_digit = refl

args_cut :
    (junk : ℕ) (topic : Bytes)
    → topic ≢ []
    → IsWord topic
    → length topic < topic_len
    → sub_args_of junk (topic ++ (b' ' ∷ []))
      ≡ some (record { topic = topic; store_and_forward = junk })
unfolding sub_args_of
args_cut junk topic ne w short =
    rw (scan_word-append topic [] b' ' ne w refl, sub_args_of, lt→ltb _ _ short, sf_or, no_digit)
      refl

-- A command whose topic is a word of 49 bytes: its packet is composed, and a server whose payload array has
-- 52 bytes and that receives the packet whole reads the topic, and for the flag the indeterminate value that
-- its variable held before.
pub subscribe-flag_lost :
    (type : ℕ) (args : CommandArgs) (junk : ℕ) (s : TcpServer)
    → IsWord args.topic
    → length args.topic ≡ 49
    → length s.recv_msg.payload ≡ ctos_maxlen
    → (packet : Bytes) × (subscribe_packet type args ≡ some packet)
      × Ends
          (λ got t.
            (got ≡ record { topic = args.topic; store_and_forward = junk })
            × (t.recv_msg.msg_type ≡ type))
          (args_of_packet junk packet s)
subscribe-flag_lost type args junk s w size room =
    let cut = cut_topic args.topic args.store_and_forward size in
    let ne : args.topic ≢ [] = λ e. absurd (omega (arith, ap length e)) in
    (
      carried type (command_text args),
      subscribe_packet-carried type args (IsWord-IsText args.topic w) (omega arith),
      read_as type (command_text args) junk s _ room
          (rw cut
            (IsText-append args.topic (b' ' ∷ []) (IsWord-IsText args.topic w) (omega arith, tt)))
          (rw cut (args_cut junk args.topic ne w (omega arith))),
    )

-- A text of at most 50 bytes is the string of the payload of a server that has received it.
pub text-kept :
    (type : ℕ) (text : Bytes) (s : TcpServer)
    → IsText text
    → length text ≤ 50
    → c_str (receives type text s).recv_msg.payload ≡ some text
text-kept type text s w size =
    let whole : take 50 text ≡ text = take_short 50 text size in
    string_of-kept text (rw whole w) ∙ ap some whole

-- The packet of a text of at most 50 bytes, received whole.
carried_text-arrives :
    (type : ℕ) (text : Bytes) (s : TcpServer)
    → IsText text
    → length text ≤ 50
    → length s.recv_msg.payload ≡ ctos_maxlen
    → Ends
        (λ got t.
          (got ≡ message) × (t.recv_msg.msg_type ≡ type) × (c_str t.recv_msg.payload ≡ some text))
        (tcp_server_recv_all (some (carried type text)) s)
carried_text-arrives type text s w size room =
    Ends-eq (recv_all-carried type text s room) (refl, refl, text-kept type text s w size)

-- A text of at most 50 bytes: it is composed into a packet, and a server whose payload array has 52 bytes
-- and that receives the packet whole has its type and, as the string of the payload, the text.
pub message-arrives :
    (type : ℕ) (text : Bytes) (s : TcpServer)
    → IsText text
    → length text ≤ 50
    → length s.recv_msg.payload ≡ ctos_maxlen
    → (packet : Bytes) × (message_packet type text ≡ some packet)
      × Ends
          (λ got t.
            (got ≡ message) × (t.recv_msg.msg_type ≡ type) × (c_str t.recv_msg.payload ≡ some text))
          (tcp_server_recv_all (some packet) s)
message-arrives type text s w size room = (
  carried type text,
  message_packet-carried type text (omega arith),
  carried_text-arrives type text s w size room,
)
