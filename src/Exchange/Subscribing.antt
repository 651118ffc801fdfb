-- ===== src/Exchange/Subscribing.antt =====
-- From the line that a user types to the list of subscriptions of the server: get_user_command() and the sending
-- of the client, then TCP_server_recv_all() and the treatment of the message by the server.
use tcp_udp_client_server.Base.{
  ◌≡◌, ◌≢◌, ◌<◌, ◌-◌, ◌⊎◌, refl, ℕ, true, false, some, [], ◌∷◌, length, arith,
}
use tcp_udp_client_server.Clients.{Client, client_state_new, has_fd, id_maxlen}
use tcp_udp_client_server.CString.{Bytes, is_digit}
use tcp_udp_client_server.CString.Words.{IsWord, IsWord-IsText}
use tcp_udp_client_server.DList.Insert.{IsFresh}
use tcp_udp_client_server.DList.Removal.{is_last}
use tcp_udp_client_server.DList.Search.{find_first, first_body}
use tcp_udp_client_server.DList.Unlink.{erase}
use tcp_udp_client_server.Outcome.{Ends}
use tcp_udp_client_server.Packets.{
  ctos_maxlen, packet_maxlen, tcp_msg_subscribe, tcp_msg_unsubscribe,
}
use tcp_udp_client_server.Server.{Server, Answers, handle_event}
use tcp_udp_client_server.Server.Turns.{TcpOnly, handle_event-subscribe, handle_event-unsubscribe}
use tcp_udp_client_server.Sockets.Sending.{Moves}
use tcp_udp_client_server.Subscriptions.{topic_len, Subscription, is_of}
use tcp_udp_client_server.TcpClient.{CommandArgs, client_cmd_subscribe, client_cmd_unsubscribe}
use tcp_udp_client_server.TcpClient.Commands.{carried, message_packet-carried}
use tcp_udp_client_server.TcpClient.Input.Parsing.{
  subscribe_line, unsubscribe_line, newline, get_user_command-subscribe,
  get_user_command-unsubscribe,
}
use tcp_udp_client_server.TcpClient.Run.{
  TcpClient, subscribed_line, unsubscribed_line, handle_event as client_event, stdin_fileno,
}
use tcp_udp_client_server.TcpClient.Run.Turns.{
  Told, handle_event-subscribe as client_event-subscribe,
  handle_event-unsubscribe as client_event-unsubscribe,
}
use tcp_udp_client_server.TcpServer.Arguments.{
  flag, command_text, subscribe_packet-carried, get_args-command, text-kept,
}
use tcp_udp_client_server.TcpServer.Invariant.{IsWellFormed}
use tcp_udp_client_server.TcpServer.Receive.{length-carried, receives}
use tcp_udp_client_server.TcpServer.Subscribing.{HasSubscriptions}

-- What a typed subscription is read as.
abbrev pub typed_args : (topic : Bytes) (digit : ℕ) → CommandArgs
typed_args topic digit = record {
  cmd = client_cmd_subscribe;
  topic = topic;
  store_and_forward = digit - b'0';
}

-- The packets of the two commands.
abbrev pub subscribe_sent : (topic : Bytes) (digit : ℕ) → Bytes
subscribe_sent topic digit = carried tcp_msg_subscribe (command_text (typed_args topic digit))

abbrev pub unsubscribe_sent : (topic : Bytes) → Bytes
unsubscribe_sent topic = carried tcp_msg_unsubscribe topic

-- A client that can send: more than 1615 answers of send(), none of them a failure or a zero.
pub record CanSend (cl : TcpClient) : Type 0 where
  pub moves : Moves cl.socket.answers
  pub room : packet_maxlen < length cl.socket.answers

-- A server with well-formed lists, a payload array of 52 bytes, and on `fd`, which is none of its own
-- descriptors, a client `c` that is not new and whose id fits.
pub record Serves (s : Server) (fd : ℕ) (c : Client) : Type 0 where
  pub well : IsWellFormed s.tcp_server
  pub known : first_body (has_fd fd) well.members ≡ some c
  pub old : c.state ≢ client_state_new
  pub short : length c.id < id_maxlen
  pub not_input : fd ≢ stdin_fileno
  pub not_udp : fd ≢ s.udp_server.fd
  pub not_tcp : fd ≢ s.tcp_server.fd
  pub room : length s.tcp_server.recv_msg.payload ≡ ctos_maxlen

-- The user types a subscription to a non-empty word of at most 48 bytes, with a digit, at a client that can send;
-- the server, which serves that client, gets the packet whole, and malloc() gives it an address that the
-- subscriptions do not use. The turn of the client's loop returns: the packet went out, and up to the
-- whole of it again, the line is used up to its end, and the client says that it is subscribed. The turn
-- of the server's loop returns: the subscription under the client's id, with 0 or 1 as the digit is 0 or
-- not, stands first, the others are as they were, and else only the received message changes.
pub subscribe_line-held :
    (cl : TcpClient) (topic : Bytes) (digit : ℕ) (rest : Bytes) (s : Server) (fd : ℕ) (c : Client)
    (a : Answers)
    → CanSend cl
    → cl.stdin ≡ subscribe_line topic digit rest
    → topic ≢ []
    → IsWord topic
    → length topic < topic_len - 1
    → is_digit digit ≡ true
    → (v : Serves s fd c) → a.bytes ≡ some (subscribe_sent topic digit)
    → IsFresh s.tcp_server.nodes a.fresh
    → Ends
        (λ _. Told cl (newline ∷ rest) (subscribe_sent topic digit) subscribed_line)
        (client_event stdin_fileno cl)
      × Ends
          (λ _. TcpOnly s (
            HasSubscriptions
              (receives tcp_msg_subscribe (command_text (typed_args topic digit)) s.tcp_server)
              ((
                a.fresh,
                record {
                  topic = topic;
                  subscriber_id = c.id;
                  store_and_forward = flag (digit - b'0');
                },
              )
                ∷ v.well.held)))
          (handle_event a fd s)
subscribe_line-held cl topic digit rest s fd c a can typed ne w short d v got new =
    let args : CommandArgs = typed_args topic digit in
    let size = length-carried tcp_msg_subscribe (command_text args) in
    (
      client_event-subscribe cl args (newline ∷ rest) (subscribe_sent topic digit)
          (rw typed (get_user_command-subscribe topic digit rest ne w (omega arith) d)) can.moves
          (omega (arith, can.room)) refl
          (subscribe_packet-carried tcp_msg_subscribe args (IsWord-IsText topic w) (omega arith)),
      handle_event-subscribe s v.well fd c v.known v.old v.not_input v.not_udp v.not_tcp v.room a
          (command_text args) _ got
          (get_args-command tcp_msg_subscribe a.junk_flag args s.tcp_server ne w short) new
          (omega arith) v.short,
    )

-- The user types the end of a subscription to such a word, of at most 49 bytes, at a client that can send; the server,
-- which serves that client, gets the packet whole, and holds a subscription of that client to the topic,
-- the first of which is at the head of the list or not last. The turn of the client's loop returns: the
-- packet went out, and up to the whole of it again, the line is used up to its end, and the client says
-- that it is unsubscribed. The turn of the server's loop returns: that subscription is gone, the others
-- are as they were, and else only the received message changes.
pub unsubscribe_line-held :
    (cl : TcpClient) (topic rest : Bytes) (s : Server) (fd : ℕ) (c : Client) (a : Answers)
    (sub : Subscription)
    → CanSend cl
    → cl.stdin ≡ unsubscribe_line topic rest
    → topic ≢ []
    → IsWord topic
    → length topic < topic_len
    → (v : Serves s fd c) → a.bytes ≡ some (unsubscribe_sent topic)
    → first_body (is_of topic c.id) v.well.held ≡ some sub
    → (s.tcp_server.subscriptions.head ≡ find_first (is_of topic c.id) v.well.held)
      ⊎ (is_last (find_first (is_of topic c.id) v.well.held) v.well.held ≡ false)
    → Ends
        (λ _. Told cl (newline ∷ rest) (unsubscribe_sent topic) unsubscribed_line)
        (client_event stdin_fileno cl)
      × Ends
          (λ _. TcpOnly s (
            HasSubscriptions
              (receives tcp_msg_unsubscribe topic s.tcp_server)
              (erase (find_first (is_of topic c.id) v.well.held) v.well.held)))
          (handle_event a fd s)
unsubscribe_line-held cl topic rest s fd c a sub can typed ne w short v got holds place =
    let args : CommandArgs = record {
      cmd = client_cmd_unsubscribe;
      topic = topic;
      store_and_forward = 0;
    } in
    let size = length-carried tcp_msg_unsubscribe topic in
    (
      client_event-unsubscribe cl args (newline ∷ rest) (unsubscribe_sent topic)
          (rw typed (get_user_command-unsubscribe topic rest ne w short)) can.moves
          (omega (arith, can.room)) refl
          (message_packet-carried tcp_msg_unsubscribe topic (omega arith)),
      handle_event-unsubscribe s v.well fd c v.known v.old v.not_input v.not_udp v.not_tcp v.room a
          topic topic {sub = sub} got
          (text-kept tcp_msg_unsubscribe topic s.tcp_server (IsWord-IsText topic w) (omega arith))
          holds place,
    )
