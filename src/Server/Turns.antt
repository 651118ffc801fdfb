-- ===== src/Server/Turns.antt =====
-- server.c: one turn of the inner loop, for the message of a client that is connected.
use tcp_udp_client_server.Base.{
  ◌<◌, ◌≡◌, ◌≢◌, ◌⊎◌, ◌∙◌, refl, ap, ℕ, false, some, ◌∷◌, ==_ne, length,
}
use tcp_udp_client_server.Clients.{Client, client_state_new, has_fd, id_maxlen}
use tcp_udp_client_server.CString.{Bytes, c_str}
use tcp_udp_client_server.DList.Insert.{IsFresh}
use tcp_udp_client_server.DList.Removal.{is_last}
use tcp_udp_client_server.DList.Search.{find_first, first_body}
use tcp_udp_client_server.DList.Unlink.{erase}
use tcp_udp_client_server.Outcome.{Outcome, ok, exited, fault, starved, Ends, ends, then_run}
use tcp_udp_client_server.Packets.{ctos_maxlen, tcp_msg_subscribe, tcp_msg_unsubscribe}
use tcp_udp_client_server.Server.{
  Server, Answers, keep_tcp, on_tcp, stdin_fileno, treat_subscription, treat_message, after_receive,
  receive_tcp, handle_event,
}
use tcp_udp_client_server.Subscriptions.{topic_len, is_of, Subscription}
use tcp_udp_client_server.TcpClient.Commands.{carried}
use tcp_udp_client_server.TcpServer.{
  TcpServer, SubscribeArgs, tcp_server_get_sub_args, tcp_server_recv_all, message,
}
use tcp_udp_client_server.TcpServer.Invariant.{IsWellFormed, with_message}
use tcp_udp_client_server.TcpServer.Receive.{receives, recv_all-carried}
use tcp_udp_client_server.TcpServer.Subscribing.{
  HasSubscriptions, is_new_connection-ok, subscribe-HasSubscriptions, unsubscribe-HasSubscriptions,
}

-- The run of the TCP server, in the state of the server; the poller and the UDP server stay.
pub record TcpOnly (s : Server) (P : TcpServer → Type 0) (t : Server) : Type 0 where
  pub tcp_server : P t.tcp_server
  pub other : t ≡ record s { tcp_server = t.tcp_server }

tcp_ends :
    {A : Type 0} (s : Server) {P : TcpServer → Type 0} (r : Outcome TcpServer A)
    → Ends (λ _. P) r
    → Ends (λ _. TcpOnly s P) (keep_tcp s r)
tcp_ends s (ok a t) (ends p) = ends (record { tcp_server = p; other = refl })
tcp_ends s (exited c t) e = elim e [ ]
tcp_ends s fault e = elim e [ ]
tcp_ends s starved e = elim e [ ]

module _ (s : Server) (w : IsWellFormed s.tcp_server) (fd : ℕ) (c : Client)
    (f : first_body (has_fd fd) w.members ≡ some c) (old : c.state ≢ client_state_new)
    (not_input : fd ≢ stdin_fileno) (not_udp : fd ≢ s.udp_server.fd)
    (not_tcp : fd ≢ s.tcp_server.fd)
    (room : length s.tcp_server.recv_msg.payload ≡ ctos_maxlen) where
  -- The state of the TCP server that has received a message.
  abbrev pub received : ℕ → Bytes → TcpServer
  received type text = receives type text s.tcp_server

  abbrev pub well : (type : ℕ) (text : Bytes) → IsWellFormed (received type text)
  well type text = with_message s.tcp_server (received type text).recv_msg w

  treat_message-old :
      (a : Answers) (type : ℕ) (text : Bytes)
      → treat_message a fd (record s { tcp_server = received type text })
        ≡ keep_tcp s (treat_subscription a fd (received type text))
  unfolding treat_message on_tcp
  treat_message-old a type text =
      rw
        (
          is_new_connection-ok (received type text) (well type text) fd c f,
          keep_tcp,
          then_run,
          ==_ne c.state client_state_new old,
        )
        refl

  pub handle_event-message :
      (a : Answers) (type : ℕ) (text : Bytes)
      → a.bytes ≡ some (carried type text)
      → handle_event a fd s ≡ keep_tcp s (treat_subscription a fd (received type text))
  unfolding handle_event receive_tcp after_receive on_tcp
  handle_event-message a type text e =
      let got : tcp_server_recv_all a.bytes s.tcp_server ≡ ok message (received type text) =
        ap (λ b. tcp_server_recv_all b s.tcp_server) e
        ∙ recv_all-carried type text s.tcp_server room in
      rw
        (
          ==_ne fd stdin_fileno not_input,
          ==_ne fd s.udp_server.fd not_udp,
          ==_ne fd s.tcp_server.fd not_tcp,
          got,
          keep_tcp,
          then_run,
        )
        (treat_message-old a type text)

  -- The message of a subscription.
  pub handle_event-subscribe :
      (a : Answers) (text : Bytes) (args : SubscribeArgs)
      → a.bytes ≡ some (carried tcp_msg_subscribe text)
      → tcp_server_get_sub_args a.junk_flag (received tcp_msg_subscribe text)
        ≡ ok args (received tcp_msg_subscribe text)
      → IsFresh s.tcp_server.nodes a.fresh
      → length args.topic < topic_len
      → length c.id < id_maxlen
      → Ends
          (λ _. TcpOnly s (
            HasSubscriptions (received tcp_msg_subscribe text) (
              (
                a.fresh,
                record {
                  topic = args.topic;
                  subscriber_id = c.id;
                  store_and_forward = args.store_and_forward;
                },
              )
              ∷ w.held)))
          (handle_event a fd s)
  unfolding treat_subscription
  handle_event-subscribe a text args e read new short short' =
      rw (handle_event-message a tcp_msg_subscribe text e) (
        tcp_ends s _ (
          subscribe-HasSubscriptions (received tcp_msg_subscribe text) (well tcp_msg_subscribe text)
            fd c f a.fresh a.junk_flag args read new short short'))

  -- The message of an unsubscription.
  pub handle_event-unsubscribe :
      (a : Answers) (text topic : Bytes) {sub : Subscription}
      → a.bytes ≡ some (carried tcp_msg_unsubscribe text)
      → c_str (received tcp_msg_unsubscribe text).recv_msg.payload ≡ some topic
      → first_body (is_of topic c.id) w.held ≡ some sub
      → (s.tcp_server.subscriptions.head ≡ find_first (is_of topic c.id) w.held)
        ⊎ (is_last (find_first (is_of topic c.id) w.held) w.held ≡ false)
      → Ends
          (λ _. TcpOnly s (
            HasSubscriptions
              (received tcp_msg_unsubscribe text)
              (erase (find_first (is_of topic c.id) w.held) w.held)))
          (handle_event a fd s)
  unfolding treat_subscription
  handle_event-unsubscribe a text topic {sub} e read g place =
      rw (handle_event-message a tcp_msg_unsubscribe text e) (
        tcp_ends s _ (
          unsubscribe-HasSubscriptions (received tcp_msg_unsubscribe text)
            (well tcp_msg_unsubscribe text) fd c f topic {sub = sub} read g place))
