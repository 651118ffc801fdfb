-- ===== src/Server/Invariant/Events.antt =====
-- server.c: every event that the loop treats keeps the server sound.
use tcp_udp_client_server.Base.{ℕ, Option, none, some, ◌==◌}
use tcp_udp_client_server.DList.{Ptr}
use tcp_udp_client_server.DList.Insert.{IsFresh}
use tcp_udp_client_server.Outcome.{
  Cmd, pure, ◌>>◌, Yields, returns, exits, faults, Yields-bind, Yields-if, Yields-either,
  Yields-any,
}
use tcp_udp_client_server.Packets.{TcpHeader, tcp_msg_subscribe, tcp_msg_unsubscribe}
use tcp_udp_client_server.Poller.{poller_destroy, poller_add_fd, poller_remove_fd, poller_advance}
use tcp_udp_client_server.Poller.Slots.{IsValid}
use tcp_udp_client_server.Server.{
  on_udp, ConnectionStatus, connected, disconnected, status_line, Server, ServerCommand,
  server_cmd_exit, server_cmd_undefined, Answers, on_poller, on_tcp, die, stdin_fileno,
  get_user_command, server_compose_msg, server_exit, server_print_connection_status,
  tcp_server_close_connection, run_command, send_composed, receive_udp, receive_connection,
  after_update, treat_subscription, treat_message, after_receive, receive_tcp, handle_event,
}
use tcp_udp_client_server.TcpServer.{
  TcpServer, Update, updated, already_connected, wrong_type, Received, failed, ended, message,
  on_clients, tcp_server_update_client, tcp_server_destroy,
}
use tcp_udp_client_server.TcpServer.Delivery.{send_to_subscribers-idle}
use tcp_udp_client_server.TcpServer.Invariant.{
  with_notice, with_message, IsWellFormed, with_members, keep_clients-Yields, find_client-Yields,
  client_at-same, is_new_connection-same, recv_all-same,
}
use tcp_udp_client_server.TcpServer.Invariant.Members.{
  accept_connection-IsWellFormed, update_client-IsWellFormed, remove_by_fd-Kept,
}
use tcp_udp_client_server.TcpServer.Invariant.Held.{
  HasFresh, subscribe-IsWellFormed, unsubscribe-IsWellFormed,
}
use tcp_udp_client_server.UdpServer.{udp_server_destroy, udp_server_recv}
use tcp_udp_client_server.Server.Invariant.{
  IsSound, keep_tcp-Yields, on_poller-IsSound, on_tcp-IsSound, on_udp-IsSound, add_fd-IsValid,
  remove_fd-IsValid, advance-IsValid,
}

module _ (s : Server) (i : IsSound s) where
  server_exit-IsSound : Yields (λ _. IsSound) (server_exit s)
  unfolding server_exit
  server_exit-IsSound = Yields-bind (Yields-any (on_poller poller_destroy s)) λ _ t _.
      Yields-bind (Yields-any (on_udp udp_server_destroy t))
        λ _ u _. Yields-bind (Yields-any (on_tcp tcp_server_destroy u)) λ _ v _. exits

  run_command-IsSound : (c : Option ServerCommand) → Yields (λ _. IsSound) (run_command c s)
  unfolding run_command
  run_command-IsSound none = faults
  run_command-IsSound (some server_cmd_exit) = server_exit-IsSound
  run_command-IsSound (some server_cmd_undefined) = returns i

print-same :
    (fd : ℕ) (status : ConnectionStatus) (t : TcpServer)
    → IsWellFormed t
    → Yields (λ _. IsWellFormed) (server_print_connection_status fd status t)
unfolding server_print_connection_status
print-same fd status t w = find_client-Yields t w fd _ λ c.
    Yields-bind (client_at-same t IsWellFormed w c)
      λ d u v. returns (with_notice u (status_line status d) v)

sent_checked :
    (rc : Option ℕ) (t : Server)
    → IsSound t
    → Yields
        (λ _. IsSound)
        ((elim rc as (λ _. Cmd Server (Unit {0})) [ none ↦ die | some n ↦ pure tt ]) t)
sent_checked none t i = exits
sent_checked (some n) t i = returns i

send_composed-IsSound :
    (s : Server) (junk : Option ℕ) (h : Option TcpHeader)
    → IsSound s
    → Yields (λ _. IsSound) (send_composed junk h s)
unfolding send_composed
send_composed-IsSound s junk none i = faults
send_composed-IsSound s junk (some h) i =
    Yields-bind
      (on_tcp-IsSound s i _ (
        rw (send_to_subscribers-idle h junk s.tcp_server i.tcp_server.cursor)
          (returns i.tcp_server)))
      sent_checked

receive_udp-IsSound :
    (s : Server) (a : Answers) → IsSound s → Yields (λ _. IsSound) (receive_udp a s)
unfolding receive_udp
receive_udp-IsSound s a i =
    Yields-bind (on_udp-IsSound s i (udp_server_recv a.junk_packet a.datagram)) λ b t j.
      Yields-if b _ _ t (λ _. send_composed-IsSound t a.junk_rc (server_compose_msg t.udp_server) j)
        λ _. exits

watched :
    (o : Option ℕ) (t : Server)
    → IsSound t
    → Yields
        (λ _. IsSound)
        ((elim o as (λ _. Cmd Server (Unit {0})) [
          | none ↦ die
          | some fd ↦ (on_poller (poller_add_fd fd) >> on_poller poller_advance)
        ])
          t)
watched none t i = exits
watched (some fd) t i =
    Yields-bind (on_poller-IsSound t i (poller_add_fd fd) (add_fd-IsValid fd t.poller i.poller))
      λ _ u j. on_poller-IsSound u j poller_advance (advance-IsValid u.poller j.poller)

receive_connection-IsSound :
    (s : Server) (a : Answers)
    → IsSound s
    → IsFresh s.tcp_server.clients a.fresh
    → Yields (λ _. IsSound) (receive_connection a s)
unfolding receive_connection
receive_connection-IsSound s a i new =
    Yields-bind
      (on_tcp-IsSound s i _
        (accept_connection-IsWellFormed s.tcp_server a.accepted a.fresh i.tcp_server new))
      watched

close_connection-IsSound :
    (fd : ℕ) (s : Server) → IsSound s → Yields (λ _. IsSound) (tcp_server_close_connection fd s)
unfolding tcp_server_close_connection on_tcp on_clients
close_connection-IsSound fd s i =
    Yields-bind
      (keep_tcp-Yields
        {Q = λ head t.
          IsSound (record t { tcp_server = record t.tcp_server { connected_clients = head } })}
        s
        (keep_clients-Yields {Q = λ head t. IsWellFormed (record t { connected_clients = head })}
          s.tcp_server (remove_by_fd-Kept i.tcp_server.members_list i.tcp_server.distinct fd)
          λ head g (ys, is, d). with_members s.tcp_server g head ys i.tcp_server is d)
        λ head t w. record { poller = i.poller; tcp_server = w })
      λ head t j.
        on_poller-IsSound
          (record t { tcp_server = record t.tcp_server { connected_clients = head } }) j
          (poller_remove_fd fd) (remove_fd-IsValid fd t.poller j.poller)

after_update-IsSound :
    (fd : ℕ) (u : Update) (s : Server) → IsSound s → Yields (λ _. IsSound) (after_update fd u s)
unfolding after_update
after_update-IsSound fd updated s i =
    on_tcp-IsSound s i _ (print-same fd connected s.tcp_server i.tcp_server)
after_update-IsSound fd already_connected s i = close_connection-IsSound fd s i
after_update-IsSound fd wrong_type s i =
    on_tcp-IsSound s i _ (print-same fd connected s.tcp_server i.tcp_server)

treat_subscription-IsWellFormed :
    (a : Answers) (fd : ℕ) (t : TcpServer)
    → HasFresh a.fresh t
    → Yields (λ _. IsWellFormed) (treat_subscription a fd t)
unfolding treat_subscription
treat_subscription-IsWellFormed a fd t p =
    Yields-either (t.recv_msg.msg_type == tcp_msg_subscribe) _ _
      (λ _. subscribe-IsWellFormed fd a.fresh a.junk_flag t p)
      λ _.
        Yields-either (t.recv_msg.msg_type == tcp_msg_unsubscribe) _ _
          (λ _. unsubscribe-IsWellFormed fd t p.0) λ _. returns p.0

-- The server, with an address for a subscription.
record IsReady (fresh : Ptr) (s : Server) : Type 0 where
  poller : IsValid s.poller
  tcp_server : HasFresh fresh s.tcp_server

sound : (fresh : Ptr) (s : Server) → IsReady fresh s → IsSound s
sound fresh s r = record { poller = r.poller; tcp_server = r.tcp_server.0 }

treat_message-IsSound :
    (a : Answers) (fd : ℕ) (s : Server)
    → IsReady a.fresh s
    → Yields (λ _. IsSound) (treat_message a fd s)
unfolding treat_message on_tcp
treat_message-IsSound a fd s r =
    Yields-bind
      (keep_tcp-Yields {Q = λ _. IsReady a.fresh} s
        (is_new_connection-same fd s.tcp_server (HasFresh a.fresh) r.tcp_server.0 r.tcp_server)
        λ b t p. record { poller = r.poller; tcp_server = p })
      λ b t q.
        Yields-if b _ _ t
          (λ _.
            Yields-bind
              (on_tcp-IsSound t (sound a.fresh t q) (tcp_server_update_client fd)
                (update_client-IsWellFormed fd t.tcp_server q.tcp_server.0))
              λ u v j. after_update-IsSound fd u v j)
          λ _.
            on_tcp-IsSound t (sound a.fresh t q) (treat_subscription a fd)
              (treat_subscription-IsWellFormed a fd t.tcp_server q.tcp_server)

after_receive-IsSound :
    (a : Answers) (fd : ℕ) (o : Received) (s : Server)
    → IsReady a.fresh s
    → Yields (λ _. IsSound) (after_receive a fd o s)
unfolding after_receive
after_receive-IsSound a fd failed s r = exits
after_receive-IsSound a fd ended s r =
    Yields-bind
      (on_tcp-IsSound s (sound a.fresh s r) _
        (print-same fd disconnected s.tcp_server r.tcp_server.0))
      λ _ t j. close_connection-IsSound fd t j
after_receive-IsSound a fd message s r = treat_message-IsSound a fd s r

receive_tcp-IsSound :
    (a : Answers) (fd : ℕ) (s : Server)
    → IsReady a.fresh s
    → Yields (λ _. IsSound) (receive_tcp a fd s)
unfolding receive_tcp on_tcp
receive_tcp-IsSound a fd s r =
    Yields-bind
      (keep_tcp-Yields {Q = λ _. IsReady a.fresh} s
        (recv_all-same s.tcp_server (HasFresh a.fresh)
          (λ m. (with_message s.tcp_server m r.tcp_server.0, r.tcp_server.1)) a.bytes)
        λ o t p. record { poller = r.poller; tcp_server = p })
      λ o t q. after_receive-IsSound a fd o t q

-- A server whose poller and lists are well-formed, where malloc() gives an address that neither list uses: an
-- event on any descriptor, with any answers of the system, leaves a server whose poller and lists are
-- well-formed, in which no two clients have the same id, if the treatment of the event returns.
pub handle_event-IsSound :
    (a : Answers) (fd : ℕ) (s : Server)
    → IsSound s
    → IsFresh s.tcp_server.clients a.fresh
    → IsFresh s.tcp_server.nodes a.fresh
    → Yields (λ _. IsSound) (handle_event a fd s)
unfolding handle_event
handle_event-IsSound a fd s i new new' =
    Yields-either (fd == stdin_fileno) _ _ (λ _. run_command-IsSound s i (get_user_command a.input))
      λ _.
        Yields-either (fd == s.udp_server.fd) _ _ (λ _. receive_udp-IsSound s a i)
          λ _.
            Yields-either (fd == s.tcp_server.fd) _ _ (λ _. receive_connection-IsSound s a i new)
              λ _.
                receive_tcp-IsSound a fd s
                  (record { poller = i.poller; tcp_server = (i.tcp_server, new') })
