-- ===== src/Server/Silence.antt =====
-- server.c: what the loop of the server sends.
use tcp_udp_client_server.Base.{ℕ, ◌≡◌, refl, Option, none, some, List, [], ◌∷◌, ◌==◌}
use tcp_udp_client_server.Clients.{clients_list_remove_client_by_fd}
use tcp_udp_client_server.CString.{Bytes}
use tcp_udp_client_server.Outcome.{
  Outcome, ok, exited, fault, starved, Cmd, pure, ◌>>◌, Holds, Keeps, Keeps-bind, Keeps-if,
  Holds-if, Holds-mono,
}
use tcp_udp_client_server.Packets.{TcpHeader, TcpCtosMsg, tcp_msg_subscribe, tcp_msg_unsubscribe}
use tcp_udp_client_server.Poller.{
  Poller, poller_poll, poller_add_fd, poller_remove_fd, poller_next_fd_with_pollin, poller_advance,
  poller_destroy, poller_create,
}
use tcp_udp_client_server.Sockets.{Socket}
use tcp_udp_client_server.Server.{
  ConnectionStatus, connected, disconnected, Server, ServerCommand, server_cmd_exit,
  server_cmd_undefined, Answers, Round, keep_poller, keep_udp, keep_tcp, on_poller, on_udp, on_tcp,
  die, stdin_fileno, get_user_command, server_compose_msg, server_exit,
  server_print_connection_status, tcp_server_close_connection, run_command, send_composed,
  receive_udp, receive_connection, after_update, treat_subscription, treat_message, after_receive,
  receive_tcp, handle_event, events_loop, server_round, run_rounds, run_server,
}
use tcp_udp_client_server.TcpServer.{
  TcpServer, Update, updated, already_connected, wrong_type, Received, failed, ended, message,
  find_client, tcp_server_create, tcp_server_send_to_subscribers,
}
use tcp_udp_client_server.TcpServer.Connections.{
  recv_all-IsSilent, accept_connection-IsSilent, is_new_connection-IsSilent, update_client-IsSilent,
  destroy-IsSilent,
}
use tcp_udp_client_server.TcpServer.Delivery.{
  IsSilent, send_to_subscribers-idle, on_clients-IsSilent, find_client-IsSilent, client_at-IsSilent,
  subscribe-IsSilent, unsubscribe-IsSilent,
}
use tcp_udp_client_server.UdpServer.{udp_server_destroy, UdpServer, udp_server_recv}

abbrev IsQuiet : (ℕ → Bytes) → Server → Type 0
IsQuiet sent s = IsSilent sent s.tcp_server

tcp-IsQuiet :
    {A : Type 0} (sent : ℕ → Bytes) (s : Server) (r : Outcome TcpServer A)
    → Holds (IsSilent sent) r
    → Holds (IsQuiet sent) (keep_tcp s r)
tcp-IsQuiet sent s (ok a p) q = q
tcp-IsQuiet sent s (exited c p) q = q
tcp-IsQuiet sent s fault q = tt
tcp-IsQuiet sent s starved q = tt

module _ {sent : ℕ → Bytes} {A : Type 0} where
  poller-IsQuiet :
      (s : Server) (r : Outcome Poller A) → IsQuiet sent s → Holds (IsQuiet sent) (keep_poller s r)
  poller-IsQuiet s (ok a p) q = q
  poller-IsQuiet s (exited c p) q = q
  poller-IsQuiet s fault q = tt
  poller-IsQuiet s starved q = tt

  on_poller-IsQuiet : (m : Cmd Poller A) → Keeps (IsQuiet sent) (on_poller m)
  unfolding on_poller
  on_poller-IsQuiet m s q = poller-IsQuiet s (m s.poller) q

  udp-IsQuiet :
      (s : Server) (r : Outcome UdpServer A) → IsQuiet sent s → Holds (IsQuiet sent) (keep_udp s r)
  udp-IsQuiet s (ok a p) q = q
  udp-IsQuiet s (exited c p) q = q
  udp-IsQuiet s fault q = tt
  udp-IsQuiet s starved q = tt

  on_udp-IsQuiet : (m : Cmd UdpServer A) → Keeps (IsQuiet sent) (on_udp m)
  unfolding on_udp
  on_udp-IsQuiet m s q = udp-IsQuiet s (m s.udp_server) q

  on_tcp-IsQuiet : (m : Cmd TcpServer A) → Keeps (IsSilent sent) m → Keeps (IsQuiet sent) (on_tcp m)
  unfolding on_tcp
  on_tcp-IsQuiet m k s q = tcp-IsQuiet sent s (m s.tcp_server) (k s.tcp_server q)

module _ {sent : ℕ → Bytes} where
  server_exit-IsQuiet : Keeps (IsQuiet sent) server_exit
  unfolding server_exit
  server_exit-IsQuiet = Keeps-bind (IsQuiet sent) _ _ (on_poller-IsQuiet poller_destroy) (λ u.
      Keeps-bind (IsQuiet sent) _ _ (on_udp-IsQuiet udp_server_destroy)
        (λ v. Keeps-bind (IsQuiet sent) _ _ (on_tcp-IsQuiet _ destroy-IsSilent) (λ w s q. q)))

  print-IsSilent :
      (fd : ℕ) (status : ConnectionStatus)
      → Keeps (IsSilent sent) (server_print_connection_status fd status)
  unfolding server_print_connection_status
  print-IsSilent fd status =
      Keeps-bind (IsSilent sent) (find_client fd) _ (find_client-IsSilent fd) (λ c.
        Keeps-bind (IsSilent sent) _ _ (client_at-IsSilent c)
          (λ d s q. record { cursor = q.cursor; unsent = q.unsent }))

  close_connection-IsQuiet : (fd : ℕ) → Keeps (IsQuiet sent) (tcp_server_close_connection fd)
  unfolding tcp_server_close_connection
  close_connection-IsQuiet fd =
      Keeps-bind (IsQuiet sent) _ _
        (on_tcp-IsQuiet _ (λ t q.
          on_clients-IsSilent (clients_list_remove_client_by_fd t.connected_clients fd) t q))
        (λ head.
          Keeps-bind (IsQuiet sent) _ _
            (on_tcp-IsQuiet _ (λ t q. record { cursor = q.cursor; unsent = q.unsent }))
            (λ u. on_poller-IsQuiet (poller_remove_fd fd)))

  run_command-IsQuiet : (c : Option ServerCommand) → Keeps (IsQuiet sent) (run_command c)
  unfolding run_command
  run_command-IsQuiet none s q = tt
  run_command-IsQuiet (some server_cmd_exit) s q = server_exit-IsQuiet s q
  run_command-IsQuiet (some server_cmd_undefined) s q = q

  send_to_subscribers-IsSilent :
      (h : TcpHeader) (junk : Option ℕ)
      → Keeps (IsSilent sent) (tcp_server_send_to_subscribers h junk)
  send_to_subscribers-IsSilent h junk s q = rw (send_to_subscribers-idle h junk s q.cursor) q

  checked :
      (rc : Option ℕ)
      → Keeps (IsQuiet sent) {A = Unit {0}} (elim rc [ none ↦ die | some n ↦ pure tt ])
  checked none s q = q
  checked (some n) s q = q

  send_composed-IsQuiet :
      (junk : Option ℕ) (h : Option TcpHeader) → Keeps (IsQuiet sent) (send_composed junk h)
  unfolding send_composed
  send_composed-IsQuiet junk none s q = tt
  send_composed-IsQuiet junk (some h) s q =
      Keeps-bind (IsQuiet sent) _ _ (on_tcp-IsQuiet _ (send_to_subscribers-IsSilent h junk)) checked
        s q

  receive_udp-IsQuiet : (a : Answers) → Keeps (IsQuiet sent) (receive_udp a)
  unfolding receive_udp
  receive_udp-IsQuiet a =
      Keeps-bind (IsQuiet sent) _ _ (on_udp-IsQuiet (udp_server_recv a.junk_packet a.datagram))
        (λ b.
          Keeps-if (IsQuiet sent) b _ _
            (λ s q. send_composed-IsQuiet a.junk_rc (server_compose_msg s.udp_server) s q)
            (λ s q. q))

  watched :
      (o : Option ℕ)
      → Keeps (IsQuiet sent) {A = Unit {0}} (elim o [
        | none ↦ die
        | some fd ↦ on_poller (poller_add_fd fd) >> on_poller poller_advance
      ])
  watched none s q = q
  watched (some fd) s q =
      Keeps-bind (IsQuiet sent) _ _ (on_poller-IsQuiet (poller_add_fd fd))
        (λ u. on_poller-IsQuiet poller_advance) s q

  receive_connection-IsQuiet : (a : Answers) → Keeps (IsQuiet sent) (receive_connection a)
  unfolding receive_connection
  receive_connection-IsQuiet a =
      Keeps-bind (IsQuiet sent) _ _
        (on_tcp-IsQuiet _ (accept_connection-IsSilent a.accepted a.fresh)) watched

  after_update-IsQuiet : (fd : ℕ) (u : Update) → Keeps (IsQuiet sent) (after_update fd u)
  unfolding after_update
  after_update-IsQuiet fd updated s q = on_tcp-IsQuiet _ (print-IsSilent fd connected) s q
  after_update-IsQuiet fd already_connected s q = close_connection-IsQuiet fd s q
  after_update-IsQuiet fd wrong_type s q = on_tcp-IsQuiet _ (print-IsSilent fd connected) s q

  treat_subscription-IsSilent :
      (a : Answers) (fd : ℕ) → Keeps (IsSilent sent) (treat_subscription a fd)
  unfolding treat_subscription
  treat_subscription-IsSilent a fd t q =
      Holds-if (IsSilent sent) (t.recv_msg.msg_type == tcp_msg_subscribe) _ _
        (subscribe-IsSilent fd a.fresh a.junk_flag t q)
        (Holds-if (IsSilent sent) (t.recv_msg.msg_type == tcp_msg_unsubscribe) _ _
          (unsubscribe-IsSilent fd t q) q)

  treat_message-IsQuiet : (a : Answers) (fd : ℕ) → Keeps (IsQuiet sent) (treat_message a fd)
  unfolding treat_message
  treat_message-IsQuiet a fd =
      Keeps-bind (IsQuiet sent) _ _ (on_tcp-IsQuiet _ (is_new_connection-IsSilent fd)) (λ b.
        Keeps-if (IsQuiet sent) b _ _
          (Keeps-bind (IsQuiet sent) _ _ (on_tcp-IsQuiet _ (update_client-IsSilent fd))
            (after_update-IsQuiet fd))
          (on_tcp-IsQuiet _ (treat_subscription-IsSilent a fd)))

  after_receive-IsQuiet :
      (a : Answers) (fd : ℕ) (r : Received) → Keeps (IsQuiet sent) (after_receive a fd r)
  unfolding after_receive
  after_receive-IsQuiet a fd failed s q = q
  after_receive-IsQuiet a fd ended s q =
      Keeps-bind (IsQuiet sent) _ _ (on_tcp-IsQuiet _ (print-IsSilent fd disconnected))
        (λ u. close_connection-IsQuiet fd) s q
  after_receive-IsQuiet a fd message s q = treat_message-IsQuiet a fd s q

  receive_tcp-IsQuiet : (a : Answers) (fd : ℕ) → Keeps (IsQuiet sent) (receive_tcp a fd)
  unfolding receive_tcp
  receive_tcp-IsQuiet a fd =
      Keeps-bind (IsQuiet sent) _ _ (on_tcp-IsQuiet _ (recv_all-IsSilent a.bytes))
        (after_receive-IsQuiet a fd)

  handle_event-IsQuiet : (a : Answers) (fd : ℕ) → Keeps (IsQuiet sent) (handle_event a fd)
  unfolding handle_event
  handle_event-IsQuiet a fd s q =
      Holds-if (IsQuiet sent) (fd == stdin_fileno) _ _
        (run_command-IsQuiet (get_user_command a.input) s q)
        (Holds-if (IsQuiet sent) (fd == s.udp_server.fd) _ _ (receive_udp-IsQuiet a s q) (
          Holds-if (IsQuiet sent) (fd == s.tcp_server.fd) _ _ (receive_connection-IsQuiet a s q)
            (receive_tcp-IsQuiet a fd s q)))

  turn :
      (a : Answers) (rest : Cmd Server (Unit {0}))
      → Keeps (IsQuiet sent) rest
      → (o : Option ℕ)
      → Keeps
          (IsQuiet sent)
          {A = Unit {0}}
          (elim o [ none ↦ pure tt | some fd ↦ handle_event a fd >> rest ])
  turn a rest k none t p = p
  turn a rest k (some fd) t p =
      Keeps-bind (IsQuiet sent) _ _ (handle_event-IsQuiet a fd) (λ u. k) t p

  events_loop-IsQuiet : (turns : List Answers) → Keeps (IsQuiet sent) (events_loop turns)
  unfolding events_loop
  events_loop-IsQuiet [] s q = tt
  events_loop-IsQuiet (a ∷ rest) s q =
      Keeps-bind (IsQuiet sent) _ _ (on_poller-IsQuiet poller_next_fd_with_pollin)
        (turn a (events_loop rest) (events_loop-IsQuiet rest)) s q

  polled :
      (rc : Option (Unit {0})) (r : Round)
      → Keeps (IsQuiet sent) {A = Unit {0}} (elim rc [ none ↦ die | some _ ↦ events_loop r.turns ])
  polled none r s q = q
  polled (some u) r s q = events_loop-IsQuiet r.turns s q

  server_round-IsQuiet : (r : Round) → Keeps (IsQuiet sent) (server_round r)
  unfolding server_round
  server_round-IsQuiet r =
      Keeps-bind (IsQuiet sent) _ _ (on_poller-IsQuiet (poller_poll r.revents)) (λ rc. polled rc r)

  run_rounds-IsQuiet : (rs : List Round) → Keeps (IsQuiet sent) (run_rounds rs)
  unfolding run_rounds
  run_rounds-IsQuiet [] s q = q
  run_rounds-IsQuiet (r ∷ rest) s q =
      Keeps-bind (IsQuiet sent) _ _ (server_round-IsQuiet r) (λ u. run_rounds-IsQuiet rest) s q

  run_server-IsQuiet :
      (udp : UdpServer) (tcp : TcpServer) (rounds : List Round)
      → IsSilent sent tcp
      → Holds (IsQuiet sent) (run_server udp tcp rounds)
  unfolding run_server
  run_server-IsQuiet udp tcp rounds q =
      Keeps-bind (IsQuiet sent) _ _ (on_poller-IsQuiet (poller_add_fd stdin_fileno))
        (λ u.
          Keeps-bind (IsQuiet sent) _ _
            (λ s p. on_poller-IsQuiet (poller_add_fd s.udp_server.fd) s p)
            (λ v.
              Keeps-bind (IsQuiet sent) _ _
                (λ s p. on_poller-IsQuiet (poller_add_fd s.tcp_server.fd) s p)
                (λ w. run_rounds-IsQuiet rounds)))
        (record { poller = poller_create; udp_server = udp; tcp_server = tcp }) q

created :
    (fd : ℕ) (recv_msg : TcpCtosMsg) (net : ℕ → Socket)
    → IsSilent (λ d. (net d).out) (tcp_server_create fd recv_msg net)
unfolding tcp_server_create
created fd recv_msg net = record { cursor = refl; unsent = λ d. refl }

-- A server that was just created, on any sockets, with any answers of the system over any number of rounds:
-- in the state that the run has come to, after the last round or by exit(), every socket has been handed
-- the same bytes as at the start.
pub run_server-IsSilent :
    (udp : UdpServer) (fd : ℕ) (recv_msg : TcpCtosMsg) (net : ℕ → Socket) (rounds : List Round)
    → Holds
        (λ s. (d : ℕ) → (s.tcp_server.net d).out ≡ (net d).out)
        (run_server udp (tcp_server_create fd recv_msg net) rounds)
run_server-IsSilent udp fd recv_msg net rounds =
    Holds-mono (run_server udp (tcp_server_create fd recv_msg net) rounds) (λ s q. q.unsent)
      (run_server-IsQuiet udp (tcp_server_create fd recv_msg net) rounds (created fd recv_msg net))
