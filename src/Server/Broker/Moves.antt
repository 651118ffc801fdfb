-- ===== src/Server/Broker/Moves.antt =====
-- server.c: what an event does to the poller.
use tcp_udp_client_server.Base.{
  ℕ, ◌≡◌, ◌≤◌, ◌<◌, refl, sym, subst, Bool, true, false, Option, none, some, ◌==◌, get_elem?, ltb,
  ltb→lt, arith,
}
use tcp_udp_client_server.Outcome.{
  Outcome, ok, exited, fault, starved, Cmd, pure, ◌>>◌, Ends-mono, Yields, returns, exits, faults,
  starves, Yields-bind, Yields-if, Yields-either, Yields-any, Ends-Yields,
}
use tcp_udp_client_server.Packets.{TcpHeader}
use tcp_udp_client_server.Poller.{
  Pollfd, Poller, max_connections, poller_add_fd, poller_remove_fd, poller_advance, poller_destroy,
}
use tcp_udp_client_server.Poller.Slots.{IsValid}
use tcp_udp_client_server.Poller.Watch.{
  Added, add_fd-Added, add_fd-full, dropped, missing, remove_fd-Outcomes,
}
use tcp_udp_client_server.Server.{
  Server, ServerCommand, server_cmd_exit, server_cmd_undefined, Answers, keep_poller, keep_udp,
  keep_tcp, on_poller, on_udp, on_tcp, die, stdin_fileno, get_user_command, server_compose_msg,
  server_exit, tcp_server_close_connection, run_command, send_composed, receive_udp,
  receive_connection, after_update, treat_message, after_receive, receive_tcp, handle_event,
}
use tcp_udp_client_server.Server.Broker.Loop.{Moved, stays, joins, leaves}
use tcp_udp_client_server.TcpServer.{
  TcpServer, tcp_server_destroy, Update, updated, already_connected, wrong_type, Received, failed,
  ended, message,
}
use tcp_udp_client_server.UdpServer.{UdpServer, udp_server_destroy}

module _ {A : Type 0} where
  kept_poller :
      (P : Poller → Type 0) (s : Server) (r : Outcome Poller A)
      → Yields (λ _. P) r
      → Yields (λ _ t. P t.poller) (keep_poller s r)
  kept_poller P s (ok a p) (returns h) = returns h
  kept_poller P s (exited c p) h = exits
  kept_poller P s fault h = faults
  kept_poller P s starved h = starves

-- A poller `p` that watches `fd`.
module _ (p : Poller) (v : IsValid p) (fd k : ℕ) (e : Pollfd)
    (there : get_elem? p.pollfds k ≡ some e) (below : k < p.num_pollfds) (is : e.fd ≡ fd) where
  abbrev Same : Server → Type 0
  Same t = t.poller ≡ p

  abbrev Goal : Outcome Server (Unit {0}) → Type 0
  Goal r = Yields (λ _ t. Moved fd p t.poller) r

  unmoved : {r : Outcome Server (Unit {0})} → Yields (λ _. Same) r → Goal r
  unmoved (returns h) = returns (stays h)
  unmoved exits = exits
  unmoved faults = faults
  unmoved starves = starves

  module _ {A : Type 0} where
    on_udp-Same : (m : Cmd UdpServer A) (s : Server) → Same s → Yields (λ _. Same) (on_udp m s)
    unfolding on_udp
    on_udp-Same m s h = kept (m s.udp_server)
      where
        kept : (r : Outcome UdpServer A) → Yields (λ _. Same) (keep_udp s r)
        kept (ok a u) = returns h
        kept (exited c u) = exits
        kept fault = faults
        kept starved = starves

    on_tcp-Same : (m : Cmd TcpServer A) (s : Server) → Same s → Yields (λ _. Same) (on_tcp m s)
    unfolding on_tcp
    on_tcp-Same m s h = kept (m s.tcp_server)
      where
        kept : (r : Outcome TcpServer A) → Yields (λ _. Same) (keep_tcp s r)
        kept (ok a u) = returns h
        kept (exited c u) = exits
        kept fault = faults
        kept starved = starves

  removed : Yields (λ _ q. Moved fd p q) (poller_remove_fd fd p)
  removed = elim (remove_fd-Outcomes fd p v) [
    | dropped i first run ↦ Ends-Yields (Ends-mono run λ _ q c. leaves i first c)
    | missing nowhere run ↦ absurd (nowhere k e (omega arith) below there is)
  ]

  added : (new : ℕ) → Yields (λ _ q. Added new p q) (poller_add_fd new p)
  added new = room_or_not (ltb p.num_pollfds max_connections) refl
    where
      room_or_not :
          (b : Bool)
          → ltb p.num_pollfds max_connections ≡ b
          → Yields (λ _ q. Added new p q) (poller_add_fd new p)
      room_or_not true f = Ends-Yields (add_fd-Added new p v (ltb→lt _ _ f))
      room_or_not false f = rw (add_fd-full new p v (ground (arith, v.room))) faults

  on_poller-Same :
      (P : Poller → Type 0) (m : Cmd Poller (Unit {0})) (s : Server)
      → Same s
      → Yields (λ _. P) (m p)
      → Yields (λ _ t. P t.poller) (on_poller m s)
  unfolding on_poller
  on_poller-Same P m s h y =
      subst (λ q. Yields (λ _ (t : Server). P t.poller) (keep_poller s (m q))) (sym h)
        (kept_poller P s (m p) y)

  close_connection-Moved : (s : Server) → Same s → Goal (tcp_server_close_connection fd s)
  unfolding tcp_server_close_connection
  close_connection-Moved s h = Yields-bind (on_tcp-Same _ s h) λ head t h1.
      Yields-bind (on_tcp-Same _ t h1)
        λ _ u h2. on_poller-Same (Moved fd p) (poller_remove_fd fd) u h2 removed

  run_command-Moved : (c : Option ServerCommand) (s : Server) → Same s → Goal (run_command c s)
  unfolding run_command server_exit
  run_command-Moved none s h = faults
  run_command-Moved (some server_cmd_exit) s h =
      Yields-bind (Yields-any (on_poller poller_destroy s)) λ _ t _.
        Yields-bind (Yields-any (on_udp udp_server_destroy t))
          λ _ u _. Yields-bind (Yields-any (on_tcp tcp_server_destroy u)) λ _ w _. exits
  run_command-Moved (some server_cmd_undefined) s h = returns (stays h)

  checked :
      (rc : Option ℕ) (s : Server)
      → Same s
      → Yields
          (λ _. Same)
          ((elim rc as (λ _. Cmd Server (Unit {0})) [ none ↦ die | some n ↦ pure tt ]) s)
  checked none s h = exits
  checked (some n) s h = returns h

  send_composed-Same :
      (junk : Option ℕ) (m : Option TcpHeader) (s : Server)
      → Same s
      → Yields (λ _. Same) (send_composed junk m s)
  unfolding send_composed
  send_composed-Same junk none s h = faults
  send_composed-Same junk (some m) s h = Yields-bind (on_tcp-Same _ s h) checked

  receive_udp-Same : (a : Answers) (s : Server) → Same s → Yields (λ _. Same) (receive_udp a s)
  unfolding receive_udp
  receive_udp-Same a s h = Yields-bind (on_udp-Same _ s h) λ b t h1.
      Yields-if b _ _ t (λ _. send_composed-Same a.junk_rc (server_compose_msg t.udp_server) t h1)
        λ _. exits

  connection :
      (o : Option ℕ) (s : Server)
      → Same s
      → Goal (
          (elim o as (λ _. Cmd Server (Unit {0})) [
            | none ↦ die
            | some new ↦ (on_poller (poller_add_fd new) >> on_poller poller_advance)
          ])
            s)
  unfolding on_poller poller_advance
  connection none s h = exits
  connection (some new) s h =
      Yields-bind (on_poller-Same (Added new p) (poller_add_fd new) s h (added new))
        λ _ t c. returns (joins new t.poller c refl)

  receive_connection-Moved : (a : Answers) (s : Server) → Same s → Goal (receive_connection a s)
  unfolding receive_connection
  receive_connection-Moved a s h = Yields-bind (on_tcp-Same _ s h) connection

  after_update-Moved : (u : Update) (s : Server) → Same s → Goal (after_update fd u s)
  unfolding after_update
  after_update-Moved updated s h = unmoved (on_tcp-Same _ s h)
  after_update-Moved already_connected s h = close_connection-Moved s h
  after_update-Moved wrong_type s h = unmoved (on_tcp-Same _ s h)

  treat_message-Moved : (a : Answers) (s : Server) → Same s → Goal (treat_message a fd s)
  unfolding treat_message
  treat_message-Moved a s h = Yields-bind (on_tcp-Same _ s h) λ b t h1.
      Yields-if b _ _ t (λ _. Yields-bind (on_tcp-Same _ t h1) after_update-Moved)
        λ _. unmoved (on_tcp-Same _ t h1)

  after_receive-Moved :
      (a : Answers) (r : Received) (s : Server) → Same s → Goal (after_receive a fd r s)
  unfolding after_receive
  after_receive-Moved a failed s h = exits
  after_receive-Moved a ended s h =
      Yields-bind (on_tcp-Same _ s h) λ _ t h1. close_connection-Moved t h1
  after_receive-Moved a message s h = treat_message-Moved a s h

  pub handle_event-Moved : (a : Answers) (s : Server) → s.poller ≡ p → Goal (handle_event a fd s)
  unfolding handle_event receive_tcp
  handle_event-Moved a s h =
      Yields-either (fd == stdin_fileno) _ _ (λ _. run_command-Moved (get_user_command a.input) s h)
        λ _.
          Yields-either (fd == s.udp_server.fd) _ _ (λ _. unmoved (receive_udp-Same a s h))
            λ _.
              Yields-either (fd == s.tcp_server.fd) _ _ (λ _. receive_connection-Moved a s h)
                λ _. Yields-bind (on_tcp-Same _ s h) (after_receive-Moved a)

-- No service of an event moves the iterator back.
pub Moved-forward : (fd : ℕ) (p q : Poller) → Moved fd p q → p.idx_iterator ≤ q.idx_iterator
Moved-forward fd p q (stays e) = rw e (omega arith)
Moved-forward fd p q (joins new r c e) = rw e (omega (arith, c.iterator))
Moved-forward fd p q (leaves i first c) = omega (arith, c.iterator)
