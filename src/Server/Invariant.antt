-- ===== src/Server/Invariant.antt =====
-- server.c: what holds of the server as long as it runs.
pub mod Events
pub mod Runs
use tcp_udp_client_server.Base.{
  ◌<◌, ◌≤◌, ◌≡◌, refl, sym, subst, ℕ, Bool, true, false, Option, none, some, List, [], ◌∷◌, ◌==◌,
  if◌then◌else◌, arith, ltb, Bool-cases, inl, inr, ltb→lt, get_elem?-ge,
}
use tcp_udp_client_server.Clients.{Clients, clients_list_remove_client_by_fd}
use tcp_udp_client_server.DList.{Ptr}
use tcp_udp_client_server.DList.Insert.{IsFresh}
use tcp_udp_client_server.DList.Shape.{IsList}
use tcp_udp_client_server.Clients.Ids.{AreDistinct}
use tcp_udp_client_server.Outcome.{
  Outcome, ok, exited, fault, starved, Cmd, pure, ◌>>◌, Ends-mono, Yields, returns, exits, faults,
  starves, Yields-bind, Yields-if, Yields-either, Yields-any, Ends-Yields, then_run,
}
use tcp_udp_client_server.Packets.{TcpHeader, TcpCtosMsg, tcp_msg_subscribe, tcp_msg_unsubscribe}
use tcp_udp_client_server.Poller.{
  Poller, max_connections, poller_create, poller_destroy, poller_poll, poller_add_fd,
  poller_remove_fd, poller_advance, poller_next_fd_with_pollin,
}
use tcp_udp_client_server.Poller.Slots.{IsValid, poller_create-IsValid, poller_poll-IsValid}
use tcp_udp_client_server.Poller.Watch.{
  add_fd-Added, add_fd-full, Outcomes, dropped, missing, remove_fd-Outcomes,
}
use tcp_udp_client_server.Server.{
  Server, ServerCommand, server_cmd_exit, server_cmd_undefined, Answers, Round, keep_poller,
  keep_udp, keep_tcp, on_poller, on_udp, on_tcp, die, stdin_fileno, get_user_command,
  server_compose_msg, server_exit, server_print_connection_status, tcp_server_close_connection,
  run_command, send_composed, receive_udp, receive_connection, after_update, treat_subscription,
  treat_message, after_receive, receive_tcp, handle_event,
}
use tcp_udp_client_server.Sockets.{Socket}
use tcp_udp_client_server.TcpServer.{
  TcpServer, Update, updated, already_connected, wrong_type, Received, failed, ended, message,
  on_clients, find_client, tcp_server_create, tcp_server_subscribe, tcp_server_update_client,
  tcp_server_destroy,
}
use tcp_udp_client_server.TcpServer.Delivery.{send_to_subscribers-idle}
use tcp_udp_client_server.TcpServer.Invariant.{
  IsWellFormed, created-IsWellFormed, with_members, keep_clients-Yields, find_client-Yields,
  client_at-same, is_new_connection-same, recv_all-same,
}
use tcp_udp_client_server.TcpServer.Invariant.Members.{
  Kept, accept_connection-IsWellFormed, update_client-IsWellFormed, remove_by_fd-Kept,
}
use tcp_udp_client_server.TcpServer.Invariant.Held.{
  HasFresh, subscribe-IsWellFormed, unsubscribe-IsWellFormed,
}
use tcp_udp_client_server.UdpServer.{UdpServer, udp_server_recv}

-- The poller has its array and no more entries than that, and the lists of the server are well-formed.
pub record IsSound (s : Server) : Type 0 where
  pub poller : IsValid s.poller
  pub tcp_server : IsWellFormed s.tcp_server

-- A run on a part of the server.
module _ {A : Type 0} {Q : A → Server → Type 0} (s : Server) where
  pub keep_poller-Yields :
      {P : A → Poller → Type 0} {r : Outcome Poller A}
      → Yields P r
      → ((a : A) (p : Poller) → P a p → Q a (record s { poller = p }))
      → Yields Q (keep_poller s r)
  keep_poller-Yields (returns p) k = returns (k _ _ p)
  keep_poller-Yields exits k = exits
  keep_poller-Yields faults k = faults
  keep_poller-Yields starves k = starves

  pub keep_udp-Yields :
      {P : A → UdpServer → Type 0} {r : Outcome UdpServer A}
      → Yields P r
      → ((a : A) (u : UdpServer) → P a u → Q a (record s { udp_server = u }))
      → Yields Q (keep_udp s r)
  keep_udp-Yields (returns p) k = returns (k _ _ p)
  keep_udp-Yields exits k = exits
  keep_udp-Yields faults k = faults
  keep_udp-Yields starves k = starves

  pub keep_tcp-Yields :
      {P : A → TcpServer → Type 0} {r : Outcome TcpServer A}
      → Yields P r
      → ((a : A) (t : TcpServer) → P a t → Q a (record s { tcp_server = t }))
      → Yields Q (keep_tcp s r)
  keep_tcp-Yields (returns p) k = returns (k _ _ p)
  keep_tcp-Yields exits k = exits
  keep_tcp-Yields faults k = faults
  keep_tcp-Yields starves k = starves

module _ {A : Type 0} (s : Server) (i : IsSound s) where
  pub on_poller-IsSound :
      (m : Cmd Poller A)
      → Yields (λ _. IsValid) (m s.poller)
      → Yields (λ _. IsSound) (on_poller m s)
  unfolding on_poller
  on_poller-IsSound m y =
      keep_poller-Yields s y λ a p v. record { poller = v; tcp_server = i.tcp_server }

  pub on_tcp-IsSound :
      (m : Cmd TcpServer A)
      → Yields (λ _. IsWellFormed) (m s.tcp_server)
      → Yields (λ _. IsSound) (on_tcp m s)
  unfolding on_tcp
  on_tcp-IsSound m y = keep_tcp-Yields s y λ a t w. record { poller = i.poller; tcp_server = w }

  pub on_udp-IsSound : (m : Cmd UdpServer A) → Yields (λ _. IsSound) (on_udp m s)
  unfolding on_udp
  on_udp-IsSound m =
      keep_udp-Yields s (Yields-any (m s.udp_server))
        λ a u _. record { poller = i.poller; tcp_server = i.tcp_server }

-- The poller, whatever is done to it, keeps its array.
pub add_fd-IsValid : (fd : ℕ) (p : Poller) → IsValid p → Yields (λ _. IsValid) (poller_add_fd fd p)
add_fd-IsValid fd p v = room_or_not (ltb p.num_pollfds max_connections) refl
  where
    room_or_not :
        (b : Bool)
        → ltb p.num_pollfds max_connections ≡ b
        → Yields (λ _. IsValid) (poller_add_fd fd p)
    room_or_not true e =
        Ends-Yields (Ends-mono (add_fd-Added fd p v (ltb→lt _ _ e)) λ _ q a. a.valid)
    room_or_not false e = rw (add_fd-full fd p v (ground (arith, v.room))) faults

pub remove_fd-IsValid :
    (fd : ℕ) (p : Poller) → IsValid p → Yields (λ _. IsValid) (poller_remove_fd fd p)
remove_fd-IsValid fd p v = outcome (remove_fd-Outcomes fd p v)
  where
    outcome : Outcomes fd p → Yields (λ _. IsValid) (poller_remove_fd fd p)
    outcome (dropped k first run) = Ends-Yields (Ends-mono run λ _ q c. c.valid)
    outcome (missing none_has e) = rw e (returns (record { whole = v.whole; room = v.room }))

pub advance-IsValid : (p : Poller) → IsValid p → Yields (λ _. IsValid) (poller_advance p)
unfolding poller_advance
advance-IsValid p v = returns (record { whole = v.whole; room = v.room })
