-- ===== src/Server/Broker/HangingUp.antt =====
-- server.c: the line for a client, and the end of its connection, do to the broker what the specification says.
use tcp_udp_client_server.Base.{◌≡◌, refl, sym, ℕ, Option, none, some, ◌∷◌}
use tcp_udp_client_server.Clients.{Client, has_fd}
use tcp_udp_client_server.DList.{load}
use tcp_udp_client_server.DList.Abstract.{first-bodies}
use tcp_udp_client_server.DList.Search.{first_body}
use tcp_udp_client_server.DList.View.{find_first-null}
use tcp_udp_client_server.Outcome.{Outcome, ok, fault, then_run, Ends, Ends-eq}
use tcp_udp_client_server.Server.{
  Server, ConnectionStatus, disconnected, status_line, on_tcp, server_print_connection_status,
  tcp_server_close_connection,
}
use tcp_udp_client_server.Server.Broker.{Verdict, undefined, Broker, say, leave, hang_up}
use tcp_udp_client_server.Server.Broker.Leaving.{close_connection-Refines}
use tcp_udp_client_server.Server.Broker.Represents.{broker_of, desk_of, IsDesk, Represents, Refines}
use tcp_udp_client_server.Poller.Watched.{watched}
use tcp_udp_client_server.Server.Invariant.{IsSound}
use tcp_udp_client_server.TcpServer.{TcpServer, client_disconnected, on_clients, client_at}
use tcp_udp_client_server.TcpServer.Invariant.{IsWellFormed, with_notice, find_client-ok}
use tcp_udp_client_server.TcpServer.Subscribing.{client_at-ok}

module _ (t : TcpServer) (w : IsWellFormed t) (fd : ℕ) (status : ConnectionStatus) where
  print-ok :
      (c : Client)
      → first_body (has_fd fd) w.members ≡ some c
      → server_print_connection_status fd status t
        ≡ ok tt (record t { printed = status_line status c ∷ t.printed })
  unfolding server_print_connection_status
  print-ok c f = rw (find_client-ok t w fd, then_run, client_at-ok t w fd c f, then_run) refl

  print-absent :
      first_body (has_fd fd) w.members ≡ none → server_print_connection_status fd status t ≡ fault
  unfolding server_print_connection_status client_at on_clients load
  print-absent f =
      rw (find_client-ok t w fd, then_run, find_first-null (has_fd fd) w.members f) refl

  pub print-IsDesk :
      (c : Client)
      → first_body (has_fd fd) w.members ≡ some c
      → Ends
          (λ _. IsDesk t.fd (say (status_line status c) (desk_of t w)))
          (server_print_connection_status fd status t)
  print-IsDesk c f =
      Ends-eq (print-ok c f)
        (record { well = with_notice t (status_line status c) w; fd = refl; same = refl })

module _ (s : Server) (i : IsSound s) (fd : ℕ) where
  abbrev t : TcpServer
  t = s.tcp_server

  abbrev w : IsWellFormed t
  w = i.tcp_server

  abbrev Does : Verdict Broker → Outcome Server (Unit {0}) → Type 0
  Does = Refines (Represents s.udp_server.fd s.tcp_server.fd)

  abbrev leaving : Outcome Server (Unit {0})
  leaving =
      then_run (on_tcp (server_print_connection_status fd disconnected) s)
        (λ _. tcp_server_close_connection fd)

  hang_up_of :
      (o : Option Client)
      → first_body (has_fd fd) w.members ≡ o
      → Does
          (elim o as (λ _. Verdict Broker) [
            | none ↦ undefined
            | some c ↦ leave fd (watched s.poller) (say (client_disconnected c) (desk_of t w))
          ])
          leaving
  unfolding on_tcp
  hang_up_of none f = rw (print-absent t w fd disconnected f) refl
  hang_up_of (some c) f = rw (print-ok t w fd disconnected c f) (
      close_connection-Refines
        (record s { tcp_server = record t { printed = client_disconnected c ∷ t.printed } })
        (record { poller = i.poller; tcp_server = with_notice t (client_disconnected c) w }) fd)

  pub hang_up-Refines : Does (hang_up fd (broker_of s i)) leaving
  unfolding hang_up
  hang_up-Refines = hang_up_of _ (sym (first-bodies (has_fd fd) w.members))
