-- ===== src/Server/Broker/Refinement.antt =====
-- server.c against its specification: one event.
use tcp_udp_client_server.Base.{refl, subst, ℕ, Option, none, some, ◌==◌}
use tcp_udp_client_server.DList.Insert.{IsFresh}
use tcp_udp_client_server.Outcome.{Outcome, ends}
use tcp_udp_client_server.Server.{
  Server, ServerCommand, server_cmd_exit, server_cmd_undefined, Answers, run_command,
  get_user_command, stdin_fileno, handle_event,
}
use tcp_udp_client_server.Server.Broker.{Verdict, Broker, input_event, event}
use tcp_udp_client_server.Server.Broker.Hearing.{client_event-Refines}
use tcp_udp_client_server.Server.Broker.Represents.{broker_of, Represents, Refines, Refines-if}
use tcp_udp_client_server.Server.Exit.{server_exit-IsOver}
use tcp_udp_client_server.Server.Invariant.{IsSound}
use tcp_udp_client_server.TcpServer.{TcpServer}
use tcp_udp_client_server.Server.Broker.Datagrams.{IsSized, datagram_event-Refines}
use tcp_udp_client_server.Server.Broker.Joining.{connection_event-Refines}

module _ (s : Server) (i : IsSound s) where
  abbrev t : TcpServer
  t = s.tcp_server

  abbrev Does : Verdict Broker → Outcome Server (Unit {0}) → Type 0
  Does = Refines (Represents s.udp_server.fd s.tcp_server.fd)

  input_event-Refines :
      (c : Option ServerCommand) → Does (input_event c (broker_of s i)) (run_command c s)
  unfolding input_event run_command
  input_event-Refines none = refl
  input_event-Refines (some server_cmd_exit) =
      let (e, run, over) = server_exit-IsOver s i in (e, run)
  input_event-Refines (some server_cmd_undefined) =
      ends (record { sound = i; udp = refl; tcp = refl; same = refl })

  event-Refines :
      (a : Answers) (fd : ℕ)
      → IsFresh t.clients a.fresh
      → IsFresh t.nodes a.fresh
      → IsSized a
      → Does (event s.udp_server.fd s.tcp_server.fd a fd (broker_of s i)) (handle_event a fd s)
  unfolding event handle_event
  event-Refines a fd new new' z =
      Refines-if _ (fd == stdin_fileno) _ _ _ _
        (λ _. input_event-Refines (get_user_command a.input))
        λ _.
          Refines-if _ (fd == s.udp_server.fd) _ _ _ _
            (λ _. datagram_event-Refines s i a _ _ refl refl z)
            λ _.
              Refines-if _ (fd == t.fd) _ _ _ _ (λ _. connection_event-Refines s i a _ refl new)
                λ _. client_event-Refines a fd s i new'

-- A server that stands for a broker, an event on any descriptor, and answers of the system of which an address of
-- malloc() is used by neither list, the buffer of a datagram has its size, and the sender of a datagram has an
-- address of four bytes and a port of 16 bits: where the specification of the event is undefined, so is the
-- code; where it exits with a status, the code exits with that status; and where it gives a broker, the
-- code returns, in a server that stands for that broker.
pub handle_event-Refines :
    (udp_fd tcp_fd : ℕ) (a : Answers) (fd : ℕ) (b : Broker) (s : Server)
    → Represents udp_fd tcp_fd b s
    → IsFresh s.tcp_server.clients a.fresh
    → IsFresh s.tcp_server.nodes a.fresh
    → IsSized a
    → Refines (Represents udp_fd tcp_fd) (event udp_fd tcp_fd a fd b) (handle_event a fd s)
handle_event-Refines udp_fd tcp_fd a fd b s r new new' z =
    subst
      (λ d. Refines (Represents udp_fd tcp_fd) (event udp_fd tcp_fd a fd d) (handle_event a fd s))
      r.same
      (subst
        (λ n.
          Refines (Represents n tcp_fd) (event n tcp_fd a fd (broker_of s r.sound))
            (handle_event a fd s))
        r.udp
        (subst
          (λ n.
            Refines (Represents s.udp_server.fd n)
              (event s.udp_server.fd n a fd (broker_of s r.sound)) (handle_event a fd s))
          r.tcp (event-Refines s r.sound a fd new new' z)))
