-- ===== src/Server/Broker/Runs.antt =====
-- server.c against its specification: the loop of run_server().
use tcp_udp_client_server.Base.{◌≡◌, ℕ, Option, none, some, List, [], ◌∷◌, ◌<◌, length}
use tcp_udp_client_server.Outcome.{Outcome, exited, Cmd}
use tcp_udp_client_server.Poller.{Poller, max_connections}
use tcp_udp_client_server.Server.{Server, Answers, Round, die, events_loop}
use tcp_udp_client_server.Sockets.{exit_failure}
use tcp_udp_client_server.Server.Broker.{Verdict, Broker}
use tcp_udp_client_server.Server.Broker.Loop.{Polled}
use tcp_udp_client_server.UdpServer.{UdpServer}
use tcp_udp_client_server.Server.Broker.Represents.{Represents, Refines}
use tcp_udp_client_server.Server.Broker.Turns.{AllSized}

unfoldable pub RoundsSized : List Round → Type 0
RoundsSized [] = Unit {0}
RoundsSized (r ∷ rest) = AllSized r.turns × (max_connections < length r.turns) × RoundsSized rest

module _ (udp_fd tcp_fd : ℕ) where
  -- One round: poll() fails, or the loop does what is allowed.
  data InRound (r : Round) (b : Broker) (q : Outcome Server (Unit {0})) : Type 0 where
    fails : r.revents ≡ none → (s : Server) → q ≡ exited exit_failure s → InRound r b q
    does :
        (v : Verdict Broker) (rs : List ℕ)
        → r.revents ≡ some rs
        → Polled udp_fd tcp_fd rs r.turns b v
        → Refines (Represents udp_fd tcp_fd) v q
        → InRound r b q

  abbrev polling : List Answers → Option (Unit {0}) → Cmd Server (Unit {0})
  polling turns rc = elim rc as (λ _. Cmd Server (Unit {0})) [
    | none ↦ die
    | some _ ↦ events_loop turns
  ]
