-- ===== src/Tests/Serving.antt =====
-- server.c: the first message of a client, in a server with two clients and five watched descriptors.
use tcp_udp_client_server.Base.{ℕ, ◌≡◌, refl, [], ◌∷◌, some, arith, replicate, length-replicate}
use tcp_udp_client_server.Clients.Ids.{AreDistinct, nameless-AreDistinct, single-AreDistinct}
use tcp_udp_client_server.DList.{null}
use tcp_udp_client_server.DList.Shape.{nil}
use tcp_udp_client_server.Packets.{zeros}
use tcp_udp_client_server.Poller.{Pollfd, Poller, pollin, zero_pollfd}
use tcp_udp_client_server.Poller.Watched.{fds}
use tcp_udp_client_server.Server.{Server, Answers, handle_event, server_exit}
use tcp_udp_client_server.Outcome.{exited}
use tcp_udp_client_server.Server.Broker.{Broker, event}
use tcp_udp_client_server.Server.Broker.Datagrams.{IsSized}
use tcp_udp_client_server.Server.Broker.Refinement.{handle_event-Refines}
use tcp_udp_client_server.Server.Broker.Represents.{Represents, Refines}
use tcp_udp_client_server.Server.Exit.{IsOver, server_exit-IsOver}
use tcp_udp_client_server.Server.Invariant.{IsSound}
use tcp_udp_client_server.TcpClient.Commands.{carried}
use tcp_udp_client_server.TcpServer.{tcp_server_create}
use tcp_udp_client_server.Tests.Connecting.{newcomer, carl_id, hearing}
use tcp_udp_client_server.Tests.Lists.{ann, pair_cells, pair-IsList, five-IsFresh}
use tcp_udp_client_server.Tests.Network.{udp_server, no_answers}

abbrev entry : ℕ → Pollfd
entry fd = record { fd = fd; events = pollin; revents = 0 }

abbrev five_fds : Poller
five_fds = record {
  pollfds = entry 0 ∷ entry 3 ∷ entry 4 ∷ entry 6 ∷ entry 5 ∷ replicate 995 zero_pollfd;
  num_pollfds = 5;
  idx_iterator = 4;
  closed = [];
}

abbrev busy_server : Server
busy_server = record { poller = five_fds; udp_server = udp_server; tcp_server = hearing [] 52 }

two_distinct : AreDistinct (pair_cells newcomer ann)
two_distinct = nameless-AreDistinct 2 newcomer ((3, ann) ∷ []) refl (single-AreDistinct 3 ann)

abbrev busy-IsSound : IsSound busy_server
unfolding tcp_server_create
busy-IsSound = record {
  poller = record { whole = omega (arith, length-replicate 995 zero_pollfd); room = omega arith };
  tcp_server = record {
    members = pair_cells newcomer ann;
    members_list = pair-IsList newcomer ann;
    distinct = two_distinct;
    held = [];
    held_list = record { pre = null; chain = nil refl; count = refl; only = λ a o. refl };
    cursor = refl;
  };
}

abbrev busy_broker : Broker
busy_broker = record {
  watched = 0 ∷ 3 ∷ 4 ∷ 6 ∷ 5 ∷ [];
  desk = record {
    members = newcomer ∷ ann ∷ [];
    held = [];
    last = record { msg_type = 0; payload = zeros 52 };
    printed = [];
  };
}

busy-Represents : Represents 3 4 busy_broker busy_server
unfolding tcp_server_create fds
busy-Represents = record { sound = busy-IsSound; udp = refl; tcp = refl; same = refl }

-- The newcomer gives its id.
abbrev named : Answers
named = record no_answers { fresh = 5; bytes = some (carried 0 carl_id) }

abbrev packet_byte : ℕ
packet_byte = 0

named-IsSized : IsSized named
named-IsSized = record { junk_packet = length-replicate 1615 packet_byte; sender = λ d g. cc }

handle_event-Refines_example :
    Refines (Represents 3 4) (event 3 4 named 6 busy_broker) (handle_event named 6 busy_server)
unfolding tcp_server_create
handle_event-Refines_example =
    handle_event-Refines 3 4 named 6 busy_broker busy_server busy-Represents
      (five-IsFresh newcomer ann) (record { ne_null = omega arith; unused = refl }) named-IsSized

server_exit-IsOver_example :
    (e : Server) × (server_exit busy_server ≡ exited 0 e) × IsOver busy_server busy-IsSound e
server_exit-IsOver_example = server_exit-IsOver busy_server busy-IsSound
