-- ===== src/Server/Exit.antt =====
-- server_exit(): what the exit of the server releases and closes.
use tcp_udp_client_server.Base.{◌≡◌, refl, true}
use tcp_udp_client_server.Clients.{Clients, client_kind, clients_list_destroy}
use tcp_udp_client_server.DList.Teardown.{IsGone, destroy_all-IsGone}
use tcp_udp_client_server.Outcome.{Outcome, exited, then_run, Ends, ends}
use tcp_udp_client_server.Poller.Ending.{closes_all, poller_destroy-closes}
use tcp_udp_client_server.Poller.Watched.{watched}
use tcp_udp_client_server.Server.{Server, keep_tcp, on_poller, on_udp, on_tcp, server_exit}
use tcp_udp_client_server.Server.Invariant.{IsSound}
use tcp_udp_client_server.Subscriptions.{Subscriptions, subscription_kind, subscriptions_destroy}
use tcp_udp_client_server.TcpServer.{
  TcpServer, keep_clients, keep_nodes, on_clients, on_nodes, tcp_server_destroy,
}
use tcp_udp_client_server.TcpServer.Invariant.{IsWellFormed}
use tcp_udp_client_server.UdpServer.{udp_server_destroy}

-- No node is allocated any more, every client's descriptor is closed, and so is the listening socket.
pub record IsReleased (t : TcpServer) (w : IsWellFormed t) (u : TcpServer) : Type 0 where
  pub clients : IsGone client_kind t.clients w.members u.clients
  pub nodes : IsGone subscription_kind t.nodes w.held u.nodes
  pub closed : u.closed ≡ true

module _ (t : TcpServer) (w : IsWellFormed t) where
  nodes_gone :
      (c : Clients) (r : Outcome Subscriptions (Unit {0}))
      → IsGone client_kind t.clients w.members c
      → Ends (λ _. IsGone subscription_kind t.nodes w.held) r
      → Ends (λ _. IsReleased t w) (keep_nodes (record t { closed = true; clients = c }) r)
  nodes_gone c r gone (ends n) = ends (record { clients = gone; nodes = n; closed = refl })

  clients_gone :
      (r : Outcome Clients (Unit {0}))
      → Ends (λ _. IsGone client_kind t.clients w.members) r
      → Ends
          (λ _. IsReleased t w)
          (then_run
            (keep_clients (record t { closed = true }) r)
            (λ _ u. on_nodes (subscriptions_destroy u.subscriptions) u))
  unfolding on_nodes subscriptions_destroy
  clients_gone r (ends {s = c} gone) =
      nodes_gone c _ gone (destroy_all-IsGone subscription_kind w.held_list)

  tcp_server_destroy-IsReleased : Ends (λ _. IsReleased t w) (tcp_server_destroy t)
  unfolding tcp_server_destroy on_clients clients_list_destroy
  tcp_server_destroy-IsReleased = clients_gone _ (destroy_all-IsGone client_kind w.members_list)

-- The server that exit() leaves behind.
pub record IsOver (s : Server) (i : IsSound s) (e : Server) : Type 0 where
  pub poller : e.poller.closed ≡ closes_all (watched s.poller) s.poller.closed
  pub udp_server : e.udp_server.closed ≡ true
  pub tcp_server : IsReleased s.tcp_server i.tcp_server e.tcp_server

-- A server whose poller and lists are well-formed: server_exit() ends the process with status 0, and before that
-- it has closed the descriptor of every watched entry, in order, and both sockets, has freed every node of
-- both lists, and has closed the descriptor of every client with its node.
pub server_exit-IsOver :
    (s : Server) (i : IsSound s) → (e : Server) × (server_exit s ≡ exited 0 e) × IsOver s i e
unfolding server_exit on_poller on_udp on_tcp udp_server_destroy
server_exit-IsOver s i =
    rw (poller_destroy-closes s.poller i.poller)
      (over _ (tcp_server_destroy-IsReleased s.tcp_server i.tcp_server))
  where
    over :
        (r : Outcome TcpServer (Unit {0}))
        → Ends (λ _. IsReleased s.tcp_server i.tcp_server) r
        → (e : Server) × (then_run {B = Unit {0}}
              (keep_tcp
                (record s {
                  poller = record s.poller {
                    closed = closes_all (watched s.poller) s.poller.closed;
                  };
                  udp_server = record s.udp_server { closed = true };
                })
                r)
              (λ _. exited 0)
            ≡ exited 0 e)
          × IsOver s i e
    over r (ends {s = u} gone) =
        (_, refl, record { poller = refl; udp_server = refl; tcp_server = gone })
