-- ===== src/TcpServer/Accepting.antt =====
-- TCP_server_accept_connection(): the client list after a new connection.
use tcp_udp_client_server.Base.{◌≡◌, refl, ℕ, Option, some, [], arith}
use tcp_udp_client_server.Clients.{
  Client, Clients, client_state_new, client_node_create, clients_list_add_client,
}
use tcp_udp_client_server.Clients.Changes.{add_client-IsList}
use tcp_udp_client_server.DList.{Ptr}
use tcp_udp_client_server.DList.Insert.{IsFresh, Inserted}
use tcp_udp_client_server.DList.Shape.{Cells, IsList}
use tcp_udp_client_server.Outcome.{Outcome, Ends, ends, ok, exited, fault, starved, then_run}
use tcp_udp_client_server.TcpServer.{
  TcpServer, Accepted, ntohs, on_clients, keep_clients, tcp_server_accept_connection,
}

-- The client of a connection: new, without an id, with its port in host order.
abbrev pub accepted_client : Accepted → Client
accepted_client a = record {
  state = client_state_new;
  fd = a.cli_fd;
  id = [];
  ip = a.sin_addr;
  port = ntohs a.sin_port;
}

-- The state with another client list.
abbrev pub with_clients : TcpServer → Clients → Ptr → TcpServer
with_clients s h head = record s { clients = h; connected_clients = head }

module _ (s : TcpServer) (fd : ℕ) (P : Ptr → Clients → Type 0) where
  abbrev Placed : Option ℕ → TcpServer → Type 0
  Placed o t =
      (o ≡ some fd)
      × P t.connected_clients t.clients
      × (t ≡ with_clients s t.clients t.connected_clients)

  placed :
      (h : Clients) (r : Outcome Clients Ptr)
      → Ends P r
      → Ends Placed (
          then_run
            (keep_clients (record s { clients = h }) r)
            (λ head t. ok (some fd) (record t { connected_clients = head })))
  placed h (ok head g) (ends p) = ends (refl, p, refl)
  placed h (exited c g) e = elim e [ ]
  placed h fault e = elim e [ ]
  placed h starved e = elim e [ ]

  created :
      (r : Outcome Clients Ptr)
      → Ends P (then_run r (λ c. clients_list_add_client s.connected_clients c))
      → Ends Placed (
          then_run (keep_clients s r) (λ c t.
            then_run
              (on_clients (clients_list_add_client t.connected_clients c) t)
              (λ head u. ok (some fd) (record u { connected_clients = head }))))
  unfolding on_clients
  created (ok c h) e = placed h (clients_list_add_client s.connected_clients c h) e
  created (exited c g) e = elim e [ ]
  created fault e = elim e [ ]
  created starved e = elim e [ ]

-- A server whose client list is well-formed, a connection, and a fresh address: the descriptor of the
-- connection is returned, the list is well-formed with the new client in front and the others as they
-- were, no descriptor is closed, and nothing else of the server changes.
pub accept_connection-IsList :
    (s : TcpServer) {xs : Cells Client} (a : Accepted) (fresh : Ptr)
    → IsList s.clients s.connected_clients xs
    → IsFresh s.clients fresh
    → Ends
        (λ o t.
          (o ≡ some a.cli_fd)
          × Inserted s.clients fresh (accepted_client a) xs t.connected_clients t.clients
          × (t ≡ with_clients s t.clients t.connected_clients))
        (tcp_server_accept_connection (some a) fresh s)
unfolding tcp_server_accept_connection on_clients
accept_connection-IsList s {xs} a fresh is new =
    created s a.cli_fd (Inserted s.clients fresh (accepted_client a) xs)
      (client_node_create fresh client_state_new a.cli_fd [] a.sin_addr (ntohs a.sin_port)
        s.clients)
      (add_client-IsList is fresh (accepted_client a) new (omega arith))
