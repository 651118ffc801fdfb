-- ===== src/Tests/Connecting.antt =====
-- TCP_server.c on a server with two connections, one of which has not given its id yet.
use tcp_udp_client_server.Base.{◌≡◌, refl, ℕ, none, some, [], ◌∷◌, ◌++◌, arith}
use tcp_udp_client_server.Clients.{Client, client_state_new, client_state_connected, has_fd, has_id}
use tcp_udp_client_server.CString.{Bytes, c_str, str_eq}
use tcp_udp_client_server.DList.Insert.{Inserted}
use tcp_udp_client_server.DList.Search.{find_first, first_body}
use tcp_udp_client_server.DList.Shape.{IsList}
use tcp_udp_client_server.DList.Update.{replace}
use tcp_udp_client_server.Outcome.{Ends, ok}
use tcp_udp_client_server.Packets.{zeros}
use tcp_udp_client_server.TcpServer.{
  TcpServer, client_already_connected, Accepted, updated, already_connected, tcp_server_create,
  tcp_server_accept_connection, tcp_server_update_client,
}
use tcp_udp_client_server.TcpServer.Accepting.{
  accepted_client, with_clients, accept_connection-IsList,
}
use tcp_udp_client_server.TcpServer.Updating.{update_client-taken, update_client-updated}
use tcp_udp_client_server.Tests.Lists.{ann, pair, pair_cells, pair-IsList, five-IsFresh}
use tcp_udp_client_server.Tests.Network.{empty_msg, quiet_net}

abbrev pub newcomer : Client
newcomer = record { state = client_state_new; fd = 6; id = []; ip = 2; port = 4001 }

-- The server after the message `id` of a new connection.
abbrev pub hearing : Bytes → ℕ → TcpServer
hearing id n = record (tcp_server_create 4 empty_msg quiet_net) {
  clients = pair newcomer ann;
  connected_clients = 2;
  recv_msg = record { msg_type = 0; payload = id ++ zeros n };
}

abbrev pub carl_id : Bytes
carl_id = b'c' ∷ b'a' ∷ b'r' ∷ b'l' ∷ []

two_connections : IsList (pair newcomer ann) 2 (pair_cells newcomer ann)
two_connections = pair-IsList newcomer ann

carl_read : c_str (carl_id ++ zeros 48) ≡ some carl_id
unfolding c_str
carl_read = refl

ann_read : c_str (ann.id ++ zeros 49) ≡ some ann.id
unfolding c_str
ann_read = refl

carl_free : first_body (has_id carl_id) (pair_cells newcomer ann) ≡ none
unfolding first_body str_eq
carl_free = refl

ann_taken : first_body (has_id ann.id) (pair_cells newcomer ann) ≡ some ann
unfolding first_body str_eq
ann_taken = refl

newcomer_first : first_body (has_fd 6) (pair_cells newcomer ann) ≡ some newcomer
unfolding first_body
newcomer_first = refl

update_client-updated_example :
    Ends
      (λ u t.
        (u ≡ updated)
        × (IsList t.clients 2 (
              replace
                (find_first (has_fd 6) (pair_cells newcomer ann))
                (record newcomer { state = client_state_connected; id = carl_id })
                (pair_cells newcomer ann))
            × (t.clients.closed ≡ []))
        × (t ≡ record (hearing carl_id 48) { clients = t.clients }))
      (tcp_server_update_client 6 (hearing carl_id 48))
update_client-updated_example =
    update_client-updated (hearing carl_id 48) two_connections 6 carl_id refl carl_read
      (omega arith) carl_free newcomer_first

update_client-taken_example :
    tcp_server_update_client 6 (hearing ann.id 49)
    ≡ ok already_connected
        (record (hearing ann.id 49) { printed = client_already_connected ann.id ∷ [] })
unfolding tcp_server_create
update_client-taken_example =
    update_client-taken (hearing ann.id 49) two_connections 6 ann.id refl ann_read (omega arith)
      ann_taken

abbrev visitor : Accepted
visitor = record { cli_fd = 7; sin_addr = 3; sin_port = 4660 }

accept_connection-IsList_example :
    Ends
      (λ o t.
        (o ≡ some 7)
        × Inserted
            (pair newcomer ann)
            5
            (accepted_client visitor)
            (pair_cells newcomer ann)
            t.connected_clients
            t.clients
        × (t ≡ with_clients (hearing [] 52) t.clients t.connected_clients))
      (tcp_server_accept_connection (some visitor) 5 (hearing [] 52))
accept_connection-IsList_example =
    accept_connection-IsList (hearing [] 52) visitor 5 two_connections (five-IsFresh newcomer ann)
