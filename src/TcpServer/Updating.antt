-- ===== src/TcpServer/Updating.antt =====
-- TCP_server_update_client(): the id of a new connection, on every branch.
use tcp_udp_client_server.Base.{
  ◌∷◌, ◌≡◌, ◌≢◌, ◌<◌, ◌≤◌, refl, ℕ, false, not, none, some, length, arith, ◌==◌, lt→ltb, ==_ne,
}
use tcp_udp_client_server.Clients.{
  Client, Clients, id_maxlen, client_state_connected, has_fd, has_id,
}
use tcp_udp_client_server.Clients.Changes.{update_by_fd-replace}
use tcp_udp_client_server.Clients.Lookup.{find_by_id-ok}
use tcp_udp_client_server.CString.{Bytes, c_str, fits}
use tcp_udp_client_server.DList.{null}
use tcp_udp_client_server.DList.Search.{find_first, first_body}
use tcp_udp_client_server.DList.Shape.{Cells, IsList}
use tcp_udp_client_server.DList.Update.{replace}
use tcp_udp_client_server.DList.View.{find_first-payload, find_first-null}
use tcp_udp_client_server.Outcome.{Outcome, Ends, ends, ok, exited, fault, starved, then_run}
use tcp_udp_client_server.Packets.{tcp_msg_new}
use tcp_udp_client_server.TcpServer.{
  TcpServer, client_already_connected, updated, already_connected, wrong_type, string_of,
  on_clients, keep_clients, tcp_server_client_exists, tcp_server_update_client,
}

-- A message of another type is refused, and nothing changes.
pub update_client-wrong_type :
    (fd : ℕ) (s : TcpServer)
    → s.recv_msg.msg_type ≢ tcp_msg_new
    → tcp_server_update_client fd s ≡ ok wrong_type s
unfolding tcp_server_update_client
update_client-wrong_type fd s ne = rw (==_ne s.recv_msg.msg_type tcp_msg_new ne) refl

-- A total run on the client list, in the state of the server.
carried_over :
    (s : TcpServer) {P : Clients → Type 0} (r : Outcome Clients (Unit {0}))
    → Ends (λ _. P) r
    → Ends
        (λ u t. (u ≡ updated) × P t.clients × (t ≡ record s { clients = t.clients }))
        (then_run (keep_clients s r) (λ _. ok updated))
carried_over s (ok u h) (ends p) = ends (refl, p, refl)
carried_over s (exited c h) e = elim e [ ]
carried_over s fault e = elim e [ ]
carried_over s starved e = elim e [ ]

module _ (s : TcpServer) {xs : Cells Client} (is : IsList s.clients s.connected_clients xs) where
  pub exists-ok :
      (id : Bytes) → tcp_server_client_exists id s ≡ ok (not (find_first (has_id id) xs == null)) s
  unfolding tcp_server_client_exists on_clients
  exists-ok id = rw (find_by_id-ok is id) refl

  module _ (fd : ℕ) (id : Bytes) (new : s.recv_msg.msg_type ≡ tcp_msg_new)
      (read : c_str s.recv_msg.payload ≡ some id) where
    -- The client, connected under the id.
    abbrev pub connected : Client → Client
    connected c = record c { state = client_state_connected; id = id }

    is_new : not (s.recv_msg.msg_type == tcp_msg_new) ≡ false
    is_new = ground arith

    -- A server whose client list is well-formed, and a message of a new connection whose text, the id, has ten
    -- bytes or more: treating it is undefined behaviour.
    pub update_client-long : id_maxlen ≤ length id → tcp_server_update_client fd s ≡ fault
    unfolding tcp_server_update_client
    update_client-long long =
        let over : fits id_maxlen id ≡ false = ground arith in
        rw (is_new, read, string_of, then_run, over) refl

    -- A server whose client list is well-formed, and a message of a new connection with an id that fits and
    -- that a client of the list has: the answer is that the client is already connected, which is printed, and
    -- nothing else changes.
    pub update_client-taken :
        {c : Client}
        → length id < id_maxlen
        → first_body (has_id id) xs ≡ some c
        → tcp_server_update_client fd s
          ≡ ok already_connected (record s { printed = client_already_connected id ∷ s.printed })
    unfolding tcp_server_update_client
    update_client-taken short f =
        let ne = (find_first-payload (has_id id) is.chain f).0 in
        rw
          (
            is_new,
            read,
            string_of,
            then_run,
            lt→ltb _ _ short,
            exists-ok id,
            then_run,
            ==_ne (find_first (has_id id) xs) null ne,
          )
          refl

    -- A server whose client list is well-formed, and a message of a new connection, on the descriptor of a
    -- client, with an id that fits and that no client of the list has: that client is connected under the
    -- id, the list is well-formed and otherwise as it was, no descriptor is closed, and nothing else of
    -- the server changes.
    pub update_client-updated :
        {c : Client}
        → length id < id_maxlen
        → first_body (has_id id) xs ≡ none
        → first_body (has_fd fd) xs ≡ some c
        → Ends
            (λ u t.
              (u ≡ updated)
              × (IsList t.clients s.connected_clients
                    (replace (find_first (has_fd fd) xs) (connected c) xs)
                  × (t.clients.closed ≡ s.clients.closed))
              × (t ≡ record s { clients = t.clients }))
            (tcp_server_update_client fd s)
    unfolding tcp_server_update_client on_clients
    update_client-updated short none_has f =
        rw
          (
            is_new,
            read,
            string_of,
            then_run,
            lt→ltb _ _ short,
            exists-ok id,
            then_run,
            find_first-null (has_id id) xs none_has,
          )
          (carried_over s _ (update_by_fd-replace is fd f client_state_connected id short))
