-- ===== src/TcpServer/Connections.antt =====
-- TCP_server.c: that the operations on connections leave the cursor and the sockets as they are.
use tcp_udp_client_server.Base.{
  ℕ, Bool, true, false, not, Option, none, some, [], ◌∷◌, ◌==◌, if◌then◌else◌, ◌++◌, length, drop,
}
use tcp_udp_client_server.Clients.{
  id_maxlen, client_state_new, client_state_connected, client_node_create, clients_list_add_client,
  clients_list_find_by_id, clients_list_update_client_by_fd, clients_list_destroy,
}
use tcp_udp_client_server.CString.{Bytes, c_str, fits}
use tcp_udp_client_server.DList.{Ptr, null}
use tcp_udp_client_server.Outcome.{ok, fault, Holds, Keeps, Keeps-bind, Keeps-if}
use tcp_udp_client_server.Packets.{
  TcpHeader, memcpy, ctos_bytes, ctos_of, header_of, zeros, packet_maxlen, tcp_msg_new,
}
use tcp_udp_client_server.Subscriptions.{subscriptions_destroy}
use tcp_udp_client_server.TcpServer.{
  TcpServer, Accepted, message, ntohs, gets, string_of, strcpy, find_client, copy_message,
  tcp_server_recv_all, tcp_server_accept_connection, tcp_server_is_new_connection,
  tcp_server_client_exists, tcp_server_update_client, tcp_server_destroy,
}
use tcp_udp_client_server.TcpServer.Delivery.{
  IsSilent, on_clients-IsSilent, on_nodes-IsSilent, find_client-IsSilent, client_at-IsSilent,
  string_at,
}

module _ {sent : ℕ → Bytes} where
  copied :
      (s : TcpServer) (o : Option Bytes)
      → IsSilent sent s
      → Holds
          (IsSilent sent)
          (elim o [ none ↦ fault | some b ↦ ok message (record s { recv_msg = ctos_of b }) ])
  copied s none q = tt
  copied s (some b) q = record { cursor = q.cursor; unsent = q.unsent }

  copy_message-IsSilent : (h : TcpHeader) → Keeps (IsSilent sent) (copy_message h)
  unfolding copy_message
  copy_message-IsSilent h s q = copied s (memcpy (ctos_bytes s.recv_msg) h.msg h.msg_len) q

  pub recv_all-IsSilent : (b : Option Bytes) → Keeps (IsSilent sent) (tcp_server_recv_all b)
  unfolding tcp_server_recv_all
  recv_all-IsSilent none s q = q
  recv_all-IsSilent (some []) s q = q
  recv_all-IsSilent (some (c ∷ bytes)) s q =
      copy_message-IsSilent
        (header_of ((c ∷ bytes) ++ drop (length (c ∷ bytes)) (zeros packet_maxlen))) s q

  pub accept_connection-IsSilent :
      (o : Option Accepted) (fresh : Ptr)
      → Keeps (IsSilent sent) (tcp_server_accept_connection o fresh)
  unfolding tcp_server_accept_connection
  accept_connection-IsSilent none fresh s q = q
  accept_connection-IsSilent (some a) fresh s q =
      Keeps-bind (IsSilent sent) _ _
        (on_clients-IsSilent
          (client_node_create fresh client_state_new a.cli_fd [] a.sin_addr (ntohs a.sin_port)))
        (λ c t p.
          Keeps-bind (IsSilent sent) _ _
            (on_clients-IsSilent (clients_list_add_client t.connected_clients c))
            (λ head u r. record { cursor = r.cursor; unsent = r.unsent }) t p)
        s q

  pub is_new_connection-IsSilent :
      (fd : ℕ) → Keeps (IsSilent sent) (tcp_server_is_new_connection fd)
  unfolding tcp_server_is_new_connection
  is_new_connection-IsSilent fd =
      Keeps-bind (IsSilent sent) (find_client fd) _ (find_client-IsSilent fd) (λ c.
        Keeps-if (IsSilent sent) (c == null) _ _ (λ s q. q)
          (Keeps-bind (IsSilent sent) _ _ (client_at-IsSilent c) (λ d s q. q)))

  client_exists-IsSilent : (id : Bytes) → Keeps (IsSilent sent) (tcp_server_client_exists id)
  unfolding tcp_server_client_exists
  client_exists-IsSilent id =
      Keeps-bind (IsSilent sent) _ _
        (λ s q. on_clients-IsSilent (clients_list_find_by_id s.connected_clients id) s q)
        (λ c s q. q)

  strcpy-IsSilent : (n : ℕ) (t : Bytes) → Keeps (IsSilent sent) (strcpy n t)
  strcpy-IsSilent n t s q = fitted (fits n t)
    where
      fitted : (b : Bool) → Holds (IsSilent sent) (if b then ok t s else fault)
      fitted true = q
      fitted false = tt

  pub update_client-IsSilent : (fd : ℕ) → Keeps (IsSilent sent) (tcp_server_update_client fd)
  unfolding tcp_server_update_client
  update_client-IsSilent fd =
      Keeps-bind (IsSilent sent) (gets (λ s. s.recv_msg)) _ (λ s q. q)
        (λ m.
          Keeps-if (IsSilent sent) (not (m.msg_type == tcp_msg_new)) _ _ (λ s q. q)
            (Keeps-bind (IsSilent sent) (string_of m.payload) _ (string_at (c_str m.payload)) (λ b.
              Keeps-bind (IsSilent sent) (strcpy id_maxlen b) _ (strcpy-IsSilent id_maxlen b) (λ id.
                Keeps-bind (IsSilent sent) _ _ (client_exists-IsSilent id) (λ e.
                  Keeps-if (IsSilent sent) e _ _
                    (λ s q. record { cursor = q.cursor; unsent = q.unsent })
                    (Keeps-bind (IsSilent sent) _ _
                      (λ s q.
                        on_clients-IsSilent
                          (clients_list_update_client_by_fd s.connected_clients fd
                            client_state_connected id)
                          s q)
                      (λ u s q. q)))))))

  pub destroy-IsSilent : Keeps (IsSilent sent) tcp_server_destroy
  unfolding tcp_server_destroy
  destroy-IsSilent =
      Keeps-bind (IsSilent sent) (λ s. ok tt (record s { closed = true })) _
        (λ s q. record { cursor = q.cursor; unsent = q.unsent })
        (λ _.
          Keeps-bind (IsSilent sent) _ _
            (λ s q. on_clients-IsSilent (clients_list_destroy s.connected_clients) s q)
            (λ u s q. on_nodes-IsSilent (subscriptions_destroy s.subscriptions) s q))
