-- ===== src/Clients/Lookup.antt =====
-- The searches of the client list, against the list that it stands for.
use tcp_udp_client_server.Base.{◌≡◌, ℕ}
use tcp_udp_client_server.CString.{Bytes}
use tcp_udp_client_server.Clients.{
  Client, Clients, has_id, has_fd, clients_list_find_by_id, clients_list_find_by_fd,
}
use tcp_udp_client_server.DList.{Ptr}
use tcp_udp_client_server.DList.Search.{find_first, find-ok}
use tcp_udp_client_server.DList.Shape.{Cells, IsList}
use tcp_udp_client_server.Outcome.{ok}

module _ {h : Clients} {head : Ptr} {xs : Cells Client} (is : IsList h head xs) where
  pub find_by_fd-ok :
      (fd : ℕ) → clients_list_find_by_fd head fd h ≡ ok (find_first (has_fd fd) xs) h
  unfolding clients_list_find_by_fd
  find_by_fd-ok fd = find-ok (has_fd fd) is

  -- In a well-formed list, the search for an id returns the address of the first node with that id, or
  -- NULL if there is none, and changes nothing.
  pub find_by_id-ok :
      (id : Bytes) → clients_list_find_by_id head id h ≡ ok (find_first (has_id id) xs) h
  unfolding clients_list_find_by_id
  find_by_id-ok id = find-ok (has_id id) is
