-- ===== src/Tests/Registry.antt =====
-- The client list and its specification on a few calls.
use tcp_udp_client_server.Base.{◌≡◌, refl, ℕ, some, none, List, [], ◌∷◌, arith}
use tcp_udp_client_server.Clients.{
  Client, Clients, client_state_new, client_state_connected, same_client, client_node_create,
  client_node_destroy, clients_list_add_client, clients_list_remove_client, clients_list_find_by_fd,
  clients_list_remove_client_by_fd, set_state_and_id, clients_list_update_client_by_fd,
}
use tcp_udp_client_server.Clients.Refinement.{
  Call, connect, identify, disconnect, call, calls, Registry, Stands, Refines, AllAllocate, specs,
  spec, calls-Refines,
}
use tcp_udp_client_server.CString.{str_eq}
use tcp_udp_client_server.DList.{
  write, load, set_prev, set_next, set_body, node_create, node_destroy, add, find, is_head, remove,
  null,
}
use tcp_udp_client_server.DList.Abstract.{erase_first, update_first, any, in_front, at_end}
use tcp_udp_client_server.DList.Shape.{nil}
use tcp_udp_client_server.Outcome.{returns}

abbrev newcomer : ℕ → Client
newcomer fd = record { state = client_state_new; fd = fd; id = []; ip = 1; port = 4000 }

abbrev no_clients : Clients
no_clients = record { cell = λ _. none; live = 0; closed = [] }

-- Two clients connect, the first one gives its id, and the second one leaves.
abbrev busy_day : List Call
busy_day =
    connect 7 (newcomer 5)
    ∷ connect 9 (newcomer 6)
    ∷ identify 5 client_state_connected (b'a' ∷ b'n' ∷ b'n' ∷ [])
    ∷ disconnect 6
    ∷ []

abbrev nobody : Registry
nobody = record { members = []; closed = [] }

nobody-Stands : Stands nobody null no_clients
nobody-Stands = record {
  cells = [];
  list = record { pre = null; chain = nil refl; count = refl; only = λ a o. refl };
  members = refl;
  closed = refl;
}

busy_day-AllAllocate : AllAllocate busy_day null no_clients
unfolding AllAllocate call client_node_create client_node_destroy clients_list_add_client
    clients_list_remove_client clients_list_find_by_fd clients_list_remove_client_by_fd
    set_state_and_id clients_list_update_client_by_fd write load set_prev set_next set_body
    node_create node_destroy add find is_head remove same_client str_eq
busy_day-AllAllocate = (
  record { ne_null = omega arith; unused = refl },
  returns (
    record { ne_null = omega arith; unused = refl },
    returns (tt {0}, returns (tt {0}, returns (tt {0}))),
  ),
)

-- What the specification says of it: the first client is left, with its id, and 6 is closed.
busy_day_ends :
    specs busy_day nobody
    ≡ some (record {
      members =
          record (newcomer 5) { state = client_state_connected; id = b'a' ∷ b'n' ∷ b'n' ∷ [] } ∷ [];
      closed = 6 ∷ [];
    })
unfolding specs spec erase_first update_first any in_front at_end
busy_day_ends = refl

calls-Refines_example : Refines (specs busy_day nobody) (calls busy_day null no_clients)
calls-Refines_example =
    calls-Refines busy_day nobody null no_clients nobody-Stands busy_day-AllAllocate
