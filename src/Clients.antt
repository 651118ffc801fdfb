-- ===== src/Clients.antt =====
-- clients.h and clients.c: the list of connected clients. A `clients_list` is its `head`, passed in
-- and returned; the node at `fresh` is what malloc() returns. `id` holds the string of the array
-- `char id[ID_MAXLEN]`, and strcpy() into it is undefined where the string does not fit.
-- The list code itself (add, is_head, remove, the loops) stands in DList.antt.
pub mod Lookup
pub mod Changes
pub mod Ids
pub mod Refinement
pub mod Printing
use tcp_udp_client_server.Base.{
  ℕ, ◌≡◌, Bool, true, ◌&&◌, List, [], ◌∷◌, arith, ◌==◌, ==_refl, if◌then◌else◌,
}
use tcp_udp_client_server.CString.{Bytes, str_eq, str_eq_refl, fits}
use tcp_udp_client_server.DList.{
  Ptr, null, Store, Kind, load, set_body, node_create, node_destroy, add, find, is_head, remove,
  destroy_all,
}
use tcp_udp_client_server.DList.Print.{Entry, node_print, print_all}
use tcp_udp_client_server.Outcome.{Cmd, fault, pure, ◌>>=◌, ◌>>◌}

abbrev pub id_maxlen : ℕ
id_maxlen = 10

-- enum client_state
abbrev pub client_state_new : ℕ
client_state_new = 0

abbrev pub client_state_connected : ℕ
client_state_connected = 1

-- struct client_node, but for its links
pub record Client : Type 0 where
  pub state : ℕ
  pub fd : ℕ
  pub id : Bytes
  pub ip : ℕ
  pub port : ℕ

-- The comparison of clients_list_is_head(); ip and port are not compared.
unfoldable pub same_client : Client → Client → Bool
same_client a b = (a.fd == b.fd) && str_eq a.id b.id && (a.state == b.state)

pub same_client_refl : (c : Client) → same_client c c ≡ true
unfolding same_client
same_client_refl c = rw (==_refl c.fd, str_eq_refl c.id, ==_refl c.state)

abbrev pub client_kind : Kind Client
client_kind = record { same = same_client; same_refl = same_client_refl; closes = λ c. c.fd ∷ [] }

abbrev pub Clients : Type 0
Clients = Store Client

unfoldable pub client_node_create :
    (fresh : Ptr) (state fd : ℕ) (id : Bytes) (ip port : ℕ) → Cmd Clients Ptr
client_node_create fresh state fd id ip port =
    if fits id_maxlen id
    then node_create fresh (record { state = state; fd = fd; id = id; ip = ip; port = port })
    else λ _. fault

unfoldable pub client_node_destroy : Ptr → Cmd Clients (Unit {0})
client_node_destroy = node_destroy client_kind

-- client_node_print() and clients_list_print(), with the ids of the neighbours.
unfoldable pub client_node_print : Ptr → (idx : ℕ) → Cmd Clients (Entry Client Bytes)
client_node_print = node_print (λ c. c.id)

unfoldable pub clients_list_print : (head : Ptr) → Cmd Clients (List (Entry Client Bytes))
clients_list_print = print_all (λ c. c.id)

abbrev pub clients_list_create : Ptr
clients_list_create = null

unfoldable pub clients_list_destroy : Ptr → Cmd Clients (Unit {0})
clients_list_destroy = destroy_all client_kind

unfoldable pub clients_list_add_client : (head client : Ptr) → Cmd Clients Ptr
clients_list_add_client = add

unfoldable pub clients_list_is_head : (head client : Ptr) → Cmd Clients Bool
clients_list_is_head = is_head client_kind

unfoldable pub clients_list_remove_client : (head client : Ptr) → Cmd Clients Ptr
clients_list_remove_client = remove client_kind

abbrev pub has_id : Bytes → Client → Bool
has_id id c = str_eq c.id id

abbrev pub has_fd : ℕ → Client → Bool
has_fd fd c = c.fd == fd

unfoldable pub clients_list_find_by_id : (head : Ptr) → Bytes → Cmd Clients Ptr
clients_list_find_by_id head id = find (has_id id) head

unfoldable pub clients_list_find_by_fd : (head : Ptr) → ℕ → Cmd Clients Ptr
clients_list_find_by_fd head fd = find (has_fd fd) head

unfoldable pub clients_list_remove_client_by_fd : (head : Ptr) → ℕ → Cmd Clients Ptr
clients_list_remove_client_by_fd head fd = if head == null then pure head else do
  removed ← clients_list_find_by_fd head fd
  if removed == null then pure head else clients_list_remove_client head removed

unfoldable pub set_state_and_id : (client : Ptr) → ℕ → Bytes → Cmd Clients (Unit {0})
set_state_and_id client state id =
    if fits id_maxlen id
    then (do n ← load client; set_body client (record n.body { state = state; id = id }))
    else λ _. fault

unfoldable pub clients_list_update_client_by_fd :
    (head : Ptr) → ℕ → ℕ → Bytes → Cmd Clients (Unit {0})
clients_list_update_client_by_fd head fd state id = do
  client ← clients_list_find_by_fd head fd
  if client == null then pure tt else set_state_and_id client state id
