-- ===== src/TcpServer.antt =====
-- TCP_server.h and TCP_server.c: connections, the messages of the clients, and subscriptions.
-- The state is `TcpServer`, with the lines that were printed, last first, and whether the listening socket was
-- closed. Of struct TCP_server it leaves out `serv_addr`, `serv_addr_len` and
-- `bytes_read`, which nothing reads; the two lists carry the stores of their nodes, and `net` the
-- state of each descriptor's socket (Sockets.antt). What the system answers is an argument: the
-- connection that accept() gives, the bytes that recv() gives (`none` for -1), the address `fresh`
-- that malloc() gives, and the indeterminate contents of a variable that is read before it is set.
pub mod Finding
pub mod Receive
pub mod Arguments
pub mod Connections
pub mod Updating
pub mod Accepting
pub mod Delivery
pub mod Truncation
pub mod Invariant
pub mod Subscribing
pub mod Twofold
use tcp_udp_client_server.Base.{
  ℕ, zero, suc, ◌+◌, ◌*◌, ◌/◌, ◌%◌, Bool, true, false, not, Option, none, some, List, [], ◌∷◌, ◌++◌,
  ◌||◌, ◌==◌, ltb, if◌then◌else◌, length, drop,
}
use tcp_udp_client_server.Clients.{
  Client, Clients, id_maxlen, client_state_new, client_state_connected, clients_list_create,
  client_node_create, clients_list_add_client, clients_list_find_by_fd, clients_list_find_by_id,
  clients_list_remove_client_by_fd, clients_list_update_client_by_fd, clients_list_destroy,
}
use tcp_udp_client_server.CString.{Bytes, c_str, fits, scan_word, scan_unsigned}
use tcp_udp_client_server.DList.{Ptr, null, Store, Node, load}
use tcp_udp_client_server.Outcome.{Outcome, ok, exited, fault, starved, Cmd, pure, ◌>>=◌, ◌>>◌}
use tcp_udp_client_server.Packets.{
  TcpHeader, TcpCtosMsg, TcpStocMsg, UdpMsg, memcpy, zeros, header_bytes, header_of, ctos_bytes,
  ctos_of, stoc_of, udp_bytes, tcp_msg_new, packet_maxlen,
}
use tcp_udp_client_server.Packets.Print.{CtosPrinted, HeaderPrinted, tcp_stoc_msg, tcp_header_print}
use tcp_udp_client_server.Sockets.{Socket, send_all}
use tcp_udp_client_server.Subscriptions.{
  Subscription, Subscriptions, SubscriptionsList, topic_len, subscriptions_create,
  subscription_node_create, subscriptions_add_subscription, subscriptions_find,
  subscriptions_remove_subscription, subscriptions_get_next, subscriptions_destroy,
}

-- The lines that the server prints, with the node that a line is made of.
--   client_connected c           "New client %s connected from %s:%hu."
--   client_disconnected c        "Client %s disconnected."
--   client_already_connected id  "Client %s already connected."
--   message_sent h               what TCP_server_send() prints of the packet
--   receiving fd                 "Receive packet on file descriptor %d..."
--   received rc n                "Received %d bytes out of %ld, message: %hu", where the second is 2; `none` is -1
--   received_more rc n           "Received %d more bytes out of %hu, message:"
--   message_received m           what TCP_server_recv_all1() prints of the message
pub data Notice : Type 0 where
  client_connected client_disconnected : Client → Notice
  client_already_connected : (id : Bytes) → Notice
  message_sent : HeaderPrinted → Notice
  receiving : (fd : ℕ) → Notice
  received : (rc : Option ℕ) → (n : ℕ) → Notice
  received_more : (rc n : ℕ) → Notice
  message_received : CtosPrinted → Notice

pub record TcpServer : Type 0 where
  pub fd : ℕ
  pub recv_msg : TcpCtosMsg
  pub connected_clients : Ptr
  pub clients : Clients
  pub subscriptions : SubscriptionsList
  pub nodes : Subscriptions
  pub net : ℕ → Socket
  pub printed : List Notice
  pub closed : Bool

-- A part of the state, run by itself.
module _ {A : Type 0} (s : TcpServer) where
  abbrev pub keep_clients : Outcome Clients A → Outcome TcpServer A
  keep_clients (ok a h) = ok a (record s { clients = h })
  keep_clients (exited c h) = exited c (record s { clients = h })
  keep_clients fault = fault
  keep_clients starved = starved

  abbrev pub keep_nodes : Outcome Subscriptions A → Outcome TcpServer A
  keep_nodes (ok a h) = ok a (record s { nodes = h })
  keep_nodes (exited c h) = exited c (record s { nodes = h })
  keep_nodes fault = fault
  keep_nodes starved = starved

  abbrev pub keep_socket : ℕ → Outcome Socket A → Outcome TcpServer A
  keep_socket fd (ok a t) = ok a (record s { net = λ n. if n == fd then t else s.net n })
  keep_socket fd (exited c t) = exited c (record s { net = λ n. if n == fd then t else s.net n })
  keep_socket fd fault = fault
  keep_socket fd starved = starved

module _ {A : Type 0} where
  unfoldable pub on_clients : Cmd Clients A → Cmd TcpServer A
  on_clients m s = keep_clients s (m s.clients)

  unfoldable pub on_nodes : Cmd Subscriptions A → Cmd TcpServer A
  on_nodes m s = keep_nodes s (m s.nodes)

  unfoldable pub on_socket : ℕ → Cmd Socket A → Cmd TcpServer A
  on_socket fd m s = keep_socket s fd (m (s.net fd))

abbrev pub gets : {A : Type 0} → (TcpServer → A) → Cmd TcpServer A
gets f s = ok (f s) s

abbrev pub print : Notice → Cmd TcpServer (Unit {0})
print line s = ok tt (record s { printed = line ∷ s.printed })

abbrev empty_store : {D : Type 0} → Store D
empty_store = record { cell = λ _. none; live = 0; closed = [] }

-- `recv_msg` is what malloc() left there.
unfoldable pub tcp_server_create : (fd : ℕ) → TcpCtosMsg → (ℕ → Socket) → TcpServer
tcp_server_create fd recv_msg net = record {
  fd = fd;
  recv_msg = recv_msg;
  connected_clients = clients_list_create;
  clients = empty_store;
  subscriptions = subscriptions_create;
  nodes = empty_store;
  net = net;
  printed = [];
  closed = false;
}

-- What accept() fills in; `sin_port` is in network byte order.
pub record Accepted : Type 0 where
  pub cli_fd : ℕ
  pub sin_addr : ℕ
  pub sin_port : ℕ

abbrev pub ntohs : ℕ → ℕ
ntohs n = n % 256 * 256 + n / 256

-- `none` is FAIL_ACCEPT.
unfoldable pub tcp_server_accept_connection :
    Option Accepted → (fresh : Ptr) → Cmd TcpServer (Option ℕ)
tcp_server_accept_connection none fresh = pure none
tcp_server_accept_connection (some a) fresh = do
  new_client ←
      on_clients
        (client_node_create fresh client_state_new a.cli_fd [] a.sin_addr (ntohs a.sin_port))
  λ s.
      (do
        head ← on_clients (clients_list_add_client s.connected_clients new_client)
        λ t. ok (some a.cli_fd) (record t { connected_clients = head }))
        s

pub data Received : Type 0 where
  failed ended message : Received

-- A message into `recv_msg`: as many bytes as the header says. More than the struct has is undefined.
unfoldable pub copy_message : TcpHeader → Cmd TcpServer Received
copy_message h s = elim (memcpy (ctos_bytes s.recv_msg) h.msg h.msg_len) [
  | none ↦ fault
  | some b ↦ ok message (record s { recv_msg = ctos_of b })
]

-- TCP_server_recv_all(), on the bytes that recv() put at the front of the zeroed packet.
unfoldable pub tcp_server_recv_all : Option Bytes → Cmd TcpServer Received
tcp_server_recv_all none = pure failed
tcp_server_recv_all (some []) = pure ended
tcp_server_recv_all (some (c ∷ bytes)) =
    copy_message (header_of ((c ∷ bytes) ++ drop (length (c ∷ bytes)) (zeros packet_maxlen)))

-- The packet of a header, and its way through send_all(). The result `none` is -1.
unfoldable pub tcp_server_packet : TcpHeader → Option Bytes
tcp_server_packet h = memcpy (zeros packet_maxlen) (header_bytes h) h.msg_len

unfoldable pub tcp_server_send : (fd : ℕ) → TcpHeader → Cmd TcpServer (Option ℕ)
tcp_server_send fd h = elim (tcp_server_packet h) [
  | none ↦ λ _. fault
  | some packet ↦ do
    rc ← on_socket fd (send_all packet)
    elim (tcp_header_print (header_of packet) tcp_stoc_msg) [
      | none ↦ λ _. fault
      | some h ↦ print (message_sent h)
    ]
    pure rc
]

unfoldable pub find_client : (fd : ℕ) → Cmd TcpServer Ptr
find_client fd s = on_clients (clients_list_find_by_fd s.connected_clients fd) s

-- The payload of the node at `p`.
unfoldable pub client_at : Ptr → Cmd TcpServer Client
client_at p = do n ← on_clients (load p); pure n.body

unfoldable pub tcp_server_is_new_connection : (fd : ℕ) → Cmd TcpServer Bool
tcp_server_is_new_connection fd = do
  client ← find_client fd
  if client == null
      then pure false
      else (do c ← client_at client; pure (c.state == client_state_new))

unfoldable pub tcp_server_client_exists : Bytes → Cmd TcpServer Bool
tcp_server_client_exists id = do
  client ← λ s. on_clients (clients_list_find_by_id s.connected_clients id) s
  pure (not (client == null))

-- The string that a fixed array starts with; reading on past its end is undefined.
abbrev pub string_of : Bytes → Cmd TcpServer Bytes
string_of b s = elim (c_str b) [ none ↦ fault | some t ↦ ok t s ]

-- strcpy() into an array of `n` bytes.
abbrev pub strcpy : ℕ → Bytes → Cmd TcpServer Bytes
strcpy n t s = if fits n t then ok t s else fault

pub data Update : Type 0 where
  updated already_connected wrong_type : Update

unfoldable pub tcp_server_update_client : (fd : ℕ) → Cmd TcpServer Update
tcp_server_update_client fd = do
  recv_msg ← gets (λ s. s.recv_msg)
  if not (recv_msg.msg_type == tcp_msg_new) then pure wrong_type else (do
    payload ← string_of recv_msg.payload
    id ← strcpy id_maxlen payload
    exists ← tcp_server_client_exists id
    if exists then (do print (client_already_connected id); pure already_connected) else (do
      λ s.
          on_clients
            (clients_list_update_client_by_fd s.connected_clients fd client_state_connected id) s
      pure updated))

pub record SubscribeArgs : Type 0 where
  pub topic : Bytes
  pub store_and_forward : ℕ

-- The second conversion of sscanf(): where it fails, the variable keeps its indeterminate value.
abbrev pub sf_or : (junk : ℕ) → Bytes → ℕ
sf_or junk rest = elim (scan_unsigned 8 rest) [ none ↦ junk | some sf ↦ sf ]

-- sscanf(payload, "%s %hhu", …): without a word the topic stays indeterminate, and its use is
-- undefined; a word that overruns the array is undefined too.
unfoldable pub sub_args_of : (junk : ℕ) → Bytes → Option SubscribeArgs
sub_args_of junk payload = elim (scan_word payload) [
  | none ↦ none
  | some (topic, rest) ↦
      if fits topic_len topic
      then some (record { topic = topic; store_and_forward = sf_or junk rest })
      else none
]

unfoldable pub tcp_server_get_sub_args : (junk : ℕ) → Cmd TcpServer SubscribeArgs
tcp_server_get_sub_args junk = do
  recv_msg ← gets (λ s. s.recv_msg)
  payload ← string_of recv_msg.payload
  λ s. elim (sub_args_of junk payload) [ none ↦ fault | some args ↦ ok args s ]

-- The list after an operation on it.
abbrev pub on_subscriptions :
    (SubscriptionsList → Cmd Subscriptions SubscriptionsList) → Cmd TcpServer (Unit {0})
on_subscriptions f = do
  l ← λ s. on_nodes (f s.subscriptions) s
  λ s. ok tt (record s { subscriptions = l })

unfoldable pub tcp_server_subscribe : (fd : ℕ) (fresh : Ptr) (junk : ℕ) → Cmd TcpServer (Unit {0})
tcp_server_subscribe fd fresh junk = do
  subscriber ← find_client fd
  if subscriber == null then pure tt else (do
    args ← tcp_server_get_sub_args junk
    c ← client_at subscriber
    sub ← on_nodes (subscription_node_create fresh args.topic c.id args.store_and_forward)
    on_subscriptions (λ l. subscriptions_add_subscription l sub))

-- subscriptions_find() on the topic in the payload, which an empty list does not read.
unfoldable pub find_subscription : (id : Bytes) → Cmd TcpServer Ptr
find_subscription id = do
  l ← gets (λ s. s.subscriptions)
  if l.head == null then pure null else (do
    recv_msg ← gets (λ s. s.recv_msg)
    payload ← string_of recv_msg.payload
    λ s. on_nodes (subscriptions_find s.subscriptions payload id) s)

unfoldable pub tcp_server_unsubscribe : (fd : ℕ) → Cmd TcpServer (Unit {0})
tcp_server_unsubscribe fd = do
  unsubscriber ← find_client fd
  if unsubscriber == null then pure tt else (do
    c ← client_at unsubscriber
    subscription ← find_subscription c.id
    if subscription == null
        then pure tt
        else on_subscriptions (λ l. subscriptions_remove_subscription l subscription))

-- One subscription of the loop of TCP_server_send_to_subscribers(). A subscriber that is not
-- connected any more is a NULL that is followed.
unfoldable pub send_to_subscriber : (sub : Ptr) → TcpHeader → Cmd TcpServer (Option ℕ)
send_to_subscriber sub h = do
  n ← on_nodes (load sub)
  subscriber ← λ s. on_clients (clients_list_find_by_id s.connected_clients n.body.subscriber_id) s
  c ← client_at subscriber
  tcp_server_send c.fd h

-- The next subscription on the topic; the string of the topic may run on over the other fields of the
-- message, which lie behind it.
unfoldable pub next_subscription : UdpMsg → Cmd TcpServer Ptr
next_subscription m = do
  l ← gets (λ s. s.subscriptions)
  if l.head == null || l.current == null then pure null else (do
    topic ← string_of (udp_bytes m)
    (sub, l') ← on_nodes (subscriptions_get_next l topic)
    λ s. ok sub (record s { subscriptions = l' }))

-- `rc` is indeterminate before the first turn.
unfoldable pub subscribers_loop :
    (rounds : ℕ) → TcpHeader → UdpMsg → (rc : Option ℕ) → Cmd TcpServer (Option ℕ)
subscribers_loop zero h m rc = λ _. starved
subscribers_loop (suc k) h m rc = do
  sub ← next_subscription m
  if sub == null then pure rc else (do
    rc' ← send_to_subscriber sub h
    elim rc' [ none ↦ pure none | some n ↦ subscribers_loop k h m (some n) ])

unfoldable pub tcp_server_send_to_subscribers :
    TcpHeader → (junk : Option ℕ) → Cmd TcpServer (Option ℕ)
tcp_server_send_to_subscribers h junk s =
    subscribers_loop (s.nodes.live + 1) h (stoc_of h.msg).content junk s

-- TCP_server_destroy(), but for the release of the struct.
unfoldable pub tcp_server_destroy : Cmd TcpServer (Unit {0})
tcp_server_destroy = do
  λ s. ok tt (record s { closed = true })
  λ s. on_clients (clients_list_destroy s.connected_clients) s
  λ s. on_nodes (subscriptions_destroy s.subscriptions) s
