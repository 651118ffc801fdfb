-- ===== src/Server.antt =====
-- server.c: the commands, the messages that it composes, and the loop over poll().
-- The state is `Server`: the poller and the two servers. The system's answers of one turn of the inner
-- loop stand in `Answers`, those of one turn of the outer loop in `Round`; `run_rounds` is the loop of
-- run_server() over finitely many rounds, after which the loop goes on. What goes to the standard
-- error is left out.
pub mod Silence
pub mod Invariant
pub mod Messages
pub mod Turns
pub mod Exit
pub mod Broker
use tcp_udp_client_server.Base.{
  ℕ, zero, suc, Bool, true, false, not, Option, none, some, List, [], ◌∷◌, ◌++◌, ◌==◌,
  if◌then◌else◌,
}
use tcp_udp_client_server.Clients.{Client, clients_list_remove_client_by_fd}
use tcp_udp_client_server.CString.{Bytes, str_eq, fits, scan_word}
use tcp_udp_client_server.DList.{Ptr}
use tcp_udp_client_server.Outcome.{Outcome, ok, exited, fault, starved, Cmd, pure, ◌>>=◌, ◌>>◌}
use tcp_udp_client_server.Packets.{
  TcpHeader, TcpStocMsg, memcpy, zeros, stoc_bytes, stoc_size, tcp_msg_maxlen, tcp_msg_subscribe,
  tcp_msg_unsubscribe,
}
use tcp_udp_client_server.Poller.{
  Poller, poller_create, poller_destroy, poller_poll, poller_add_fd, poller_remove_fd,
  poller_next_fd_with_pollin, poller_advance,
}
use tcp_udp_client_server.Sockets.{exit_failure}
use tcp_udp_client_server.TcpServer.{
  TcpServer, Notice, client_connected, client_disconnected, print, Accepted, Received, failed,
  ended, message, Update, updated, already_connected, wrong_type, on_clients, find_client,
  client_at, tcp_server_accept_connection, tcp_server_recv_all, tcp_server_is_new_connection,
  tcp_server_update_client, tcp_server_subscribe, tcp_server_unsubscribe,
  tcp_server_send_to_subscribers, tcp_server_destroy,
}
use tcp_udp_client_server.UdpServer.{udp_server_destroy, UdpServer, Datagram, udp_server_recv}

abbrev pub stdin_fileno : ℕ
stdin_fileno = 0

abbrev pub cmd_maxlen : ℕ
cmd_maxlen = 5

abbrev exit_word : Bytes
exit_word = b'e' ∷ b'x' ∷ b'i' ∷ b't' ∷ []

-- enum command
pub data ServerCommand : Type 0 where
  server_cmd_exit server_cmd_undefined : ServerCommand

-- get_user_command() on the text of the standard input. Without a word the array stays indeterminate,
-- and a word that does not fit overruns it: both are undefined.
unfoldable pub get_user_command : Bytes → Option ServerCommand
get_user_command input = elim (scan_word input) [
  | none ↦ none
  | some (cmd, rest) ↦
      if fits cmd_maxlen cmd
      then some (if str_eq cmd exit_word then server_cmd_exit else server_cmd_undefined)
      else none
]

-- server_compose_msg(): the copies into the two zeroed structs.
unfoldable pub server_compose_msg : UdpServer → Option TcpHeader
server_compose_msg u =
    elim (memcpy (zeros tcp_msg_maxlen)
      (stoc_bytes (record { src_ip = u.sin_addr; src_port = u.sin_port; content = u.msg }))
      stoc_size) [ none ↦ none | some msg ↦ some (record { msg_len = stoc_size; msg = msg }) ]

pub record Server : Type 0 where
  pub poller : Poller
  pub udp_server : UdpServer
  pub tcp_server : TcpServer

module _ {A : Type 0} where
  abbrev pub keep_poller : Server → Outcome Poller A → Outcome Server A
  keep_poller s (ok a p) = ok a (record s { poller = p })
  keep_poller s (exited c p) = exited c (record s { poller = p })
  keep_poller s fault = fault
  keep_poller s starved = starved

  abbrev pub keep_udp : Server → Outcome UdpServer A → Outcome Server A
  keep_udp s (ok a u) = ok a (record s { udp_server = u })
  keep_udp s (exited c u) = exited c (record s { udp_server = u })
  keep_udp s fault = fault
  keep_udp s starved = starved

  abbrev pub keep_tcp : Server → Outcome TcpServer A → Outcome Server A
  keep_tcp s (ok a t) = ok a (record s { tcp_server = t })
  keep_tcp s (exited c t) = exited c (record s { tcp_server = t })
  keep_tcp s fault = fault
  keep_tcp s starved = starved

  unfoldable pub on_poller : Cmd Poller A → Cmd Server A
  on_poller m s = keep_poller s (m s.poller)

  unfoldable pub on_udp : Cmd UdpServer A → Cmd Server A
  on_udp m s = keep_udp s (m s.udp_server)

  unfoldable pub on_tcp : Cmd TcpServer A → Cmd Server A
  on_tcp m s = keep_tcp s (m s.tcp_server)

  -- DIE()
  abbrev pub die : Cmd Server A
  die s = exited exit_failure s

-- server_exit()
unfoldable pub server_exit : Cmd Server (Unit {0})
server_exit = do
  on_poller poller_destroy
  on_udp udp_server_destroy
  on_tcp tcp_server_destroy
  λ s. exited 0 s

-- enum connection_status
pub data ConnectionStatus : Type 0 where
  connected disconnected : ConnectionStatus

abbrev pub status_line : ConnectionStatus → Client → Notice
status_line connected c = client_connected c
status_line disconnected c = client_disconnected c

-- Both lines read the node of the client; a NULL is followed.
unfoldable pub server_print_connection_status :
    (fd : ℕ) → ConnectionStatus → Cmd TcpServer (Unit {0})
server_print_connection_status fd status = do
  client ← find_client fd
  c ← client_at client
  print (status_line status c)

-- TCP_server_close_connection()
unfoldable pub tcp_server_close_connection : (fd : ℕ) → Cmd Server (Unit {0})
tcp_server_close_connection fd = do
  head ← on_tcp (λ t. on_clients (clients_list_remove_client_by_fd t.connected_clients fd) t)
  on_tcp (λ t. ok tt (record t { connected_clients = head }))
  on_poller (poller_remove_fd fd)

-- What the system answers in one turn of the inner loop: the standard input, the connection and the
-- bytes that wait, the datagram, the address that malloc() gives; and the contents of the variables
-- that the code reads before it sets them.
pub record Answers : Type 0 where
  pub input : Bytes
  pub accepted : Option Accepted
  pub bytes : Option Bytes
  pub datagram : Option Datagram
  pub fresh : Ptr
  pub junk_packet : Bytes
  pub junk_flag : ℕ
  pub junk_rc : Option ℕ

unfoldable pub run_command : Option ServerCommand → Cmd Server (Unit {0})
run_command none = λ _. fault
run_command (some server_cmd_exit) = server_exit
run_command (some server_cmd_undefined) = pure tt

-- A composed message, to the subscribers.
unfoldable pub send_composed : (junk : Option ℕ) → Option TcpHeader → Cmd Server (Unit {0})
send_composed junk none = λ _. fault
send_composed junk (some h) = do
  rc ← on_tcp (tcp_server_send_to_subscribers h junk)
  elim rc [ none ↦ die | some n ↦ pure tt ]

unfoldable pub receive_udp : Answers → Cmd Server (Unit {0})
receive_udp a = do
  received ← on_udp (udp_server_recv a.junk_packet a.datagram)
  if received then (λ s. send_composed a.junk_rc (server_compose_msg s.udp_server) s) else die

unfoldable pub receive_connection : Answers → Cmd Server (Unit {0})
receive_connection a = do
  cli_fd ← on_tcp (tcp_server_accept_connection a.accepted a.fresh)
  elim cli_fd [ none ↦ die | some fd ↦ (do on_poller (poller_add_fd fd); on_poller poller_advance) ]

unfoldable pub after_update : (fd : ℕ) → Update → Cmd Server (Unit {0})
after_update fd updated = on_tcp (server_print_connection_status fd connected)
after_update fd already_connected = tcp_server_close_connection fd
after_update fd wrong_type = on_tcp (server_print_connection_status fd connected)

unfoldable pub treat_subscription : Answers → (fd : ℕ) → Cmd TcpServer (Unit {0})
treat_subscription a fd t =
    if t.recv_msg.msg_type == tcp_msg_subscribe
    then tcp_server_subscribe fd a.fresh a.junk_flag t
    else if t.recv_msg.msg_type == tcp_msg_unsubscribe
    then tcp_server_unsubscribe fd t
    else ok tt t

unfoldable pub treat_message : Answers → (fd : ℕ) → Cmd Server (Unit {0})
treat_message a fd = do
  is_new ← on_tcp (tcp_server_is_new_connection fd)
  if is_new
      then (do rc ← on_tcp (tcp_server_update_client fd); after_update fd rc)
      else on_tcp (treat_subscription a fd)

unfoldable pub after_receive : Answers → (fd : ℕ) → Received → Cmd Server (Unit {0})
after_receive a fd failed = die
after_receive a fd ended = do
  on_tcp (server_print_connection_status fd disconnected)
  tcp_server_close_connection fd
after_receive a fd message = treat_message a fd

unfoldable pub receive_tcp : Answers → (fd : ℕ) → Cmd Server (Unit {0})
unfolding after_receive
receive_tcp a fd = do rc ← on_tcp (tcp_server_recv_all a.bytes); after_receive a fd rc

-- The event on one descriptor.
unfoldable pub handle_event : Answers → (fd : ℕ) → Cmd Server (Unit {0})
unfolding run_command
handle_event a fd s =
    if fd == stdin_fileno
    then run_command (get_user_command a.input) s
    else if fd == s.udp_server.fd
    then receive_udp a s
    else if fd == s.tcp_server.fd
    then receive_connection a s
    else receive_tcp a fd s

-- The inner loop.
unfoldable pub events_loop : List Answers → Cmd Server (Unit {0})
events_loop [] = λ _. starved
events_loop (a ∷ rest) = do
  fd ← on_poller poller_next_fd_with_pollin
  elim fd [ none ↦ pure tt | some fd ↦ (do handle_event a fd; events_loop rest) ]

pub record Round : Type 0 where
  pub revents : Option (List ℕ)
  pub turns : List Answers

unfoldable pub server_round : Round → Cmd Server (Unit {0})
server_round r = do
  rc ← on_poller (poller_poll r.revents)
  elim rc [ none ↦ die | some _ ↦ events_loop r.turns ]

unfoldable pub run_rounds : List Round → Cmd Server (Unit {0})
run_rounds [] = pure tt
run_rounds (r ∷ rest) = do server_round r; run_rounds rest

-- run_server(): the poller with the three descriptors, and the loop.
unfoldable pub run_server : UdpServer → TcpServer → List Round → Outcome Server (Unit {0})
run_server udp tcp rounds =
    (do
      on_poller (poller_add_fd stdin_fileno)
      λ s. on_poller (poller_add_fd s.udp_server.fd) s
      λ s. on_poller (poller_add_fd s.tcp_server.fd) s
      run_rounds rounds)
      (record { poller = poller_create; udp_server = udp; tcp_server = tcp })
