-- ===== src/TcpClient/Run.antt =====
-- TCP_client.c: the state of a client, and the loop of run_client(). Of struct TCP_client it leaves out
-- `cli_addr` and `cli_addr_len`, which nothing reads. `stdin` is what the user types, to its end; `out` of
-- the socket is what was sent, and `printed` what was written to the standard output, last first. The answers
-- of poll() are arguments, and those of send() and recv() stand in the socket. `closed` notes close() of the
-- client's own descriptor.
pub mod Turns
use tcp_udp_client_server.Base.{
  ℕ, zero, suc, ◌+◌, Bool, true, false, Option, none, some, List, [], ◌∷◌, ◌++◌, ◌==◌,
  if◌then◌else◌,
}
use tcp_udp_client_server.Clients.{id_maxlen}
use tcp_udp_client_server.CString.{Bytes, fits}
use tcp_udp_client_server.Outcome.{Outcome, ok, exited, fault, starved, Cmd, pure, ◌>>=◌, ◌>>◌}
use tcp_udp_client_server.Packets.{TcpHeader, tcp_msg_new, tcp_msg_subscribe, tcp_msg_unsubscribe}
use tcp_udp_client_server.Poller.{
  Poller, poller_create, poller_destroy, poller_poll, poller_add_fd, poller_next_fd_with_pollin,
}
use tcp_udp_client_server.Sockets.{Socket, exit_failure, send_all, recv_all}
use tcp_udp_client_server.TcpClient.{
  Command, client_cmd_exit, client_cmd_subscribe, client_cmd_unsubscribe, client_cmd_undefined,
  CommandArgs, tcp_client_packet, subscribe_packet, message_packet,
}
use tcp_udp_client_server.TcpClient.Display.{Line, print_subscription_message}
use tcp_udp_client_server.TcpClient.Input.{get_user_command}

-- What a client prints.
pub data Printed : Type 0 where
  subscribed_line unsubscribed_line : Printed
  message_line : Line → Printed

pub record TcpClient : Type 0 where
  pub fd : ℕ
  pub id : Bytes
  pub recv_packet : Bytes
  pub socket : Socket
  pub poller : Poller
  pub stdin : Bytes
  pub printed : List Printed
  pub closed : Bool

abbrev pub stdin_fileno : ℕ
stdin_fileno = 0

-- TCP_client_create(): an id that overruns its array is undefined. `junk` is what malloc() left.
unfoldable pub tcp_client_create :
    (fd : ℕ) (id : Bytes) (junk : Bytes) → Socket → (stdin : Bytes) → Option TcpClient
tcp_client_create fd id junk socket stdin =
    if fits id_maxlen id
    then some (record {
      fd = fd;
      id = id;
      recv_packet = junk;
      socket = socket;
      poller = poller_create;
      stdin = stdin;
      printed = [];
      closed = false;
    })
    else none

module _ {A : Type 0} where
  abbrev pub keep_socket : TcpClient → Outcome Socket A → Outcome TcpClient A
  keep_socket s (ok a t) = ok a (record s { socket = t })
  keep_socket s (exited c t) = exited c (record s { socket = t })
  keep_socket s fault = fault
  keep_socket s starved = starved

  abbrev pub keep_poller : TcpClient → Outcome Poller A → Outcome TcpClient A
  keep_poller s (ok a p) = ok a (record s { poller = p })
  keep_poller s (exited c p) = exited c (record s { poller = p })
  keep_poller s fault = fault
  keep_poller s starved = starved

  unfoldable pub on_socket : Cmd Socket A → Cmd TcpClient A
  on_socket m s = keep_socket s (m s.socket)

  unfoldable pub on_poller : Cmd Poller A → Cmd TcpClient A
  on_poller m s = keep_poller s (m s.poller)

  -- DIE()
  abbrev pub die : Cmd TcpClient A
  die s = exited exit_failure s

abbrev pub print : Printed → Cmd TcpClient (Unit {0})
print o s = ok tt (record s { printed = o ∷ s.printed })

unfoldable pub tcp_client_destroy : Cmd TcpClient (Unit {0})
tcp_client_destroy s = ok tt (record s { closed = true })

unfoldable pub client_exit : Cmd TcpClient (Unit {0})
client_exit = do on_poller poller_destroy; tcp_client_destroy; λ s. exited 0 s

-- TCP_client_send() of a packet, and the DIE() behind each of its calls. `none` is a packet that could not
-- be composed without undefined behaviour.
unfoldable pub send_packet : Option Bytes → Cmd TcpClient (Unit {0})
send_packet none = λ _. fault
send_packet (some packet) = do
  rc ← on_socket (send_all packet)
  elim rc [ none ↦ die | some n ↦ pure tt ]

-- TCP_client_recv(): what recv_all() returns, and leaves in the packet.
unfoldable pub tcp_client_recv : Cmd TcpClient (Option ℕ)
tcp_client_recv = do
  (rc, packet) ← λ s. on_socket (recv_all s.recv_packet) s
  λ s. ok rc (record s { recv_packet = packet })

-- get_user_command() on what is left of the standard input.
unfoldable pub next_command : Cmd TcpClient CommandArgs
next_command s = elim (get_user_command s.stdin) [
  | none ↦ fault
  | some (args, rest) ↦ ok args (record s { stdin = rest })
]

abbrev pub run_branch : Command → CommandArgs → Cmd TcpClient (Unit {0})
run_branch client_cmd_exit args = client_exit
run_branch client_cmd_subscribe args = do
  send_packet (subscribe_packet tcp_msg_subscribe args)
  print subscribed_line
run_branch client_cmd_unsubscribe args = do
  send_packet (message_packet tcp_msg_unsubscribe args.topic)
  print unsubscribed_line
run_branch client_cmd_undefined args = pure tt

-- The switch on a command.
unfoldable pub run_command : CommandArgs → Cmd TcpClient (Unit {0})
run_command args = run_branch args.cmd args

-- TCP_client_print_subscription_message()
unfoldable pub print_message : Cmd TcpClient (Unit {0})
print_message s = elim (print_subscription_message s.recv_packet) [
  | none ↦ fault
  | some l ↦ ok tt (record s { printed = message_line l ∷ s.printed })
]

after_recv : Option ℕ → Cmd TcpClient (Unit {0})
after_recv none = die
after_recv (some zero) = do client_exit; print_message
after_recv (some (suc n)) = print_message

unfoldable pub receive_packet : Cmd TcpClient (Unit {0})
unfolding after_recv
receive_packet = do rc ← tcp_client_recv; after_recv rc

-- The event on one descriptor.
unfoldable pub handle_event : (fd : ℕ) → Cmd TcpClient (Unit {0})
handle_event fd =
    if fd == stdin_fileno then (do args ← next_command; run_command args) else receive_packet

-- The inner loop, for `turns` turns.
unfoldable pub events_loop : (turns : ℕ) → Cmd TcpClient (Unit {0})
events_loop zero = λ _. starved
events_loop (suc k) = do
  o ← on_poller poller_next_fd_with_pollin
  elim o [ none ↦ pure tt | some fd ↦ (do handle_event fd; events_loop k) ]

-- One turn of the outer loop: the answer of poll(), and turns enough for its events.
unfoldable pub client_round : Option (List ℕ) → Cmd TcpClient (Unit {0})
client_round revents = do
  rc ← on_poller (poller_poll revents)
  elim rc [ none ↦ die | some _ ↦ λ s. events_loop (s.poller.num_pollfds + 1) s ]

unfoldable pub run_rounds : List (Option (List ℕ)) → Cmd TcpClient (Unit {0})
run_rounds [] = pure tt
run_rounds (r ∷ rest) = do client_round r; run_rounds rest

-- run_client()
unfoldable pub run_client : List (Option (List ℕ)) → Cmd TcpClient (Unit {0})
run_client rounds = do
  on_poller (poller_add_fd stdin_fileno)
  λ s. on_poller (poller_add_fd s.fd) s
  run_rounds rounds

-- The rest of main(): the client is created, sends its id, and runs.
unfoldable pub start_client : List (Option (List ℕ)) → Cmd TcpClient (Unit {0})
start_client rounds = do λ s. send_packet (message_packet tcp_msg_new s.id) s; run_client rounds
