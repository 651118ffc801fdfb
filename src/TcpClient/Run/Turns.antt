-- ===== src/TcpClient/Run/Turns.antt =====
-- One turn of the client's inner loop: a typed command is sent, and a received packet is shown.
use tcp_udp_client_server.Base.{
  ◌≡◌, ◌≢◌, ◌≤◌, ◌<◌, refl, subst, ap, sym, ◌∙◌, ℕ, zero, suc, Option, none, some, ◌∷◌, ◌++◌, ==_ne,
  take, drop, length, arith,
}
use tcp_udp_client_server.CString.{Bytes}
use tcp_udp_client_server.Outcome.{
  Outcome, Cmd, pure, Ends, ends, Ends-bind, ok, exited, fault, starved, then_run,
}
use tcp_udp_client_server.Sockets.{Socket, send_all, recv_all}
use tcp_udp_client_server.Sockets.Sending.{Moves, send_all-doubled}
use tcp_udp_client_server.Sockets.Receiving.{recv_all-doubled}
use tcp_udp_client_server.TcpClient.{
  client_cmd_subscribe, client_cmd_unsubscribe, CommandArgs, subscribe_packet, message_packet,
}
use tcp_udp_client_server.TcpClient.Display.{Line, print_subscription_message}
use tcp_udp_client_server.TcpClient.Input.{get_user_command}
use tcp_udp_client_server.TcpClient.Run.{
  TcpClient, run_branch, die, Printed, subscribed_line, unsubscribed_line, message_line,
  keep_socket, on_socket, print, send_packet, tcp_client_recv, next_command, run_command,
  print_message, after_recv, receive_packet, handle_event, stdin_fileno,
}
use tcp_udp_client_server.Packets.{tcp_msg_subscribe, tcp_msg_unsubscribe}

-- A total run on the socket, in the state of the client.
socket_ends :
    {A : Type 0} (c : TcpClient) {P : A → Socket → Type 0} (r : Outcome Socket A)
    → Ends P r
    → Ends (λ a t. P a t.socket × (t ≡ record c { socket = t.socket })) (keep_socket c r)
socket_ends c (ok a t) (ends p) = ends (p, refl)
socket_ends c (exited e t) h = elim h [ ]
socket_ends c fault h = elim h [ ]
socket_ends c starved h = elim h [ ]

-- The state after a packet went out, with `n` bytes of it a second time.
abbrev pub Sent : TcpClient → Bytes → TcpClient → Type 0
Sent c packet t =
    (n : ℕ) × (n ≤ length packet)
    × (t.socket.out ≡ c.socket.out ++ (packet ++ take n packet))
    × (t.socket.pending ≡ c.socket.pending)

send_checked :
    (c : TcpClient) (packet : Bytes) (rc : Option ℕ) (t : TcpClient)
    → (n : ℕ) × (rc ≡ some n)
      × (n ≤ length packet)
      × (t.socket.out ≡ c.socket.out ++ (packet ++ take n packet))
      × (t.socket.pending ≡ c.socket.pending)
    → (t ≡ record c { socket = t.socket })
    → Ends
        (λ _ u. Sent c packet u × (u ≡ record c { socket = u.socket }))
        ((elim rc as (λ _. Cmd TcpClient (Unit {0})) [ none ↦ die | some n ↦ pure tt ]) t)
send_checked c packet none t (n, e, le, out, left) same = cc
send_checked c packet (some k) t (n, e, le, out, left) same = ends ((n, le, out, left), same)

pub send_packet-Sent :
    (c : TcpClient) (packet : Bytes)
    → Moves c.socket.answers
    → length packet < length c.socket.answers
    → Ends
        (λ _ t. Sent c packet t × (t ≡ record c { socket = t.socket }))
        (send_packet (some packet) c)
unfolding send_packet on_socket
send_packet-Sent c packet mv room =
    Ends-bind (socket_ends c (send_all packet c.socket) (send_all-doubled packet c.socket mv room))
      λ rc t (p, same). send_checked c packet rc t p same

-- A packet that went out, and a line that was printed.
pub record Told (c : TcpClient) (rest packet : Bytes) (o : Printed) (t : TcpClient) : Type 0 where
  pub again : ℕ
  pub again_le : again ≤ length packet
  pub out : t.socket.out ≡ c.socket.out ++ (packet ++ take again packet)
  pub pending : t.socket.pending ≡ c.socket.pending
  pub printed : t.printed ≡ o ∷ c.printed
  pub stdin : t.stdin ≡ rest

tell :
    (c : TcpClient) (rest packet : Bytes) (o : Printed)
    → Moves c.socket.answers
    → length packet < length c.socket.answers
    → Ends
        (λ _. Told c rest packet o)
        (then_run (send_packet (some packet) (record c { stdin = rest })) (λ _. print o))
tell c rest packet o mv room =
    Ends-bind (send_packet-Sent (record c { stdin = rest }) packet mv room)
      λ _ t ((n, le, out, left), same). ends (record {
        again = n;
        again_le = le;
        out = out;
        pending = left;
        printed = ap (λ u. o ∷ u.printed) same;
        stdin = ap (λ u. u.stdin) same;
      })

module _ (c : TcpClient) (args : CommandArgs) (rest packet : Bytes)
    (typed : get_user_command c.stdin ≡ some (args, rest)) (mv : Moves c.socket.answers)
    (room : length packet < length c.socket.answers) where
  pub handle_event-subscribe :
      args.cmd ≡ client_cmd_subscribe
      → subscribe_packet tcp_msg_subscribe args ≡ some packet
      → Ends (λ _. Told c rest packet subscribed_line) (handle_event stdin_fileno c)
  unfolding handle_event next_command run_command
  handle_event-subscribe cmd e =
      rw (typed, next_command, then_run)
        (subst
          (λ k.
            Ends (λ _. Told c rest packet subscribed_line)
              (run_branch k args (record c { stdin = rest })))
          (sym cmd) (rw e (tell c rest packet subscribed_line mv room)))

  pub handle_event-unsubscribe :
      args.cmd ≡ client_cmd_unsubscribe
      → message_packet tcp_msg_unsubscribe args.topic ≡ some packet
      → Ends (λ _. Told c rest packet unsubscribed_line) (handle_event stdin_fileno c)
  unfolding handle_event next_command run_command
  handle_event-unsubscribe cmd e =
      rw (typed, next_command, then_run)
        (subst
          (λ k.
            Ends (λ _. Told c rest packet unsubscribed_line)
              (run_branch k args (record c { stdin = rest })))
          (sym cmd) (rw e (tell c rest packet unsubscribed_line mv room)))

-- A packet that came twice, of which the client has read `again` bytes of the second.
pub record Shown (c : TcpClient) (packet behind : Bytes) (l : Line) (t : TcpClient) : Type 0 where
  pub again : ℕ
  pub again_pos : 0 < again
  pub again_le : again ≤ length packet
  pub recv_packet : t.recv_packet ≡ packet
  pub printed : t.printed ≡ message_line l ∷ c.printed
  pub pending : t.socket.pending ≡ drop again packet ++ behind
  pub out : t.socket.out ≡ c.socket.out

show_checked :
    (c : TcpClient) (packet behind : Bytes) (l : Line) (t : TcpClient)
    → print_subscription_message packet ≡ some l
    → 0 < length packet
    → (n : ℕ) → n ≤ length packet
    → 0 < n
    → t.recv_packet ≡ packet
    → t.socket.pending ≡ drop n packet ++ behind
    → t.socket.out ≡ c.socket.out
    → t.printed ≡ c.printed
    → Ends (λ _. Shown c packet behind l) (after_recv (some n) t)
unfolding after_recv print_message
show_checked c packet behind l t shown pos zero le m same left out old = absurd (omega arith)
show_checked c packet behind l t shown pos (suc n) le m same left out old =
    let found : print_subscription_message t.recv_packet ≡ some l =
      ap print_subscription_message same ∙ shown in
    rw (found, print_message)
      (ends (record {
        again = suc n;
        again_pos = m;
        again_le = le;
        recv_packet = same;
        printed = ap (λ o. message_line l ∷ o) old;
        pending = left;
        out = out;
      }))

-- What TCP_client_recv() leaves of a packet that came twice.
record Received (c : TcpClient) (packet behind : Bytes) (rc : Option ℕ) (t : TcpClient)
    : Type 0 where
  count : ℕ
  result : rc ≡ some count
  positive : 0 < count
  count_le : count ≤ length packet
  recv_packet : t.recv_packet ≡ packet
  pending : t.socket.pending ≡ drop count packet ++ behind
  out : t.socket.out ≡ c.socket.out
  printed : t.printed ≡ c.printed

module _ (c : TcpClient) (packet behind : Bytes) (size : length packet ≡ length c.recv_packet)
    (pos : 0 < length packet) (pending : c.socket.pending ≡ packet ++ (packet ++ behind))
    (mv : Moves c.socket.answers) (room : length packet < length c.socket.answers) where
  tcp_client_recv-Received : Ends (Received c packet behind) (tcp_client_recv c)
  unfolding tcp_client_recv on_socket
  tcp_client_recv-Received =
      Ends-bind
        (socket_ends c (recv_all c.recv_packet c.socket)
          (recv_all-doubled c.recv_packet packet behind c.socket size pending mv room pos))
        λ (rc, b) t ((n, e, some_n, le, same, left, out), kept). ends (record {
          count = n;
          result = e;
          positive = some_n;
          count_le = le;
          recv_packet = same;
          pending = left;
          out = out;
          printed = ap (λ u. u.printed) kept;
        })

  show_received :
      (l : Line) (rc : Option ℕ) (t : TcpClient)
      → print_subscription_message packet ≡ some l
      → Received c packet behind rc t
      → Ends (λ _. Shown c packet behind l) (after_recv rc t)
  show_received l rc t shown r = rw (r.result) (
      show_checked c packet behind l t shown pos r.count r.count_le r.positive r.recv_packet
        r.pending r.out r.printed)

  -- A packet of the size of the client's buffer that is not empty waits twice on a socket with more answers than it has
  -- bytes, none of them a failure or a zero, and has a line to be shown: the turn of the loop on a descriptor
  -- other than the standard input returns, the packet is in the buffer, its line is printed, nothing is
  -- sent, and of the second packet at least a byte and at most the whole is read too.
  pub handle_event-print :
      (l : Line) (fd : ℕ)
      → fd ≢ stdin_fileno
      → print_subscription_message packet ≡ some l
      → Ends (λ _. Shown c packet behind l) (handle_event fd c)
  unfolding handle_event receive_packet
  handle_event-print l fd ne shown =
      rw (==_ne fd stdin_fileno ne)
        (Ends-bind tcp_client_recv-Received (λ rc t r. show_received l rc t shown r))
