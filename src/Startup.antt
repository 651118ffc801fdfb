-- ===== src/Startup.antt =====
-- The set-up of both programs before their loops: the arguments of the server, the socket addresses, and the
-- sockets (server.c, UDP_server.c, TCP_server.c, TCP_client.c, util.h).
-- The state is `System`: what the system calls that are still to come answer, `none` for a negative number,
-- and the calls that were made, last first. inet_pton() and inet_ntoa() are arguments: the first gives the four
-- bytes of an address, or `none` where it returns 0 or less, the second the text of an address.
pub mod Opening
use tcp_udp_client_server.Base.{
  ℕ, ◌*◌, ◌+◌, ◌/◌, ◌%◌, Bool, Option, none, some, List, [], ◌∷◌, ◌==◌,
}
use tcp_udp_client_server.CString.{Bytes, scan_unsigned}
use tcp_udp_client_server.Outcome.{Outcome, ok, exited, fault, starved, Cmd, pure, ◌>>=◌}
use tcp_udp_client_server.Poller.{max_connections}
use tcp_udp_client_server.Sockets.{exit_failure}
use tcp_udp_client_server.TcpClient.Input.{Args}

-- enum error_ret_value
pub data ErrorRetValue : Type 0 where
  fail_socket fail_setsockopt fail_bind fail_listen fail_accept fail_connect : ErrorRetValue

-- struct sockaddr_in; the port is in network byte order.
pub record SockaddrIn : Type 0 where
  pub sin_port : ℕ
  pub sin_addr : Bytes

pub data SystemCall : Type 0 where
  socket_stream socket_dgram : SystemCall
  setsockopt_reuseaddr : (fd : ℕ) → SystemCall
  bind_call connect_call : (fd : ℕ) → SockaddrIn → SystemCall
  listen_call : (fd backlog : ℕ) → SystemCall

pub record System : Type 0 where
  pub answers : List (Option ℕ)
  pub calls : List SystemCall

-- One system call.
unfoldable pub ask : SystemCall → Cmd System (Option ℕ)
ask c s = answered s.answers
  where
    answered : List (Option ℕ) → Outcome System (Option ℕ)
    answered [] = starved
    answered (a ∷ rest) = ok a (record { answers = rest; calls = c ∷ s.calls })

-- A descriptor, or the code of a failure.
pub data Opened : Type 0 where
  opened : (fd : ℕ) → Opened
  failed : ErrorRetValue → Opened

abbrev pub or_fail : ErrorRetValue → (ℕ → Cmd System Opened) → Option ℕ → Cmd System Opened
or_fail code next none = pure (failed code)
or_fail code next (some n) = next n

unfoldable pub udp_server_initialize_socket : SockaddrIn → Cmd System Opened
udp_server_initialize_socket serv_addr =
    ask socket_dgram
    >>= or_fail fail_socket (λ fd.
      ask (setsockopt_reuseaddr fd)
      >>= or_fail fail_setsockopt
          (λ _. ask (bind_call fd serv_addr) >>= or_fail fail_bind (λ _. pure (opened fd))))

unfoldable pub tcp_server_initialize_socket : SockaddrIn → Cmd System Opened
tcp_server_initialize_socket serv_addr =
    ask socket_stream
    >>= or_fail fail_socket (λ fd.
      ask (setsockopt_reuseaddr fd)
      >>= or_fail fail_setsockopt (λ _.
        ask (bind_call fd serv_addr)
        >>= or_fail fail_bind (λ _.
          ask (listen_call fd max_connections) >>= or_fail fail_listen (λ _. pure (opened fd)))))

unfoldable pub client_initialize_socket : SockaddrIn → Cmd System Opened
client_initialize_socket cli_addr =
    ask socket_stream
    >>= or_fail fail_socket (λ fd.
      ask (setsockopt_reuseaddr fd)
      >>= or_fail fail_setsockopt
          (λ _. ask (connect_call fd cli_addr) >>= or_fail fail_connect (λ _. pure (opened fd))))

-- DIE()
abbrev pub die : {A : Type 0} → Cmd System A
die s = exited exit_failure s

abbrev pub or_die : {A : Type 0} → Option A → Cmd System A
or_die none = die
or_die (some a) = pure a

abbrev pub descriptor : Opened → Cmd System ℕ
descriptor (opened fd) = pure fd
descriptor (failed code) = die

-- htons() of 16 bits
abbrev pub htons : ℕ → ℕ
htons n = n % 256 * 256 + n / 256

abbrev pub server_ip_addr : Bytes
server_ip_addr = b'0' ∷ b'.' ∷ b'0' ∷ b'.' ∷ b'0' ∷ b'.' ∷ b'0' ∷ []

-- check_args() of server.c
unfoldable pub check_args : (argc : ℕ) → Bool
check_args argc = argc == 2

-- get_args() of server.c; a missing argument is read through NULL.
unfoldable pub get_args : List Bytes → Cmd System ℕ
get_args (_ ∷ port ∷ _) = or_die (scan_unsigned 16 port)
get_args _ = λ _. fault

module _ (inet_pton : Bytes → Option Bytes) where
  unfoldable pub server_initialize_sockaddr : (port : ℕ) → Cmd System SockaddrIn
  server_initialize_sockaddr port = do
    addr ← or_die (inet_pton server_ip_addr)
    pure (record { sin_port = htons port; sin_addr = addr })

  unfoldable pub client_initialize_sockaddr : (inet_ntoa : ℕ → Bytes) → Args → Cmd System SockaddrIn
  client_initialize_sockaddr inet_ntoa args = do
    addr ← or_die (inet_pton (inet_ntoa args.server_ip))
    pure (record { sin_port = htons args.server_port; sin_addr = addr })

  -- The start of the server's main(), behind the check of its arguments: the two descriptors.
  unfoldable pub open_server : List Bytes → Cmd System (ℕ × ℕ)
  open_server argv = do
    port ← get_args argv
    serv_addr ← server_initialize_sockaddr port
    udp ← udp_server_initialize_socket serv_addr
    udp_fd ← descriptor udp
    tcp ← tcp_server_initialize_socket serv_addr
    tcp_fd ← descriptor tcp
    pure (udp_fd, tcp_fd)

  -- The start of the client's main(), behind the reading of its arguments.
  unfoldable pub open_client : (inet_ntoa : ℕ → Bytes) → Args → Cmd System ℕ
  open_client inet_ntoa args = do
    cli_addr ← client_initialize_sockaddr inet_ntoa args
    o ← client_initialize_socket cli_addr
    descriptor o
