-- ===== src/Startup/Opening.antt =====
-- The order of the system calls of the set-up, and what a failure of one of them gives.
use tcp_udp_client_server.Base.{
  ℕ, suc, ◌-◌, ◌≡◌, refl, Option, none, some, List, [], ◌∷◌, ◌++◌, drop,
}
use tcp_udp_client_server.Outcome.{Ends, ends}
use tcp_udp_client_server.Poller.{max_connections}
use tcp_udp_client_server.Startup.{
  ErrorRetValue, fail_socket, fail_setsockopt, fail_bind, fail_listen, SockaddrIn, SystemCall,
  socket_stream, setsockopt_reuseaddr, bind_call, listen_call, ask, Opened, opened, failed,
  tcp_server_initialize_socket,
}

-- The answers of a series of calls, each with the code of its failure.
abbrev pub Series : Type 0
Series = List (Option ℕ × ErrorRetValue)

-- The code of the first failure, or the descriptor.
unfoldable pub result : (fd : ℕ) → Series → Opened
result fd [] = opened fd
result fd ((none, code) ∷ rest) = failed code
result fd ((some n, code) ∷ rest) = result fd rest

-- The calls up to the first failure.
unfoldable pub made : Series → ℕ
made [] = 0
made ((none, code) ∷ rest) = 1
made ((some n, code) ∷ rest) = suc (made rest)

abbrev pub tcp_series : (a b c d : Option ℕ) → Series
tcp_series a b c d =
    (a, fail_socket) ∷ (b, fail_setsockopt) ∷ (c, fail_bind) ∷ (d, fail_listen) ∷ []

-- Its calls, last first.
abbrev pub tcp_calls : (fd : ℕ) → SockaddrIn → List SystemCall
tcp_calls fd addr =
    listen_call fd max_connections
    ∷ bind_call fd addr
    ∷ setsockopt_reuseaddr fd
    ∷ socket_stream
    ∷ []

abbrev pub descriptor_of : Option ℕ → ℕ
descriptor_of none = 0
descriptor_of (some n) = n

-- Whatever the four system calls answer: TCP_server_initialize_socket() returns the descriptor of the socket if none
-- fails, and else the code of the first that fails; it makes the calls up to that one, in the order socket(),
-- setsockopt(), bind() to the address, listen() with room for 1000, and no other.
pub tcp_server_initialize_socket-result :
    (addr : SockaddrIn) (a b c d : Option ℕ) (rest : List (Option ℕ)) (before : List SystemCall)
    → Ends
        (λ o s.
          (o ≡ result (descriptor_of a) (tcp_series a b c d))
          × (s.calls
              ≡ drop (4 - made (tcp_series a b c d)) (tcp_calls (descriptor_of a) addr) ++ before)
          × (s.answers ≡ drop (made (tcp_series a b c d)) (a ∷ b ∷ c ∷ d ∷ rest)))
        (tcp_server_initialize_socket addr
          (record { answers = a ∷ b ∷ c ∷ d ∷ rest; calls = before }))
unfolding tcp_server_initialize_socket ask result made
tcp_server_initialize_socket-result addr none b c d rest before = ends (refl, refl, refl)
tcp_server_initialize_socket-result addr (some n) none c d rest before = ends (refl, refl, refl)
tcp_server_initialize_socket-result addr (some n) (some m) none d rest before =
    ends (refl, refl, refl)
tcp_server_initialize_socket-result addr (some n) (some m) (some k) none rest before =
    ends (refl, refl, refl)
tcp_server_initialize_socket-result addr (some n) (some m) (some k) (some j) rest before =
    ends (refl, refl, refl)
