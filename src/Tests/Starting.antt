-- ===== src/Tests/Starting.antt =====
-- The set-up of the server: a run that succeeds, and one in which bind() fails.
use tcp_udp_client_server.Base.{◌≡◌, none, some, [], ◌∷◌}
use tcp_udp_client_server.CString.{Bytes}
use tcp_udp_client_server.Outcome.{Ends}
use tcp_udp_client_server.Startup.{
  SockaddrIn, setsockopt_reuseaddr, bind_call, socket_stream, fail_bind, failed, htons,
  tcp_server_initialize_socket,
}
use tcp_udp_client_server.Startup.Opening.{result, made, tcp_server_initialize_socket-result}

abbrev any_address : Bytes
any_address = 0 ∷ 0 ∷ 0 ∷ 0 ∷ []

abbrev server_address : SockaddrIn
server_address = record { sin_port = htons 8080; sin_addr = any_address }

tcp_server_initialize_socket-result_example :
    Ends
      (λ o s.
        (o ≡ failed fail_bind)
        × (s.calls ≡ bind_call 4 server_address ∷ setsockopt_reuseaddr 4 ∷ socket_stream ∷ [])
        × (s.answers ≡ some 0 ∷ []))
      (tcp_server_initialize_socket server_address
        (record { answers = some 4 ∷ some 0 ∷ none ∷ some 0 ∷ []; calls = [] }))
unfolding result made
tcp_server_initialize_socket-result_example =
    tcp_server_initialize_socket-result server_address (some 4) (some 0) none (some 0) [] []
