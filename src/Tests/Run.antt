-- ===== src/Tests/Run.antt =====
-- The run of the server in Network, computed.
use tcp_udp_client_server.Base.{◌≡◌, arith, List, [], refl, ℕ, Option, some, none, replicate}
use tcp_udp_client_server.Outcome.{Outcome, ok, exited, fault, starved, Yields, returns}
use tcp_udp_client_server.Server.Invariant.{IsSound}
use tcp_udp_client_server.Server.Invariant.Runs.{Served, ServedRounds, run_server-IsSound}
use tcp_udp_client_server.Server.{Server, Answers}
use tcp_udp_client_server.TcpServer.{tcp_server_create}
use tcp_udp_client_server.Tests.Network.{udp_server, empty_msg, quiet_net, news_rounds, no_answers}
use tcp_udp_client_server.Server.{
  get_user_command, server_compose_msg, on_poller, on_udp, on_tcp, server_print_connection_status,
  send_composed, receive_udp, receive_connection, after_update, treat_subscription, treat_message,
  receive_tcp, handle_event, events_loop, server_round, run_rounds, run_server,
}
use tcp_udp_client_server.Poller.{
  poller_create, entry_at, set_entry, write_revents, poller_poll, poller_add_fd, find_idx_loop,
  poller_find_fd_idx, shift_loop, drop_entry, poller_next_fd_with_pollin, poller_advance,
}
use tcp_udp_client_server.TcpServer.{
  on_clients, on_nodes, on_socket, tcp_server_create, tcp_server_accept_connection, copy_message,
  tcp_server_recv_all, find_client, client_at, tcp_server_is_new_connection,
  tcp_server_client_exists, tcp_server_update_client, sub_args_of, tcp_server_get_sub_args,
  tcp_server_subscribe, find_subscription, tcp_server_unsubscribe, next_subscription,
  subscribers_loop, tcp_server_send_to_subscribers,
}
use tcp_udp_client_server.Clients.{
  same_client, client_node_create, client_node_destroy, clients_list_add_client,
  clients_list_is_head, clients_list_remove_client, clients_list_find_by_id,
  clients_list_find_by_fd, clients_list_remove_client_by_fd, set_state_and_id,
  clients_list_update_client_by_fd,
}
use tcp_udp_client_server.Subscriptions.{
  same_subscription, subscription_node_create, subscription_node_destroy,
  subscriptions_add_subscription, subscriptions_list_is_head, subscriptions_remove_subscription,
  subscriptions_find, subscriptions_get_next,
}
use tcp_udp_client_server.DList.{write, load, set_prev, set_next, set_body, node_create, add, find}
use tcp_udp_client_server.Packets.{
  udp_bytes, udp_of, header_bytes, header_of, ctos_bytes, ctos_of, stoc_bytes, stoc_of, memcpy,
  fill,
}
use tcp_udp_client_server.UdpServer.{udp_server_recv}
use tcp_udp_client_server.CString.{
  str_eq, c_str, skip_spaces, word, after_word, scan_word, digits_value, scan_unsigned,
}

-- The descriptors watched and the subscriptions held, where the run came to its end.
abbrev ended_with : Outcome Server (Unit {0}) → Option (ℕ × ℕ)
ended_with (ok a s) = some (s.poller.num_pollfds, s.tcp_server.nodes.live)
ended_with (exited c s) = none
ended_with fault = none
ended_with starved = none

-- The client's descriptor is watched with the three of the server, and its subscription is held.
news_run_ends :
    ended_with (run_server udp_server (tcp_server_create 4 empty_msg quiet_net) (news_rounds []))
    ≡ some (4, 1)
unfolding get_user_command server_compose_msg on_poller on_udp on_tcp server_print_connection_status
    send_composed receive_udp receive_connection after_update treat_subscription treat_message
    receive_tcp handle_event events_loop server_round run_rounds run_server poller_create entry_at
    set_entry write_revents poller_poll poller_add_fd find_idx_loop poller_find_fd_idx shift_loop
    drop_entry poller_next_fd_with_pollin poller_advance on_clients on_nodes on_socket
    tcp_server_create tcp_server_accept_connection copy_message tcp_server_recv_all find_client
    client_at tcp_server_is_new_connection tcp_server_client_exists tcp_server_update_client
    sub_args_of tcp_server_get_sub_args tcp_server_subscribe find_subscription
    tcp_server_unsubscribe next_subscription subscribers_loop tcp_server_send_to_subscribers
    same_client client_node_create client_node_destroy clients_list_add_client clients_list_is_head
    clients_list_remove_client clients_list_find_by_id clients_list_find_by_fd
    clients_list_remove_client_by_fd set_state_and_id clients_list_update_client_by_fd
    same_subscription subscription_node_create subscription_node_destroy
    subscriptions_add_subscription subscriptions_list_is_head subscriptions_remove_subscription
    subscriptions_find subscriptions_get_next write load set_prev set_next set_body node_create add
    find udp_bytes udp_of header_bytes header_of ctos_bytes ctos_of stoc_bytes stoc_of memcpy fill
    udp_server_recv str_eq c_str skip_spaces word after_word scan_word digits_value scan_unsigned
news_run_ends = refl

news_served :
    (spare : List Answers)
    → Yields
        (λ _. ServedRounds (news_rounds spare))
        (run_server udp_server (tcp_server_create 4 empty_msg quiet_net) [])
unfolding get_user_command server_compose_msg on_poller on_udp on_tcp server_print_connection_status
    send_composed receive_udp receive_connection after_update treat_subscription treat_message
    receive_tcp handle_event events_loop server_round run_rounds run_server poller_create entry_at
    set_entry write_revents poller_poll poller_add_fd find_idx_loop poller_find_fd_idx shift_loop
    drop_entry poller_next_fd_with_pollin poller_advance on_clients on_nodes on_socket
    tcp_server_create tcp_server_accept_connection copy_message tcp_server_recv_all find_client
    client_at tcp_server_is_new_connection tcp_server_client_exists tcp_server_update_client
    sub_args_of tcp_server_get_sub_args tcp_server_subscribe find_subscription
    tcp_server_unsubscribe next_subscription subscribers_loop tcp_server_send_to_subscribers
    same_client client_node_create client_node_destroy clients_list_add_client clients_list_is_head
    clients_list_remove_client clients_list_find_by_id clients_list_find_by_fd
    clients_list_remove_client_by_fd set_state_and_id clients_list_update_client_by_fd
    same_subscription subscription_node_create subscription_node_destroy
    subscriptions_add_subscription subscriptions_list_is_head subscriptions_remove_subscription
    subscriptions_find subscriptions_get_next write load set_prev set_next set_body node_create add
    find udp_bytes udp_of header_bytes header_of ctos_bytes ctos_of stoc_bytes stoc_of memcpy fill
    udp_server_recv str_eq c_str skip_spaces word after_word scan_word digits_value scan_unsigned
    Served ServedRounds
news_served spare = returns (
  returns (
      returns (
        record { ne_null = omega arith; unused = refl },
        record { ne_null = omega arith; unused = refl },
        returns (returns (tt {0})),
      )),
  returns (
    returns (
        returns (
          record { ne_null = omega arith; unused = refl },
          record { ne_null = omega arith; unused = refl },
          returns (returns (tt {0})),
        )),
    returns (
      returns (
          returns (
            record { ne_null = omega arith; unused = refl },
            record { ne_null = omega arith; unused = refl },
            returns (returns (tt {0})),
          )),
      returns (
        returns (
            returns (
              record { ne_null = omega arith; unused = refl },
              record { ne_null = omega arith; unused = refl },
              returns (returns (tt {0})),
            )),
        returns (tt {0}),
      ),
    ),
  ),
)

run_server-IsSound_example :
    Yields
      (λ _. IsSound)
      (run_server udp_server (tcp_server_create 4 empty_msg quiet_net) (news_rounds []))
run_server-IsSound_example =
    run_server-IsSound udp_server 4 empty_msg quiet_net (news_rounds []) (news_served [])

abbrev many : List Answers
many = replicate 1000 no_answers

abbrev packet_byte : ℕ
packet_byte = 0
