-- ===== src/Tests/Subscribing.antt =====
-- A client that subscribes to a topic and ends its subscription, and the server that it is connected to.
use tcp_udp_client_server.Base.{
  ◌≡◌, refl, ap, ℕ, inl, false, Option, none, some, List, [], ◌∷◌, ◌==◌, if◌then◌else◌, arith,
  length, length-replicate,
}
use tcp_udp_client_server.Clients.Ids.{single-AreDistinct}
use tcp_udp_client_server.CString.{str_eq}
use tcp_udp_client_server.DList.{Ptr, null, Store, Node, node}
use tcp_udp_client_server.DList.Search.{find_first, first_body}
use tcp_udp_client_server.DList.Shape.{IsList, cons, nil, has}
use tcp_udp_client_server.DList.Unlink.{erase}
use tcp_udp_client_server.Exchange.Subscribing.{
  subscribe_sent, unsubscribe_sent, typed_args, CanSend, Serves, subscribe_line-held,
  unsubscribe_line-held,
}
use tcp_udp_client_server.Outcome.{Ends}
use tcp_udp_client_server.Packets.{ctos_maxlen, tcp_msg_subscribe, tcp_msg_unsubscribe}
use tcp_udp_client_server.Poller.{poller_create}
use tcp_udp_client_server.Server.{Server, Answers, handle_event}
use tcp_udp_client_server.Server.Turns.{TcpOnly}
use tcp_udp_client_server.Subscriptions.{Subscription, is_of}
use tcp_udp_client_server.TcpClient.Input.Parsing.{subscribe_line, unsubscribe_line, newline}
use tcp_udp_client_server.TcpClient.Run.{
  subscribed_line, unsubscribed_line, handle_event as client_event, stdin_fileno,
}
use tcp_udp_client_server.TcpClient.Run.Turns.{Told}
use tcp_udp_client_server.TcpServer.Arguments.{flag, command_text}
use tcp_udp_client_server.TcpServer.Invariant.{IsWellFormed}
use tcp_udp_client_server.TcpServer.Receive.{receives}
use tcp_udp_client_server.TcpServer.Subscribing.{HasSubscriptions}
use tcp_udp_client_server.Tests.Client.{typing, sports, sports-IsWord, steady-Moves}
use tcp_udp_client_server.Tests.Lists.{ann}
use tcp_udp_client_server.Tests.Network.{empty_msg, quiet_net, udp_server, no_answers}

-- One node, at the address 2.
module _ {D : Type 0} (d : D) where
  abbrev single_cell : Ptr → Option (Node D)
  single_cell a = if a == 2 then some (node d null null) else none

  abbrev single : Store D
  single = record { cell = single_cell; live = 1; closed = [] }

  single_only : (a : Ptr) → has a ((2, d) ∷ []) ≡ false → single_cell a ≡ none
  single_only a h = ground arith

  abbrev single-IsList : IsList single 2 ((2, d) ∷ [])
  single-IsList = record {
    pre = null;
    chain = cons (record { ne_null = omega arith; holds = refl }) refl (nil refl);
    count = refl;
    only = single_only;
  }

abbrev ann_sports : Subscription
ann_sports = record { topic = sports; subscriber_id = ann.id; store_and_forward = 0 }

abbrev serving : Server
serving = record {
  poller = poller_create;
  udp_server = udp_server;
  tcp_server = record {
    fd = 4;
    recv_msg = empty_msg;
    connected_clients = 2;
    clients = single ann;
    subscriptions = record { head = 2; current = null };
    nodes = single ann_sports;
    net = quiet_net;
    printed = [];
    closed = false;
  };
}

abbrev serving-IsWellFormed : IsWellFormed serving.tcp_server
serving-IsWellFormed = record {
  members = (2, ann) ∷ [];
  members_list = single-IsList ann;
  distinct = single-AreDistinct 2 ann;
  held = (2, ann_sports) ∷ [];
  held_list = single-IsList ann_sports;
  cursor = refl;
}

serving_room : length serving.tcp_server.recv_msg.payload ≡ ctos_maxlen
serving_room = omega (arith, length-replicate {A = ℕ} ctos_maxlen 0)

ann_known : first_body (λ c. c.fd == 5) serving-IsWellFormed.members ≡ some ann
unfolding first_body
ann_known = refl

abbrev serving_ann : Serves serving 5 ann
serving_ann = record {
  well = serving-IsWellFormed;
  known = ann_known;
  old = omega arith;
  short = omega arith;
  not_input = omega arith;
  not_udp = omega arith;
  not_tcp = omega arith;
  room = serving_room;
}

abbrev subscribe_answers : Answers
subscribe_answers = record no_answers { fresh = 3; bytes = some (subscribe_sent sports b'1') }

abbrev unsubscribe_answers : Answers
unsubscribe_answers = record no_answers { bytes = some (unsubscribe_sent sports) }

typing-CanSend : (l : List ℕ) → CanSend (typing l)
typing-CanSend l = record {
  moves = steady-Moves 1620;
  room = omega (arith, length-replicate {A = Option ℕ} 1620 (some 9));
}

subscribe_line-held_example :
    Ends
      (λ _.
        Told
          (typing (subscribe_line sports b'1' []))
          (newline ∷ [])
          (subscribe_sent sports b'1')
          subscribed_line)
      (client_event stdin_fileno (typing (subscribe_line sports b'1' [])))
    × Ends
        (λ _. TcpOnly serving (
          HasSubscriptions
            (receives tcp_msg_subscribe (command_text (typed_args sports b'1')) serving.tcp_server)
            ((3, record { topic = sports; subscriber_id = ann.id; store_and_forward = flag 1 })
              ∷ (2, ann_sports)
              ∷ [])))
        (handle_event subscribe_answers 5 serving)
subscribe_line-held_example =
    subscribe_line-held (typing (subscribe_line sports b'1' [])) sports b'1' [] serving 5 ann
      subscribe_answers (typing-CanSend (subscribe_line sports b'1' [])) refl
      (λ e. absurd (omega (arith, ap length e))) sports-IsWord (omega arith) refl serving_ann refl
      (record { ne_null = omega arith; unused = refl })

ann_held : first_body (is_of sports ann.id) serving-IsWellFormed.held ≡ some ann_sports
unfolding first_body str_eq
ann_held = refl

ann_at_head :
    serving.tcp_server.subscriptions.head
    ≡ find_first (is_of sports ann.id) serving-IsWellFormed.held
unfolding find_first str_eq
ann_at_head = refl

unsubscribe_line-held_example :
    Ends
      (λ _.
        Told
          (typing (unsubscribe_line sports []))
          (newline ∷ [])
          (unsubscribe_sent sports)
          unsubscribed_line)
      (client_event stdin_fileno (typing (unsubscribe_line sports [])))
    × Ends
        (λ _. TcpOnly serving (
          HasSubscriptions (receives tcp_msg_unsubscribe sports serving.tcp_server) (
            erase
              (find_first (is_of sports ann.id) serving-IsWellFormed.held)
              serving-IsWellFormed.held)))
        (handle_event unsubscribe_answers 5 serving)
unsubscribe_line-held_example =
    unsubscribe_line-held (typing (unsubscribe_line sports [])) sports [] serving 5 ann
      unsubscribe_answers ann_sports (typing-CanSend (unsubscribe_line sports [])) refl
      (λ e. absurd (omega (arith, ap length e))) sports-IsWord (omega arith) serving_ann refl
      ann_held (inl ann_at_head)
