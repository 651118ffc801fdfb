-- ===== src/Server/Broker.antt =====
-- What the server is to do, without its pointers: the specification of server.c as functions on plain lists.
-- A `Broker` is the descriptors that are watched, in the order of the poller, and a `Desk`: the clients, the
-- newest first, the subscriptions, the newest first, the last message and the lines that were printed.
-- `undefined` stands for undefined behaviour of the C code.
pub mod Represents
pub mod Subscribing
pub mod Serving
pub mod Leaving
pub mod HangingUp
pub mod Greeting
pub mod Hearing
pub mod Datagrams
pub mod Joining
pub mod Refinement
pub mod Loop
pub mod Moves
pub mod Turns
pub mod Runs
use tcp_udp_client_server.Base.{
  ℕ, Bool, true, false, not, ◌&&◌, Option, none, some, List, [], ◌∷◌, ◌++◌, ◌==◌, if◌then◌else◌,
  ltb, length, drop,
}
use tcp_udp_client_server.Clients.{
  Client, id_maxlen, client_state_new, client_state_connected, has_fd, has_id,
}
use tcp_udp_client_server.Clients.Refinement.{named}
use tcp_udp_client_server.CString.{Bytes, c_str, fits}
use tcp_udp_client_server.DList.Abstract.{first, erase_first, update_first, any, in_front, at_end}
use tcp_udp_client_server.Packets.{
  TcpHeader, TcpCtosMsg, memcpy, ctos_bytes, ctos_of, header_of, zeros, packet_maxlen, tcp_msg_new,
  tcp_msg_subscribe, tcp_msg_unsubscribe,
}
use tcp_udp_client_server.Poller.{max_connections}
use tcp_udp_client_server.Server.{
  ServerCommand, server_cmd_exit, server_cmd_undefined, Answers, get_user_command, stdin_fileno,
}
use tcp_udp_client_server.Sockets.{exit_failure}
use tcp_udp_client_server.Subscriptions.{Subscription, is_of, topic_len}
use tcp_udp_client_server.TcpServer.{
  Accepted, Notice, client_connected, client_disconnected, client_already_connected, SubscribeArgs,
  sub_args_of,
}
use tcp_udp_client_server.TcpServer.Accepting.{accepted_client}
use tcp_udp_client_server.UdpServer.{Datagram}

pub data Verdict (B : Type 0) : Type 0 where
  undefined : Verdict B
  exits : (code : ℕ) → Verdict B
  becomes : B → Verdict B

pub record Desk : Type 0 where
  pub members : List Client
  pub held : List Subscription
  pub last : TcpCtosMsg
  pub printed : List Notice

pub record Broker : Type 0 where
  pub watched : List ℕ
  pub desk : Desk

abbrev pub say : Notice → Desk → Desk
say line d = record d { printed = line ∷ d.printed }

-- Where a list of several loses its oldest element, the code follows a NULL pointer.
abbrev pub loses_oldest : {D : Type 0} → (D → Bool) → List D → Bool
loses_oldest test l = at_end test l && not (in_front test l)

-- The client on a descriptor leaves.
unfoldable pub leave : (fd : ℕ) → (watched : List ℕ) → Desk → Verdict Broker
leave fd watched d =
    if loses_oldest (has_fd fd) d.members
    then undefined
    else becomes (record {
      watched = erase_first (λ n. n == fd) watched;
      desk = record d { members = erase_first (has_fd fd) d.members };
    })

-- The first message of the new client `c`: of another type, too long an id, an id that is taken, a free one.
abbrev pub introduce : (fd : ℕ) → Client → (id : Bytes) → (watched : List ℕ) → Desk → Verdict Broker
introduce fd c id watched d =
    if fits id_maxlen id
    then (if any (has_id id) d.members
        then leave fd watched (say (client_already_connected id) d)
        else becomes (record {
          watched = watched;
          desk = say (client_connected (named client_state_connected id c)) (record d {
            members = update_first (has_fd fd) (named client_state_connected id) d.members;
          });
        }))
    else undefined

unfoldable pub greet : (fd : ℕ) → Client → (watched : List ℕ) → Desk → Verdict Broker
greet fd c watched d =
    if d.last.msg_type == tcp_msg_new
    then elim (c_str d.last.payload) [ none ↦ undefined | some id ↦ introduce fd c id watched d ]
    else becomes (record { watched = watched; desk = say (client_connected c) d })

-- A subscription of the client `c`.
abbrev pub enlist : Client → Option SubscribeArgs → Desk → Verdict Desk
enlist c none d = undefined
enlist c (some args) d =
    if fits topic_len args.topic && fits id_maxlen c.id
    then becomes (record d {
      held =
          record {
            topic = args.topic;
            subscriber_id = c.id;
            store_and_forward = args.store_and_forward;
          }
          ∷ d.held;
    })
    else undefined

unfoldable pub subscribe : (junk : ℕ) → Client → Desk → Verdict Desk
subscribe junk c d = elim (c_str d.last.payload) [
  | none ↦ undefined
  | some text ↦ enlist c (sub_args_of junk text) d
]

-- The end of one.
abbrev pub delist : Client → (topic : Bytes) → Desk → Verdict Desk
delist c topic d =
    if loses_oldest (is_of topic c.id) d.held
    then undefined
    else becomes (record d { held = erase_first (is_of topic c.id) d.held })

-- Without subscriptions the message is not read.
unfoldable pub unsubscribe : Client → Desk → Verdict Desk
unsubscribe c d = elim d.held [
  | [] ↦ becomes d
  | _ ∷ _ ↦ elim (c_str d.last.payload) [ none ↦ undefined | some topic ↦ delist c topic d ]
]

abbrev pub serve : (junk : ℕ) → Client → Desk → Verdict Desk
serve junk c d =
    if d.last.msg_type == tcp_msg_subscribe
    then subscribe junk c d
    else if d.last.msg_type == tcp_msg_unsubscribe
    then unsubscribe c d
    else becomes d

abbrev pub with_desk : (watched : List ℕ) → Verdict Desk → Verdict Broker
with_desk watched undefined = undefined
with_desk watched (exits code) = exits code
with_desk watched (becomes d) = becomes (record { watched = watched; desk = d })

-- A message on a descriptor, which is `last` already.
unfoldable pub hear : (junk : ℕ) → (fd : ℕ) → Broker → Verdict Broker
hear junk fd b = elim (first (has_fd fd) b.desk.members) [
  | none ↦ becomes b
  | some c ↦
      if c.state == client_state_new
      then greet fd c b.watched b.desk
      else with_desk b.watched (serve junk c b.desk)
]

-- The end of a connection.
unfoldable pub hang_up : (fd : ℕ) → Broker → Verdict Broker
hang_up fd b = elim (first (has_fd fd) b.desk.members) [
  | none ↦ undefined
  | some c ↦ leave fd b.watched (say (client_disconnected c) b.desk)
]

-- What the bytes of a packet leave in the last message.
abbrev pub packet_header : (c : ℕ) → Bytes → TcpHeader
packet_header c bytes = header_of ((c ∷ bytes) ++ drop (length (c ∷ bytes)) (zeros packet_maxlen))

abbrev pub take_message : TcpHeader → Desk → Option Desk
take_message h d = elim (memcpy (ctos_bytes d.last) h.msg h.msg_len) [
  | none ↦ none
  | some b ↦ some (record d { last = ctos_of b })
]

unfoldable pub client_event : Answers → (fd : ℕ) → Option Bytes → Broker → Verdict Broker
client_event a fd none b = exits exit_failure
client_event a fd (some []) b = hang_up fd b
client_event a fd (some (c ∷ bytes)) b = elim (take_message (packet_header c bytes) b.desk) [
  | none ↦ undefined
  | some d ↦ hear a.junk_flag fd (record b { desk = d })
]

-- A connection, for which the poller must have room.
unfoldable pub connection_event : Option Accepted → Broker → Verdict Broker
connection_event none b = exits exit_failure
connection_event (some c) b =
    if ltb (length b.watched) max_connections
    then becomes (record {
      watched = b.watched ++ c.cli_fd ∷ [];
      desk = record b.desk { members = accepted_client c ∷ b.desk.members };
    })
    else undefined

-- A datagram goes to nobody, and `rc` decides whether the server ends.
unfoldable pub datagram_event : Option Datagram → (rc : Option ℕ) → Broker → Verdict Broker
datagram_event none rc b = exits exit_failure
datagram_event (some d) none b = exits exit_failure
datagram_event (some d) (some n) b = becomes b

unfoldable pub input_event : Option ServerCommand → Broker → Verdict Broker
input_event none b = undefined
input_event (some server_cmd_exit) b = exits 0
input_event (some server_cmd_undefined) b = becomes b

-- An event on a descriptor.
unfoldable pub event : (udp_fd tcp_fd : ℕ) → Answers → (fd : ℕ) → Broker → Verdict Broker
event udp_fd tcp_fd a fd b =
    if fd == stdin_fileno
    then input_event (get_user_command a.input) b
    else if fd == udp_fd
    then datagram_event a.datagram a.junk_rc b
    else if fd == tcp_fd
    then connection_event a.accepted b
    else client_event a fd a.bytes b
