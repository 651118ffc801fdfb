-- ===== src/Server/Broker/Hearing.antt =====
-- server.c: a message of a client does to the broker what the specification says.
use tcp_udp_client_server.Base.{
  ◌≡◌, refl, sym, ℕ, Bool, true, false, Option, none, some, [], ◌∷◌, ◌==◌, if◌then◌else◌,
}
use tcp_udp_client_server.Clients.{Client, client_state_new, has_fd}
use tcp_udp_client_server.CString.{Bytes}
use tcp_udp_client_server.DList.Abstract.{first-bodies}
use tcp_udp_client_server.DList.Insert.{IsFresh}
use tcp_udp_client_server.DList.Search.{first_body}
use tcp_udp_client_server.DList.View.{find_first-null}
use tcp_udp_client_server.Outcome.{Outcome, ok, then_run, ends}
use tcp_udp_client_server.Packets.{
  TcpHeader, memcpy, ctos_bytes, ctos_of, tcp_msg_subscribe, tcp_msg_unsubscribe,
}
use tcp_udp_client_server.Server.{
  Server, Answers, on_tcp, treat_subscription, treat_message, after_receive, receive_tcp,
}
use tcp_udp_client_server.Server.Broker.{
  Verdict, undefined, becomes, Desk, Broker, greet, serve, with_desk, hear, packet_header,
  client_event,
}
use tcp_udp_client_server.Server.Broker.Greeting.{greet-Refines}
use tcp_udp_client_server.Server.Broker.HangingUp.{hang_up-Refines}
use tcp_udp_client_server.Server.Broker.Represents.{
  broker_of, desk_of, Represents, Refines, on_tcp-Refines,
}
use tcp_udp_client_server.Server.Broker.Serving.{serve-Refines}
use tcp_udp_client_server.Poller.Watched.{watched}
use tcp_udp_client_server.Server.Invariant.{IsSound}
use tcp_udp_client_server.TcpServer.{
  TcpServer, tcp_server_recv_all, copy_message, tcp_server_is_new_connection, tcp_server_subscribe,
  tcp_server_unsubscribe,
}
use tcp_udp_client_server.TcpServer.Invariant.{IsWellFormed, with_message, find_client-ok}
use tcp_udp_client_server.TcpServer.Subscribing.{is_new_connection-ok}

-- A descriptor without a client.
module _ (t : TcpServer) (w : IsWellFormed t) (fd : ℕ)
    (f : first_body (has_fd fd) w.members ≡ none) where
  is_new_connection-absent : tcp_server_is_new_connection fd t ≡ ok false t
  unfolding tcp_server_is_new_connection
  is_new_connection-absent =
      rw (find_client-ok t w fd, then_run, find_first-null (has_fd fd) w.members f) refl

  subscribe-absent : (a : Answers) → tcp_server_subscribe fd a.fresh a.junk_flag t ≡ ok tt t
  unfolding tcp_server_subscribe
  subscribe-absent a =
      rw (find_client-ok t w fd, then_run, find_first-null (has_fd fd) w.members f) refl

  unsubscribe-absent : tcp_server_unsubscribe fd t ≡ ok tt t
  unfolding tcp_server_unsubscribe
  unsubscribe-absent =
      rw (find_client-ok t w fd, then_run, find_first-null (has_fd fd) w.members f) refl

  either :
      (b c : Bool) (r q : Outcome TcpServer (Unit {0}))
      → r ≡ ok tt t
      → q ≡ ok tt t
      → (if b then r else if c then q else ok tt t) ≡ ok tt t
  either true c r q e g = e
  either false true r q e g = g
  either false false r q e g = refl

  treat-absent : (a : Answers) → treat_subscription a fd t ≡ ok tt t
  unfolding treat_subscription
  treat-absent a =
      either (t.recv_msg.msg_type == tcp_msg_subscribe) (t.recv_msg.msg_type == tcp_msg_unsubscribe)
        _ _ (subscribe-absent a) unsubscribe-absent

module _ (a : Answers) (fd : ℕ) where
  module _ (s : Server) (i : IsSound s) (new : IsFresh s.tcp_server.nodes a.fresh) where
    abbrev t : TcpServer
    t = s.tcp_server

    abbrev w : IsWellFormed t
    w = i.tcp_server

    abbrev Does : Verdict Broker → Outcome Server (Unit {0}) → Type 0
    Does = Refines (Represents s.udp_server.fd s.tcp_server.fd)

    known_state :
        (c : Client)
        → first_body (has_fd fd) w.members ≡ some c
        → (b : Bool) → (c.state == client_state_new) ≡ b
        → Does
            (if b
              then greet fd c (watched s.poller) (desk_of t w)
              else with_desk (watched s.poller) (serve a.junk_flag c (desk_of t w)))
            (treat_message a fd s)
    unfolding treat_message on_tcp
    known_state c f true e = rw (is_new_connection-ok t w fd c f, e) (greet-Refines s i fd c f)
    known_state c f false e =
        rw (is_new_connection-ok t w fd c f, e)
          (on_tcp-Refines s i _ (treat_subscription a fd) (serve-Refines t w fd c f a new))

    hear_of :
        (o : Option Client)
        → first_body (has_fd fd) w.members ≡ o
        → Does
            (elim o as (λ _. Verdict Broker) [
              | none ↦ becomes (broker_of s i)
              | some c ↦
                  if c.state == client_state_new
                  then greet fd c (watched s.poller) (desk_of t w)
                  else with_desk (watched s.poller) (serve a.junk_flag c (desk_of t w))
            ])
            (treat_message a fd s)
    unfolding treat_message on_tcp
    hear_of none f =
        rw (is_new_connection-absent t w fd f, treat-absent t w fd f a)
          (ends (record { sound = i; udp = refl; tcp = refl; same = refl }))
    hear_of (some c) f = known_state c f _ refl

    hear-Refines : Does (hear a.junk_flag fd (broker_of s i)) (treat_message a fd s)
    unfolding hear
    hear-Refines = hear_of _ (sym (first-bodies (has_fd fd) w.members))

  -- The bytes of a packet, which leave a message, or overrun it.
  module _ (s : Server) (i : IsSound s) (new : IsFresh s.tcp_server.nodes a.fresh) where
    copied :
        (h : TcpHeader) (o : Option Bytes)
        → memcpy (ctos_bytes s.tcp_server.recv_msg) h.msg h.msg_len ≡ o
        → Refines
            (Represents s.udp_server.fd s.tcp_server.fd)
            (elim (elim o as (λ _. Option Desk) [
              | none ↦ none
              | some b ↦ some (record (desk_of s.tcp_server i.tcp_server) { last = ctos_of b })
            ])
              as (λ _. Verdict Broker) [
                | none ↦ undefined
                | some d ↦ hear a.junk_flag fd (record { watched = watched s.poller; desk = d })
              ])
            (then_run (on_tcp (copy_message h) s) (after_receive a fd))
    unfolding on_tcp copy_message after_receive
    copied h none e = rw (copy_message, e) refl
    copied h (some b) e =
        rw (copy_message, e)
          (hear-Refines (record s { tcp_server = record s.tcp_server { recv_msg = ctos_of b } })
            (record {
              poller = i.poller;
              tcp_server = with_message s.tcp_server (ctos_of b) i.tcp_server;
            })
            new)

    received :
        (bytes : Option Bytes)
        → Refines
            (Represents s.udp_server.fd s.tcp_server.fd)
            (client_event a fd bytes (broker_of s i))
            (then_run (on_tcp (tcp_server_recv_all bytes) s) (after_receive a fd))
    unfolding client_event on_tcp tcp_server_recv_all after_receive
    received none = (s, refl)
    received (some []) = hang_up-Refines s i fd
    received (some (c ∷ bytes)) = copied (packet_header c bytes) _ refl

    pub client_event-Refines :
        Refines
          (Represents s.udp_server.fd s.tcp_server.fd)
          (client_event a fd a.bytes (broker_of s i))
          (receive_tcp a fd s)
    unfolding receive_tcp
    client_event-Refines = received a.bytes
