-- ===== src/Server/Broker/Joining.antt =====
-- server.c: a new connection does to the broker what the specification says.
use tcp_udp_client_server.Base.{
  ◌≡◌, refl, sym, ap, subst, ℕ, Option, none, some, List, [], ◌∷◌, ◌++◌, if◌then◌else◌, arith,
  length, ltb, ltb→lt,
}
use tcp_udp_client_server.Clients.{Clients}
use tcp_udp_client_server.Clients.Ids.{nameless-AreDistinct}
use tcp_udp_client_server.DList.{Ptr}
use tcp_udp_client_server.DList.Insert.{IsFresh, Inserted}
use tcp_udp_client_server.DList.Shape.{IsList, bodies}
use tcp_udp_client_server.Outcome.{Cmd, ◌>>◌, Outcome, then_run, Ends, ends}
use tcp_udp_client_server.Poller.{Poller, max_connections, poller_add_fd, poller_advance}
use tcp_udp_client_server.Poller.Slots.{IsValid}
use tcp_udp_client_server.Poller.Watch.{add_fd-full}
use tcp_udp_client_server.Poller.Watched.{watched, length-watched, add_fd-watched}
use tcp_udp_client_server.Server.{
  die, Server, Answers, keep_tcp, keep_poller, on_tcp, on_poller, receive_connection,
}
use tcp_udp_client_server.Server.Broker.{Verdict, undefined, becomes, Broker, connection_event}
use tcp_udp_client_server.Server.Broker.Represents.{
  broker_of, desk_of, Represents, Refines, Refines-where,
}
use tcp_udp_client_server.Server.Invariant.{IsSound}
use tcp_udp_client_server.TcpServer.{TcpServer, Accepted, tcp_server_accept_connection}
use tcp_udp_client_server.TcpServer.Accepting.{
  accepted_client, with_clients, accept_connection-IsList,
}
use tcp_udp_client_server.TcpServer.Invariant.{with_members}

module _ (s : Server) (i : IsSound s) where
  abbrev t : TcpServer
  t = s.tcp_server

  abbrev Does : Verdict Broker → Outcome Server (Unit {0}) → Type 0
  Does = Refines (Represents s.udp_server.fd s.tcp_server.fd)

  module _ (c : Accepted) (fresh : Ptr) where
    abbrev joined : Broker
    joined = record {
      watched = watched s.poller ++ c.cli_fd ∷ [];
      desk = record (desk_of t i.tcp_server) {
        members = accepted_client c ∷ bodies i.tcp_server.members;
      };
    }

    abbrev with_client : Clients → Ptr → Server
    with_client h head = record s {
      tcp_server = record t { clients = h; connected_clients = head };
    }

    added :
        (h : Clients) (head : Ptr)
        → IsList h head ((fresh, accepted_client c) ∷ i.tcp_server.members)
        → (r : Outcome Poller (Unit {0}))
        → Ends (λ _ q. IsValid q × (watched q ≡ watched s.poller ++ c.cli_fd ∷ [])) r
        → Ends
            (λ _. Represents s.udp_server.fd t.fd joined)
            (then_run (keep_poller (with_client h head) r) (λ _. on_poller poller_advance))
    unfolding on_poller poller_advance
    added h head is r (ends {s = q} (v, more)) = ends (record {
      sound = record {
        poller = record { whole = v.whole; room = v.room };
        tcp_server =
            with_members t h head ((fresh, accepted_client c) ∷ i.tcp_server.members) i.tcp_server
              is
              (nameless-AreDistinct fresh (accepted_client c) i.tcp_server.members refl
                i.tcp_server.distinct);
      };
      udp = refl;
      tcp = refl;
      same = ap (λ (l : List ℕ). record joined { watched = l }) more;
    })

    accepted_one :
        (r : Outcome TcpServer (Option ℕ))
        → Ends
            (λ o u.
              (o ≡ some c.cli_fd)
              × Inserted t.clients fresh
                  (accepted_client c)
                  i.tcp_server.members
                  u.connected_clients
                  u.clients
              × (u ≡ with_clients t u.clients u.connected_clients))
            r
        → Does
            (if ltb (length (watched s.poller)) max_connections then becomes joined else undefined)
            (then_run (keep_tcp s r) (λ o. elim o as (λ _. Cmd Server (Unit {0})) [
              | none ↦ die
              | some fd ↦ (on_poller (poller_add_fd fd) >> on_poller poller_advance)
            ]))
    unfolding on_poller
    accepted_one r (ends {s = u} (o, (at, is, same), q)) = rw o (
        subst
          (λ (k : TcpServer).
            Does
              (if ltb (length (watched s.poller)) max_connections
                then becomes joined
                else undefined)
              ((on_poller (poller_add_fd c.cli_fd) >> on_poller poller_advance)
                (record s { tcp_server = k })))
          (sym q)
          (Refines-where _ (ltb (length (watched s.poller)) max_connections) _ _
            (λ room. added u.clients u.connected_clients is _ (
              add_fd-watched c.cli_fd s.poller i.poller
                (omega (arith, ltb→lt _ _ room, length-watched s.poller i.poller))))
            λ full.
              rw
                (add_fd-full c.cli_fd s.poller i.poller
                  (ground (arith, length-watched s.poller i.poller, i.poller.room)))
                refl))

  pub connection_event-Refines :
      (a : Answers) (o : Option Accepted)
      → a.accepted ≡ o
      → IsFresh t.clients a.fresh
      → Does (connection_event o (broker_of s i)) (receive_connection a s)
  unfolding connection_event receive_connection on_tcp tcp_server_accept_connection
  connection_event-Refines a none e new = rw e (s, refl)
  connection_event-Refines a (some c) e new = rw e (
      accepted_one c a.fresh _ (accept_connection-IsList t c a.fresh i.tcp_server.members_list new))
