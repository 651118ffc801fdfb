-- ===== src/Server/Invariant/Runs.antt =====
-- server.c: the loop of run_server() keeps the server sound.
use tcp_udp_client_server.Base.{sym, subst, ℕ, Option, none, some, List, [], ◌∷◌}
use tcp_udp_client_server.DList.Insert.{IsFresh}
use tcp_udp_client_server.Outcome.{
  Cmd, pure, ◌>>◌, Ends-mono, Yields, returns, exits, starves, Yields-bind, Yields-and,
  Yields-beside, returned, Ends-Yields,
}
use tcp_udp_client_server.Packets.{TcpCtosMsg}
use tcp_udp_client_server.Poller.{
  Poller, poller_create, poller_poll, poller_add_fd, poller_next_fd_with_pollin,
}
use tcp_udp_client_server.Poller.Next.{Answer, next-Answer}
use tcp_udp_client_server.Poller.Slots.{IsValid, poller_create-IsValid, poller_poll-IsValid}
use tcp_udp_client_server.Server.{
  Server, Answers, Round, on_poller, die, stdin_fileno, handle_event, events_loop, server_round,
  run_rounds, run_server,
}
use tcp_udp_client_server.Server.Invariant.{IsSound, on_poller-IsSound, add_fd-IsValid}
use tcp_udp_client_server.Server.Invariant.Events.{handle_event-IsSound}
use tcp_udp_client_server.Sockets.{Socket}
use tcp_udp_client_server.TcpServer.{tcp_server_create}
use tcp_udp_client_server.TcpServer.Invariant.{created-IsWellFormed}
use tcp_udp_client_server.UdpServer.{UdpServer}

-- An event for which malloc() gives an address that neither list uses, and what holds after it.
abbrev pub ServedAt : Answers → (Server → Type 0) → Option ℕ → Server → Type 0
ServedAt a later none s = Unit {0}
ServedAt a later (some fd) s =
    IsFresh s.tcp_server.clients a.fresh
    × IsFresh s.tcp_server.nodes a.fresh
    × Yields (λ _. later) (handle_event a fd s)

-- The same at every event of the inner loop.
unfoldable pub Served : List Answers → Server → Type 0
Served [] s = Unit {0}
Served (a ∷ rest) s = Yields (ServedAt a (Served rest)) (on_poller poller_next_fd_with_pollin s)

-- The same in every round, after poll() has answered.
unfoldable pub ServedRounds : List Round → Server → Type 0
ServedRounds [] s = Unit {0}
ServedRounds (r ∷ rest) s =
    Yields (λ _. Served r.turns) (on_poller (poller_poll r.revents) s)
    × Yields (λ _. ServedRounds rest) (server_round r s)

next-IsValid : (p : Poller) → IsValid p → Yields (λ _. IsValid) (poller_next_fd_with_pollin p)
next-IsValid p v = Ends-Yields (Ends-mono (next-Answer p v) answered)
  where
    answered : (o : Option ℕ) (q : Poller) → Answer p o q → IsValid q
    answered none q (quiet, same, m) =
        subst IsValid (sym same) (record { whole = v.whole; room = v.room })
    answered (some fd) q ev =
        subst IsValid (sym ev.after) (record { whole = v.whole; room = v.room })

poll-IsValid :
    (answer : Option (List ℕ)) (p : Poller)
    → IsValid p
    → Yields (λ _. IsValid) (poller_poll answer p)
poll-IsValid answer p v =
    Ends-Yields (Ends-mono (poller_poll-IsValid answer p v) λ _ q (v', i, n). v')

turn-IsSound :
    (a : Answers) (rest : List Answers) (loop : Cmd Server (Unit {0}))
    → ((s : Server) → IsSound s → Served rest s → Yields (λ _. IsSound) (loop s))
    → (o : Option ℕ) (s : Server) → IsSound s
    → ServedAt a (Served rest) o s
    → Yields
        (λ _. IsSound)
        ((elim o as (λ _. Cmd Server (Unit {0})) [
          | none ↦ pure tt
          | some fd ↦ (handle_event a fd >> loop)
        ])
          s)
turn-IsSound a rest loop keeps none s i served = returns i
turn-IsSound a rest loop keeps (some fd) s i (new, new', later) =
    Yields-bind (Yields-and (handle_event-IsSound a fd s i new new') later)
      λ _ t (j, served). keeps t j served

events_loop-IsSound :
    (turns : List Answers) (s : Server)
    → IsSound s
    → Served turns s
    → Yields (λ _. IsSound) (events_loop turns s)
unfolding events_loop Served
events_loop-IsSound [] s i served = starves
events_loop-IsSound (a ∷ rest) s i served =
    Yields-bind
      (Yields-and
        (on_poller-IsSound s i poller_next_fd_with_pollin (next-IsValid s.poller i.poller)) served)
      λ o t (j, at). turn-IsSound a rest (events_loop rest) (events_loop-IsSound rest) o t j at

polled :
    (rc : Option (Unit {0})) (turns : List Answers) (s : Server)
    → IsSound s
    → Served turns s
    → Yields
        (λ _. IsSound)
        ((elim rc as (λ _. Cmd Server (Unit {0})) [ none ↦ die | some _ ↦ events_loop turns ]) s)
polled none turns s i served = exits
polled (some u) turns s i served = events_loop-IsSound turns s i served

server_round-IsSound :
    (r : Round) (s : Server)
    → IsSound s
    → Yields (λ _. Served r.turns) (on_poller (poller_poll r.revents) s)
    → Yields (λ _. IsSound) (server_round r s)
unfolding server_round
server_round-IsSound r s i served =
    Yields-bind
      (Yields-and
        (on_poller-IsSound s i (poller_poll r.revents) (poll-IsValid r.revents s.poller i.poller))
        served)
      λ rc t (j, turns). polled rc r.turns t j turns

run_rounds-IsSound :
    (rounds : List Round) (s : Server)
    → IsSound s
    → ServedRounds rounds s
    → Yields (λ _. IsSound) (run_rounds rounds s)
unfolding run_rounds ServedRounds
run_rounds-IsSound [] s i served = returns i
run_rounds-IsSound (r ∷ rest) s i (here, later) =
    Yields-bind (Yields-and (server_round-IsSound r s i here) later)
      λ _ t (j, served). run_rounds-IsSound rest t j served

watch : (s : Server) (fd : ℕ) → IsSound s → Yields (λ _. IsSound) (on_poller (poller_add_fd fd) s)
watch s fd i = on_poller-IsSound s i (poller_add_fd fd) (add_fd-IsValid fd s.poller i.poller)

-- A server that was just created, on any sockets, with any answers of the system over any number of rounds, where
-- malloc() gives at every event an address that neither list uses: when the rounds are over, if the run has come
-- to their end, the poller is valid, the clients and the subscriptions hang in well-formed lists,
-- and no two clients have the same id but the empty one.
pub run_server-IsSound :
    (udp : UdpServer) (fd : ℕ) (recv_msg : TcpCtosMsg) (net : ℕ → Socket) (rounds : List Round)
    → Yields (λ _. ServedRounds rounds) (run_server udp (tcp_server_create fd recv_msg net) [])
    → Yields (λ _. IsSound) (run_server udp (tcp_server_create fd recv_msg net) rounds)
unfolding run_server run_rounds
run_server-IsSound udp fd recv_msg net rounds served =
    Yields-beside (watch start stdin_fileno i) served λ _ s j y.
      Yields-beside (watch s s.udp_server.fd j) y λ _ t k z.
        Yields-beside (watch t t.tcp_server.fd k) z
          λ _ u l w. run_rounds-IsSound rounds u l (returned w)
  where
    start : Server
    start = record {
      poller = poller_create;
      udp_server = udp;
      tcp_server = tcp_server_create fd recv_msg net;
    }

    i : IsSound start
    i = record { poller = poller_create-IsValid; tcp_server = created-IsWellFormed fd recv_msg net }
