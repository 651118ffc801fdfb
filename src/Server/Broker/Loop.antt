-- ===== src/Server/Broker/Loop.antt =====
-- What the loop of the server is to do: at each round, poll() tells which of the watched descriptors have an
-- event; the first of them is served, then the next one behind it, until none is left from there on.
use tcp_udp_client_server.Base.{ℕ, ◌+◌, ◌≡◌, none, some, List, [], ◌∷◌, take}
use tcp_udp_client_server.Packets.{TcpCtosMsg}
use tcp_udp_client_server.Poller.{Poller, write_revents}
use tcp_udp_client_server.Poller.Next.{at_index, Quiet, Event}
use tcp_udp_client_server.Poller.Shift.{FirstAt}
use tcp_udp_client_server.Poller.Slots.{IsValid}
use tcp_udp_client_server.Poller.Watch.{Added, Closed}
use tcp_udp_client_server.Poller.Watched.{watched}
use tcp_udp_client_server.Server.{Answers, Round, stdin_fileno}
use tcp_udp_client_server.Server.Broker.{Verdict, undefined, exits, becomes, Broker, event}
use tcp_udp_client_server.Sockets.{exit_failure}

-- A verdict after which the loop does not go on.
pub data IsLast : Verdict Broker → Type 0 where
  by_fault : IsLast undefined
  by_exit : {code : ℕ} → IsLast (exits code)

-- What the service of an event on `fd` may do to the poller: nothing; a new descriptor is the last entry, and
-- the iterator skips an entry; or the first entry with `fd` is gone, and the later ones have moved down
-- by one under the iterator, which stays.
pub data Moved (fd : ℕ) (p q : Poller) : Type 0 where
  stays : q ≡ p → Moved fd p q
  joins :
      (new : ℕ) (r : Poller) → Added new p r → q ≡ at_index r (r.idx_iterator + 1) → Moved fd p q
  leaves : (i : ℕ) → FirstAt fd p 0 p.num_pollfds i → Closed fd i p q → Moved fd p q

-- The poller that poll() leaves: an answer for each watched entry, and the iterator at the first.
abbrev pub after_poll : (revents : List ℕ) → Poller → Poller
after_poll rs p = record p {
  pollfds = write_revents (take p.num_pollfds rs) p.pollfds;
  idx_iterator = 0;
}

module _ (udp_fd tcp_fd : ℕ) where
  -- The events of one round, from the iterator of the poller on: none is left, or the next one is served.
  pub data Serves : List Answers → Poller → Broker → Verdict Broker → Type 0 where
    quiet :
        {turns : List Answers} {p : Poller} {b : Broker}
        → Quiet p p.idx_iterator p.num_pollfds
        → Serves turns p b (becomes b)
    stops :
        {a : Answers} {rest : List Answers} {p : Poller} {b : Broker} {v : Verdict Broker} (fd : ℕ)
        (q : Poller)
        → Event p fd q
        → event udp_fd tcp_fd a fd b ≡ v
        → IsLast v
        → Serves (a ∷ rest) p b v
    serves :
        {a : Answers} {rest : List Answers} {p : Poller} {b c : Broker} {v : Verdict Broker}
        (fd : ℕ) (q r : Poller)
        → Event p fd q
        → event udp_fd tcp_fd a fd b ≡ becomes c
        → Moved fd q r
        → watched r ≡ c.watched
        → Serves rest r c v
        → Serves (a ∷ rest) p b v

  -- The events of a round of which poll() answered `rs`.
  pub record Polled (rs : List ℕ) (turns : List Answers) (b : Broker) (v : Verdict Broker)
      : Type 0 where
    pub poller : Poller
    pub valid : IsValid poller
    pub watches : watched poller ≡ b.watched
    pub served : Serves turns (after_poll rs poller) b v

  -- The rounds, of which one where poll() fails is the last.
  pub data Goes : List Round → Broker → Verdict Broker → Type 0 where
    over : {b : Broker} → Goes [] b (becomes b)
    poll_fails :
        {r : Round} {rest : List Round} {b : Broker}
        → r.revents ≡ none
        → Goes (r ∷ rest) b (exits exit_failure)
    stops_in :
        {r : Round} {rest : List Round} {b : Broker} {v : Verdict Broker} (rs : List ℕ)
        → r.revents ≡ some rs
        → Polled rs r.turns b v
        → IsLast v
        → Goes (r ∷ rest) b v
    goes :
        {r : Round} {rest : List Round} {b c : Broker} {v : Verdict Broker} (rs : List ℕ)
        → r.revents ≡ some rs
        → Polled rs r.turns b (becomes c)
        → Goes rest c v
        → Goes (r ∷ rest) b v

  -- The broker at the start.
  abbrev pub opening : TcpCtosMsg → Broker
  opening recv_msg = record {
    watched = stdin_fileno ∷ udp_fd ∷ tcp_fd ∷ [];
    desk = record { members = []; held = []; last = recv_msg; printed = [] };
  }
