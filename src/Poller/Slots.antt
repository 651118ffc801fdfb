-- ===== src/Poller/Slots.antt =====
-- The watched entries of a poller, and what keeps it well formed.
use tcp_udp_client_server.Base.{
  ℕ, ◌≡◌, ◌≤◌, ◌<◌, refl, none, some, Option, arith, ltb, if◌then◌else◌, length, get_elem?,
  length-replicate, get_elem?-lt, List, [], ◌∷◌, suc, take, ap,
}
use tcp_udp_client_server.Outcome.{Ends, ends}
use tcp_udp_client_server.Poller.{
  Pollfd, Poller, max_connections, zero_pollfd, poller_create, poller_poll, write_revents,
}

-- The entry that the code reads as pollfds[j] below num_pollfds.
abbrev pub slot : Poller → ℕ → Option Pollfd
slot p j = if ltb j p.num_pollfds then get_elem? p.pollfds j else none

pub record IsValid (p : Poller) : Type 0 where
  pub whole : length p.pollfds ≡ max_connections
  pub room : p.num_pollfds ≤ max_connections

pub poller_create-IsValid : IsValid poller_create
unfolding poller_create
poller_create-IsValid = record {
  whole = length-replicate max_connections zero_pollfd;
  room = omega arith;
}

-- A slot below num_pollfds is read without fault.
pub slot-some :
    (p : Poller) (j : ℕ)
    → IsValid p
    → j < p.num_pollfds
    → (e : Pollfd) × (get_elem? p.pollfds j ≡ some e)
slot-some p j v h = get_elem?-lt p.pollfds j (omega (arith, v.whole, v.room))

pub length-write_revents :
    (rs : List ℕ) (es : List Pollfd) → length (write_revents rs es) ≡ length es
unfolding write_revents
length-write_revents [] es = refl
length-write_revents (r ∷ rs) [] = refl
length-write_revents (r ∷ rs) (e ∷ es) = ap suc (length-write_revents rs es)

-- poll() starts a round: the iterator is at the first entry, and the poller stays valid.
pub poller_poll-IsValid :
    (answer : Option (List ℕ)) (p : Poller)
    → IsValid p
    → Ends
        (λ _ q. IsValid q × (q.idx_iterator ≡ 0) × (q.num_pollfds ≡ p.num_pollfds))
        (poller_poll answer p)
unfolding poller_poll
poller_poll-IsValid none p v = ends (record { whole = v.whole; room = v.room }, refl, refl)
poller_poll-IsValid (some rs) p v = ends (
  record {
    whole = ground (arith, v.whole, length-write_revents (take p.num_pollfds rs) p.pollfds);
    room = v.room;
  },
  refl,
  refl,
)
