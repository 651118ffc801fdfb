-- ===== src/Poller.antt =====
-- poller.h and poller.c: the descriptors that poll() watches, with the iterator over the events of a
-- round. `pollfds` is the whole array of MAX_CONNECTIONS entries, also those past `num_pollfds`, whose
-- contents the code leaves behind; an access outside it is undefined. `closed` lists the descriptors
-- that these functions passed to close(), last first. A function that returns -1 returns `none`.
-- poll() is outside the program: its answer is an argument, `none` for -1 and else the list of the
-- `revents` that it wrote. The loops run on the count of the rounds that are left.
pub mod Slots
pub mod Shift
pub mod Watch
pub mod Next
pub mod Watched
pub mod Ending
use tcp_udp_client_server.Base.{
  ℕ, zero, suc, ◌+◌, ◌-◌, ◌%◌, ◌≡◌, Bool, true, false, ◌&&◌, not, Option, none, some, List, [], ◌∷◌,
  arith, ltb, leb, ◌==◌, if◌then◌else◌, length, get_elem?, replicate, set, take,
}
use tcp_udp_client_server.Outcome.{Cmd, ok, fault, pure, ◌>>=◌, ◌>>◌}

-- util.h
abbrev pub max_connections : ℕ
max_connections = 1000

abbrev pub pollin : ℕ
pollin = 1

pub record Pollfd : Type 0 where
  pub fd : ℕ
  pub events : ℕ
  pub revents : ℕ

abbrev pub zero_pollfd : Pollfd
zero_pollfd = record { fd = 0; events = 0; revents = 0 }

pub record Poller : Type 0 where
  pub pollfds : List Pollfd
  pub num_pollfds : ℕ
  pub idx_iterator : ℕ
  pub closed : List ℕ

-- revents & POLLIN, where POLLIN is the lowest bit
abbrev pub has_pollin : Pollfd → Bool
has_pollin e = e.revents % 2 == pollin

unfoldable pub poller_create : Poller
poller_create = record {
  pollfds = replicate max_connections zero_pollfd;
  num_pollfds = 0;
  idx_iterator = 0;
  closed = [];
}

unfoldable pub entry_at : ℕ → Cmd Poller Pollfd
entry_at i p = elim (get_elem? p.pollfds i) [ none ↦ fault | some e ↦ ok e p ]

unfoldable pub set_entry : ℕ → Pollfd → Cmd Poller (Unit {0})
set_entry i e p =
    if ltb i (length p.pollfds) then ok tt (record p { pollfds = set p.pollfds i e }) else fault

abbrev pub close_fd : ℕ → Cmd Poller (Unit {0})
close_fd fd p = ok tt (record p { closed = fd ∷ p.closed })

unfoldable pub destroy_loop : (rounds i : ℕ) → Cmd Poller (Unit {0})
destroy_loop zero i = pure tt
destroy_loop (suc r) i = do e ← entry_at i; close_fd e.fd; destroy_loop r (i + 1)

unfoldable pub poller_destroy : Cmd Poller (Unit {0})
unfolding destroy_loop
poller_destroy p = destroy_loop p.num_pollfds 0 p

-- poller_print(): the count, the iterator, and the entries.
print_loop : (rounds i : ℕ) → Cmd Poller (List Pollfd)
print_loop zero i = pure []
print_loop (suc r) i = do e ← entry_at i; es ← print_loop r (i + 1); pure (e ∷ es)

unfoldable pub poller_print : Cmd Poller (ℕ × ℕ × List Pollfd)
unfolding print_loop
poller_print = do
  es ← λ p. print_loop p.num_pollfds 0 p
  λ p. ok (p.num_pollfds, p.idx_iterator, es) p

-- What poll() writes: one `revents` for each watched entry.
unfoldable pub write_revents : List ℕ → List Pollfd → List Pollfd
write_revents [] es = es
write_revents (r ∷ rs) [] = []
write_revents (r ∷ rs) (e ∷ es) = record e { revents = r } ∷ write_revents rs es

unfoldable pub poller_poll : Option (List ℕ) → Cmd Poller (Option (Unit {0}))
poller_poll none p = ok none (record p { idx_iterator = 0 })
poller_poll (some rs) p =
    ok (some tt)
      (record p { idx_iterator = 0; pollfds = write_revents (take p.num_pollfds rs) p.pollfds })

unfoldable pub poller_add_fd : ℕ → Cmd Poller (Unit {0})
poller_add_fd fd p = elim (get_elem? p.pollfds p.num_pollfds) [
  | none ↦ fault
  | some e ↦ ok tt (record p {
    pollfds = set p.pollfds p.num_pollfds (record e { fd = fd; events = pollin });
    num_pollfds = p.num_pollfds + 1;
  })
]

unfoldable pub find_idx_loop : ℕ → (rounds i : ℕ) → Cmd Poller (Option ℕ)
find_idx_loop fd zero i = pure none
find_idx_loop fd (suc r) i = do
  e ← entry_at i
  if e.fd == fd then pure (some i) else find_idx_loop fd r (i + 1)

unfoldable pub poller_find_fd_idx : ℕ → Cmd Poller (Option ℕ)
unfolding find_idx_loop
poller_find_fd_idx fd p = find_idx_loop fd p.num_pollfds 0 p

unfoldable pub shift_loop : (rounds i : ℕ) → Cmd Poller (Unit {0})
shift_loop zero i = pure tt
shift_loop (suc r) i = do e ← entry_at (i + 1); set_entry i e; shift_loop r (i + 1)

unfoldable pub drop_entry : Option ℕ → Cmd Poller (Unit {0})
drop_entry none = pure tt
drop_entry (some idx) = do
  λ p. shift_loop (p.num_pollfds - 1 - idx) idx p
  λ p. ok tt (record p { num_pollfds = p.num_pollfds - 1 })

unfoldable pub poller_remove_fd : ℕ → Cmd Poller (Unit {0})
unfolding drop_entry shift_loop
poller_remove_fd fd = do close_fd fd; idx ← poller_find_fd_idx fd; drop_entry idx

-- The while loop of poller_next_fd_with_POLLIN().
skip_loop : (rounds : ℕ) → Cmd Poller (Unit {0})
skip_loop zero = pure tt
skip_loop (suc r) = do
  e ← λ p. entry_at p.idx_iterator p
  if has_pollin e
      then pure tt
      else (do λ p. ok tt (record p { idx_iterator = p.idx_iterator + 1 }); skip_loop r)

take_event : Cmd Poller (Option ℕ)
take_event p =
    if leb p.num_pollfds p.idx_iterator
    then ok none p
    else elim (get_elem? p.pollfds p.idx_iterator) [
      | none ↦ fault
      | some e ↦ ok (some e.fd) (record p { idx_iterator = p.idx_iterator + 1 })
    ]

unfoldable pub poller_next_fd_with_pollin : Cmd Poller (Option ℕ)
unfolding skip_loop take_event
poller_next_fd_with_pollin = do λ p. skip_loop (p.num_pollfds - p.idx_iterator) p; take_event

unfoldable pub poller_advance : Cmd Poller (Unit {0})
poller_advance p = ok tt (record p { idx_iterator = p.idx_iterator + 1 })
