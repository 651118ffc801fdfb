-- ===== src/Poller/Watch.antt =====
-- Adding and removing a watched descriptor.
use tcp_udp_client_server.Base.{
  ℕ, ◌≡◌, ◌+◌, ◌-◌, ◌<◌, refl, none, some, Option, arith, ltb, if◌then◌else◌, length, get_elem?,
  get_elem?-lt, get_elem?-ge, get_elem?-set, length-set, ◌∷◌, ◌∙◌, subst,
}
use tcp_udp_client_server.Outcome.{ok, fault, Ends, ends, Ends-bind}
use tcp_udp_client_server.Poller.{
  Pollfd, Poller, max_connections, pollin, drop_entry, poller_add_fd, poller_remove_fd,
  poller_find_fd_idx,
}
use tcp_udp_client_server.Poller.Slots.{slot, IsValid}
use tcp_udp_client_server.Poller.Shift.{
  shift_loop-Shifted, Nowhere, FirstAt, find_idx_loop-Search, Search,
}

-- The watched entries after the addition of `fd`: it is at the end, with the `revents` that the
-- array held there.
pub record Added (fd : ℕ) (p q : Poller) : Type 0 where
  pub valid : IsValid q
  pub count : q.num_pollfds ≡ p.num_pollfds + 1
  pub iterator : q.idx_iterator ≡ p.idx_iterator
  pub stale : Pollfd
  pub old : get_elem? p.pollfds p.num_pollfds ≡ some stale
  pub last : slot q p.num_pollfds ≡ some (record stale { fd = fd; events = pollin })
  pub before : (j : ℕ) → j < p.num_pollfds → slot q j ≡ slot p j

-- A valid poller with room left: the addition returns, the new descriptor is the last entry, watched for
-- POLLIN and with the `revents` that the array held there, and the other entries and the iterator are
-- as they were.
pub add_fd-Added :
    (fd : ℕ) (p : Poller)
    → IsValid p
    → p.num_pollfds < max_connections
    → Ends (λ _. Added fd p) (poller_add_fd fd p)
unfolding poller_add_fd
add_fd-Added fd p v room =
    let inside : p.num_pollfds < length p.pollfds = omega (arith, v.whole) in
    let (e, f) = get_elem?-lt p.pollfds p.num_pollfds inside in
    let new : Pollfd = record e { fd = fd; events = pollin } in
    let there = λ (j : ℕ). get_elem?-set p.pollfds p.num_pollfds j new inside in
    rw (f, poller_add_fd)
      (ends (record {
        valid = record {
          whole = length-set p.pollfds p.num_pollfds new ∙ v.whole;
          room = omega arith;
        };
        count = refl;
        iterator = refl;
        stale = e;
        old = f;
        last = ground (arith, there p.num_pollfds);
        before = λ j m. ground (arith, there j);
      }))

-- A valid poller with no room left: the addition is undefined behaviour.
pub add_fd-full :
    (fd : ℕ) (p : Poller) → IsValid p → p.num_pollfds ≡ max_connections → poller_add_fd fd p ≡ fault
unfolding poller_add_fd
add_fd-full fd p v full =
    rw (get_elem?-ge p.pollfds p.num_pollfds (omega (arith, v.whole)), poller_add_fd)

-- The watched entries after the removal of entry `i`: the later ones have moved down by one, and the
-- iterator is where it was.
pub record Closed (fd i : ℕ) (p q : Poller) : Type 0 where
  pub valid : IsValid q
  pub count : q.num_pollfds + 1 ≡ p.num_pollfds
  pub iterator : q.idx_iterator ≡ p.idx_iterator
  pub closed : q.closed ≡ fd ∷ p.closed
  pub slots : (j : ℕ) → slot q j ≡ (if ltb j i then slot p j else slot p (j + 1))

abbrev noted : ℕ → Poller → Poller
noted fd p = record p { closed = fd ∷ p.closed }

drop_entry-Closed :
    (fd i : ℕ) (p : Poller)
    → IsValid p
    → i < p.num_pollfds
    → Ends (λ _. Closed fd i p) (drop_entry (some i) (noted fd p))
unfolding drop_entry
drop_entry-Closed fd i p v m =
    Ends-bind
      (shift_loop-Shifted (p.num_pollfds - 1 - i) i (noted fd p) (omega (arith, v.whole, v.room)))
      λ _ q sh. ends (record {
        valid = record { whole = sh.whole ∙ v.whole; room = omega (arith, sh.num_pollfds, v.room) };
        count = omega (arith, sh.num_pollfds);
        iterator = sh.idx_iterator;
        closed = sh.closed;
        slots = λ j. ground (arith, sh.entries j, sh.num_pollfds);
      })

remove_found :
    (fd i : ℕ) (p : Poller)
    → poller_find_fd_idx fd (noted fd p) ≡ ok (some i) (noted fd p)
    → IsValid p
    → i < p.num_pollfds
    → Ends (λ _. Closed fd i p) (poller_remove_fd fd p)
unfolding poller_remove_fd
remove_found fd i p run v m = rw run (drop_entry-Closed fd i p v m)

-- The two outcomes of poller_remove_fd().
pub data Outcomes (fd : ℕ) (p : Poller) : Type 0 where
  dropped :
      (i : ℕ)
      → FirstAt fd p 0 p.num_pollfds i
      → Ends (λ _. Closed fd i p) (poller_remove_fd fd p)
      → Outcomes fd p
  missing :
      Nowhere fd p 0 p.num_pollfds → poller_remove_fd fd p ≡ ok tt (noted fd p) → Outcomes fd p

remove_fd-Search :
    (fd : ℕ) (p : Poller) (o : Option ℕ)
    → IsValid p
    → poller_find_fd_idx fd (noted fd p) ≡ ok o (noted fd p)
    → Search fd p 0 p.num_pollfds o
    → Outcomes fd p
unfolding poller_remove_fd
remove_fd-Search fd p none v run s = missing s (rw run)
remove_fd-Search fd p (some i) v run s = dropped i s (remove_found fd i p run v s.below)

-- A valid poller: either the first entry with the descriptor is dropped, the later entries have moved
-- down by one, and the descriptor is closed; or no entry has it, and it is only closed. The iterator stays.
pub remove_fd-Outcomes : (fd : ℕ) (p : Poller) → IsValid p → Outcomes fd p
unfolding poller_find_fd_idx
remove_fd-Outcomes fd p v =
    let (o, run, s) =
      find_idx_loop-Search fd (noted fd p) p.num_pollfds 0 (omega (arith, v.whole, v.room)) in
    let n : 0 + p.num_pollfds ≡ p.num_pollfds = omega arith in
    remove_fd-Search fd p o v run (same_search o (subst (λ t. Search fd (noted fd p) 0 t o) n s))
  where
    same_search :
        (o : Option ℕ) → Search fd (noted fd p) 0 p.num_pollfds o → Search fd p 0 p.num_pollfds o
    same_search none s = s
    same_search (some k) s = record {
      from = s.from;
      below = s.below;
      entry = s.entry;
      there = s.there;
      hit = s.hit;
      first = s.first;
    }
