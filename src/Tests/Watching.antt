-- ===== src/Tests/Watching.antt =====
-- poller.c with the descriptors 0, 3 and 4 watched, and an event on 3 and on 4.
use tcp_udp_client_server.Base.{◌≡◌, refl, ℕ, [], ◌∷◌, arith, length-replicate, replicate, ◌≤◌}
use tcp_udp_client_server.Outcome.{Ends}
use tcp_udp_client_server.Poller.{Pollfd, Poller, zero_pollfd}
use tcp_udp_client_server.Poller.Next.{events_loop, ready, events-ready}
use tcp_udp_client_server.Poller.Slots.{IsValid}
use tcp_udp_client_server.Poller.Watch.{Outcomes, remove_fd-Outcomes}

abbrev entry : ℕ → ℕ → Pollfd
entry fd revents = record { fd = fd; events = 1; revents = revents }

abbrev watching : ℕ → Poller
watching n = record {
  pollfds = entry 0 0 ∷ entry 3 1 ∷ entry 4 1 ∷ replicate 997 zero_pollfd;
  num_pollfds = n;
  idx_iterator = 0;
  closed = [];
}

watching-IsValid : (n : ℕ) → n ≤ 1000 → IsValid (watching n)
watching-IsValid n m = record { whole = omega (arith, length-replicate 997 zero_pollfd); room = m }

events-ready_example :
    Ends (λ fds _. fds ≡ ready 3 0 (watching 3).pollfds) (events_loop 4 (watching 3))
events-ready_example =
    events-ready 4 (watching 3) (watching-IsValid 3 (omega arith)) refl (omega arith)

-- The events of that round.
two_events : ready 3 0 (watching 3).pollfds ≡ 3 ∷ 4 ∷ []
unfolding ready
two_events = refl

remove_fd-Outcomes_example : Outcomes 3 (watching 3)
remove_fd-Outcomes_example = remove_fd-Outcomes 3 (watching 3) (watching-IsValid 3 (omega arith))
