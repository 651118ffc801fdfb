-- ===== src/Poller/Ending.antt =====
-- poller_destroy(): the loop that closes every watched descriptor.
use tcp_udp_client_server.Base.{
  ℕ, zero, suc, ◌≡◌, ◌≤◌, ◌+◌, ◌∙◌, refl, ap, some, List, [], ◌∷◌, arith, length, get_elem?,
  get_elem?-lt, take, drop,
}
use tcp_udp_client_server.Outcome.{ok}
use tcp_udp_client_server.Poller.{Pollfd, Poller, destroy_loop, poller_destroy}
use tcp_udp_client_server.Poller.Shift.{entry_at-ok}
use tcp_udp_client_server.Poller.Slots.{IsValid}
use tcp_udp_client_server.Poller.Watched.{fds, watched}

-- The descriptors of a list, closed one after the other on top of `done`.
unfoldable pub closes_all : List ℕ → (done : List ℕ) → List ℕ
closes_all [] done = done
closes_all (fd ∷ l) done = closes_all l (fd ∷ done)

drop_entry :
    (es : List Pollfd) (i : ℕ) (e : Pollfd)
    → get_elem? es i ≡ some e
    → drop i es ≡ e ∷ drop (i + 1) es
drop_entry [] i e f = absurd (ground arith)
drop_entry (x ∷ es) zero e f = let same : x ≡ e = ground arith in ap (λ (d : Pollfd). d ∷ es) same
drop_entry (x ∷ es) (suc i) e f =
    let more : suc (i + 1) ≡ suc i + 1 = omega arith in
    drop_entry es i e f ∙ ap (λ n. e ∷ drop n (x ∷ es)) more

destroy_loop-closes :
    (r i : ℕ) (p : Poller)
    → i + r ≤ length p.pollfds
    → destroy_loop r i p
      ≡ ok tt (record p { closed = closes_all (fds (take r (drop i p.pollfds))) p.closed })
unfolding destroy_loop closes_all fds
destroy_loop-closes zero i p m = refl
destroy_loop-closes (suc r) i p m =
    let (e, f) = get_elem?-lt p.pollfds i (omega arith) in
    rw (entry_at-ok p i e f, drop_entry p.pollfds i e f)
      (destroy_loop-closes r (i + 1) (record p { closed = e.fd ∷ p.closed }) (omega arith))

-- A valid poller: every watched descriptor is closed, in order and once for each entry, and the poller is
-- otherwise as it was.
pub poller_destroy-closes :
    (p : Poller)
    → IsValid p
    → poller_destroy p ≡ ok tt (record p { closed = closes_all (watched p) p.closed })
unfolding poller_destroy
poller_destroy-closes p v = destroy_loop-closes p.num_pollfds 0 p (omega (arith, v.whole, v.room))
