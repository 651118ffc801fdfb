-- ===== src/Poller/Watched.antt =====
-- poller.c: the watched descriptors as a list.
use tcp_udp_client_server.Base.{
  ℕ, zero, suc, ◌≡◌, ◌≢◌, ◌<◌, ◌≤◌, ◌+◌, ◌∙◌, refl, ap, true, false, Option, none, some, List, [],
  ◌∷◌, ◌++◌, ◌==◌, if◌then◌else◌, ltb, arith, length, get_elem?, set, take, get_elem?-lt, ==_ne,
  length-take, length-set,
}
use tcp_udp_client_server.DList.Abstract.{erase_first}
use tcp_udp_client_server.Outcome.{Ends, ends, Ends-mono, Ends-eq}
use tcp_udp_client_server.Poller.{
  Pollfd, Poller, max_connections, pollin, poller_add_fd, poller_remove_fd, poller_poll,
  poller_next_fd_with_pollin, write_revents,
}
use tcp_udp_client_server.Poller.Next.{Answer, next-Answer}
use tcp_udp_client_server.Poller.Slots.{IsValid, length-write_revents}
use tcp_udp_client_server.Poller.Watch.{dropped, missing, remove_fd-Outcomes}

unfoldable pub fds : List Pollfd → List ℕ
fds [] = []
fds (e ∷ es) = e.fd ∷ fds es

abbrev pub watched : Poller → List ℕ
watched p = fds (take p.num_pollfds p.pollfds)

length-fds : (es : List Pollfd) → length (fds es) ≡ length es
unfolding fds
length-fds [] = refl
length-fds (e ∷ es) = ap suc (length-fds es)

-- A valid poller watches as many descriptors as it counts.
pub length-watched : (p : Poller) → IsValid p → length (watched p) ≡ p.num_pollfds
length-watched p v =
    length-fds (take p.num_pollfds p.pollfds)
    ∙ omega (arith, length-take p.num_pollfds p.pollfds, v.whole, v.room)

get_elem?-take :
    (n : ℕ) (es : List Pollfd) (j : ℕ)
    → get_elem? (take n es) j ≡ (if ltb j n then get_elem? es j else none)
get_elem?-take zero es j = ground arith
get_elem?-take (suc n) [] j = ground arith
get_elem?-take (suc n) (e ∷ es) zero = ground arith
get_elem?-take (suc n) (e ∷ es) (suc j) = ground (arith, get_elem?-take n es j)

-- An entry behind the others.
take-set :
    (n : ℕ) (es : List Pollfd) (e : Pollfd)
    → n < length es
    → fds (take (suc n) (set es n e)) ≡ fds (take n es) ++ e.fd ∷ []
unfolding fds
take-set n [] e m = absurd (omega arith)
take-set zero (x ∷ es) e m = refl
take-set (suc n) (x ∷ es) e m = ap (◌∷◌ x.fd) (take-set n es e (omega arith))

pub add_fd-watched :
    (fd : ℕ) (p : Poller)
    → IsValid p
    → p.num_pollfds < max_connections
    → Ends (λ _ q. IsValid q × (watched q ≡ watched p ++ fd ∷ [])) (poller_add_fd fd p)
unfolding poller_add_fd
add_fd-watched fd p v room =
    let inside : p.num_pollfds < length p.pollfds = omega (arith, v.whole) in
    let (e, f) = get_elem?-lt p.pollfds p.num_pollfds inside in
    let new : Pollfd = record e { fd = fd; events = pollin } in
    let more : p.num_pollfds + 1 ≡ suc p.num_pollfds = omega arith in
    rw (f, poller_add_fd)
      (ends (
        record { whole = length-set p.pollfds p.num_pollfds new ∙ v.whole; room = omega arith },
        ap (λ n. fds (take n (set p.pollfds p.num_pollfds new))) more
            ∙ take-set p.num_pollfds p.pollfds new inside,
      ))

same_entries : (xs ys : List Pollfd) → ((j : ℕ) → get_elem? ys j ≡ get_elem? xs j) → fds ys ≡ fds xs
unfolding fds
same_entries [] [] h = refl
same_entries [] (y ∷ ys) h = ground (arith, h 0)
same_entries (x ∷ xs) [] h = ground (arith, h 0)
same_entries (x ∷ xs) (y ∷ ys) h =
    let same : y ≡ x = ground (arith, h 0) in rw (same, same_entries xs ys (λ j. h (suc j))) refl

module _ (fd : ℕ) where
  without :
      (n i : ℕ) (xs ys : List Pollfd) (e : Pollfd)
      → ((j : ℕ) → get_elem? ys j ≡ (if ltb j i then get_elem? xs j else get_elem? xs (j + 1)))
      → get_elem? xs i ≡ some e
      → e.fd ≡ fd
      → ((j : ℕ) (d : Pollfd) → j < i → get_elem? xs j ≡ some d → d.fd ≢ fd)
      → fds ys ≡ erase_first (λ n. n == fd) (fds xs)
  unfolding fds erase_first
  without n i [] ys e h f hit none_at = absurd (ground arith)
  without n zero (x ∷ xs) ys e h f hit none_at =
      let here : (x.fd == fd) ≡ true = ground arith in
      rw here (same_entries xs ys λ j. ground (arith, h j))
  without n (suc i) (x ∷ xs) [] e h f hit none_at = ground (arith, h 0)
  without n (suc i) (x ∷ xs) (y ∷ ys) e h f hit none_at =
      let same : y ≡ x = ground (arith, h 0) in
      let miss : (x.fd == fd) ≡ false = ==_ne x.fd fd (none_at 0 x (omega arith) refl) in
      rw (same, miss)
        (ap (◌∷◌ x.fd) (
          without n i xs ys e (λ j. ground (arith, h (suc j))) f hit
            (λ j d m g. none_at (suc j) d (omega arith) g)))

  nothing :
      (xs : List Pollfd)
      → ((j : ℕ) (d : Pollfd) → get_elem? xs j ≡ some d → d.fd ≢ fd)
      → fds xs ≡ erase_first (λ n. n == fd) (fds xs)
  unfolding fds erase_first
  nothing [] none_at = refl
  nothing (x ∷ xs) none_at =
      let miss : (x.fd == fd) ≡ false = ==_ne x.fd fd (none_at 0 x refl) in
      rw miss (ap (◌∷◌ x.fd) (nothing xs (λ j d g. none_at (suc j) d g)))

  pub remove_fd-watched :
      (p : Poller)
      → IsValid p
      → Ends
          (λ _ q. IsValid q × (watched q ≡ erase_first (λ n. n == fd) (watched p)))
          (poller_remove_fd fd p)
  remove_fd-watched p v = elim (remove_fd-Outcomes fd p v) [
    | dropped k first run ↦ Ends-mono run λ _ q c. (
      c.valid,
      without p.num_pollfds k _ _ first.entry
          (λ j. ground (
            arith,
            c.slots j,
            get_elem?-take q.num_pollfds q.pollfds j,
            get_elem?-take p.num_pollfds p.pollfds j,
            get_elem?-take p.num_pollfds p.pollfds (j + 1),
          ))
          (ground (arith, get_elem?-take p.num_pollfds p.pollfds k, first.there, first.below))
          first.hit
          (λ j d m g.
            first.first j d (omega arith) m
              (ground (arith, get_elem?-take p.num_pollfds p.pollfds j, g, first.below))),
    )
    | missing none_at e ↦ Ends-eq e (
      record { whole = v.whole; room = v.room },
      nothing _ (λ j d g.
          none_at j d (omega arith) (ground (arith, get_elem?-take p.num_pollfds p.pollfds j, g))
            (ground (arith, get_elem?-take p.num_pollfds p.pollfds j, g))),
    )
  ]

-- poll() changes no descriptor.
fds-write_revents :
    (rs : List ℕ) (es : List Pollfd) (n : ℕ) → fds (take n (write_revents rs es)) ≡ fds (take n es)
unfolding fds write_revents
fds-write_revents rs es zero = refl
fds-write_revents [] es (suc n) = refl
fds-write_revents (r ∷ rs) [] (suc n) = refl
fds-write_revents (r ∷ rs) (e ∷ es) (suc n) = ap (◌∷◌ e.fd) (fds-write_revents rs es n)

pub poll-watched :
    (rs : List ℕ) (p : Poller)
    → IsValid p
    → Ends
        (λ rc q.
          IsValid q
          × (watched q ≡ watched p)
          × (rc ≡ some tt)
          × (q ≡ record p {
            pollfds = write_revents (take p.num_pollfds rs) p.pollfds;
            idx_iterator = 0;
          }))
        (poller_poll (some rs) p)
unfolding poller_poll
poll-watched rs p v = ends (
  record {
    whole = ground (arith, v.whole, length-write_revents (take p.num_pollfds rs) p.pollfds);
    room = v.room;
  },
  fds-write_revents (take p.num_pollfds rs) p.pollfds p.num_pollfds,
  refl,
  refl,
)

-- What a call answers. The next event moves the iterator on, at most behind the last entry.
pub next-watched :
    (p : Poller)
    → IsValid p
    → Ends
        (λ o q.
          Answer p o q
          × IsValid q
          × (watched q ≡ watched p)
          × ((fd : ℕ)
              → o ≡ some fd
              → (p.idx_iterator < q.idx_iterator) × (q.idx_iterator ≤ max_connections)))
        (poller_next_fd_with_pollin p)
next-watched p v =
    Ends-mono (next-Answer p v)
      λ o q a. let (valid, same, on) = answered o q a in (a, valid, same, on)
  where
    answered :
        (o : Option ℕ) (q : Poller)
        → Answer p o q
        → IsValid q
          × (watched q ≡ watched p)
          × ((fd : ℕ)
              → o ≡ some fd
              → (p.idx_iterator < q.idx_iterator) × (q.idx_iterator ≤ max_connections))
    answered none q (quiet, same, m) =
        rw same (record { whole = v.whole; room = v.room }, refl, λ fd e. ground arith)
    answered (some fd) q ev = rw ev.after (
      record { whole = v.whole; room = v.room },
      refl,
      λ n e. (omega (arith, ev.from), omega (arith, ev.below, v.room)),
    )
