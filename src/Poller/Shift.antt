-- ===== src/Poller/Shift.antt =====
-- poller_remove_fd(): the search for the entry, and the loop that closes the gap.
use tcp_udp_client_server.Base.{
  ℕ, ◌≡◌, ◌≢◌, ◌+◌, ◌≤◌, ◌<◌, refl, inl, inr, none, some, Option, arith, ltb, lt→ltb, if◌then◌else◌,
  length, get_elem?, get_elem?-lt, get_elem?-set, length-set, zero, suc, set, Bool-cases, ◌==◌, ◌∙◌,
  subst,
}
use tcp_udp_client_server.Outcome.{ok, Ends, ends, Ends-mono}
use tcp_udp_client_server.Poller.{Pollfd, Poller, entry_at, set_entry, shift_loop, find_idx_loop}

pub entry_at-ok :
    (p : Poller) (i : ℕ) (e : Pollfd) → get_elem? p.pollfds i ≡ some e → entry_at i p ≡ ok e p
unfolding entry_at
entry_at-ok p i e f = rw (f, entry_at)

set_entry-ok :
    (p : Poller) (i : ℕ) (e : Pollfd)
    → i < length p.pollfds
    → set_entry i e p ≡ ok tt (record p { pollfds = set p.pollfds i e })
unfolding set_entry
set_entry-ok p i e m = rw (lt→ltb _ _ m)

-- The entries from `i` on, `r` of them, have moved down by one.
pub record Shifted (r i : ℕ) (p q : Poller) : Type 0 where
  pub num_pollfds : q.num_pollfds ≡ p.num_pollfds
  pub idx_iterator : q.idx_iterator ≡ p.idx_iterator
  pub closed : q.closed ≡ p.closed
  pub whole : length q.pollfds ≡ length p.pollfds
  pub entries :
      (j : ℕ)
      → get_elem? q.pollfds j ≡ (
          if ltb j i
          then get_elem? p.pollfds j
          else if ltb j (i + r)
          then get_elem? p.pollfds (j + 1)
          else get_elem? p.pollfds j)

pub shift_loop-Shifted :
    (r i : ℕ) (p : Poller) → i + r < length p.pollfds → Ends (λ _. Shifted r i p) (shift_loop r i p)
unfolding shift_loop
shift_loop-Shifted zero i p m = ends (record {
  num_pollfds = refl;
  idx_iterator = refl;
  closed = refl;
  whole = refl;
  entries = λ j. ground arith;
})
shift_loop-Shifted (suc r) i p m =
    let (e, f) = get_elem?-lt p.pollfds (i + 1) (omega arith) in
    let q : Poller = record p { pollfds = set p.pollfds i e } in
    rw (entry_at-ok p (i + 1) e f, set_entry-ok p i e (omega arith))
      (Ends-mono (shift_loop-Shifted r (i + 1) q (omega (arith, length-set p.pollfds i e)))
        λ _ g sh. record {
          num_pollfds = sh.num_pollfds;
          idx_iterator = sh.idx_iterator;
          closed = sh.closed;
          whole = sh.whole ∙ length-set p.pollfds i e;
          entries = λ j. ground (
            arith,
            sh.entries j,
            get_elem?-set p.pollfds i j e (omega arith),
            get_elem?-set p.pollfds i (j + 1) e (omega arith),
            f,
          );
        })

-- No entry from `i` up to `n` has the descriptor.
abbrev pub Nowhere : ℕ → Poller → ℕ → ℕ → Type 0
Nowhere fd p i n = (j : ℕ) (e : Pollfd) → i ≤ j → j < n → get_elem? p.pollfds j ≡ some e → e.fd ≢ fd

-- `k` is the first entry from `i` up to `n` that has it.
pub record FirstAt (fd : ℕ) (p : Poller) (i n k : ℕ) : Type 0 where
  pub from : i ≤ k
  pub below : k < n
  pub entry : Pollfd
  pub there : get_elem? p.pollfds k ≡ some entry
  pub hit : entry.fd ≡ fd
  pub first : Nowhere fd p i k

abbrev pub Search : ℕ → Poller → ℕ → ℕ → Option ℕ → Type 0
Search fd p i n none = Nowhere fd p i n
Search fd p i n (some k) = FirstAt fd p i n k

module _ (fd : ℕ) (p : Poller) where
  extend :
      (i n : ℕ) (e : Pollfd) (o : Option ℕ)
      → get_elem? p.pollfds i ≡ some e
      → e.fd ≢ fd
      → Search fd p (i + 1) n o
      → Search fd p i n o
  extend i n e none f miss rest = λ j d from below g. elim (Bool-cases (i == j)) [
    | inl here ↦ ground arith
    | inr there ↦ rest j d (ground arith) below g
  ]
  extend i n e (some k) f miss rest = record {
    from = omega (arith, rest.from);
    below = rest.below;
    entry = rest.entry;
    there = rest.there;
    hit = rest.hit;
    first = λ j d from below g. elim (Bool-cases (i == j)) [
      | inl here ↦ ground arith
      | inr there ↦ rest.first j d (ground arith) below g
    ];
  }

  pub find_idx_loop-Search :
      (r i : ℕ)
      → i + r ≤ length p.pollfds
      → (o : Option ℕ) × (find_idx_loop fd r i p ≡ ok o p) × Search fd p i (i + r) o
  unfolding find_idx_loop
  find_idx_loop-Search zero i m = (none, refl, λ j e from below g. absurd (omega arith))
  find_idx_loop-Search (suc r) i m =
      let (e, f) = get_elem?-lt p.pollfds i (omega arith) in
      elim (Bool-cases (e.fd == fd)) [
        | inl hit ↦ (
          some i,
          rw (entry_at-ok p i e f, hit),
          record {
            from = omega arith;
            below = omega arith;
            entry = e;
            there = f;
            hit = ground arith;
            first = λ j d from below g. absurd (omega arith);
          },
        )
        | inr miss ↦
            let (o, run, s) = find_idx_loop-Search r (i + 1) (omega arith) in
            let n : i + 1 + r ≡ i + suc r = omega arith in
            (
              o,
              rw (entry_at-ok p i e f, miss) run,
              extend i (i + suc r) e o f (ground arith) (subst (λ t. Search fd p (i + 1) t o) n s),
            )
      ]
