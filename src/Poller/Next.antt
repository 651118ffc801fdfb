-- ===== src/Poller/Next.antt =====
-- poller_next_fd_with_POLLIN(): one call, and the calls of a whole round.
use tcp_udp_client_server.Base.{
  ℕ, ◌≡◌, ◌+◌, ◌-◌, ◌≤◌, ◌<◌, refl, inl, inr, none, some, Option, arith, leb, if◌then◌else◌,
  get_elem?, List, [], ◌∷◌, zero, suc, true, false, Bool-cases, ◌==◌, ◌∙◌, ap,
}
use tcp_udp_client_server.Outcome.{Cmd, ok, starved, pure, ◌>>=◌, Ends, ends, Ends-mono, Ends-bind}
use tcp_udp_client_server.Poller.{Pollfd, Poller, has_pollin, poller_next_fd_with_pollin}
use tcp_udp_client_server.Poller.Slots.{IsValid, slot-some}
use tcp_udp_client_server.Poller.Shift.{entry_at-ok}

abbrev pub at_index : Poller → ℕ → Poller
at_index p i = record p { idx_iterator = i }

module _ (p : Poller) where
  -- Past the last entry there is no event.
  pub next-end : p.num_pollfds ≤ p.idx_iterator → poller_next_fd_with_pollin p ≡ ok none p
  unfolding poller_next_fd_with_pollin
  next-end m =
      let z : p.num_pollfds - p.idx_iterator ≡ 0 = omega arith in
      let t : leb p.num_pollfds p.idx_iterator ≡ true = ground arith in rw (z, t)

  module _ (e : Pollfd) (f : get_elem? p.pollfds p.idx_iterator ≡ some e)
      (m : p.idx_iterator < p.num_pollfds) where
    more : p.num_pollfds - p.idx_iterator ≡ suc (p.num_pollfds - (p.idx_iterator + 1))
    more = omega arith

    -- An entry with an event is returned.
    pub next-hit :
        has_pollin e ≡ true
        → poller_next_fd_with_pollin p ≡ ok (some e.fd) (at_index p (p.idx_iterator + 1))
    unfolding poller_next_fd_with_pollin
    next-hit hit =
        let t : leb p.num_pollfds p.idx_iterator ≡ false = ground arith in
        rw (more, entry_at-ok p p.idx_iterator e f, hit, t, f)

    -- An entry without one is passed over.
    pub next-miss :
        has_pollin e ≡ false
        → poller_next_fd_with_pollin p
          ≡ poller_next_fd_with_pollin (at_index p (p.idx_iterator + 1))
    unfolding poller_next_fd_with_pollin
    next-miss miss = rw (more, entry_at-ok p p.idx_iterator e f, miss)

-- No entry from `i` up to `n` has an event.
abbrev pub Quiet : Poller → ℕ → ℕ → Type 0
Quiet p i n =
    (j : ℕ) (e : Pollfd) → i ≤ j → j < n → get_elem? p.pollfds j ≡ some e → has_pollin e ≡ false

-- The first entry with an event, at or after the iterator, is at `k`.
pub record Event (p : Poller) (fd : ℕ) (q : Poller) : Type 0 where
  pub k : ℕ
  pub from : p.idx_iterator ≤ k
  pub below : k < p.num_pollfds
  pub entry : Pollfd
  pub there : get_elem? p.pollfds k ≡ some entry
  pub hit : has_pollin entry ≡ true
  pub is : entry.fd ≡ fd
  pub first : Quiet p p.idx_iterator k
  pub after : q ≡ at_index p (k + 1)

-- What a call answers: the next event, or none up to the last entry. Nothing but the iterator moves.
abbrev pub Answer : Poller → Option ℕ → Poller → Type 0
Answer p (some fd) q = Event p fd q
Answer p none q =
    Quiet p p.idx_iterator p.num_pollfds
    × (q ≡ at_index p q.idx_iterator)
    × (p.num_pollfds ≤ q.idx_iterator)

Quiet-step :
    (p : Poller) (i n : ℕ) (e : Pollfd)
    → get_elem? p.pollfds i ≡ some e
    → has_pollin e ≡ false
    → Quiet p (i + 1) n
    → Quiet p i n
Quiet-step p i n e f miss rest = λ j d from below g. elim (Bool-cases (i == j)) [
  | inl here ↦ ground arith
  | inr there ↦ rest j d (ground arith) below g
]

Answer-step :
    (p : Poller) (e : Pollfd) (o : Option ℕ) (q : Poller)
    → get_elem? p.pollfds p.idx_iterator ≡ some e
    → has_pollin e ≡ false
    → Answer (at_index p (p.idx_iterator + 1)) o q
    → Answer p o q
Answer-step p e none q f miss (quiet, same, m) =
    (Quiet-step p p.idx_iterator p.num_pollfds e f miss quiet, same, m)
Answer-step p e (some fd) q f miss ev = record {
  k = ev.k;
  from = omega (arith, ev.from);
  below = ev.below;
  entry = ev.entry;
  there = ev.there;
  hit = ev.hit;
  is = ev.is;
  first = Quiet-step p p.idx_iterator ev.k e f miss ev.first;
  after = ev.after;
}

next_rounds :
    (r : ℕ) (p : Poller)
    → IsValid p
    → p.num_pollfds - p.idx_iterator ≡ r
    → Ends (Answer p) (poller_next_fd_with_pollin p)
next_rounds zero p v e =
    rw (next-end p (omega arith))
      (ends (λ j d from below g. absurd (omega arith), refl, omega arith))
next_rounds (suc r) p v e =
    let m : p.idx_iterator < p.num_pollfds = omega arith in
    let (d, f) = slot-some p p.idx_iterator v m in
    elim (Bool-cases (has_pollin d)) [
      | inl hit ↦ rw (next-hit p d f m hit) (
          ends (record {
            k = p.idx_iterator;
            from = omega arith;
            below = m;
            entry = d;
            there = f;
            hit = hit;
            is = refl;
            first = λ j d' from below g. absurd (omega arith);
            after = refl;
          }))
      | inr miss ↦ rw (next-miss p d f m miss) (
          Ends-mono
            (next_rounds r (at_index p (p.idx_iterator + 1))
              (record { whole = v.whole; room = v.room }) (omega arith))
            λ o q a. Answer-step p d o q f miss a)
    ]

-- On a valid poller a call returns: the first entry with an event at or after the iterator, and the iterator
-- has moved behind it; or -1 if no entry from there on has an event.
pub next-Answer : (p : Poller) → IsValid p → Ends (Answer p) (poller_next_fd_with_pollin p)
next-Answer p v = next_rounds (p.num_pollfds - p.idx_iterator) p v refl

-- The calls of a round in which nothing is added or removed, until one answers -1.
unfoldable pub events_loop : ℕ → Cmd Poller (List ℕ)
events_loop zero = λ _. starved
events_loop (suc k) = do
  o ← poller_next_fd_with_pollin
  elim o [ none ↦ pure [] | some fd ↦ do fds ← events_loop k; pure (fd ∷ fds) ]

-- The descriptors with an event among `r` entries from `i` on.
unfoldable pub ready : (r i : ℕ) → List Pollfd → List ℕ
ready zero i es = []
ready (suc r) i es = elim (get_elem? es i) [
  | none ↦ []
  | some e ↦ if has_pollin e then e.fd ∷ ready r (i + 1) es else ready r (i + 1) es
]

ready-zero : (i : ℕ) (es : List Pollfd) → [] ≡ ready zero i es
unfolding ready
ready-zero i es = refl

ready-some :
    (r i : ℕ) (es : List Pollfd) (e : Pollfd)
    → get_elem? es i ≡ some e
    → ready (suc r) i es ≡ (if has_pollin e then e.fd ∷ ready r (i + 1) es else ready r (i + 1) es)
unfolding ready
ready-some r i es e f = rw (f, ready)

events_rounds :
    (r k : ℕ) (p : Poller)
    → IsValid p
    → p.num_pollfds - p.idx_iterator ≡ r
    → r < k
    → Ends (λ fds _. fds ≡ ready r p.idx_iterator p.pollfds) (events_loop k p)
unfolding events_loop
events_rounds r zero p v e less = absurd (omega arith)
events_rounds zero (suc k) p v e less =
    rw (next-end p (omega arith)) (ends (ready-zero p.idx_iterator p.pollfds))
events_rounds (suc r) (suc k) p v e less =
    let m : p.idx_iterator < p.num_pollfds = omega arith in
    let (d, f) = slot-some p p.idx_iterator v m in
    let next : Poller = at_index p (p.idx_iterator + 1) in
    let nv : IsValid next = record { whole = v.whole; room = v.room } in
    elim (Bool-cases (has_pollin d)) [
      | inl hit ↦ rw (next-hit p d f m hit) (
          Ends-bind (events_rounds r k next nv (omega arith) (omega arith))
            λ fds q is. ends (rw (ready-some r p.idx_iterator p.pollfds d f, hit, is)))
      | inr miss ↦ rw (next-miss p d f m miss) (
          Ends-mono (events_rounds r (suc k) next nv (omega arith) (omega arith))
            λ fds q is. rw (ready-some r p.idx_iterator p.pollfds d f, miss) is)
    ]

-- On a valid poller whose iterator is at the start, as many calls as there are entries and one more: they
-- end with -1, and return the descriptors of the entries with an event, each once and in order.
pub events-ready :
    (k : ℕ) (p : Poller)
    → IsValid p
    → p.idx_iterator ≡ 0
    → p.num_pollfds < k
    → Ends (λ fds _. fds ≡ ready p.num_pollfds 0 p.pollfds) (events_loop k p)
events-ready k p v start less =
    Ends-mono (events_rounds p.num_pollfds k p v (omega arith) less)
      λ fds q is. is ∙ ap (λ i. ready p.num_pollfds i p.pollfds) start
