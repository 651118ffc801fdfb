-- ===== src/Server/Broker/Turns.antt =====
-- server.c against its specification: the inner loop of run_server().
use tcp_udp_client_server.Base.{
  ◌≡◌, ◌∙◌, refl, ap, ℕ, Option, none, some, List, [], ◌∷◌, ◌<◌, ◌≤◌, ◌+◌, get_elem?, length, arith,
}
use tcp_udp_client_server.Outcome.{
  Outcome, ok, exited, fault, starved, Cmd, pure, ◌>>◌, then_run, Ends, ends, Yields, returned,
}
use tcp_udp_client_server.Poller.{Poller, max_connections}
use tcp_udp_client_server.Poller.Next.{Answer, Event}
use tcp_udp_client_server.Poller.Slots.{IsValid}
use tcp_udp_client_server.Poller.Watched.{watched, next-watched}
use tcp_udp_client_server.Server.{
  Server, Answers, keep_poller, on_poller, handle_event, events_loop,
}
use tcp_udp_client_server.Server.Broker.{Verdict, undefined, exits, becomes, Broker, event}
use tcp_udp_client_server.Server.Broker.Moves.{handle_event-Moved, Moved-forward}
use tcp_udp_client_server.Server.Broker.Loop.{
  Moved, Serves, quiet, stops, serves, by_fault, by_exit,
}
use tcp_udp_client_server.Server.Broker.Datagrams.{IsSized}
use tcp_udp_client_server.Server.Broker.Refinement.{handle_event-Refines}
use tcp_udp_client_server.Server.Broker.Represents.{broker_of, Represents, Refines}
use tcp_udp_client_server.Server.Invariant.Runs.{ServedAt, Served}

unfoldable pub AllSized : List Answers → Type 0
AllSized [] = Unit {0}
AllSized (a ∷ rest) = IsSized a × AllSized rest

-- The entry of an event is there behind it.
module _ (p : Poller) (fd : ℕ) (q : Poller) (ev : Event p fd q) where
  same_there : get_elem? q.pollfds ev.k ≡ some ev.entry
  same_there = rw ev.after ev.there

  same_below : ev.k < q.num_pollfds
  same_below = rw ev.after ev.below

module _ (udp_fd tcp_fd : ℕ) where
  -- The run does what one of the verdicts says.
  abbrev pub Follows : (Verdict Broker → Type 0) → Outcome Server (Unit {0}) → Type 0
  Follows allowed r = (v : Verdict Broker) × allowed v × Refines (Represents udp_fd tcp_fd) v r

  -- An event, and then the others.
  then_others :
      (a : Answers) (rest : List Answers) (fd : ℕ) (b : Broker) (v : Verdict Broker)
      (r : Outcome Server (Unit {0})) (loop : Cmd Server (Unit {0})) (p q : Poller)
      → Event p fd q
      → event udp_fd tcp_fd a fd b ≡ v
      → Refines (Represents udp_fd tcp_fd) v r
      → Yields (λ _. Served rest) r
      → Yields (λ _ t. Moved fd q t.poller) r
      → ((c : Broker) (s : Server)
          → Represents udp_fd tcp_fd c s
          → Served rest s
          → q.idx_iterator ≤ s.poller.idx_iterator
          → Follows (Serves udp_fd tcp_fd rest s.poller c) (loop s))
      → Follows (Serves udp_fd tcp_fd (a ∷ rest) p b) (then_run r (λ _. loop))
  then_others a rest fd b undefined r loop p q w e f y fw later =
      (undefined, stops fd q w e by_fault, rw f refl)
  then_others a rest fd b (exits code) r loop p q w e (s, f) y fw later =
      (exits code, stops fd q w e by_exit, (s, rw f refl))
  then_others a rest fd b (becomes c) (ok u s) loop p q w e (ends rep) y fw later =
      let moved = returned fw in
      let (v, g, f) = later c s rep (returned y) (Moved-forward fd q s.poller moved) in
      (v, serves fd q s.poller w e moved (ap (λ (d : Broker). d.watched) rep.same) g, f)
  then_others a rest fd b (becomes c) (exited code s) loop p q w e f y fw later = elim f [ ]
  then_others a rest fd b (becomes c) fault loop p q w e f y fw later = elim f [ ]
  then_others a rest fd b (becomes c) starved loop p q w e f y fw later = elim f [ ]

  -- What the iterator answers, and then the event.
  turn :
      (a : Answers) (rest : List Answers) (loop : Cmd Server (Unit {0})) (p : Poller)
      → IsSized a
      → max_connections < p.idx_iterator + length (a ∷ rest)
      → ((c : Broker) (s : Server)
          → Represents udp_fd tcp_fd c s
          → Served rest s
          → 0 < length rest
          → max_connections < s.poller.idx_iterator + length rest
          → Follows (Serves udp_fd tcp_fd rest s.poller c) (loop s))
      → (b : Broker) (o : Option ℕ) (s : Server) → Represents udp_fd tcp_fd b s
      → Answer p o s.poller
      → ((fd : ℕ)
          → o ≡ some fd
          → (p.idx_iterator < s.poller.idx_iterator) × (s.poller.idx_iterator ≤ max_connections))
      → ServedAt a (Served rest) o s
      → Follows (Serves udp_fd tcp_fd (a ∷ rest) p b) (
          (elim o as (λ _. Cmd Server (Unit {0})) [
            | none ↦ pure tt
            | some fd ↦ (handle_event a fd >> loop)
          ])
            s)
  turn a rest loop p z enough later b none s rep (left, same, m) w served =
      (becomes b, quiet left, ends rep)
  turn a rest loop p z enough later b (some fd) s rep ev w (new, new', more) =
      let (on, most) = w fd refl in
      then_others a rest fd b (event udp_fd tcp_fd a fd b) (handle_event a fd s) loop p s.poller ev
        refl (handle_event-Refines udp_fd tcp_fd a fd b s rep new new' z) more
        (handle_event-Moved s.poller rep.sound.poller fd ev.k ev.entry (same_there p fd s.poller ev)
          (same_below p fd s.poller ev) ev.is a s refl)
        λ c t rep' served' further. later c t rep' served' (omega arith) (omega arith)

  -- A poller that watches the same, in the state of the server.
  pub same_watched :
      {b : Broker} {s : Server} (p : Poller)
      → Represents udp_fd tcp_fd b s
      → IsValid p
      → watched p ≡ watched s.poller
      → Represents udp_fd tcp_fd b (record s { poller = p })
  same_watched {s} p rep v e = record {
    sound = record { poller = v; tcp_server = rep.sound.tcp_server };
    udp = rep.udp;
    tcp = rep.tcp;
    same =
        ap (λ (l : List ℕ). record { watched = l; desk = (broker_of s rep.sound).desk }) e
        ∙ rep.same;
  }

  next_turn :
      (a : Answers) (rest : List Answers) (b : Broker) (s : Server) (r : Outcome Poller (Option ℕ))
      (k : Option ℕ → Cmd Server (Unit {0}))
      → Represents udp_fd tcp_fd b s
      → Ends
          (λ o q.
            Answer s.poller o q
            × IsValid q
            × (watched q ≡ watched s.poller)
            × ((fd : ℕ)
                → o ≡ some fd
                → (s.poller.idx_iterator < q.idx_iterator) × (q.idx_iterator ≤ max_connections)))
          r
      → Yields (ServedAt a (Served rest)) (keep_poller s r)
      → ((o : Option ℕ) (t : Server)
          → Represents udp_fd tcp_fd b t
          → Answer s.poller o t.poller
          → ((fd : ℕ)
              → o ≡ some fd
              → (s.poller.idx_iterator < t.poller.idx_iterator)
                × (t.poller.idx_iterator ≤ max_connections))
          → ServedAt a (Served rest) o t
          → Follows (Serves udp_fd tcp_fd (a ∷ rest) s.poller b) (k o t))
      → Follows (Serves udp_fd tcp_fd (a ∷ rest) s.poller b) (then_run (keep_poller s r) k)
  next_turn a rest b s r k rep (ends {a = o} {s = q} (ans, v, e, w)) served h =
      h o _ (same_watched q rep v e) ans w (returned served)

  pub events_loop-Follows :
      (turns : List Answers) (b : Broker) (s : Server)
      → AllSized turns
      → 0 < length turns
      → max_connections < s.poller.idx_iterator + length turns
      → Represents udp_fd tcp_fd b s
      → Served turns s
      → Follows (Serves udp_fd tcp_fd turns s.poller b) (events_loop turns s)
  unfolding events_loop Served AllSized on_poller
  events_loop-Follows [] b s z some_left enough rep served = absurd (omega arith)
  events_loop-Follows (a ∷ rest) b s (z, more) some_left enough rep served =
      next_turn a rest b s _ _ rep (next-watched s.poller rep.sound.poller) served (
        turn a rest (events_loop rest) s.poller z enough
          (λ c t rep' served' left enough'.
            events_loop-Follows rest c t more left enough' rep' served')
          b)
