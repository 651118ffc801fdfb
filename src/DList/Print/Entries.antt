-- ===== src/DList/Print/Entries.antt =====
-- What clients_list_print() and subscriptions_print() print of a well-formed list.
use tcp_udp_client_server.Base.{
  ℕ, zero, suc, ◌≡◌, ◌≢◌, ◌<◌, ◌+◌, refl, false, Option, none, some, List, [], ◌∷◌, ◌==◌, arith,
  length, ==_refl,
}
use tcp_udp_client_server.DList.{Ptr, null, Store, Node, node, Kind, load, write, remove}
use tcp_udp_client_server.DList.Access.{node_destroy-ok}
use tcp_udp_client_server.DList.Removal.{is_head-eq}
use tcp_udp_client_server.DList.Print.{Entry, told, node_print, print_loop, print_all}
use tcp_udp_client_server.DList.Shape.{Cells, bodies, At, At-ne, load-At, Chain, nil, cons, IsList}
use tcp_udp_client_server.Outcome.{ok, fault, then_run}

module _ {D N : Type 0} (tell : D → N) where
  unfoldable pub front : List D → Option N
  front [] = none
  front (d ∷ l) = some (tell d)

  -- The entries of a list, from the index `i` on, where `prev` is told of the node before it.
  unfoldable pub entries : (i : ℕ) → (prev : Option N) → List D → List (Entry D N)
  entries i prev [] = []
  entries i prev (d ∷ l) =
      record { idx = i; body = d; prev = prev; next = front l } ∷ entries (i + 1) (some (tell d)) l

  told-front :
      {h : Store D} {pre p : Ptr} {xs : Cells D}
      → Chain h pre p xs
      → told tell p h ≡ ok (front (bodies xs)) h
  unfolding told front
  told-front (nil e) = rw e refl
  told-front (cons e out c) = rw (At-ne e, load-At e) refl

  told-At :
      {h : Store D} {p : Ptr} {n : Node D} → At h p n → told tell p h ≡ ok (some (tell n.body)) h
  unfolding told
  told-At e = rw (At-ne e, load-At e) refl

  print_loop-entries :
      (k : ℕ) (i : ℕ) (prev : Option N) {h : Store D} {pre p : Ptr} {xs : Cells D}
      → Chain h pre p xs
      → told tell pre h ≡ ok prev h
      → length xs < k
      → print_loop tell k p i h ≡ ok (entries i prev (bodies xs)) h
  unfolding print_loop node_print entries
  print_loop-entries zero i prev c t m = absurd (omega arith)
  print_loop-entries (suc k) i prev (nil e) t m = rw e refl
  print_loop-entries (suc k) i prev {p} (cons {d} e out c) t m =
      rw
        (
          At-ne e,
          load-At e,
          t,
          then_run,
          told-front c,
          then_run,
          load-At e,
          then_run,
          print_loop-entries k (i + 1) (some (tell d)) c (told-At e) (omega arith),
        )
        refl

  -- A well-formed list whose first node has no node before it: the print returns, changes nothing, and has one entry
  -- for each node, in order, with its index and what is told of its two neighbours.
  pub print_all-entries :
      {h : Store D} {head : Ptr} {xs : Cells D}
      → IsList h head xs
      → Chain h null head xs
      → print_all tell head h ≡ ok (entries 0 none (bodies xs)) h
  unfolding print_all front
  print_all-entries {h} is c =
      print_loop-entries (h.live + 1) 0 none c (told-front {pre = null} (nil refl))
        (omega (arith, is.count))

  -- Where the node before the first one has been freed, the print reads it.
  load-freed : (h : Store D) (p : Ptr) → h.cell p ≡ none → load p h ≡ fault
  unfolding load
  load-freed h p gone = ground arith

  told-freed : (h : Store D) (p : Ptr) → p ≢ null → h.cell p ≡ none → told tell p h ≡ fault
  unfolding told
  told-freed h p ne gone =
      let there : (p == null) ≡ false = ground arith in rw (there, load-freed h p gone) refl

  freed_before :
      {h : Store D} {pre p q : Ptr} {d : D}
      → At h p (node d pre q)
      → pre ≢ null
      → h.cell pre ≡ none
      → print_all tell p h ≡ fault
  unfolding print_all print_loop node_print
  freed_before {h} {pre} at ne gone =
      let more : h.live + 1 ≡ suc h.live = omega arith in
      rw (more, At-ne at, load-At at, then_run, told-freed h pre ne gone) refl

  removed :
      (kind : Kind D) {h : Store D} {pre head a b : Ptr} {c d : D} {xs : Cells D}
      → Chain h pre head ((a, c) ∷ (b, d) ∷ xs)
      → then_run (remove kind head head h) (print_all tell) ≡ fault
  unfolding remove write
  removed kind {head} (cons e out (cons {q} {d} e' out' rest)) =
      rw
        (
          At-ne e,
          is_head-eq kind (cons e out (cons e' out' rest)) (ground arith) e,
          ==_refl head,
          load-At e,
          node_destroy-ok kind e,
          then_run,
        )
        (freed_before {q = q} {d = d}
          (record { ne_null = e'.ne_null; holds = ground (arith, e'.holds) }) e.ne_null
          (ground arith))

  -- A well-formed list of two nodes or more: after the removal of the first one, which leaves the pointer of the
  -- second to it, the print of the list is undefined behaviour.
  pub print_all-remove :
      (kind : Kind D) {h : Store D} {head p : Ptr} {c d : D} {xs : Cells D}
      → IsList h head ((head, c) ∷ (p, d) ∷ xs)
      → then_run (remove kind head head h) (print_all tell) ≡ fault
  print_all-remove kind is = removed kind is.chain
