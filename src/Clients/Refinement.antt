-- ===== src/Clients/Refinement.antt =====
-- The client list against its specification: a plain list of clients, the newest first, on which the calls of
-- TCP_server.c are functions, and the list of the descriptors that were closed.
use tcp_udp_client_server.Base.{
  ◌≡◌, ◌∙◌, ◌⊎◌, inl, inr, refl, ap, subst, ℕ, Bool, true, false, not, ◌&&◌, Option, none, some,
  List, [], ◌∷◌, ◌==◌, if◌then◌else◌, arith, ltb→lt,
}
use tcp_udp_client_server.Clients.{
  Client, Clients, id_maxlen, has_fd, client_node_create, clients_list_remove_client_by_fd,
  clients_list_update_client_by_fd, set_state_and_id,
}
use tcp_udp_client_server.Clients.Changes.{
  enlist, add_client-IsList, remove_by_fd-absent, remove_by_fd-erase, remove_by_fd-is_last,
  update_by_fd-absent, update_by_fd-replace,
}
use tcp_udp_client_server.Clients.Lookup.{find_by_fd-ok}
use tcp_udp_client_server.CString.{Bytes, fits}
use tcp_udp_client_server.DList.{Ptr, null}
use tcp_udp_client_server.DList.Abstract.{
  erase_first, update_first, any, in_front, at_end, bodies-erase, bodies-replace, find_first-at_end,
  find_first-in_front, erase_first-none, update_first-none, at_end-none, any-none, any-some,
}
use tcp_udp_client_server.DList.Insert.{IsFresh}
use tcp_udp_client_server.DList.Removal.{is_last}
use tcp_udp_client_server.DList.Search.{find_first, first_body}
use tcp_udp_client_server.DList.Shape.{Cells, IsList, bodies}
use tcp_udp_client_server.DList.View.{find_first-payload}
use tcp_udp_client_server.Outcome.{
  Outcome, ok, exited, fault, starved, Cmd, pure, ◌>>=◌, ◌>>◌, Ends, ends, Ends-mono, Ends-bind,
  Yields, returned, then_run,
}

-- The calls that change the list: accept, update, close.
pub data Call : Type 0 where
  connect : (fresh : Ptr) → Client → Call
  identify : (fd state : ℕ) → (id : Bytes) → Call
  disconnect : (fd : ℕ) → Call

unfoldable pub call : Call → (head : Ptr) → Cmd Clients Ptr
call (connect fresh c) head = enlist head fresh c
call (identify fd state id) head = do clients_list_update_client_by_fd head fd state id; pure head
call (disconnect fd) head = clients_list_remove_client_by_fd head fd

unfoldable pub calls : List Call → (head : Ptr) → Cmd Clients Ptr
calls [] head = pure head
calls (c ∷ cs) head = do head' ← call c head; calls cs head'

pub record Registry : Type 0 where
  pub members : List Client
  pub closed : List ℕ

abbrev pub named : ℕ → Bytes → Client → Client
named state id c = record c { state = state; id = id }

-- `none` is undefined behaviour: an id that does not fit, and the oldest of several clients leaving.
unfoldable pub spec : Call → Registry → Option Registry
spec (connect fresh c) r =
    if fits id_maxlen c.id then some (record r { members = c ∷ r.members }) else none
spec (identify fd state id) r =
    if fits id_maxlen id
    then some (record r { members = update_first (has_fd fd) (named state id) r.members })
    else if any (has_fd fd) r.members
    then none
    else some r
spec (disconnect fd) r =
    if at_end (has_fd fd) r.members && not (in_front (has_fd fd) r.members)
    then none
    else some (record {
      members = erase_first (has_fd fd) r.members;
      closed = if any (has_fd fd) r.members then fd ∷ r.closed else r.closed;
    })

unfoldable pub specs : List Call → Registry → Option Registry
specs [] r = some r
specs (c ∷ cs) r = elim (spec c r) [ none ↦ none | some r' ↦ specs cs r' ]

-- The linked list at `head` stands for the registry.
pub record Stands (r : Registry) (head : Ptr) (h : Clients) : Type 0 where
  pub cells : Cells Client
  pub list : IsList h head cells
  pub members : bodies cells ≡ r.members
  pub closed : h.closed ≡ r.closed

-- A run against what the specification says of it.
abbrev pub Refines : Option Registry → Outcome Clients Ptr → Type 0
Refines none run = run ≡ fault
Refines (some r) run = Ends (Stands r) run

-- malloc() gives an address that the list does not use.
abbrev pub Allocates : Call → Clients → Type 0
Allocates (connect fresh c) h = IsFresh h fresh
Allocates (identify fd state id) h = Unit {0}
Allocates (disconnect fd) h = Unit {0}

unfoldable pub AllAllocate : List Call → Ptr → Clients → Type 0
AllAllocate [] head h = Unit {0}
AllAllocate (c ∷ cs) head h = Allocates c h × Yields (AllAllocate cs) (call c head h)

module _ (h : Clients) (head : Ptr) (xs : Cells Client) (is : IsList h head xs) where
  abbrev registry : Registry
  registry = record { members = bodies xs; closed = h.closed }

  connect-Refines :
      (fresh : Ptr) (c : Client)
      → IsFresh h fresh
      → (b : Bool) → fits id_maxlen c.id ≡ b
      → Refines
          (if b then some (record registry { members = c ∷ bodies xs }) else none)
          (enlist head fresh c h)
  unfolding client_node_create
  connect-Refines fresh c new false e = rw e refl
  connect-Refines fresh c new true e =
      Ends-mono (add_client-IsList is fresh c new (ltb→lt _ _ e)) λ head' g (at, is', same).
        record { cells = (fresh, c) ∷ xs; list = is'; members = refl; closed = same }

  abbrev identified : ℕ → ℕ → Bytes → Outcome Clients Ptr
  identified fd state id =
      then_run (clients_list_update_client_by_fd head fd state id h) (λ _. pure head)

  unnamed :
      (fd state : ℕ) (id : Bytes)
      → first_body (has_fd fd) xs ≡ none
      → identified fd state id ≡ ok head h
  unnamed fd state id f = rw (update_by_fd-absent is fd state id f) refl

  long_name :
      (fd state : ℕ) (id : Bytes) {c : Client}
      → first_body (has_fd fd) xs ≡ some c
      → fits id_maxlen id ≡ false
      → identified fd state id ≡ fault
  unfolding clients_list_update_client_by_fd set_state_and_id
  long_name fd state id f e =
      let ne : (find_first (has_fd fd) xs == null) ≡ false =
        ground (arith, (find_first-payload (has_fd fd) is.chain f).0) in
      rw (find_by_fd-ok is fd, ne, e) refl

  renamed :
      (fd state : ℕ) (id : Bytes) (c : Client)
      → first_body (has_fd fd) xs ≡ some c
      → fits id_maxlen id ≡ true
      → Ends
          (Stands
            (record registry { members = update_first (has_fd fd) (named state id) (bodies xs) }))
          (identified fd state id)
  renamed fd state id c f e =
      Ends-bind (update_by_fd-replace is fd f state id (ltb→lt _ _ e)) λ _ g (is', same).
        ends (record {
          cells = _;
          list = is';
          members = bodies-replace (has_fd fd) {c = c} (named state id) is.chain f;
          closed = same;
        })

  identify-Refines :
      (fd state : ℕ) (id : Bytes)
      → (o : Option Client) → first_body (has_fd fd) xs ≡ o
      → (b : Bool) → fits id_maxlen id ≡ b
      → Refines (spec (identify fd state id) registry) (identified fd state id)
  unfolding spec
  identify-Refines fd state id none f true e =
      rw (e, update_first-none (has_fd fd) (named state id) xs f, unnamed fd state id f)
        (ends (record { cells = xs; list = is; members = refl; closed = refl }))
  identify-Refines fd state id none f false e =
      rw (e, any-none (has_fd fd) xs f, unnamed fd state id f)
        (ends (record { cells = xs; list = is; members = refl; closed = refl }))
  identify-Refines fd state id (some c) f true e = rw e (renamed fd state id c f e)
  identify-Refines fd state id (some c) f false e =
      rw (e, any-some (has_fd fd) xs f) (long_name fd state id f e)

  left :
      (fd : ℕ) (c : Client)
      → first_body (has_fd fd) xs ≡ some c
      → (head ≡ find_first (has_fd fd) xs) ⊎ (is_last (find_first (has_fd fd) xs) xs ≡ false)
      → Ends
          (Stands
            (record { members = erase_first (has_fd fd) (bodies xs); closed = fd ∷ h.closed }))
          (clients_list_remove_client_by_fd head fd h)
  left fd c f place =
      let hit : c.fd ≡ fd = ground (arith, (find_first-payload (has_fd fd) is.chain f).2) in
      Ends-mono (remove_by_fd-erase is fd f place) λ head' g (is', same). record {
        cells = _;
        list = is';
        members = bodies-erase (has_fd fd) {c = c} is.chain f;
        closed = same ∙ ap (λ n. n ∷ h.closed) hit;
      }

  found_left :
      (fd : ℕ) (c : Client)
      → first_body (has_fd fd) xs ≡ some c
      → (last : Bool) → is_last (find_first (has_fd fd) xs) xs ≡ last
      → (first : Bool) → (head == find_first (has_fd fd) xs) ≡ first
      → Refines
          (if last && not first
            then none
            else some
                (record { members = erase_first (has_fd fd) (bodies xs); closed = fd ∷ h.closed }))
          (clients_list_remove_client_by_fd head fd h)
  found_left fd c f false l first m = left fd c f (inr l)
  found_left fd c f true l true m = left fd c f (inl (ground arith))
  found_left fd c f true l false m = remove_by_fd-is_last is fd f (ground arith) l

  disconnect-Refines :
      (fd : ℕ)
      → (o : Option Client) → first_body (has_fd fd) xs ≡ o
      → Refines (spec (disconnect fd) registry) (clients_list_remove_client_by_fd head fd h)
  unfolding spec
  disconnect-Refines fd none f =
      rw
        (
          at_end-none (has_fd fd) xs f,
          erase_first-none (has_fd fd) xs f,
          any-none (has_fd fd) xs f,
          remove_by_fd-absent is fd f,
        )
        (ends (record { cells = xs; list = is; members = refl; closed = refl }))
  disconnect-Refines fd (some c) f =
      rw
        (
          any-some (has_fd fd) xs f,
          ← find_first-at_end (has_fd fd) {c = c} is.chain f,
          ← find_first-in_front (has_fd fd) {c = c} is.chain f,
        )
        (found_left fd c f _ refl _ refl)

  call-registry : (c : Call) → Allocates c h → Refines (spec c registry) (call c head h)
  unfolding call spec
  call-registry (connect fresh c) new = connect-Refines fresh c new _ refl
  call-registry (identify fd state id) new = identify-Refines fd state id _ refl _ refl
  call-registry (disconnect fd) new = disconnect-Refines fd _ refl

same_registry :
    (r : Registry) (ms : List Client) (ds : List ℕ)
    → ms ≡ r.members
    → ds ≡ r.closed
    → record { members = ms; closed = ds } ≡ r
same_registry r ms ds e f =
    ap (λ (m : List Client). record { members = m; closed = ds }) e
    ∙ ap (λ (d : List ℕ). record { members = r.members; closed = d }) f

call-Refines :
    (c : Call) (r : Registry) (head : Ptr) (h : Clients)
    → Stands r head h
    → Allocates c h
    → Refines (spec c r) (call c head h)
call-Refines c r head h st new =
    subst (λ q. Refines (spec c q) (call c head h))
      (same_registry r (bodies st.cells) h.closed st.members st.closed)
      (call-registry h head st.cells st.list c new)

then_calls :
    (cs : List Call) (o : Option Registry) (run : Outcome Clients Ptr)
    → Refines o run
    → Yields (AllAllocate cs) run
    → ((r : Registry) (head : Ptr) (h : Clients)
        → Stands r head h
        → AllAllocate cs head h
        → Refines (specs cs r) (calls cs head h))
    → Refines (elim o [ none ↦ none | some r ↦ specs cs r ]) (then_run run (calls cs))
then_calls cs none run e more rest = rw e refl
then_calls cs (some r) (ok head h) (ends st) more rest = rest r head h st (returned more)
then_calls cs (some r) (exited c h) e more rest = elim e [ ]
then_calls cs (some r) fault e more rest = elim e [ ]
then_calls cs (some r) starved e more rest = elim e [ ]

-- A linked list that stands for a registry, and any calls of the interface, where malloc() gives at every
-- connection an address that the list does not use: where the specification defines the registry after the
-- calls, the run of the code returns, in a linked list that stands for that registry; where it does not, the
-- run is undefined behaviour.
pub calls-Refines :
    (cs : List Call) (r : Registry) (head : Ptr) (h : Clients)
    → Stands r head h
    → AllAllocate cs head h
    → Refines (specs cs r) (calls cs head h)
unfolding specs calls AllAllocate
calls-Refines [] r head h st new = ends st
calls-Refines (c ∷ cs) r head h st (new, more) =
    then_calls cs (spec c r) (call c head h) (call-Refines c r head h st new) more
      (calls-Refines cs)
