-- ===== src/Clients/Changes.antt =====
-- The operations of the client list that change it.
use tcp_udp_client_server.Base.{
  ◌≡◌, ◌≢◌, ℕ, ◌⊎◌, inl, inr, true, false, some, none, arith, ◌==◌, if◌then◌else◌, ◌<◌, length,
  lt→ltb, ==_ne, Bool-cases,
}
use tcp_udp_client_server.CString.{Bytes}
use tcp_udp_client_server.Clients.{
  Client, Clients, client_kind, id_maxlen, has_fd, client_node_create, clients_list_add_client,
  clients_list_remove_client, clients_list_remove_client_by_fd, clients_list_update_client_by_fd,
  set_state_and_id,
}
use tcp_udp_client_server.Clients.Lookup.{find_by_fd-ok}
use tcp_udp_client_server.DList.{Ptr, null}
use tcp_udp_client_server.DList.Insert.{IsFresh, Inserted, insert-IsList}
use tcp_udp_client_server.DList.Removal.{
  payload-At, is_last, Removed, At-head, remove-erase, remove-is_last,
}
use tcp_udp_client_server.DList.Search.{find_first, first_body}
use tcp_udp_client_server.DList.Shape.{Cells, IsList, load-At}
use tcp_udp_client_server.DList.Unlink.{erase}
use tcp_udp_client_server.DList.Update.{replace, set_body-IsList}
use tcp_udp_client_server.DList.View.{
  find_first-payload, find_first-null, first_body-erase, first_body-replace,
  first_body-replace_self,
}
use tcp_udp_client_server.Outcome.{ok, fault, Ends, ◌>>=◌, Cmd}

-- A new node in front of the list, as TCP_server_accept_connection() makes one.
abbrev pub enlist : (head fresh : Ptr) → Client → Cmd Clients Ptr
enlist head fresh c = do
  client ← client_node_create fresh c.state c.fd c.id c.ip c.port
  clients_list_add_client head client

module _ {h : Clients} {head : Ptr} {xs : Cells Client} (is : IsList h head xs) where
  -- Of a well-formed list, a fresh address and an id that fits its array: the run returns, the list is
  -- well-formed, the created client stands first at the fresh address, the other clients are as they
  -- were, and no descriptor is closed.
  pub add_client-IsList :
      (fresh : Ptr) (c : Client)
      → IsFresh h fresh
      → length c.id < id_maxlen
      → Ends (Inserted h fresh c xs) (enlist head fresh c h)
  unfolding client_node_create clients_list_add_client
  add_client-IsList fresh c new short = rw (lt→ltb _ _ short) (insert-IsList c new is)

  -- A descriptor that no client has is refused, and nothing changes.
  pub remove_by_fd-absent :
      (fd : ℕ)
      → first_body (has_fd fd) xs ≡ none
      → clients_list_remove_client_by_fd head fd h ≡ ok head h
  unfolding clients_list_remove_client_by_fd
  remove_by_fd-absent fd f = elim (Bool-cases (head == null)) [
    | inl z ↦ rw z
    | inr nz ↦ rw (nz, find_by_fd-ok is fd, find_first-null (has_fd fd) xs f)
  ]

  module _ (fd : ℕ) {c : Client} (f : first_body (has_fd fd) xs ≡ some c) where
    pub found-ne : (find_first (has_fd fd) xs == null) ≡ false
    found-ne = ==_ne _ _ (find_first-payload (has_fd fd) is.chain f).0

    pub list-ne : (head == null) ≡ false
    list-ne =
        let (ne, p, t) = find_first-payload (has_fd fd) is.chain f in
        let (r, q, at, i) = payload-At _ is.chain p in ==_ne head null (At-head _ is.chain i)

    -- A client found by its descriptor in a well-formed list, at the head or not in the last place: the
    -- run returns, the list is well-formed without that node, and the client's descriptor is closed.
    pub remove_by_fd-erase :
        (head ≡ find_first (has_fd fd) xs) ⊎ (is_last (find_first (has_fd fd) xs) xs ≡ false)
        → Ends
            (Removed client_kind h xs (find_first (has_fd fd) xs) c)
            (clients_list_remove_client_by_fd head fd h)
    unfolding clients_list_remove_client_by_fd clients_list_remove_client
    remove_by_fd-erase place =
        rw (list-ne, find_by_fd-ok is fd, found-ne)
          (remove-erase client_kind _ is (find_first-payload (has_fd fd) is.chain f).1 place)

    -- A client found by its descriptor in a well-formed list, in the last place and not at the head: the
    -- removal is undefined behaviour.
    pub remove_by_fd-is_last :
        head ≢ find_first (has_fd fd) xs
        → is_last (find_first (has_fd fd) xs) xs ≡ true
        → clients_list_remove_client_by_fd head fd h ≡ fault
    unfolding clients_list_remove_client_by_fd clients_list_remove_client
    remove_by_fd-is_last ne last =
        rw (list-ne, find_by_fd-ok is fd, found-ne) (remove-is_last client_kind _ is last ne)

    -- The other clients answer as before.
    pub erase-other :
        (other : ℕ)
        → other ≢ fd
        → first_body (has_fd other) (erase (find_first (has_fd fd) xs) xs)
          ≡ first_body (has_fd other) xs
    erase-other other ne =
        let (found, p, t) = find_first-payload (has_fd fd) is.chain f in
        first_body-erase (has_fd other) _ xs p (ground arith)

    -- The client's state and id after an update.
    abbrev pub updated : ℕ → Bytes → Client
    updated state id = record c { state = state; id = id }

    -- A client found by its descriptor in a well-formed list, and an id that fits its array: the run
    -- returns, the list is well-formed, only that client has changed, to the state and the id given,
    -- and no descriptor is closed.
    pub update_by_fd-replace :
        (state : ℕ) (id : Bytes)
        → length id < id_maxlen
        → Ends
            (λ _ g.
              IsList g head (replace (find_first (has_fd fd) xs) (updated state id) xs)
              × (g.closed ≡ h.closed))
            (clients_list_update_client_by_fd head fd state id h)
    unfolding clients_list_update_client_by_fd set_state_and_id
    update_by_fd-replace state id short =
        let (ne, p, t) = find_first-payload (has_fd fd) is.chain f in
        let (r, q, at, i) = payload-At _ is.chain p in
        rw (find_by_fd-ok is fd, found-ne, lt→ltb _ _ short, load-At at)
          (set_body-IsList _ (updated state id) is p)

    -- What the searches by descriptor say after an update: the new client at its descriptor, and
    -- what they said before at every other.
    pub update-find :
        (state : ℕ) (id : Bytes) (other : ℕ)
        → first_body (has_fd other) (replace (find_first (has_fd fd) xs) (updated state id) xs)
          ≡ (if other == fd then some (updated state id) else first_body (has_fd other) xs)
    update-find state id other =
        let (ne, p, t) = find_first-payload (has_fd fd) is.chain f in
        elim (Bool-cases (other == fd)) [
          | inl hit ↦
              let same : other ≡ fd = ground arith in
              rw (hit, same) (first_body-replace_self (has_fd fd) (updated state id) is.chain f t)
          | inr miss ↦ rw miss (
              first_body-replace (has_fd other) _ (updated state id) xs p (ground arith)
                (ground arith))
        ]

  pub update_by_fd-absent :
      (fd state : ℕ) (id : Bytes)
      → first_body (has_fd fd) xs ≡ none
      → clients_list_update_client_by_fd head fd state id h ≡ ok tt h
  unfolding clients_list_update_client_by_fd
  update_by_fd-absent fd state id f = rw (find_by_fd-ok is fd, find_first-null (has_fd fd) xs f)
