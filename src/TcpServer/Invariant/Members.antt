-- ===== src/TcpServer/Invariant/Members.antt =====
-- TCP_server.c: the operations on the client list keep the lists of the server well-formed.
use tcp_udp_client_server.Base.{
  ◌<◌, ◌≡◌, refl, sym, subst, ℕ, ◌⊎◌, inl, inr, Bool, true, false, not, Option, none, some, ◌∷◌,
  ◌==◌, length, arith, ltb→lt,
}
use tcp_udp_client_server.Clients.{
  Client, Clients, id_maxlen, has_fd, has_id, client_state_connected,
  clients_list_remove_client_by_fd, clients_list_update_client_by_fd,
}
use tcp_udp_client_server.Clients.Changes.{
  remove_by_fd-absent, remove_by_fd-erase, remove_by_fd-is_last, update_by_fd-absent,
  update_by_fd-replace,
}
use tcp_udp_client_server.Clients.Ids.{
  AreDistinct, nameless-AreDistinct, erase-AreDistinct, replace-AreDistinct,
}
use tcp_udp_client_server.CString.{Bytes}
use tcp_udp_client_server.DList.{Ptr, null}
use tcp_udp_client_server.DList.Insert.{IsFresh}
use tcp_udp_client_server.DList.Removal.{is_last}
use tcp_udp_client_server.DList.Search.{find_first, first_body, find_first-none}
use tcp_udp_client_server.DList.Shape.{Cells, IsList}
use tcp_udp_client_server.DList.Unlink.{erase}
use tcp_udp_client_server.Outcome.{
  Cmd, Ends-mono, Yields, returns, faults, Yields-bind, Yields-if, Ends-Yields, then_run,
}
use tcp_udp_client_server.Packets.{tcp_msg_new}
use tcp_udp_client_server.TcpServer.{
  client_already_connected, TcpServer, Accepted, on_clients, tcp_server_accept_connection,
  tcp_server_update_client, tcp_server_client_exists,
}
use tcp_udp_client_server.TcpServer.Accepting.{accept_connection-IsList, accepted_client}
use tcp_udp_client_server.TcpServer.Invariant.{
  with_notice, IsWellFormed, with_members, keep_clients-Yields, string_of-Yields, strcpy-Yields,
}
use tcp_udp_client_server.TcpServer.Updating.{exists-ok}

pub accept_connection-IsWellFormed :
    (s : TcpServer) (a : Option Accepted) (fresh : Ptr)
    → IsWellFormed s
    → IsFresh s.clients fresh
    → Yields (λ _. IsWellFormed) (tcp_server_accept_connection a fresh s)
unfolding tcp_server_accept_connection
accept_connection-IsWellFormed s none fresh w new = returns w
accept_connection-IsWellFormed s (some a) fresh w new = Ends-Yields (
    Ends-mono (accept_connection-IsList s a fresh w.members_list new) λ o t (e, (at, is, c), same).
      subst IsWellFormed (sym same) (
        with_members s t.clients t.connected_clients ((fresh, accepted_client a) ∷ w.members) w is
          (nameless-AreDistinct fresh (accepted_client a) w.members refl w.distinct)))

module _ {h : Clients} {head : Ptr} {xs : Cells Client} (is : IsList h head xs)
    (d : AreDistinct xs) where
  -- A list again, with distinct ids.
  abbrev pub Kept : Ptr → Clients → Type 0
  Kept head g = (ys : Cells Client) × IsList g head ys × AreDistinct ys

  removed_place :
      (fd : ℕ) {c : Client}
      → first_body (has_fd fd) xs ≡ some c
      → (head ≡ find_first (has_fd fd) xs) ⊎ (is_last (find_first (has_fd fd) xs) xs ≡ false)
      → Yields Kept (clients_list_remove_client_by_fd head fd h)
  removed_place fd f place = Ends-Yields (
      Ends-mono (remove_by_fd-erase is fd f place) λ head' g (is', closed).
        (erase (find_first (has_fd fd) xs) xs, is', erase-AreDistinct _ xs d))

  removed_found :
      (fd : ℕ) {c : Client}
      → first_body (has_fd fd) xs ≡ some c
      → (last : Bool) → is_last (find_first (has_fd fd) xs) xs ≡ last
      → (first : Bool) → (head == find_first (has_fd fd) xs) ≡ first
      → Yields Kept (clients_list_remove_client_by_fd head fd h)
  removed_found fd f false l first m = removed_place fd f (inr l)
  removed_found fd f true l true m = removed_place fd f (inl (ground arith))
  removed_found fd f true l false m = rw (remove_by_fd-is_last is fd f (ground arith) l) faults

  removed :
      (fd : ℕ) (o : Option Client)
      → first_body (has_fd fd) xs ≡ o
      → Yields Kept (clients_list_remove_client_by_fd head fd h)
  removed fd none f = rw (remove_by_fd-absent is fd f) (returns (xs, is, d))
  removed fd (some c) f = removed_found fd f _ refl _ refl

  pub remove_by_fd-Kept : (fd : ℕ) → Yields Kept (clients_list_remove_client_by_fd head fd h)
  remove_by_fd-Kept fd = removed fd _ refl

  updated_at :
      (fd : ℕ) (id : Bytes) (o : Option Client)
      → length id < id_maxlen
      → first_body (has_id id) xs ≡ none
      → first_body (has_fd fd) xs ≡ o
      → Yields
          (λ _. Kept head)
          (clients_list_update_client_by_fd head fd client_state_connected id h)
  updated_at fd id none short free f =
      rw (update_by_fd-absent is fd client_state_connected id f) (returns (xs, is, d))
  updated_at fd id (some c) short free f = Ends-Yields (
      Ends-mono (update_by_fd-replace is fd f client_state_connected id short)
        λ _ g (is', closed). (_, is', replace-AreDistinct _ _ xs free d))

  pub update_by_fd-Kept :
      (fd : ℕ) (id : Bytes)
      → length id < id_maxlen
      → first_body (has_id id) xs ≡ none
      → Yields
          (λ _. Kept head)
          (clients_list_update_client_by_fd head fd client_state_connected id h)
  update_by_fd-Kept fd id short free = updated_at fd id _ short free refl

client_exists-Yields :
    {B : Type 0} {Q : B → TcpServer → Type 0} (s : TcpServer) (w : IsWellFormed s) (id : Bytes)
    (k : Bool → Cmd TcpServer B)
    → Yields Q (k (not (find_first (has_id id) w.members == null)) s)
    → Yields Q (then_run (tcp_server_client_exists id s) k)
client_exists-Yields s w id k h = rw (exists-ok s w.members_list id) h

pub update_client-IsWellFormed :
    (fd : ℕ) (s : TcpServer)
    → IsWellFormed s
    → Yields (λ _. IsWellFormed) (tcp_server_update_client fd s)
unfolding tcp_server_update_client on_clients
update_client-IsWellFormed fd s w =
    Yields-if (not (s.recv_msg.msg_type == tcp_msg_new)) _ _ s (λ _. returns w)
      λ _. string_of-Yields s s.recv_msg.payload _ λ t _. strcpy-Yields s id_maxlen t _ λ short.
        client_exists-Yields s w t _ (
          Yields-if (not (find_first (has_id t) w.members == null)) _ _ s
            (λ _. returns (with_notice s (client_already_connected t) w))
            λ none_has.
              Yields-bind
                (keep_clients-Yields {Q = λ _. IsWellFormed} s
                  (update_by_fd-Kept w.members_list w.distinct fd t (ltb→lt _ _ short)
                    (find_first-none (has_id t) w.members_list.chain (ground arith)))
                  λ _ g (ys, is, d). with_members s g s.connected_clients ys w is d)
                λ _ u q. returns q)
