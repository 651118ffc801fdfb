-- ===== src/Server/Broker/Leaving.antt =====
-- server.c: the end of a connection does to the broker what the specification says.
use tcp_udp_client_server.Base.{
  ◌≡◌, ◌∙◌, ◌⊎◌, inl, inr, refl, ap, ℕ, Bool, true, false, not, ◌&&◌, Option, none, some, List,
  ◌==◌, arith,
}
use tcp_udp_client_server.Clients.{Client, Clients, has_fd, clients_list_remove_client_by_fd}
use tcp_udp_client_server.Clients.Changes.{
  remove_by_fd-absent, remove_by_fd-erase, remove_by_fd-is_last,
}
use tcp_udp_client_server.Clients.Ids.{AreDistinct, erase-AreDistinct}
use tcp_udp_client_server.DList.{Ptr}
use tcp_udp_client_server.DList.Abstract.{
  erase_first, at_end, bodies-erase, find_first-at_end, find_first-in_front, erase_first-none,
  at_end-none,
}
use tcp_udp_client_server.DList.Removal.{is_last}
use tcp_udp_client_server.DList.Search.{find_first, first_body}
use tcp_udp_client_server.DList.Shape.{Cells, IsList, bodies}
use tcp_udp_client_server.Outcome.{Outcome, fault, Ends, ends, Ends-mono, Ends-bind}
use tcp_udp_client_server.Poller.{Poller}
use tcp_udp_client_server.Server.{
  Server, keep_poller, keep_tcp, on_poller, on_tcp, tcp_server_close_connection,
}
use tcp_udp_client_server.Server.Broker.{Broker, leave, loses_oldest}
use tcp_udp_client_server.Server.Broker.Represents.{desk_of, Represents, Refines, Refines-unless}
use tcp_udp_client_server.Poller.Watched.{watched, remove_fd-watched}
use tcp_udp_client_server.Server.Invariant.{IsSound}
use tcp_udp_client_server.TcpServer.{TcpServer, keep_clients, on_clients}
use tcp_udp_client_server.TcpServer.Invariant.{with_members}

-- A list again, with these clients and distinct ids.
abbrev Left : List Client → Ptr → Clients → Type 0
Left l head g = (ys : Cells Client) × IsList g head ys × AreDistinct ys × (bodies ys ≡ l)

module _ {h : Clients} {head : Ptr} {xs : Cells Client} (is : IsList h head xs) (d : AreDistinct xs)
    (fd : ℕ) where
  abbrev run : Outcome Clients Ptr
  run = clients_list_remove_client_by_fd head fd h

  abbrev at : Ptr
  at = find_first (has_fd fd) xs

  erase-Left :
      {c : Client}
      → first_body (has_fd fd) xs ≡ some c
      → (head ≡ at) ⊎ (is_last at xs ≡ false)
      → Ends (Left (erase_first (has_fd fd) (bodies xs))) run
  erase-Left {c} f place = Ends-mono (remove_by_fd-erase is fd f place) λ head' g (is', same).
      (_, is', erase-AreDistinct _ xs d, bodies-erase (has_fd fd) {c = c} is.chain f)

  place-Left :
      {c : Client}
      → first_body (has_fd fd) xs ≡ some c
      → (last : Bool) → is_last at xs ≡ last
      → (front : Bool) → (head == at) ≡ front
      → (last && not front) ≡ false
      → Ends (Left (erase_first (has_fd fd) (bodies xs))) run
  place-Left f false l front m e = erase-Left f (inr l)
  place-Left f true l true m e = erase-Left f (inl (ground arith))
  place-Left f true l false m e = cc

  remove-Left :
      (o : Option Client)
      → first_body (has_fd fd) xs ≡ o
      → loses_oldest (has_fd fd) (bodies xs) ≡ false
      → Ends (Left (erase_first (has_fd fd) (bodies xs))) run
  remove-Left none f e =
      rw (remove_by_fd-absent is fd f, erase_first-none (has_fd fd) xs f) (ends (xs, is, d, refl))
  remove-Left (some c) f e = place-Left f _ refl _ refl (
      ap (λ b. b && not (head == at)) (find_first-at_end (has_fd fd) {c = c} is.chain f)
      ∙ ap (λ b. at_end (has_fd fd) (bodies xs) && not b)
          (find_first-in_front (has_fd fd) {c = c} is.chain f)
      ∙ e)

  both : (a b : Bool) → (a && not b) ≡ true → (a ≡ true) × (b ≡ false)
  both true false e = (refl, refl)
  both true true e = cc
  both false b e = cc

  remove-oldest :
      (o : Option Client)
      → first_body (has_fd fd) xs ≡ o
      → loses_oldest (has_fd fd) (bodies xs) ≡ true
      → run ≡ fault
  remove-oldest none f e = absurd (ground (arith, at_end-none (has_fd fd) xs f))
  remove-oldest (some c) f e =
      let (last, ne) = both _ _ e in
      remove_by_fd-is_last is fd f
        (ground (arith, find_first-in_front (has_fd fd) {c = c} is.chain f ∙ ne))
        (find_first-at_end (has_fd fd) {c = c} is.chain f ∙ last)

-- A total run on a part of the server.
module _ {A : Type 0} where
  pub keep_clients-Ends :
      {P : A → Clients → Type 0} {Q : A → TcpServer → Type 0} (t : TcpServer)
      {r : Outcome Clients A}
      → Ends P r
      → ((a : A) (h : Clients) → P a h → Q a (record t { clients = h }))
      → Ends Q (keep_clients t r)
  keep_clients-Ends t (ends p) k = ends (k _ _ p)

  pub keep_tcp-Ends :
      {P : A → TcpServer → Type 0} {Q : A → Server → Type 0} (s : Server) {r : Outcome TcpServer A}
      → Ends P r
      → ((a : A) (t : TcpServer) → P a t → Q a (record s { tcp_server = t }))
      → Ends Q (keep_tcp s r)
  keep_tcp-Ends s (ends p) k = ends (k _ _ p)

  pub keep_poller-Ends :
      {P : A → Poller → Type 0} {Q : A → Server → Type 0} (s : Server) {r : Outcome Poller A}
      → Ends P r
      → ((a : A) (p : Poller) → P a p → Q a (record s { poller = p }))
      → Ends Q (keep_poller s r)
  keep_poller-Ends s (ends p) k = ends (k _ _ p)

module _ (s : Server) (i : IsSound s) (fd : ℕ) where
  abbrev members : List Client
  members = bodies i.tcp_server.members

  abbrev gone : Broker
  gone = record {
    watched = erase_first (λ n. n == fd) (watched s.poller);
    desk = record (desk_of s.tcp_server i.tcp_server) { members = erase_first (has_fd fd) members };
  }

  same_broker :
      {l : List ℕ} {m : List Client}
      → l ≡ erase_first (λ n. n == fd) (watched s.poller)
      → m ≡ erase_first (has_fd fd) members
      → record { watched = l; desk = record (desk_of s.tcp_server i.tcp_server) { members = m } }
        ≡ gone
  same_broker {m} e f =
      ap
        (λ (l : List ℕ). record {
          watched = l;
          desk = record (desk_of s.tcp_server i.tcp_server) { members = m };
        })
        e
      ∙ ap
          (λ (k : List Client). record gone {
            desk = record (desk_of s.tcp_server i.tcp_server) { members = k };
          })
          f

  closed_clients :
      loses_oldest (has_fd fd) members ≡ true → tcp_server_close_connection fd s ≡ fault
  unfolding tcp_server_close_connection on_tcp on_clients
  closed_clients e =
      rw (remove-oldest i.tcp_server.members_list i.tcp_server.distinct fd _ refl e) refl

  closed :
      loses_oldest (has_fd fd) members ≡ false
      → Ends
          (λ _. Represents s.udp_server.fd s.tcp_server.fd gone)
          (tcp_server_close_connection fd s)
  unfolding tcp_server_close_connection on_tcp on_clients on_poller
  closed e =
      Ends-bind
        (keep_tcp-Ends
          {Q = λ head u.
            (g : Clients) × Left (erase_first (has_fd fd) members) head g
            × (u ≡ record s { tcp_server = record s.tcp_server { clients = g } })}
          s
          (keep_clients-Ends
            {Q = λ head u.
              (g : Clients) × Left (erase_first (has_fd fd) members) head g
              × (u ≡ record s.tcp_server { clients = g })}
            s.tcp_server (remove-Left i.tcp_server.members_list i.tcp_server.distinct fd _ refl e)
            λ head g l. (g, l, refl))
          λ head t (g, l, same). (g, l, ap (λ (k : TcpServer). record s { tcp_server = k }) same))
        λ head u (g, (ys, is, d, b), same). rw same (
          keep_poller-Ends
            (record s {
              tcp_server = record s.tcp_server { clients = g; connected_clients = head };
            })
            (remove_fd-watched fd s.poller i.poller)
            λ _ p (v, less). record {
              sound = record {
                poller = v;
                tcp_server = with_members s.tcp_server g head ys i.tcp_server is d;
              };
              udp = refl;
              tcp = refl;
              same = same_broker less b;
            })

  -- The client on a descriptor leaves.
  pub close_connection-Refines :
      Refines
        (Represents s.udp_server.fd s.tcp_server.fd)
        (leave fd (watched s.poller) (desk_of s.tcp_server i.tcp_server))
        (tcp_server_close_connection fd s)
  unfolding leave
  close_connection-Refines =
      Refines-unless _ (loses_oldest (has_fd fd) members) _ _ closed_clients closed
