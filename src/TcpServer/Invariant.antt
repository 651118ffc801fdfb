-- ===== src/TcpServer/Invariant.antt =====
-- TCP_server.c: what holds of the two lists of the server as long as it runs, and the operations that do
-- not change them.
pub mod Members
pub mod Held
use tcp_udp_client_server.Base.{
  ◌≡◌, refl, sym, subst, ℕ, Bool, true, false, Option, none, some, [], ◌∷◌, ◌==◌, if◌then◌else◌,
  length, ◌++◌, drop,
}
use tcp_udp_client_server.Clients.{Client, Clients, client_state_new, has_fd}
use tcp_udp_client_server.Clients.Ids.{AreDistinct, nil-AreDistinct}
use tcp_udp_client_server.Clients.Lookup.{find_by_fd-ok}
use tcp_udp_client_server.CString.{Bytes, c_str, fits}
use tcp_udp_client_server.DList.{Ptr, null, Store, Node, load}
use tcp_udp_client_server.DList.Search.{find_first}
use tcp_udp_client_server.DList.Shape.{Cells, IsList, nil}
use tcp_udp_client_server.Outcome.{
  Outcome, ok, exited, fault, starved, Cmd, Yields, returns, exits, faults, starves, Yields-bind,
  Yields-if, Yields-either, then_run,
}
use tcp_udp_client_server.Packets.{
  TcpHeader, TcpCtosMsg, memcpy, ctos_bytes, ctos_of, header_of, zeros, packet_maxlen,
}
use tcp_udp_client_server.Sockets.{Socket}
use tcp_udp_client_server.Subscriptions.{Subscription, Subscriptions, SubscriptionsList}
use tcp_udp_client_server.TcpServer.{
  TcpServer, Notice, Received, message, keep_clients, keep_nodes, on_clients, string_of, strcpy,
  find_client, client_at, copy_message, tcp_server_recv_all, tcp_server_is_new_connection,
  tcp_server_create, tcp_server_get_sub_args, SubscribeArgs, sub_args_of,
}

-- The clients and the subscriptions hang in well-formed lists, no two clients have the same id, where
-- it is not empty, and the cursor of the subscriptions is NULL.
pub record IsWellFormed (s : TcpServer) : Type 0 where
  pub members : Cells Client
  pub members_list : IsList s.clients s.connected_clients members
  pub distinct : AreDistinct members
  pub held : Cells Subscription
  pub held_list : IsList s.nodes s.subscriptions.head held
  pub cursor : s.subscriptions.current ≡ null

pub created-IsWellFormed :
    (fd : ℕ) (recv_msg : TcpCtosMsg) (net : ℕ → Socket)
    → IsWellFormed (tcp_server_create fd recv_msg net)
unfolding tcp_server_create
created-IsWellFormed fd recv_msg net = record {
  members = [];
  members_list = record { pre = null; chain = nil refl; count = refl; only = λ a o. refl };
  distinct = nil-AreDistinct;
  held = [];
  held_list = record { pre = null; chain = nil refl; count = refl; only = λ a o. refl };
  cursor = refl;
}

-- The message that was received last does not matter.
abbrev pub with_message :
    (s : TcpServer) (m : TcpCtosMsg) → IsWellFormed s → IsWellFormed (record s { recv_msg = m })
with_message s m w = record {
  members = w.members;
  members_list = w.members_list;
  distinct = w.distinct;
  held = w.held;
  held_list = w.held_list;
  cursor = w.cursor;
}

-- Nor do the lines that were printed.
abbrev pub with_notice :
    (s : TcpServer) (line : Notice)
    → IsWellFormed s
    → IsWellFormed (record s { printed = line ∷ s.printed })
with_notice s line w = record {
  members = w.members;
  members_list = w.members_list;
  distinct = w.distinct;
  held = w.held;
  held_list = w.held_list;
  cursor = w.cursor;
}

-- Other lists, in the state of the server.
abbrev pub with_members :
    (s : TcpServer) (h : Clients) (head : Ptr) (xs : Cells Client)
    → IsWellFormed s
    → IsList h head xs
    → AreDistinct xs
    → IsWellFormed (record s { clients = h; connected_clients = head })
with_members s h head xs w is d = record {
  members = xs;
  members_list = is;
  distinct = d;
  held = w.held;
  held_list = w.held_list;
  cursor = w.cursor;
}

abbrev pub with_held :
    (s : TcpServer) (h : Subscriptions) (l : SubscriptionsList) (xs : Cells Subscription)
    → IsWellFormed s
    → IsList h l.head xs
    → l.current ≡ null
    → IsWellFormed (record s { nodes = h; subscriptions = l })
with_held s h l xs w is e = record {
  members = w.members;
  members_list = w.members_list;
  distinct = w.distinct;
  held = xs;
  held_list = is;
  cursor = e;
}

module _ {A : Type 0} {Q : A → TcpServer → Type 0} (s : TcpServer) where
  -- A run on one of the stores, in the state of the server.
  pub keep_clients-Yields :
      {P : A → Clients → Type 0} {r : Outcome Clients A}
      → Yields P r
      → ((a : A) (h : Clients) → P a h → Q a (record s { clients = h }))
      → Yields Q (keep_clients s r)
  keep_clients-Yields (returns p) k = returns (k _ _ p)
  keep_clients-Yields exits k = exits
  keep_clients-Yields faults k = faults
  keep_clients-Yields starves k = starves

  pub keep_nodes-Yields :
      {P : A → Subscriptions → Type 0} {r : Outcome Subscriptions A}
      → Yields P r
      → ((a : A) (h : Subscriptions) → P a h → Q a (record s { nodes = h }))
      → Yields Q (keep_nodes s r)
  keep_nodes-Yields (returns p) k = returns (k _ _ p)
  keep_nodes-Yields exits k = exits
  keep_nodes-Yields faults k = faults
  keep_nodes-Yields starves k = starves

cell_read :
    {D : Type 0} (h : Store D) (o : Option (Node D))
    → Yields
        (λ _ g. g ≡ h)
        (elim o as (λ _. Outcome (Store D) (Node D)) [ none ↦ fault | some n ↦ ok n h ])
cell_read h none = faults
cell_read h (some n) = returns refl

load-same : {D : Type 0} (p : Ptr) (h : Store D) → Yields (λ _ g. g ≡ h) (load p h)
unfolding load
load-same p h = Yields-either (p == null) fault _ (λ _. faults) (λ _. cell_read h (h.cell p))

-- The reads: what holds of the state holds after them.
module _ (s : TcpServer) (P : TcpServer → Type 0) (p : P s) where
  pub client_at-same : (c : Ptr) → Yields (λ _. P) (client_at c s)
  unfolding client_at on_clients
  client_at-same c =
      Yields-bind
        (keep_clients-Yields {Q = λ _. P} s (load-same c s.clients)
          λ n h e. subst (λ g. P (record s { clients = g })) (sym e) p)
        λ n t q. returns q

pub find_client-ok :
    (s : TcpServer) (w : IsWellFormed s) (fd : ℕ)
    → find_client fd s ≡ ok (find_first (has_fd fd) w.members) s
unfolding find_client on_clients
find_client-ok s w fd = rw (find_by_fd-ok w.members_list fd)

module _ {B : Type 0} {Q : B → TcpServer → Type 0} (s : TcpServer) where
  text-Yields :
      (o : Option Bytes) (k : Bytes → Cmd TcpServer B)
      → ((t : Bytes) → o ≡ some t → Yields Q (k t s))
      → Yields Q
          (then_run (elim o as (λ _. Outcome TcpServer Bytes) [ none ↦ fault | some t ↦ ok t s ]) k)
  text-Yields none k h = faults
  text-Yields (some t) k h = h t refl

  pub string_of-Yields :
      (b : Bytes) (k : Bytes → Cmd TcpServer B)
      → ((t : Bytes) → c_str b ≡ some t → Yields Q (k t s))
      → Yields Q (then_run (string_of b s) k)
  string_of-Yields b k h = text-Yields (c_str b) k h

  fitted-Yields :
      (b : Bool) (t : Bytes) (k : Bytes → Cmd TcpServer B)
      → (b ≡ true → Yields Q (k t s))
      → Yields Q (then_run (if b then ok t s else fault) k)
  fitted-Yields true t k h = h refl
  fitted-Yields false t k h = faults

  pub strcpy-Yields :
      (n : ℕ) (t : Bytes) (k : Bytes → Cmd TcpServer B)
      → (fits n t ≡ true → Yields Q (k t s))
      → Yields Q (then_run (strcpy n t s) k)
  strcpy-Yields n t k h = fitted-Yields (fits n t) t k h

  module _ (w : IsWellFormed s) where
    pub find_client-Yields :
        (fd : ℕ) (k : Ptr → Cmd TcpServer B)
        → ((c : Ptr) → Yields Q (k c s))
        → Yields Q (then_run (find_client fd s) k)
    find_client-Yields fd k h = rw (find_client-ok s w fd) (h (find_first (has_fd fd) w.members))

pub is_new_connection-same :
    (fd : ℕ) (s : TcpServer) (P : TcpServer → Type 0)
    → IsWellFormed s
    → P s
    → Yields (λ _. P) (tcp_server_is_new_connection fd s)
unfolding tcp_server_is_new_connection
is_new_connection-same fd s P w p = find_client-Yields s w fd _ λ c.
    Yields-if (c == null) _ _ s (λ _. returns p)
      λ _. Yields-bind (client_at-same s P p c) λ d t q. returns q

args-Yields :
    (s : TcpServer) (P : TcpServer → Type 0)
    → P s
    → (o : Option SubscribeArgs)
    → Yields
        (λ _. P)
        (elim o as (λ _. Outcome TcpServer SubscribeArgs) [ none ↦ fault | some args ↦ ok args s ])
args-Yields s P p none = faults
args-Yields s P p (some args) = returns p

pub get_sub_args-same :
    (junk : ℕ) (s : TcpServer) (P : TcpServer → Type 0)
    → P s
    → Yields (λ _. P) (tcp_server_get_sub_args junk s)
unfolding tcp_server_get_sub_args
get_sub_args-same junk s P p =
    string_of-Yields s s.recv_msg.payload _ λ t _. args-Yields s P p (sub_args_of junk t)

-- A message is copied beside the lists.
module _ (s : TcpServer) (P : TcpServer → Type 0)
    (beside : (m : TcpCtosMsg) → P (record s { recv_msg = m })) where
  copied :
      (o : Option Bytes)
      → Yields
          (λ _. P)
          (elim o as (λ _. Outcome TcpServer Received) [
            | none ↦ fault
            | some b ↦ ok message (record s { recv_msg = ctos_of b })
          ])
  copied none = faults
  copied (some b) = returns (beside (ctos_of b))

  copy_message-same : (h : TcpHeader) → Yields (λ _. P) (copy_message h s)
  unfolding copy_message
  copy_message-same h = copied (memcpy (ctos_bytes s.recv_msg) h.msg h.msg_len)

  pub recv_all-same : (b : Option Bytes) → Yields (λ _. P) (tcp_server_recv_all b s)
  unfolding tcp_server_recv_all
  recv_all-same none = returns (beside s.recv_msg)
  recv_all-same (some []) = returns (beside s.recv_msg)
  recv_all-same (some (c ∷ bytes)) =
      copy_message-same (header_of ((c ∷ bytes) ++ drop (length (c ∷ bytes)) (zeros packet_maxlen)))
