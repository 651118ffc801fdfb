-- ===== src/TcpServer/Delivery.antt =====
-- TCP_server_send_to_subscribers() and the cursor of the subscriptions: what the operations of
-- TCP_server.c leave as it is.
use tcp_udp_client_server.Base.{
  ℕ, suc, ◌≡◌, refl, ◌∙◌, Bool, true, false, ◌||◌, Option, none, some, ◌==◌, ◌+◌, arith,
}
use tcp_udp_client_server.CString.{Bytes, c_str}
use tcp_udp_client_server.Clients.{Clients, clients_list_find_by_fd}
use tcp_udp_client_server.DList.{Ptr, null, load}
use tcp_udp_client_server.Outcome.{
  Outcome, ok, exited, fault, starved, Cmd, Holds, Keeps, Keeps-bind, Keeps-if, then_run,
}
use tcp_udp_client_server.Packets.{TcpHeader, UdpMsg, stoc_of}
use tcp_udp_client_server.Subscriptions.{
  Subscriptions, SubscriptionsList, subscriptions_add_subscription,
  subscriptions_remove_subscription, subscriptions_find,
}
use tcp_udp_client_server.Subscriptions.Cursor.{add-current, remove-current}
use tcp_udp_client_server.TcpServer.{
  TcpServer, on_clients, on_nodes, keep_clients, keep_nodes, gets, string_of, find_client,
  client_at, SubscribeArgs, sub_args_of, tcp_server_get_sub_args, tcp_server_subscribe,
  tcp_server_unsubscribe, find_subscription, on_subscriptions, next_subscription, subscribers_loop,
  tcp_server_send_to_subscribers,
}

-- The cursor is NULL, and no socket has sent anything but `sent`.
pub record IsSilent (sent : ℕ → Bytes) (s : TcpServer) : Type 0 where
  pub cursor : s.subscriptions.current ≡ null
  pub unsent : (fd : ℕ) → (s.net fd).out ≡ sent fd

or_right : (b c : Bool) → c ≡ true → (b || c) ≡ true
or_right false c e = e
or_right true c e = refl

next_subscription-null :
    (m : UdpMsg) (s : TcpServer)
    → s.subscriptions.current ≡ null
    → next_subscription m s ≡ ok null s
unfolding next_subscription
next_subscription-null m s e =
    let stop : (s.subscriptions.current == null) ≡ true = ground arith in
    rw (or_right (s.subscriptions.head == null) (s.subscriptions.current == null) stop) refl

loop-null :
    (k : ℕ) (h : TcpHeader) (m : UdpMsg) (junk : Option ℕ) (s : TcpServer)
    → s.subscriptions.current ≡ null
    → subscribers_loop (suc k) h m junk s ≡ ok junk s
unfolding subscribers_loop
loop-null k h m junk s e = rw (next_subscription-null m s e) refl

-- A server whose cursor is NULL: TCP_server_send_to_subscribers() returns the indeterminate value of its
-- result variable, and nothing in the state changes.
pub send_to_subscribers-idle :
    (h : TcpHeader) (junk : Option ℕ) (s : TcpServer)
    → s.subscriptions.current ≡ null
    → tcp_server_send_to_subscribers h junk s ≡ ok junk s
unfolding tcp_server_send_to_subscribers
send_to_subscribers-idle h junk s e =
    let more : s.nodes.live + 1 ≡ suc s.nodes.live = omega arith in
    rw (more, loop-null s.nodes.live h (stoc_of h.msg).content junk s e) refl

module _ {sent : ℕ → Bytes} {A : Type 0} where
  clients-silent :
      (s : TcpServer) (r : Outcome Clients A)
      → IsSilent sent s
      → Holds (IsSilent sent) (keep_clients s r)
  clients-silent s (ok a h) q = record { cursor = q.cursor; unsent = q.unsent }
  clients-silent s (exited c h) q = record { cursor = q.cursor; unsent = q.unsent }
  clients-silent s fault q = tt
  clients-silent s starved q = tt

  pub on_clients-IsSilent : (m : Cmd Clients A) → Keeps (IsSilent sent) (on_clients m)
  unfolding on_clients
  on_clients-IsSilent m s q = clients-silent s (m s.clients) q

  nodes-silent :
      (s : TcpServer) (r : Outcome Subscriptions A)
      → IsSilent sent s
      → Holds (IsSilent sent) (keep_nodes s r)
  nodes-silent s (ok a h) q = record { cursor = q.cursor; unsent = q.unsent }
  nodes-silent s (exited c h) q = record { cursor = q.cursor; unsent = q.unsent }
  nodes-silent s fault q = tt
  nodes-silent s starved q = tt

  pub on_nodes-IsSilent : (m : Cmd Subscriptions A) → Keeps (IsSilent sent) (on_nodes m)
  unfolding on_nodes
  on_nodes-IsSilent m s q = nodes-silent s (m s.nodes) q

module _ {sent : ℕ → Bytes} where
  subscriptions-silent :
      (s : TcpServer) (r : Outcome Subscriptions SubscriptionsList)
      → ((l : SubscriptionsList) (h : Subscriptions)
          → r ≡ ok l h
          → l.current ≡ s.subscriptions.current)
      → IsSilent sent s
      → Holds
          (IsSilent sent)
          (then_run (keep_nodes s r) (λ l t. ok tt (record t { subscriptions = l })))
  subscriptions-silent s (ok l h) same q = record {
    cursor = same l h refl ∙ q.cursor;
    unsent = q.unsent;
  }
  subscriptions-silent s (exited c h) same q = record { cursor = q.cursor; unsent = q.unsent }
  subscriptions-silent s fault same q = tt
  subscriptions-silent s starved same q = tt

  on_subscriptions-IsSilent :
      (f : SubscriptionsList → Cmd Subscriptions SubscriptionsList)
      → ((l m : SubscriptionsList) (h g : Subscriptions) → f l h ≡ ok m g → m.current ≡ l.current)
      → Keeps (IsSilent sent) (on_subscriptions f)
  unfolding on_nodes
  on_subscriptions-IsSilent f same s q =
      subscriptions-silent s (f s.subscriptions s.nodes) (λ l h. same s.subscriptions l s.nodes h) q

  pub find_client-IsSilent : (fd : ℕ) → Keeps (IsSilent sent) (find_client fd)
  unfolding find_client
  find_client-IsSilent fd s q =
      on_clients-IsSilent (clients_list_find_by_fd s.connected_clients fd) s q

  pub client_at-IsSilent : (p : Ptr) → Keeps (IsSilent sent) (client_at p)
  unfolding client_at
  client_at-IsSilent p = Keeps-bind (IsSilent sent) _ _ (on_clients-IsSilent (load p)) (λ n s q. q)

  pub string_at :
      (o : Option Bytes) → Keeps (IsSilent sent) (λ s. elim o [ none ↦ fault | some t ↦ ok t s ])
  string_at none s q = tt
  string_at (some t) s q = q

  args_at :
      (o : Option SubscribeArgs)
      → Keeps (IsSilent sent) (λ s. elim o [ none ↦ fault | some t ↦ ok t s ])
  args_at none s q = tt
  args_at (some t) s q = q

  get_sub_args-IsSilent : (junk : ℕ) → Keeps (IsSilent sent) (tcp_server_get_sub_args junk)
  unfolding tcp_server_get_sub_args
  get_sub_args-IsSilent junk =
      Keeps-bind (IsSilent sent) (gets (λ s. s.recv_msg)) _ (λ s q. q)
        (λ m.
          Keeps-bind (IsSilent sent) (string_of m.payload) _ (string_at (c_str m.payload))
            (λ b. args_at (sub_args_of junk b)))

  pub subscribe-IsSilent :
      (fd : ℕ) (fresh : Ptr) (junk : ℕ) → Keeps (IsSilent sent) (tcp_server_subscribe fd fresh junk)
  unfolding tcp_server_subscribe
  subscribe-IsSilent fd fresh junk =
      Keeps-bind (IsSilent sent) (find_client fd) _ (find_client-IsSilent fd) (λ c.
        Keeps-if (IsSilent sent) (c == null) _ _ (λ s q. q)
          (Keeps-bind (IsSilent sent) _ _ (get_sub_args-IsSilent junk) (λ args.
            Keeps-bind (IsSilent sent) _ _ (client_at-IsSilent c) (λ d.
              Keeps-bind (IsSilent sent) _ _ (on_nodes-IsSilent _) (λ sub.
                on_subscriptions-IsSilent (λ l. subscriptions_add_subscription l sub)
                  (λ l m. add-current l m sub))))))

  find_subscription-IsSilent : (id : Bytes) → Keeps (IsSilent sent) (find_subscription id)
  unfolding find_subscription
  find_subscription-IsSilent id =
      Keeps-bind (IsSilent sent) (gets (λ s. s.subscriptions)) _ (λ s q. q)
        (λ l.
          Keeps-if (IsSilent sent) (l.head == null) _ _ (λ s q. q)
            (Keeps-bind (IsSilent sent) (gets (λ s. s.recv_msg)) _ (λ s q. q)
              (λ m.
                Keeps-bind (IsSilent sent) (string_of m.payload) _ (string_at (c_str m.payload))
                  (λ b s q. on_nodes-IsSilent (subscriptions_find s.subscriptions b id) s q))))

  pub unsubscribe-IsSilent : (fd : ℕ) → Keeps (IsSilent sent) (tcp_server_unsubscribe fd)
  unfolding tcp_server_unsubscribe
  unsubscribe-IsSilent fd =
      Keeps-bind (IsSilent sent) (find_client fd) _ (find_client-IsSilent fd) (λ c.
        Keeps-if (IsSilent sent) (c == null) _ _ (λ s q. q)
          (Keeps-bind (IsSilent sent) _ _ (client_at-IsSilent c) (λ d.
            Keeps-bind (IsSilent sent) _ _ (find_subscription-IsSilent d.id) (λ sub.
              Keeps-if (IsSilent sent) (sub == null) _ _ (λ s q. q)
                (on_subscriptions-IsSilent (λ l. subscriptions_remove_subscription l sub)
                  (λ l m. remove-current l m sub))))))
