-- ===== src/TcpServer/Subscribing.antt =====
-- TCP_server_subscribe() and TCP_server_unsubscribe(), for a client that is connected.
use tcp_udp_client_server.Base.{◌<◌, ◌≡◌, ◌∙◌, ◌⊎◌, refl, ℕ, false, some, ◌∷◌, ◌==◌, ==_ne, length}
use tcp_udp_client_server.Clients.{Client, id_maxlen, client_state_new, has_fd}
use tcp_udp_client_server.CString.{Bytes, c_str}
use tcp_udp_client_server.DList.{Ptr, null}
use tcp_udp_client_server.DList.Insert.{IsFresh}
use tcp_udp_client_server.DList.Removal.{payload-At, is_last}
use tcp_udp_client_server.DList.Search.{find_first, first_body}
use tcp_udp_client_server.DList.Shape.{Cells, IsList, load-At}
use tcp_udp_client_server.DList.Unlink.{erase}
use tcp_udp_client_server.DList.View.{find_first-payload}
use tcp_udp_client_server.Outcome.{
  Outcome, Cmd, ok, exited, fault, starved, Ends, ends, Ends-mono, then_run,
}
use tcp_udp_client_server.Subscriptions.{
  topic_len, Subscription, Subscriptions, SubscriptionsList, is_of, subscription_node_create,
  subscriptions_add_subscription, subscriptions_remove_subscription,
}
use tcp_udp_client_server.Subscriptions.Changes.{add_subscription-IsList, remove_subscription-erase}
use tcp_udp_client_server.TcpServer.{
  TcpServer, SubscribeArgs, keep_nodes, on_nodes, on_clients, on_subscriptions, client_at,
  tcp_server_get_sub_args, tcp_server_is_new_connection, tcp_server_subscribe,
  tcp_server_unsubscribe,
}
use tcp_udp_client_server.TcpServer.Finding.{find_subscription-ok}
use tcp_udp_client_server.TcpServer.Invariant.{IsWellFormed, find_client-ok}

-- The state with other subscriptions, in a list of its own, and the cursor at NULL.
pub record HasSubscriptions (s : TcpServer) (ys : Cells Subscription) (t : TcpServer) : Type 0 where
  pub list : IsList t.nodes t.subscriptions.head ys
  pub cursor : t.subscriptions.current ≡ null
  pub other : t ≡ record s { nodes = t.nodes; subscriptions = t.subscriptions }

-- A run on the list, in the state of the server.
operated :
    (s : TcpServer) (ys : Cells Subscription) (r : Outcome Subscriptions SubscriptionsList)
    → Ends (λ l h. IsList h l.head ys × (l.current ≡ null)) r
    → Ends
        (λ _. HasSubscriptions s ys)
        (then_run (keep_nodes s r) (λ l t. ok tt (record t { subscriptions = l })))
operated s ys (ok l h) (ends (is, e)) = ends (record { list = is; cursor = e; other = refl })
operated s ys (exited c h) e = elim e [ ]
operated s ys fault e = elim e [ ]
operated s ys starved e = elim e [ ]

-- The same where a node is created first.
created :
    (s : TcpServer) (ys : Cells Subscription) (r : Outcome Subscriptions Ptr)
    (f : Ptr → SubscriptionsList → Cmd Subscriptions SubscriptionsList)
    → Ends (λ l h. IsList h l.head ys × (l.current ≡ null)) (then_run r (λ p. f p s.subscriptions))
    → Ends (λ _. HasSubscriptions s ys) (then_run (keep_nodes s r) (λ p. on_subscriptions (f p)))
unfolding on_nodes
created s ys (ok p h) f e =
    Ends-mono (operated (record s { nodes = h }) ys (f p s.subscriptions h) e)
      λ _ t held. record { list = held.list; cursor = held.cursor; other = held.other }
created s ys (exited c h) f e = elim e [ ]
created s ys fault f e = elim e [ ]
created s ys starved f e = elim e [ ]

module _ (s : TcpServer) (w : IsWellFormed s) (fd : ℕ) (c : Client)
    (f : first_body (has_fd fd) w.members ≡ some c) where
  pub known : (find_first (has_fd fd) w.members == null) ≡ false
  known = ==_ne _ _ (find_first-payload (has_fd fd) w.members_list.chain f).0

  pub client_at-ok : client_at (find_first (has_fd fd) w.members) s ≡ ok c s
  unfolding client_at on_clients
  client_at-ok =
      let (ne, p, t) = find_first-payload (has_fd fd) w.members_list.chain f in
      let (r, q, at, i) = payload-At _ w.members_list.chain p in rw (load-At at) refl

  -- TCP_server_is_new_connection() tells the state of the client.
  pub is_new_connection-ok : tcp_server_is_new_connection fd s ≡ ok (c.state == client_state_new) s
  unfolding tcp_server_is_new_connection
  is_new_connection-ok = rw (find_client-ok s w fd, then_run, known, client_at-ok, then_run) refl

  -- The message of a client whose id fits, with a topic that fits, and a fresh address: the subscription of
  -- the client stands first, the others as they were, and nothing else of the server changes.
  pub subscribe-HasSubscriptions :
      (fresh : Ptr) (junk : ℕ) (args : SubscribeArgs)
      → tcp_server_get_sub_args junk s ≡ ok args s
      → IsFresh s.nodes fresh
      → length args.topic < topic_len
      → length c.id < id_maxlen
      → Ends
          (λ _. HasSubscriptions s (
            (
              fresh,
              record {
                topic = args.topic;
                subscriber_id = c.id;
                store_and_forward = args.store_and_forward;
              },
            )
            ∷ w.held))
          (tcp_server_subscribe fd fresh junk s)
  unfolding tcp_server_subscribe on_nodes
  subscribe-HasSubscriptions fresh junk args e new short short' =
      let sub : Subscription = record {
        topic = args.topic;
        subscriber_id = c.id;
        store_and_forward = args.store_and_forward;
      } in
      rw (find_client-ok s w fd, then_run, known, e, then_run, client_at-ok, then_run)
        (created s ((fresh, sub) ∷ w.held)
          (subscription_node_create fresh args.topic c.id args.store_and_forward s.nodes)
          (λ p l. subscriptions_add_subscription l p)
          (Ends-mono
            (add_subscription-IsList s.subscriptions w.held_list fresh sub new
              (record { topic = short; subscriber_id = short' }))
            λ l h ((at, is, same), cur). (is, cur ∙ w.cursor)))

  -- A message with the topic of a subscription of the client, which is at the head or not last: the
  -- first such subscription is gone, the others are as they were, and nothing else of the server changes.
  pub unsubscribe-HasSubscriptions :
      (topic : Bytes) {sub : Subscription}
      → c_str s.recv_msg.payload ≡ some topic
      → first_body (is_of topic c.id) w.held ≡ some sub
      → (s.subscriptions.head ≡ find_first (is_of topic c.id) w.held)
        ⊎ (is_last (find_first (is_of topic c.id) w.held) w.held ≡ false)
      → Ends
          (λ _. HasSubscriptions s (erase (find_first (is_of topic c.id) w.held) w.held))
          (tcp_server_unsubscribe fd s)
  unfolding tcp_server_unsubscribe on_nodes
  unsubscribe-HasSubscriptions topic e g place =
      let (ne, p, t) = find_first-payload (is_of topic c.id) w.held_list.chain g in
      rw
        (
          find_client-ok s w fd,
          then_run,
          known,
          client_at-ok,
          then_run,
          find_subscription-ok s c.id w.held topic w.held_list e,
          then_run,
          ==_ne (find_first (is_of topic c.id) w.held) null ne,
        )
        (operated s (erase (find_first (is_of topic c.id) w.held) w.held)
          (subscriptions_remove_subscription s.subscriptions (find_first (is_of topic c.id) w.held)
            s.nodes)
          (Ends-mono (remove_subscription-erase s.subscriptions w.held_list _ p place)
            λ l h ((is, closed), cur). (is, cur ∙ w.cursor)))
