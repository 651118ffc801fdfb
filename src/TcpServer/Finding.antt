-- ===== src/TcpServer/Finding.antt =====
-- The search of TCP_server_unsubscribe() in a well-formed list of subscriptions.
use tcp_udp_client_server.Base.{◌≡◌, refl, true, false, Option, none, some, [], ◌∷◌, ◌==◌, arith}
use tcp_udp_client_server.CString.{Bytes, c_str}
use tcp_udp_client_server.DList.{Ptr, null}
use tcp_udp_client_server.DList.Search.{find_first}
use tcp_udp_client_server.DList.Shape.{Cells, Chain, nil, cons, IsList, At-ne}
use tcp_udp_client_server.Outcome.{ok, fault, Cmd, Yields, faults, then_run}
use tcp_udp_client_server.Subscriptions.{Subscription, Subscriptions, is_of}
use tcp_udp_client_server.Subscriptions.Changes.{find-ok_of}
use tcp_udp_client_server.TcpServer.{TcpServer, keep_nodes, on_nodes, string_of, find_subscription}

head-empty : {h : Subscriptions} {pre p : Ptr} → Chain h pre p [] → (p == null) ≡ true
head-empty (nil e) = ground (arith, e)

head-some :
    {h : Subscriptions} {pre p q : Ptr} {d : Subscription} {xs : Cells Subscription}
    → Chain h pre p ((q, d) ∷ xs)
    → (p == null) ≡ false
head-some (cons at out c) = At-ne at

module _ (t : TcpServer) (id : Bytes) where
  -- An empty list is not searched, and the payload is not read.
  pub find_subscription-empty :
      IsList t.nodes t.subscriptions.head [] → find_subscription id t ≡ ok null t
  unfolding find_subscription
  find_subscription-empty is = rw (head-empty is.chain) refl

  -- With a subscription in the list, a payload without an end is undefined behaviour.
  pub find_subscription-unread :
      (p : Ptr) (d : Subscription) (xs : Cells Subscription)
      → IsList t.nodes t.subscriptions.head ((p, d) ∷ xs)
      → c_str t.recv_msg.payload ≡ none
      → find_subscription id t ≡ fault
  unfolding find_subscription
  find_subscription-unread p d xs is e = rw (head-some is.chain, e, string_of, then_run) refl

  -- A payload that is a string: the first subscription of the client on that topic, or NULL.
  pub find_subscription-ok :
      (xs : Cells Subscription) (topic : Bytes)
      → IsList t.nodes t.subscriptions.head xs
      → c_str t.recv_msg.payload ≡ some topic
      → find_subscription id t ≡ ok (find_first (is_of topic id) xs) t
  unfolding find_subscription on_nodes find_first
  find_subscription-ok [] topic is e = find_subscription-empty is
  find_subscription-ok ((p, d) ∷ xs) topic is e =
      rw
        (
          head-some is.chain,
          e,
          string_of,
          then_run,
          find-ok_of t.subscriptions is topic id,
          keep_nodes,
        )
        refl

  pub find_subscription-Yields :
      {B : Type 0} {Q : B → TcpServer → Type 0} (xs : Cells Subscription)
      (k : Ptr → Cmd TcpServer B)
      → IsList t.nodes t.subscriptions.head xs
      → ((topic : Bytes) → Yields Q (k (find_first (is_of topic id) xs) t))
      → Yields Q (then_run (find_subscription id t) k)
  unfolding find_first
  find_subscription-Yields [] k is h = rw (find_subscription-empty is) (h [])
  find_subscription-Yields {Q} ((p, d) ∷ xs) k is h = by_text _ refl
    where
      by_text :
          (o : Option Bytes)
          → c_str t.recv_msg.payload ≡ o
          → Yields Q (then_run (find_subscription id t) k)
      by_text none e = rw (find_subscription-unread p d xs is e) faults
      by_text (some topic) e = rw (find_subscription-ok ((p, d) ∷ xs) topic is e) (h topic)
