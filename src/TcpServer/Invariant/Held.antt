-- ===== src/TcpServer/Invariant/Held.antt =====
-- TCP_server.c: the operations on the subscriptions keep the lists of the server well-formed.
use tcp_udp_client_server.Base.{
  ◌≡◌, ◌∙◌, refl, ℕ, ◌⊎◌, inl, inr, Bool, true, false, Option, none, some, ◌∷◌, ◌==◌, arith, ltb→lt,
}
use tcp_udp_client_server.Clients.{id_maxlen}
use tcp_udp_client_server.CString.{Bytes, fits}
use tcp_udp_client_server.DList.{Ptr, null}
use tcp_udp_client_server.DList.Insert.{IsFresh}
use tcp_udp_client_server.DList.Removal.{is_last, payload}
use tcp_udp_client_server.DList.Search.{find_first, first_body}
use tcp_udp_client_server.DList.Shape.{Cells, IsList}
use tcp_udp_client_server.DList.Unlink.{erase}
use tcp_udp_client_server.DList.View.{find_first-payload, find_first-null}
use tcp_udp_client_server.Outcome.{
  Outcome, ok, exited, fault, starved, Cmd, Ends-mono, Yields, returns, exits, faults, starves,
  Yields-bind, Yields-if, Ends-Yields, then_run,
}
use tcp_udp_client_server.Subscriptions.{
  topic_len, Subscription, Subscriptions, SubscriptionsList, is_of, subscription_node_create,
  subscriptions_add_subscription, subscriptions_remove_subscription,
}
use tcp_udp_client_server.Subscriptions.Changes.{
  enlist, add_subscription-IsList, remove_subscription-erase, remove_subscription-is_last,
}
use tcp_udp_client_server.TcpServer.{
  TcpServer, keep_nodes, on_nodes, on_subscriptions, tcp_server_subscribe, tcp_server_unsubscribe,
}
use tcp_udp_client_server.TcpServer.Finding.{find_subscription-Yields}
use tcp_udp_client_server.TcpServer.Invariant.{
  IsWellFormed, with_held, keep_nodes-Yields, find_client-Yields, client_at-same, get_sub_args-same,
}

-- A list again, with the cursor at NULL.
abbrev Kept : SubscriptionsList → Subscriptions → Type 0
Kept l h = (ys : Cells Subscription) × IsList h l.head ys × (l.current ≡ null)

module _ {h : Subscriptions} (l : SubscriptionsList) {xs : Cells Subscription}
    (is : IsList h l.head xs) (cursor : l.current ≡ null) where
  enlisted :
      (fresh : Ptr) (s : Subscription)
      → IsFresh h fresh
      → (a : Bool) → fits topic_len s.topic ≡ a
      → (b : Bool) → fits id_maxlen s.subscriber_id ≡ b
      → Yields Kept (enlist l fresh s h)
  unfolding subscription_node_create
  enlisted fresh s new false e b f = rw e faults
  enlisted fresh s new true e false f = rw (e, f) faults
  enlisted fresh s new true e true f = Ends-Yields (
      Ends-mono
        (add_subscription-IsList l is fresh s new
          (record { topic = ltb→lt _ _ e; subscriber_id = ltb→lt _ _ f }))
        λ m g ((at, is', c), same). ((fresh, s) ∷ xs, is', same ∙ cursor))

  enlist-Kept :
      (fresh : Ptr) (s : Subscription) → IsFresh h fresh → Yields Kept (enlist l fresh s h)
  enlist-Kept fresh s new = enlisted fresh s new _ refl _ refl

  dropped_place :
      (p : Ptr) {s : Subscription}
      → payload p xs ≡ some s
      → (l.head ≡ p) ⊎ (is_last p xs ≡ false)
      → Yields Kept (subscriptions_remove_subscription l p h)
  dropped_place p f place = Ends-Yields (
      Ends-mono (remove_subscription-erase l is p f place)
        λ m g ((is', c), same). (erase p xs, is', same ∙ cursor))

  dropped :
      (p : Ptr) {s : Subscription}
      → payload p xs ≡ some s
      → (last : Bool) → is_last p xs ≡ last
      → (first : Bool) → (l.head == p) ≡ first
      → Yields Kept (subscriptions_remove_subscription l p h)
  dropped p f false e first m = dropped_place p f (inr e)
  dropped p f true e true m = dropped_place p f (inl (ground arith))
  dropped p f true e false m = rw (remove_subscription-is_last l is p e (ground arith)) faults

  remove_found :
      (topic id : Bytes) (o : Option Subscription)
      → first_body (is_of topic id) xs ≡ o
      → (find_first (is_of topic id) xs == null) ≡ false
      → Yields Kept (subscriptions_remove_subscription l (find_first (is_of topic id) xs) h)
  remove_found topic id none f ne = absurd (ground (arith, find_first-null (is_of topic id) xs f))
  remove_found topic id (some s) f ne =
      dropped _ (find_first-payload (is_of topic id) is.chain f).1 _ refl _ refl

-- An operation on the list that starts with another one on its store.
joined :
    (s : TcpServer) (r : Outcome Subscriptions Ptr)
    (f : Ptr → SubscriptionsList → Cmd Subscriptions SubscriptionsList)
    → IsWellFormed s
    → Yields Kept (then_run r (λ p. f p s.subscriptions))
    → Yields (λ _. IsWellFormed) (then_run (keep_nodes s r) (λ p. on_subscriptions (f p)))
unfolding on_nodes
joined s (ok p h) f w y =
    Yields-bind
      (keep_nodes-Yields {Q = λ l u. IsWellFormed (record u { subscriptions = l })}
        (record s { nodes = h }) y λ l g (ys, is, e). with_held s g l ys w is e)
      λ l u q. returns q
joined s (exited c h) f w y = exits
joined s fault f w y = faults
joined s starved f w y = starves

-- The state may be used for a node at the address.
abbrev pub HasFresh : Ptr → TcpServer → Type 0
HasFresh fresh s = IsWellFormed s × IsFresh s.nodes fresh

pub subscribe-IsWellFormed :
    (fd : ℕ) (fresh : Ptr) (junk : ℕ) (s : TcpServer)
    → HasFresh fresh s
    → Yields (λ _. IsWellFormed) (tcp_server_subscribe fd fresh junk s)
unfolding tcp_server_subscribe on_nodes
subscribe-IsWellFormed fd fresh junk s (w, new) = find_client-Yields s w fd _ λ c.
    Yields-if (c == null) _ _ s (λ _. returns w)
      λ _. Yields-bind (get_sub_args-same junk s (HasFresh fresh) (w, new)) λ args t p.
        Yields-bind (client_at-same t (HasFresh fresh) p c) λ d u (w', new').
          joined u (subscription_node_create fresh args.topic d.id args.store_and_forward u.nodes)
            (λ p l. subscriptions_add_subscription l p) w'
            (enlist-Kept u.subscriptions w'.held_list w'.cursor fresh
              (record {
                topic = args.topic;
                subscriber_id = d.id;
                store_and_forward = args.store_and_forward;
              })
              new')

pub unsubscribe-IsWellFormed :
    (fd : ℕ) (s : TcpServer)
    → IsWellFormed s
    → Yields (λ _. IsWellFormed) (tcp_server_unsubscribe fd s)
unfolding tcp_server_unsubscribe on_nodes
unsubscribe-IsWellFormed fd s w = find_client-Yields s w fd _ λ c.
    Yields-if (c == null) _ _ s (λ _. returns w)
      λ _. Yields-bind (client_at-same s IsWellFormed w c) λ d t v.
        find_subscription-Yields t d.id v.held _ v.held_list λ text.
          (Yields-if (find_first (is_of text d.id) v.held == null) _ _ t (λ _. returns v)
            λ there.
              Yields-bind
                (keep_nodes-Yields {Q = λ l u. IsWellFormed (record u { subscriptions = l })} t
                  (remove_found t.subscriptions v.held_list v.cursor text d.id _ refl there)
                  λ l g (ys, is, e). with_held t g l ys v is e)
                λ l u q. returns q)
