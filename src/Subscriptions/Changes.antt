-- ===== src/Subscriptions/Changes.antt =====
-- The operations of the subscription list that change it, against the list that it stands for.
use tcp_udp_client_server.Base.{
  ◌≡◌, ◌≢◌, refl, ◌⊎◌, true, false, some, ◌<◌, length, lt→ltb, sym, subst,
}
use tcp_udp_client_server.Clients.{id_maxlen}
use tcp_udp_client_server.CString.{Bytes}
use tcp_udp_client_server.DList.{Ptr, node_create, add}
use tcp_udp_client_server.DList.Insert.{IsFresh, Inserted, insert-IsList}
use tcp_udp_client_server.DList.Removal.{payload, is_last, Removed, remove-erase, remove-is_last}
use tcp_udp_client_server.DList.Search.{find_first, find-ok}
use tcp_udp_client_server.DList.Shape.{Cells, IsList}
use tcp_udp_client_server.Outcome.{
  ok, fault, Ends, ends, Ends-bind, ◌>>=◌, Cmd, pure, then_run_assoc,
}
use tcp_udp_client_server.Subscriptions.{
  topic_len, Subscription, Subscriptions, SubscriptionsList, subscription_kind, is_of,
  subscription_node_create, subscriptions_add_subscription, subscriptions_remove_subscription,
  subscriptions_find,
}

-- Create a node and add it, as TCP_server_subscribe() does.
abbrev pub enlist :
    SubscriptionsList → (fresh : Ptr) → Subscription → Cmd Subscriptions SubscriptionsList
enlist l fresh s = do
  p ← subscription_node_create fresh s.topic s.subscriber_id s.store_and_forward
  subscriptions_add_subscription l p

-- The two arrays of the node hold the strings.
pub record Fits (s : Subscription) : Type 0 where
  pub topic : length s.topic < topic_len
  pub subscriber_id : length s.subscriber_id < id_maxlen

abbrev pub Enlisted :
    Subscriptions
    → SubscriptionsList
    → Cells Subscription
    → Ptr
    → Subscription
    → SubscriptionsList
    → Subscriptions
    → Type 0
Enlisted h l xs fresh s m g = Inserted h fresh s xs m.head g × (m.current ≡ l.current)

abbrev pub Dropped :
    Subscriptions
    → SubscriptionsList
    → Cells Subscription
    → Ptr
    → Subscription
    → SubscriptionsList
    → Subscriptions
    → Type 0
Dropped h l xs p s m g = Removed subscription_kind h xs p s m.head g × (m.current ≡ l.current)

module _ {h : Subscriptions} (l : SubscriptionsList) {xs : Cells Subscription}
    (is : IsList h l.head xs) where
  -- Of a well-formed list, a fresh address and strings that fit their arrays: the run returns, the list is
  -- well-formed, the subscription stands first at the fresh address, the others are as they were, and
  -- the cursor has not moved.
  pub add_subscription-IsList :
      (fresh : Ptr) (s : Subscription)
      → IsFresh h fresh
      → Fits s
      → Ends (Enlisted h l xs fresh s) (enlist l fresh s h)
  unfolding subscription_node_create subscriptions_add_subscription
  add_subscription-IsList fresh s new room =
      rw (lt→ltb _ _ room.topic, lt→ltb _ _ room.subscriber_id)
        (subst (Ends (Enlisted h l xs fresh s))
          (sym (then_run_assoc (node_create fresh s h) (add l.head) (λ p. pure (moved p))))
          (Ends-bind (insert-IsList s new is) λ a g r. ends (r, refl)))
    where
      moved : Ptr → SubscriptionsList
      moved p = record l { head = p }

  pub find-ok_of :
      (topic id : Bytes) → subscriptions_find l topic id h ≡ ok (find_first (is_of topic id) xs) h
  unfolding subscriptions_find
  find-ok_of topic id = find-ok (is_of topic id) is

  -- A node of a well-formed list, at the head or not in the last place: the run returns, the list is
  -- well-formed without that node, and the cursor has not moved.
  pub remove_subscription-erase :
      {s : Subscription} (p : Ptr)
      → payload p xs ≡ some s
      → (l.head ≡ p) ⊎ (is_last p xs ≡ false)
      → Ends (Dropped h l xs p s) (subscriptions_remove_subscription l p h)
  unfolding subscriptions_remove_subscription
  remove_subscription-erase p f place =
      Ends-bind (remove-erase subscription_kind p is f place) λ a g r. ends (r, refl)

  -- A node in the last place of a well-formed list, and not at the head: the removal is undefined
  -- behaviour.
  pub remove_subscription-is_last :
      (p : Ptr) → is_last p xs ≡ true → l.head ≢ p → subscriptions_remove_subscription l p h ≡ fault
  unfolding subscriptions_remove_subscription
  remove_subscription-is_last p last ne = rw (remove-is_last subscription_kind p is last ne)
