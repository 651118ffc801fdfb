-- ===== src/Subscriptions.antt =====
-- subscriptions.h and subscriptions.c: the list of subscriptions, with the cursor `current` that
-- subscriptions_get_next() advances. A `subscriptions_list` is the record `SubscriptionsList`; the
-- list code itself stands in DList.antt. `topic` and `subscriber_id` hold the strings of the arrays
-- `char topic[TOPIC_LEN]` and `char subscriber_id[ID_MAXLEN]`.
pub mod Changes
pub mod Cursor
use tcp_udp_client_server.Base.{
  ℕ, zero, suc, ◌+◌, ◌≡◌, Bool, true, ◌&&◌, List, [], ◌∷◌, arith, ◌==◌, ==_refl, if◌then◌else◌,
}
use tcp_udp_client_server.Clients.{id_maxlen}
use tcp_udp_client_server.CString.{Bytes, str_eq, str_eq_refl, fits}
use tcp_udp_client_server.DList.{
  Ptr, null, Store, Kind, load, node_create, node_destroy, add, find, is_head, remove, destroy_all,
}
use tcp_udp_client_server.DList.Print.{Entry, node_print, print_all}
use tcp_udp_client_server.Outcome.{Cmd, fault, starved, pure, ◌>>=◌}

-- packets.h
abbrev pub topic_len : ℕ
topic_len = 50

-- struct subscription_node, but for its links
pub record Subscription : Type 0 where
  pub topic : Bytes
  pub subscriber_id : Bytes
  pub store_and_forward : ℕ

pub record SubscriptionsList : Type 0 where
  pub head : Ptr
  pub current : Ptr

-- The comparison of subscriptions_list_is_head().
unfoldable pub same_subscription : Subscription → Subscription → Bool
same_subscription a b =
    str_eq a.topic b.topic
    && str_eq a.subscriber_id b.subscriber_id
    && (a.store_and_forward == b.store_and_forward)

pub same_subscription_refl : (s : Subscription) → same_subscription s s ≡ true
unfolding same_subscription
same_subscription_refl s =
    rw (str_eq_refl s.topic, str_eq_refl s.subscriber_id, ==_refl s.store_and_forward)

abbrev pub subscription_kind : Kind Subscription
subscription_kind = record {
  same = same_subscription;
  same_refl = same_subscription_refl;
  closes = λ _. [];
}

abbrev pub Subscriptions : Type 0
Subscriptions = Store Subscription

unfoldable pub subscription_node_create :
    (fresh : Ptr) (topic id : Bytes) (sf : ℕ) → Cmd Subscriptions Ptr
subscription_node_create fresh topic id sf =
    if fits topic_len topic
    then (if fits id_maxlen id
        then node_create fresh
            (record { topic = topic; subscriber_id = id; store_and_forward = sf })
        else λ _. fault)
    else λ _. fault

unfoldable pub subscription_node_destroy : Ptr → Cmd Subscriptions (Unit {0})
subscription_node_destroy = node_destroy subscription_kind

-- What subscription_node_print() tells of a neighbour.
abbrev pub topic_and_id : Subscription → Bytes × Bytes
topic_and_id s = (s.topic, s.subscriber_id)

unfoldable pub subscription_node_print :
    Ptr → (idx : ℕ) → Cmd Subscriptions (Entry Subscription (Bytes × Bytes))
subscription_node_print = node_print topic_and_id

unfoldable pub subscriptions_print :
    SubscriptionsList → Cmd Subscriptions (List (Entry Subscription (Bytes × Bytes)))
subscriptions_print l = print_all topic_and_id l.head

abbrev pub subscriptions_create : SubscriptionsList
subscriptions_create = record { head = null; current = null }

unfoldable pub subscriptions_destroy : SubscriptionsList → Cmd Subscriptions (Unit {0})
subscriptions_destroy l = destroy_all subscription_kind l.head

unfoldable pub subscriptions_add_subscription :
    SubscriptionsList → Ptr → Cmd Subscriptions SubscriptionsList
subscriptions_add_subscription l subscription = do
  head ← add l.head subscription
  pure (record l { head = head })

unfoldable pub subscriptions_list_is_head : SubscriptionsList → Ptr → Cmd Subscriptions Bool
subscriptions_list_is_head l = is_head subscription_kind l.head

unfoldable pub subscriptions_remove_subscription :
    SubscriptionsList → Ptr → Cmd Subscriptions SubscriptionsList
subscriptions_remove_subscription l subscription = do
  head ← remove subscription_kind l.head subscription
  pure (record l { head = head })

abbrev pub is_of : (topic subscriber_id : Bytes) → Subscription → Bool
is_of topic subscriber_id s = str_eq s.topic topic && str_eq s.subscriber_id subscriber_id

unfoldable pub subscriptions_find :
    SubscriptionsList → (topic subscriber_id : Bytes) → Cmd Subscriptions Ptr
subscriptions_find l topic subscriber_id = find (is_of topic subscriber_id) l.head

abbrev pub on_topic : Bytes → Subscription → Bool
on_topic topic s = str_eq s.topic topic

next_loop : Bytes → ℕ → SubscriptionsList → Ptr → Cmd Subscriptions (Ptr × SubscriptionsList)
next_loop topic zero l current = λ _. starved
next_loop topic (suc k) l current = if current == null then pure (null, l) else do
  n ← load current
  if on_topic topic n.body
      then pure (current, record l { current = n.next })
      else next_loop topic k l n.next

unfoldable pub subscriptions_get_next :
    SubscriptionsList → Bytes → Cmd Subscriptions (Ptr × SubscriptionsList)
unfolding next_loop
subscriptions_get_next l topic =
    if l.head == null then pure (null, l) else λ h. next_loop topic (h.live + 1) l l.current h
