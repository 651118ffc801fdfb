-- ===== src/Tests/Lists.antt =====
-- clients.c and subscriptions.c on stores with two nodes.
use tcp_udp_client_server.Base.{
  ◌≡◌, refl, inl, false, ◌==◌, Option, none, some, [], ◌∷◌, arith, if◌then◌else◌,
}
use tcp_udp_client_server.Clients.{
  Client, client_kind, clients_list_print, has_fd, clients_list_remove_client_by_fd,
  clients_list_update_client_by_fd, client_state_connected, client_state_new,
}
use tcp_udp_client_server.Clients.Printing.{print-removed, list_print-entries}
use tcp_udp_client_server.DList.Print.Entries.{front, entries}
use tcp_udp_client_server.Clients.Changes.{
  enlist as enlist_client, add_client-IsList, remove_by_fd-erase, remove_by_fd-is_last,
  update_by_fd-replace,
}
use tcp_udp_client_server.CString.{Bytes}
use tcp_udp_client_server.DList.{Ptr, null, Store, Node, node, add, destroy_all, is_head}
use tcp_udp_client_server.DList.Insert.{IsFresh, Inserted}
use tcp_udp_client_server.DList.Removal.{Removed, is_last, payload, is_head-eq}
use tcp_udp_client_server.DList.Search.{find_first, first_body}
use tcp_udp_client_server.DList.Shape.{Cells, Chain, nil, cons, IsList, has}
use tcp_udp_client_server.DList.Teardown.{IsGone, destroy_all-IsGone}
use tcp_udp_client_server.DList.Update.{replace}
use tcp_udp_client_server.Outcome.{Ends, ok, fault, then_run}
use tcp_udp_client_server.Subscriptions.{
  Subscription, SubscriptionsList, subscriptions_create, subscriptions_add_subscription,
  subscriptions_remove_subscription, subscriptions_get_next,
}
use tcp_udp_client_server.Subscriptions.Changes.{
  Dropped, remove_subscription-erase, remove_subscription-is_last,
}
use tcp_udp_client_server.Subscriptions.Cursor.{here, next, adds, get_next-starved}

abbrev pub ann : Client
ann = record {
  state = client_state_connected;
  fd = 5;
  id = b'a' ∷ b'n' ∷ b'n' ∷ [];
  ip = 1;
  port = 4000;
}

abbrev pub bob : Client
bob = record {
  state = client_state_connected;
  fd = 6;
  id = b'b' ∷ b'o' ∷ b'b' ∷ [];
  ip = 2;
  port = 4001;
}

abbrev carl : Client
carl = record { state = client_state_new; fd = 7; id = []; ip = 3; port = 4002 }

-- Two nodes, at the addresses 2 and 3.
module _ {D : Type 0} where
  abbrev pair_cell : D → D → Ptr → Option (Node D)
  pair_cell d e a =
      if a == 2 then some (node d null 3) else if a == 3 then some (node e 2 null) else none

  abbrev pub pair : D → D → Store D
  pair d e = record { cell = pair_cell d e; live = 2; closed = [] }

  abbrev pub pair_cells : D → D → Cells D
  pair_cells d e = (2, d) ∷ (3, e) ∷ []

  pair_only : (d e : D) (a : Ptr) → has a (pair_cells d e) ≡ false → pair_cell d e a ≡ none
  pair_only d e a h = ground arith

  pub pair-Chain : (d e : D) → Chain (pair d e) null 2 (pair_cells d e)
  pair-Chain d e =
      cons (record { ne_null = omega arith; holds = refl }) refl
        (cons (record { ne_null = omega arith; holds = refl }) refl (nil refl))

  pub pair-IsList : (d e : D) → IsList (pair d e) 2 (pair_cells d e)
  pair-IsList d e = record {
    pre = null;
    chain = pair-Chain d e;
    count = refl;
    only = pair_only d e;
  }

pub five-IsFresh : {D : Type 0} (d e : D) → IsFresh (pair d e) 5
five-IsFresh d e = record { ne_null = omega arith; unused = refl }

bob_first : first_body (has_fd 6) (pair_cells bob ann) ≡ some bob
unfolding first_body
bob_first = refl

ann_last : first_body (has_fd 5) (pair_cells bob ann) ≡ some ann
unfolding first_body
ann_last = refl

add_client-IsList_example :
    Ends
      (Inserted (pair bob ann) 5 carl (pair_cells bob ann))
      (enlist_client 2 5 carl (pair bob ann))
add_client-IsList_example =
    add_client-IsList (pair-IsList bob ann) 5 carl (five-IsFresh bob ann) (omega arith)

remove_by_fd-erase_example :
    Ends
      (Removed client_kind
        (pair bob ann)
        (pair_cells bob ann)
        (find_first (has_fd 6) (pair_cells bob ann))
        bob)
      (clients_list_remove_client_by_fd 2 6 (pair bob ann))
unfolding find_first
remove_by_fd-erase_example = remove_by_fd-erase (pair-IsList bob ann) 6 bob_first (inl refl)

remove_by_fd-is_last_example : clients_list_remove_client_by_fd 2 5 (pair bob ann) ≡ fault
unfolding is_last find_first
remove_by_fd-is_last_example =
    remove_by_fd-is_last (pair-IsList bob ann) 5 ann_last (omega arith) refl

update_by_fd-replace_example :
    Ends
      (λ _ g.
        IsList g 2 (
          replace
            (find_first (has_fd 6) (pair_cells bob ann))
            (record bob { state = client_state_connected; id = b'x' ∷ [] })
            (pair_cells bob ann))
        × (g.closed ≡ []))
      (clients_list_update_client_by_fd 2 6 client_state_connected (b'x' ∷ []) (pair bob ann))
update_by_fd-replace_example =
    update_by_fd-replace (pair-IsList bob ann) 6 bob_first client_state_connected (b'x' ∷ [])
      (omega arith)

destroy_all-IsGone_example :
    Ends
      (λ _. IsGone client_kind (pair bob ann) (pair_cells bob ann))
      (destroy_all client_kind 2 (pair bob ann))
destroy_all-IsGone_example = destroy_all-IsGone client_kind (pair-IsList bob ann)

abbrev news : Bytes
news = b'n' ∷ b'e' ∷ b'w' ∷ b's' ∷ []

abbrev pub ann_news : Subscription
ann_news = record { topic = news; subscriber_id = ann.id; store_and_forward = 1 }

abbrev pub bob_news : Subscription
bob_news = record { topic = news; subscriber_id = bob.id; store_and_forward = 0 }

abbrev two_subscriptions : SubscriptionsList
two_subscriptions = record { head = 2; current = 2 }

remove_subscription-erase_example :
    Ends
      (Dropped (pair bob_news ann_news) two_subscriptions (pair_cells bob_news ann_news) 2 bob_news)
      (subscriptions_remove_subscription two_subscriptions 2 (pair bob_news ann_news))
unfolding payload
remove_subscription-erase_example =
    remove_subscription-erase two_subscriptions (pair-IsList bob_news ann_news) 2 refl (inl refl)

remove_subscription-is_last_example :
    subscriptions_remove_subscription two_subscriptions 3 (pair bob_news ann_news) ≡ fault
unfolding is_last
remove_subscription-is_last_example =
    remove_subscription-is_last two_subscriptions (pair-IsList bob_news ann_news) 3 refl
      (omega arith)

-- A first subscription at the address 2.
first_added :
    subscriptions_add_subscription subscriptions_create 2 (pair bob_news ann_news)
    ≡ ok (record { head = 2; current = null }) (pair bob_news ann_news)
unfolding subscriptions_add_subscription add
first_added = refl

get_next-starved_example :
    subscriptions_get_next (record { head = 2; current = null }) news (pair bob_news ann_news)
    ≡ ok (null, record { head = 2; current = null }) (pair bob_news ann_news)
get_next-starved_example =
    get_next-starved news (pair bob_news ann_news)
      (next here (adds 2 (pair bob_news ann_news) (pair bob_news ann_news) first_added))

-- The second of two nodes with the same fields is not taken for the first.
is_head-eq_example : is_head client_kind 2 3 (pair ann ann) ≡ ok false (pair ann ann)
is_head-eq_example =
    is_head-eq client_kind {n = node ann 2 null} (pair-Chain ann ann) refl
      (record { ne_null = omega arith; holds = refl })

print-removed_example :
    then_run (clients_list_remove_client_by_fd 2 bob.fd (pair bob ann)) clients_list_print ≡ fault
print-removed_example = print-removed (pair-IsList bob ann)

list_print-entries_example :
    clients_list_print 2 (pair bob ann)
    ≡ ok
        (record { idx = 0; body = bob; prev = none; next = some ann.id }
          ∷ record { idx = 1; body = ann; prev = some bob.id; next = none }
          ∷ [])
        (pair bob ann)
unfolding entries front
list_print-entries_example = list_print-entries (pair-IsList bob ann) (pair-Chain bob ann)
