-- ===== src/Server/Broker/Subscribing.antt =====
-- server.c: a subscription does to the desk what the specification says.
use tcp_udp_client_server.Base.{
  ◌≡◌, refl, sym, ap, subst, ℕ, false, ◌&&◌, Option, none, some, List, ◌∷◌, arith, ltb→lt,
}
use tcp_udp_client_server.Clients.{Client, id_maxlen, has_fd}
use tcp_udp_client_server.CString.{Bytes, c_str, fits}
use tcp_udp_client_server.DList.{Ptr}
use tcp_udp_client_server.DList.Insert.{IsFresh}
use tcp_udp_client_server.DList.Search.{first_body}
use tcp_udp_client_server.DList.Shape.{Cells, bodies}
use tcp_udp_client_server.Outcome.{ok, fault, then_run, Ends-mono}
use tcp_udp_client_server.Server.Broker.{Verdict, undefined, Desk, enlist, subscribe}
use tcp_udp_client_server.Server.Broker.Represents.{desk_of, IsDesk, Refines, Refines-where}
use tcp_udp_client_server.Subscriptions.{Subscription, topic_len, subscription_node_create}
use tcp_udp_client_server.TcpServer.{
  TcpServer, SubscribeArgs, on_nodes, sub_args_of, string_of, tcp_server_get_sub_args,
  tcp_server_subscribe,
}
use tcp_udp_client_server.TcpServer.Invariant.{IsWellFormed, with_held, find_client-ok}
use tcp_udp_client_server.TcpServer.Subscribing.{
  HasSubscriptions, known, client_at-ok, subscribe-HasSubscriptions,
}

module _ (t : TcpServer) (w : IsWellFormed t) where
  -- Other subscriptions, on the desk.
  pub held-IsDesk :
      (ys : Cells Subscription) (l : List Subscription) (u : TcpServer)
      → bodies ys ≡ l
      → HasSubscriptions t ys u
      → IsDesk t.fd (record (desk_of t w) { held = l }) u
  held-IsDesk ys l u e h =
      subst (IsDesk t.fd (record (desk_of t w) { held = l })) (sym h.other) (record {
        well = with_held t u.nodes u.subscriptions ys w h.list h.cursor;
        fd = refl;
        same = ap (λ (k : List Subscription). record (desk_of t w) { held = k }) e;
      })

  module _ (fd : ℕ) (c : Client) (f : first_body (has_fd fd) w.members ≡ some c) where
    abbrev subscribed : Bytes → SubscribeArgs → Subscription
    subscribed id args = record {
      topic = args.topic;
      subscriber_id = id;
      store_and_forward = args.store_and_forward;
    }

    overrun :
        (fresh : Ptr) (junk : ℕ) (args : SubscribeArgs)
        → tcp_server_get_sub_args junk t ≡ ok args t
        → (fits topic_len args.topic && fits id_maxlen c.id) ≡ false
        → tcp_server_subscribe fd fresh junk t ≡ fault
    unfolding tcp_server_subscribe on_nodes subscription_node_create
    overrun fresh junk args e over =
        let none_made : subscription_node_create fresh args.topic c.id args.store_and_forward
              t.nodes
            ≡ fault =
          ground arith in
        rw
          (
            find_client-ok t w fd,
            then_run,
            known t w fd c f,
            e,
            then_run,
            client_at-ok t w fd c f,
            then_run,
            none_made,
          )
          refl

    enlist-Refines :
        (fresh : Ptr) (junk : ℕ) (text : Bytes)
        → c_str t.recv_msg.payload ≡ some text
        → IsFresh t.nodes fresh
        → (o : Option SubscribeArgs) → sub_args_of junk text ≡ o
        → Refines (IsDesk t.fd) (enlist c o (desk_of t w)) (tcp_server_subscribe fd fresh junk t)
    unfolding tcp_server_subscribe tcp_server_get_sub_args
    enlist-Refines fresh junk text e new none g =
        rw (find_client-ok t w fd, then_run, known t w fd c f, e, string_of, then_run, g) refl
    enlist-Refines fresh junk text e new (some args) g =
        let read : tcp_server_get_sub_args junk t ≡ ok args t =
          rw (e, string_of, then_run, g) refl in
        Refines-where (IsDesk t.fd) (fits topic_len args.topic && fits id_maxlen c.id) _ _
          (λ fit.
            Ends-mono
              (subscribe-HasSubscriptions t w fd c f fresh junk args read new
                (ltb→lt _ _ (ground arith)) (ltb→lt _ _ (ground arith)))
              λ _ u h. held-IsDesk ((fresh, subscribed c.id args) ∷ w.held) _ u refl h)
          λ over. overrun fresh junk args read over

    subscribe_text :
        (fresh : Ptr) (junk : ℕ)
        → IsFresh t.nodes fresh
        → (o : Option Bytes) → c_str t.recv_msg.payload ≡ o
        → Refines
            (IsDesk t.fd)
            (elim o as (λ _. Verdict Desk) [
              | none ↦ undefined
              | some text ↦ enlist c (sub_args_of junk text) (desk_of t w)
            ])
            (tcp_server_subscribe fd fresh junk t)
    unfolding tcp_server_subscribe tcp_server_get_sub_args
    subscribe_text fresh junk new none e =
        rw (find_client-ok t w fd, then_run, known t w fd c f, e, string_of, then_run) refl
    subscribe_text fresh junk new (some text) e = enlist-Refines fresh junk text e new _ refl

    pub subscribe-Refines :
        (fresh : Ptr) (junk : ℕ)
        → IsFresh t.nodes fresh
        → Refines
            (IsDesk t.fd)
            (subscribe junk c (desk_of t w))
            (tcp_server_subscribe fd fresh junk t)
    unfolding subscribe
    subscribe-Refines fresh junk new = subscribe_text fresh junk new _ refl
