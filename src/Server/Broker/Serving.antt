-- ===== src/Server/Broker/Serving.antt =====
-- server.c: the end of a subscription, and any message of a connected client, do to the desk what the
-- specification says.
use tcp_udp_client_server.Base.{
  ◌≡◌, ◌⊎◌, inl, inr, refl, ℕ, Bool, true, false, not, ◌&&◌, Option, none, some, ◌==◌,
  if◌then◌else◌, arith, subst, ap, sym, List, [], ◌∷◌,
}
use tcp_udp_client_server.Clients.{Client, has_fd}
use tcp_udp_client_server.CString.{Bytes, c_str}
use tcp_udp_client_server.DList.{Ptr, null}
use tcp_udp_client_server.DList.Abstract.{
  erase_first, bodies-erase, find_first-at_end, find_first-in_front, erase_first-none, at_end-none,
}
use tcp_udp_client_server.DList.Insert.{IsFresh}
use tcp_udp_client_server.DList.Removal.{is_last}
use tcp_udp_client_server.DList.Search.{find_first, first_body}
use tcp_udp_client_server.DList.Shape.{Cells, IsList, bodies}
use tcp_udp_client_server.DList.View.{find_first-payload, find_first-null}
use tcp_udp_client_server.Outcome.{ok, fault, then_run, Ends, ends, Ends-mono}
use tcp_udp_client_server.Packets.{tcp_msg_subscribe, tcp_msg_unsubscribe}
use tcp_udp_client_server.Server.{Answers, treat_subscription}
use tcp_udp_client_server.Server.Broker.{
  Verdict, undefined, becomes, Desk, delist, unsubscribe, serve,
}
use tcp_udp_client_server.Server.Broker.Represents.{desk_of, IsDesk, Refines, Refines-if}
use tcp_udp_client_server.Subscriptions.{Subscription, is_of}
use tcp_udp_client_server.Subscriptions.Changes.{remove_subscription-is_last}
use tcp_udp_client_server.TcpServer.{TcpServer, on_nodes, tcp_server_unsubscribe}
use tcp_udp_client_server.TcpServer.Finding.{
  find_subscription-empty, find_subscription-unread, find_subscription-ok,
}
use tcp_udp_client_server.TcpServer.Invariant.{IsWellFormed, find_client-ok}
use tcp_udp_client_server.TcpServer.Subscribing.{known, client_at-ok, unsubscribe-HasSubscriptions}
use tcp_udp_client_server.Server.Broker.Subscribing.{held-IsDesk, subscribe-Refines}

-- With a subscription, the message is read.
unsubscribe-some :
    (c : Client) (d : Desk) (x : Subscription) (xs : List Subscription)
    → d.held ≡ x ∷ xs
    → unsubscribe c d ≡ elim (c_str d.last.payload) as (λ _. Verdict Desk) [
      | none ↦ undefined
      | some topic ↦ delist c topic d
    ]
unfolding unsubscribe
unsubscribe-some c d x xs e =
    ap
      (λ (l : List Subscription). elim l as (λ _. Verdict Desk) [
        | [] ↦ becomes d
        | _ ∷ _ ↦ elim (c_str d.last.payload) as (λ _. Verdict Desk) [
          | none ↦ undefined
          | some topic ↦ delist c topic d
        ]
      ])
      e

module _ (t : TcpServer) (w : IsWellFormed t) where
  module _ (fd : ℕ) (c : Client) (f : first_body (has_fd fd) w.members ≡ some c) where
    abbrev of : Bytes → Subscription → Bool
    of topic = is_of topic c.id

    abbrev place : Bytes → Ptr
    place topic = find_first (of topic) w.held

    module _ (topic : Bytes) (read : c_str t.recv_msg.payload ≡ some topic) where
      not_held : first_body (of topic) w.held ≡ none → tcp_server_unsubscribe fd t ≡ ok tt t
      unfolding tcp_server_unsubscribe on_nodes
      not_held g =
          rw
            (
              find_client-ok t w fd,
              then_run,
              known t w fd c f,
              client_at-ok t w fd c f,
              then_run,
              find_subscription-ok t c.id w.held topic w.held_list read,
              then_run,
              find_first-null (of topic) w.held g,
            )
            refl

      oldest :
          {sub : Subscription}
          → first_body (of topic) w.held ≡ some sub
          → is_last (place topic) w.held ≡ true
          → (t.subscriptions.head == place topic) ≡ false
          → tcp_server_unsubscribe fd t ≡ fault
      unfolding tcp_server_unsubscribe on_nodes
      oldest g last ne =
          let found : (place topic == null) ≡ false =
            ground (arith, (find_first-payload (of topic) w.held_list.chain g).0) in
          rw
            (
              find_client-ok t w fd,
              then_run,
              known t w fd c f,
              client_at-ok t w fd c f,
              then_run,
              find_subscription-ok t c.id w.held topic w.held_list read,
              then_run,
              found,
              remove_subscription-is_last t.subscriptions w.held_list (place topic) last
                  (ground arith),
            )
            refl

      dropped :
          {sub : Subscription}
          → first_body (of topic) w.held ≡ some sub
          → (t.subscriptions.head ≡ place topic) ⊎ (is_last (place topic) w.held ≡ false)
          → Ends
              (λ _.
                IsDesk t.fd
                  (record (desk_of t w) { held = erase_first (of topic) (bodies w.held) }))
              (tcp_server_unsubscribe fd t)
      dropped {sub} g at =
          Ends-mono (unsubscribe-HasSubscriptions t w fd c f topic read g at)
            λ _ u h. held-IsDesk t w _ _ u (bodies-erase (of topic) {c = sub} w.held_list.chain g) h

      found_place :
          {sub : Subscription}
          → first_body (of topic) w.held ≡ some sub
          → (last : Bool) → is_last (place topic) w.held ≡ last
          → (front : Bool) → (t.subscriptions.head == place topic) ≡ front
          → Refines
              (IsDesk t.fd)
              (if last && not front
                then undefined
                else becomes
                    (record (desk_of t w) { held = erase_first (of topic) (bodies w.held) }))
              (tcp_server_unsubscribe fd t)
      found_place g false l front m = dropped g (inr l)
      found_place g true l true m = dropped g (inl (ground arith))
      found_place g true l false m = oldest g l m

      delist-Refines :
          (o : Option Subscription)
          → first_body (of topic) w.held ≡ o
          → Refines (IsDesk t.fd) (delist c topic (desk_of t w)) (tcp_server_unsubscribe fd t)
      delist-Refines none g =
          rw (at_end-none (of topic) w.held g, erase_first-none (of topic) w.held g, not_held g)
            (ends (record { well = w; fd = refl; same = refl }))
      delist-Refines (some sub) g =
          rw
            (
              ← find_first-at_end (of topic) {c = sub} w.held_list.chain g,
              ← find_first-in_front (of topic) {c = sub} w.held_list.chain g,
            )
            (found_place g _ refl _ refl)

    -- Without subscriptions the message is not read.
    unsubscribe_none : w.held ≡ [] → tcp_server_unsubscribe fd t ≡ ok tt t
    unfolding tcp_server_unsubscribe
    unsubscribe_none e =
        rw
          (
            find_client-ok t w fd,
            then_run,
            known t w fd c f,
            client_at-ok t w fd c f,
            then_run,
            find_subscription-empty t c.id
                (subst (IsList t.nodes t.subscriptions.head) e w.held_list),
            then_run,
          )
          refl

    unsubscribe_text :
        (p : Ptr) (d : Subscription) (xs : Cells Subscription)
        → w.held ≡ (p, d) ∷ xs
        → (o : Option Bytes) → c_str t.recv_msg.payload ≡ o
        → Refines
            (IsDesk t.fd)
            (elim o as (λ _. Verdict Desk) [
              | none ↦ undefined
              | some topic ↦ delist c topic (desk_of t w)
            ])
            (tcp_server_unsubscribe fd t)
    unfolding tcp_server_unsubscribe
    unsubscribe_text p d xs held none e =
        rw
          (
            find_client-ok t w fd,
            then_run,
            known t w fd c f,
            client_at-ok t w fd c f,
            then_run,
            find_subscription-unread t c.id p d xs
                (subst (IsList t.nodes t.subscriptions.head) held w.held_list) e,
            then_run,
          )
          refl
    unsubscribe_text p d xs held (some topic) e = delist-Refines topic e _ refl

    unsubscribe-Refines :
        Refines (IsDesk t.fd) (unsubscribe c (desk_of t w)) (tcp_server_unsubscribe fd t)
    unfolding unsubscribe
    unsubscribe-Refines = by_held w.held refl
      where
        by_held :
            (xs : Cells Subscription)
            → w.held ≡ xs
            → Refines (IsDesk t.fd) (unsubscribe c (desk_of t w)) (tcp_server_unsubscribe fd t)
        by_held [] e =
            rw (e, unsubscribe_none e)
              (ends (record {
                well = w;
                fd = refl;
                same =
                    ap (λ (xs : Cells Subscription). record (desk_of t w) { held = bodies xs }) e;
              }))
        by_held ((p, d) ∷ xs) e =
            subst (λ v. Refines (IsDesk t.fd) v (tcp_server_unsubscribe fd t))
              (sym (unsubscribe-some c (desk_of t w) d (bodies xs) (ap bodies e)))
              (unsubscribe_text p d xs e _ refl)

    -- A message of a client that is connected.
    pub serve-Refines :
        (a : Answers)
        → IsFresh t.nodes a.fresh
        → Refines (IsDesk t.fd) (serve a.junk_flag c (desk_of t w)) (treat_subscription a fd t)
    unfolding treat_subscription
    serve-Refines a new =
        Refines-if (IsDesk t.fd) (t.recv_msg.msg_type == tcp_msg_subscribe) _ _ _ _
          (λ _. subscribe-Refines t w fd c f a.fresh a.junk_flag new)
          λ _.
            Refines-if (IsDesk t.fd) (t.recv_msg.msg_type == tcp_msg_unsubscribe) _ _ _ _
              (λ _. unsubscribe-Refines) λ _. ends (record { well = w; fd = refl; same = refl })
