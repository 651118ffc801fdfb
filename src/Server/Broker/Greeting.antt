-- ===== src/Server/Broker/Greeting.antt =====
-- server.c: the first message of a client does to the broker what the specification says.
use tcp_udp_client_server.Base.{
  ◌≡◌, ◌∙◌, ◌<◌, refl, ap, ℕ, false, Option, none, some, List, ◌∷◌, ◌==◌, if◌then◌else◌, arith,
  length, ltb→lt,
}
use tcp_udp_client_server.Clients.{
  Client, Clients, id_maxlen, client_state_connected, has_fd, has_id,
}
use tcp_udp_client_server.Clients.Ids.{replace-AreDistinct}
use tcp_udp_client_server.Clients.Refinement.{named}
use tcp_udp_client_server.CString.{Bytes, c_str, fits}
use tcp_udp_client_server.DList.Abstract.{any, update_first, any-none, any-some, bodies-replace}
use tcp_udp_client_server.DList.Search.{find_first, first_body}
use tcp_udp_client_server.DList.Shape.{Cells, IsList, bodies}
use tcp_udp_client_server.DList.Update.{replace}
use tcp_udp_client_server.DList.View.{first_body-replace_self, find_first-payload}
use tcp_udp_client_server.Outcome.{Outcome, fault, then_run, Ends, Ends-mono, Ends-bind}
use tcp_udp_client_server.Packets.{tcp_msg_new}
use tcp_udp_client_server.Server.{Server, connected, on_tcp, after_update}
use tcp_udp_client_server.Server.Broker.{
  Verdict, undefined, becomes, Broker, say, leave, introduce, greet,
}
use tcp_udp_client_server.Server.Broker.Leaving.{keep_tcp-Ends, close_connection-Refines}
use tcp_udp_client_server.Server.Broker.Represents.{
  desk_of, Represents, Refines, Refines-either, on_tcp-Ends,
}
use tcp_udp_client_server.Poller.Watched.{watched}
use tcp_udp_client_server.Server.Invariant.{IsSound}
use tcp_udp_client_server.TcpServer.{
  TcpServer, updated, client_connected, client_already_connected, string_of,
  tcp_server_update_client,
}
use tcp_udp_client_server.TcpServer.Invariant.{IsWellFormed, with_members, with_notice}
use tcp_udp_client_server.TcpServer.Updating.{
  update_client-wrong_type, update_client-long, update_client-taken, update_client-updated,
}
use tcp_udp_client_server.Server.Broker.HangingUp.{print-IsDesk}

module _ (s : Server) (i : IsSound s) (fd : ℕ) where
  abbrev t : TcpServer
  t = s.tcp_server

  abbrev w : IsWellFormed t
  w = i.tcp_server

  abbrev Does : Verdict Broker → Outcome Server (Unit {0}) → Type 0
  Does = Refines (Represents s.udp_server.fd s.tcp_server.fd)

  module _ (c : Client) (f : first_body (has_fd fd) w.members ≡ some c) where
    abbrev greeting : Outcome Server (Unit {0})
    greeting = then_run (on_tcp (tcp_server_update_client fd) s) (after_update fd)

    refused :
        (t.recv_msg.msg_type == tcp_msg_new) ≡ false
        → Ends
            (λ _. Represents s.udp_server.fd s.tcp_server.fd (record {
              watched = watched s.poller;
              desk = say (client_connected c) (desk_of t w);
            }))
            greeting
    unfolding on_tcp after_update
    refused e =
        rw (update_client-wrong_type fd t (ground arith))
          (on_tcp-Ends s i (print-IsDesk t w fd connected c f))

    nameless :
        c_str t.recv_msg.payload ≡ none → t.recv_msg.msg_type ≡ tcp_msg_new → greeting ≡ fault
    unfolding on_tcp tcp_server_update_client
    nameless e new = rw (new, e, string_of, then_run) refl

    module _ (id : Bytes) (new : t.recv_msg.msg_type ≡ tcp_msg_new)
        (read : c_str t.recv_msg.payload ≡ some id) where
      taken :
          {d : Client}
          → length id < id_maxlen
          → first_body (has_id id) w.members ≡ some d
          → Does
              (leave fd (watched s.poller) (say (client_already_connected id) (desk_of t w)))
              greeting
      unfolding on_tcp after_update
      taken short g = rw (update_client-taken t w.members_list fd id new read short g) (
          close_connection-Refines
            (record s {
              tcp_server = record t { printed = client_already_connected id ∷ t.printed };
            })
            (record {
              poller = i.poller;
              tcp_server = with_notice t (client_already_connected id) w;
            })
            fd)

      abbrev renamed : Cells Client
      renamed =
          replace (find_first (has_fd fd) w.members) (named client_state_connected id c) w.members

      still_there : first_body (has_fd fd) renamed ≡ some (named client_state_connected id c)
      still_there =
          first_body-replace_self (has_fd fd) (named client_state_connected id c)
            w.members_list.chain f ((find_first-payload (has_fd fd) w.members_list.chain f).2)

      free :
          length id < id_maxlen
          → first_body (has_id id) w.members ≡ none
          → Ends
              (λ _. Represents s.udp_server.fd s.tcp_server.fd (record {
                watched = watched s.poller;
                desk =
                    say
                      (client_connected (named client_state_connected id c))
                      (record (desk_of t w) {
                        members =
                            update_first
                              (has_fd fd)
                              (named client_state_connected id)
                              (bodies w.members);
                      });
              }))
              greeting
      unfolding on_tcp after_update
      free short g =
          Ends-bind
            (keep_tcp-Ends
              {Q = λ u v.
                (u ≡ updated)
                × (h : Clients) × IsList h t.connected_clients renamed
                × (v ≡ record s { tcp_server = record t { clients = h } })}
              s (update_client-updated t w.members_list fd id new read short g f)
              λ u v (e, (is, same), q).
                (e, v.clients, is, ap (λ (k : TcpServer). record s { tcp_server = k }) q))
            λ u v (e, h, is, q).
              let t' : TcpServer = record t { clients = h } in
              let w' : IsWellFormed t' = with_members t h t.connected_clients renamed w is (
                replace-AreDistinct _ (named client_state_connected id c) w.members g w.distinct) in
              rw (e, q)
                (on_tcp-Ends (record s { tcp_server = t' })
                  (record { poller = i.poller; tcp_server = w' })
                  (Ends-mono
                    (print-IsDesk t' w' fd connected (named client_state_connected id c)
                      still_there)
                    λ _ x d. record {
                      well = d.well;
                      fd = d.fd;
                      same =
                          d.same
                          ∙ ap
                              (λ (m : List Client).
                                say (client_connected (named client_state_connected id c))
                                  (record (desk_of t w) { members = m }))
                              (bodies-replace (has_fd fd) {c = c} (named client_state_connected id)
                                w.members_list.chain f);
                    }))

      known_id :
          (o : Option Client)
          → first_body (has_id id) w.members ≡ o
          → length id < id_maxlen
          → Does
              (if any (has_id id) (bodies w.members)
                then leave fd (watched s.poller) (say (client_already_connected id) (desk_of t w))
                else becomes (record {
                  watched = watched s.poller;
                  desk =
                      say
                        (client_connected (named client_state_connected id c))
                        (record (desk_of t w) {
                          members =
                              update_first
                                (has_fd fd)
                                (named client_state_connected id)
                                (bodies w.members);
                        });
                }))
              greeting
      known_id none g short = rw (any-none (has_id id) w.members g) (free short g)
      known_id (some d) g short = rw (any-some (has_id id) w.members {c = d} g) (taken short g)

      introduce-Refines : Does (introduce fd c id (watched s.poller) (desk_of t w)) greeting
      unfolding on_tcp
      introduce-Refines =
          Refines-either _ (fits id_maxlen id) _ _ _ (λ short. known_id _ refl (ltb→lt _ _ short))
            λ long. rw (update_client-long t w.members_list fd id new read (ground arith)) refl

    text-Refines :
        (o : Option Bytes)
        → c_str t.recv_msg.payload ≡ o
        → t.recv_msg.msg_type ≡ tcp_msg_new
        → Does
            (elim o as (λ _. Verdict Broker) [
              | none ↦ undefined
              | some id ↦ introduce fd c id (watched s.poller) (desk_of t w)
            ])
            greeting
    text-Refines none e new = nameless e new
    text-Refines (some id) e new = introduce-Refines id new e

    pub greet-Refines : Does (greet fd c (watched s.poller) (desk_of t w)) greeting
    unfolding greet
    greet-Refines =
        Refines-either _ (t.recv_msg.msg_type == tcp_msg_new) _ _ _
          (λ new. text-Refines _ refl (ground arith)) refused
