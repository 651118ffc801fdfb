-- ===== src/Clients/Printing.antt =====
-- clients_list_print(), of a well-formed list and after the removal of a client.
use tcp_udp_client_server.Base.{◌≡◌, refl, none, ◌∷◌, ◌==◌, true, ==_refl}
use tcp_udp_client_server.Clients.{
  Client, Clients, client_kind, clients_list_remove_client, clients_list_remove_client_by_fd,
  clients_list_print,
}
use tcp_udp_client_server.Clients.Changes.{list-ne}
use tcp_udp_client_server.Clients.Lookup.{find_by_fd-ok}
use tcp_udp_client_server.DList.{Ptr, null}
use tcp_udp_client_server.DList.Print.Entries.{entries, print_all-entries, print_all-remove}
use tcp_udp_client_server.DList.Search.{find_first, first_body}
use tcp_udp_client_server.DList.Shape.{Cells, bodies, Chain, IsList}
use tcp_udp_client_server.Outcome.{ok, fault, then_run}

-- A well-formed list, before whose first node there is none: the print returns, changes nothing, and tells of each
-- client, in order, with its index from 0 on and the ids of the clients before and behind it, if any.
pub list_print-entries :
    {h : Clients} {head : Ptr} {xs : Cells Client}
    → IsList h head xs
    → Chain h null head xs
    → clients_list_print head h ≡ ok (entries (λ c. c.id) 0 none (bodies xs)) h
unfolding clients_list_print
list_print-entries is c = print_all-entries (λ e. e.id) is c

-- A well-formed list of two clients or more: after the removal of the newest one, by its descriptor, the print of
-- the list is undefined behaviour, since it reads the freed node before the first one.
pub print-removed :
    {h : Clients} {head p : Ptr} {c d : Client} {xs : Cells Client}
    → IsList h head ((head, c) ∷ (p, d) ∷ xs)
    → then_run (clients_list_remove_client_by_fd head c.fd h) clients_list_print ≡ fault
unfolding clients_list_remove_client_by_fd clients_list_remove_client clients_list_print find_first
    first_body
print-removed {c} is =
    let here : (c.fd == c.fd) ≡ true = ==_refl c.fd in
    rw
      (
        list-ne is c.fd {c = c} (rw here refl),
        find_by_fd-ok is c.fd,
        here,
        list-ne is c.fd {c = c} (rw here refl),
      )
      (print_all-remove (λ e. e.id) client_kind is)
