-- ===== src/DList/Access.antt =====
-- Each access of the list code at a pointer to a known node.
use tcp_udp_client_server.Base.{◌-◌, ◌≡◌, none, some, ◌++◌, arith}
use tcp_udp_client_server.DList.{
  Ptr, Node, node, Store, Kind, write, set_prev, set_next, set_body, node_destroy,
}
use tcp_udp_client_server.DList.Shape.{At, load-At}
use tcp_udp_client_server.Outcome.{ok}

module _ {D : Type 0} {h : Store D} {p a b : Ptr} {d : D} (e : At h p (node d a b)) where
  pub set_prev-ok : (q : Ptr) → set_prev p q h ≡ ok tt (write h p (some (node d q b)))
  unfolding set_prev
  set_prev-ok q = rw (load-At e)

  pub set_next-ok : (q : Ptr) → set_next p q h ≡ ok tt (write h p (some (node d a q)))
  unfolding set_next
  set_next-ok q = rw (load-At e)

  pub set_body-ok : (c : D) → set_body p c h ≡ ok tt (write h p (some (node c a b)))
  unfolding set_body
  set_body-ok c = rw (load-At e)

  pub At-write : (n : Node D) → At (write h p (some n)) p n
  unfolding write
  At-write n = record { ne_null = e.ne_null; holds = ground arith }

module _ {D : Type 0} (kind : Kind D) where
  open kind use {closes}

  -- The store after node_destroy().
  abbrev pub destroyed : Store D → Ptr → D → Store D
  destroyed h p d = record (write h p none) { live = h.live - 1; closed = closes d ++ h.closed }

  pub node_destroy-ok :
      {h : Store D} {p a b : Ptr} {d : D}
      → At h p (node d a b)
      → node_destroy kind p h ≡ ok tt (destroyed h p d)
  unfolding node_destroy
  node_destroy-ok e = rw (load-At e)
