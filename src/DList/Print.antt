-- ===== src/DList/Print.antt =====
-- clients_list_print() and subscriptions_print(), which are the same code on the two lists: the lines of each
-- node, with what is told of the nodes before and behind it. The text that printf() makes is not computed.
pub mod Entries
use tcp_udp_client_server.Base.{
  ℕ, zero, suc, ◌+◌, Option, none, some, List, [], ◌∷◌, ◌==◌, if◌then◌else◌,
}
use tcp_udp_client_server.DList.{Ptr, null, Store, load}
use tcp_udp_client_server.Outcome.{Cmd, starved, pure, ◌>>=◌}

-- What is printed of one node: `none` is "no prev", "no next".
pub record Entry (D N : Type 0) : Type 0 where
  pub idx : ℕ
  pub body : D
  pub prev : Option N
  pub next : Option N

module _ {D N : Type 0} (tell : D → N) where
  unfoldable pub told : Ptr → Cmd (Store D) (Option N)
  told p = if p == null then pure none else do n ← load p; pure (some (tell n.body))

  unfoldable pub node_print : Ptr → (idx : ℕ) → Cmd (Store D) (Entry D N)
  unfolding told
  node_print p idx = do
    n ← load p
    prev ← told n.prev
    next ← told n.next
    pure (record { idx = idx; body = n.body; prev = prev; next = next })

  unfoldable pub print_loop :
      (rounds : ℕ) → (current : Ptr) → (idx : ℕ) → Cmd (Store D) (List (Entry D N))
  unfolding node_print
  print_loop zero current idx = λ _. starved
  print_loop (suc k) current idx = if current == null then pure [] else do
    line ← node_print current idx
    n ← load current
    lines ← print_loop k n.next (idx + 1)
    pure (line ∷ lines)

  -- An empty list of lines is the line that the list is empty.
  unfoldable pub print_all : (head : Ptr) → Cmd (Store D) (List (Entry D N))
  unfolding print_loop
  print_all head h = print_loop (h.live + 1) head 0 h
