-- ===== src/DList.antt =====
-- The doubly linked lists of clients.c and subscriptions.c. The two files hold the same list code
-- over two node types; here it stands once, over the payload `D` of a node (all fields but `prev`
-- and `next`). A `Store` is the memory of one node type: `live` counts the nodes that are
-- allocated, and `closed` lists the descriptors that were passed to close(), last first.
--   Clients.antt and Subscriptions.antt instantiate it, function by function.
-- The loops run on `live + 1` rounds, which suffice in a list that is well formed.
pub mod Shape
pub mod Access
pub mod Insert
pub mod Search
pub mod Neighbours
pub mod Unlink
pub mod Removal
pub mod Teardown
pub mod Update
pub mod View
pub mod Print
pub mod Abstract
use tcp_udp_client_server.Base.{
  ℕ, zero, suc, ◌+◌, ◌-◌, ◌≡◌, Bool, true, ◌&&◌, Option, none, some, List, ◌++◌, ◌==◌,
  if◌then◌else◌,
}
use tcp_udp_client_server.Outcome.{Outcome, ok, fault, starved, Cmd, pure, ◌>>=◌, ◌>>◌}

abbrev pub Ptr : Type 0
Ptr = ℕ

abbrev pub null : Ptr
null = 0

pub record Node (D : Type 0) : Type 0 where
  pub body : D
  pub prev : Ptr
  pub next : Ptr

pub record Store (D : Type 0) : Type 0 where
  pub cell : Ptr → Option (Node D)
  pub live : ℕ
  pub closed : List ℕ

-- What the list code takes from the node type: the fields that the `is_head` test compares, and
-- the descriptors that the destructor closes.
pub record Kind (D : Type 0) : Type 0 where
  pub same : D → D → Bool
  pub same_refl : (d : D) → same d d ≡ true
  pub closes : D → List ℕ

module _ {D : Type 0} where
  abbrev pub node : D → Ptr → Ptr → Node D
  node d p q = record { body = d; prev = p; next = q }

  unfoldable pub write : Store D → Ptr → Option (Node D) → Store D
  write h p c = record h { cell = λ a. if a == p then c else h.cell a }

  -- `*p`: undefined at NULL and at an address that holds no node.
  unfoldable pub load : Ptr → Cmd (Store D) (Node D)
  load p h = if p == null then fault else elim (h.cell p) [ none ↦ fault | some n ↦ ok n h ]

  unfoldable pub set_prev : Ptr → Ptr → Cmd (Store D) (Unit {0})
  unfolding load write
  set_prev p q = do n ← load p; λ h. ok tt (write h p (some (record n { prev = q })))

  unfoldable pub set_next : Ptr → Ptr → Cmd (Store D) (Unit {0})
  unfolding load write
  set_next p q = do n ← load p; λ h. ok tt (write h p (some (record n { next = q })))

  unfoldable pub set_body : Ptr → D → Cmd (Store D) (Unit {0})
  unfolding load write
  set_body p d = do n ← load p; λ h. ok tt (write h p (some (record n { body = d })))

  -- malloc() returned `fresh`, and the constructor fills the node without a test for NULL.
  unfoldable pub node_create : Ptr → D → Cmd (Store D) Ptr
  unfolding write
  node_create fresh d h =
      if fresh == null
      then fault
      else ok fresh (record (write h fresh (some (node d null null))) { live = h.live + 1 })

  -- The list code proper. A list struct is its `head` pointer, passed in and returned.
  unfoldable pub add : (head p : Ptr) → Cmd (Store D) Ptr
  unfolding set_next set_prev
  add head p = if head == null then pure p else do set_next p head; set_prev head p; pure p

  find_loop : (D → Bool) → ℕ → Ptr → Cmd (Store D) Ptr
  find_loop test zero cur = λ _. starved
  find_loop test (suc k) cur =
      if cur == null
      then pure null
      else do n ← load cur; if test n.body then pure cur else find_loop test k n.next

  unfoldable pub find : (D → Bool) → Ptr → Cmd (Store D) Ptr
  unfolding find_loop load
  find test head = if head == null then pure null else λ h. find_loop test (h.live + 1) head h

module _ {D : Type 0} (kind : Kind D) where
  open kind use {same, closes}

  -- The destructor: close() what the node owns, then free() it.
  unfoldable pub node_destroy : Ptr → Cmd (Store D) (Unit {0})
  unfolding load write
  node_destroy p = do
    n ← load p
    λ h. ok tt (record (write h p none) { live = h.live - 1; closed = closes n.body ++ h.closed })

  unfoldable pub is_head : (head p : Ptr) → Cmd (Store D) Bool
  unfolding load
  is_head head p = do
    h ← load head
    n ← load p
    pure (same h.body n.body && (h.prev == n.prev) && (h.next == n.next))

  drop_head : (head p : Ptr) → Cmd (Store D) Ptr
  drop_head head p = do h ← load head; node_destroy p; pure h.next

  splice_out : (head p : Ptr) → Cmd (Store D) Ptr
  splice_out head p = do
    n ← load p
    set_prev n.next n.prev
    m ← load p
    set_next m.prev m.next
    node_destroy p
    pure head

  unfoldable pub remove : (head p : Ptr) → Cmd (Store D) Ptr
  unfolding is_head node_destroy set_next set_prev load drop_head splice_out
  remove head p =
      if head == null
      then pure head
      else if p == null
      then pure head
      else do at_head ← is_head head p; if at_head then drop_head head p else splice_out head p

  destroy_loop : ℕ → Ptr → Cmd (Store D) (Unit {0})
  destroy_loop zero head = λ _. starved
  destroy_loop (suc k) head =
      if head == null then pure tt else do head' ← remove head head; destroy_loop k head'

  unfoldable pub destroy_all : Ptr → Cmd (Store D) (Unit {0})
  unfolding destroy_loop remove
  destroy_all head h = destroy_loop (h.live + 1) head h
