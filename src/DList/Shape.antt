-- ===== src/DList/Shape.antt =====
-- Well-formed doubly linked lists, and what they stand for.
use tcp_udp_client_server.Base.{
  ◌≡◌, ◌≢◌, inl, inr, Bool, true, false, ◌||◌, none, some, List, [], ◌∷◌, arith, ◌==◌, length,
  Bool-cases,
}
use tcp_udp_client_server.DList.{Ptr, null, Node, node, Store, load}
use tcp_udp_client_server.Outcome.{ok}

-- Address and payload of each node, in order.
abbrev pub Cells : Type 0 → Type 0
Cells D = List (Ptr × D)

module _ {D : Type 0} where
  abbrev pub has : Ptr → Cells D → Bool
  has a [] = false
  has a ((p, _) ∷ xs) = (a == p) || has a xs

  abbrev pub bodies : Cells D → List D
  bodies [] = []
  bodies ((_, d) ∷ xs) = d ∷ bodies xs

  -- `p` is not NULL and holds a node.
  pub record At (h : Store D) (p : Ptr) (n : Node D) : Type 0 where
    pub ne_null : p ≢ null
    pub holds : h.cell p ≡ some n

  -- From `p`, whose `prev` is `pre`, the `next` pointers lead through the distinct nodes `xs` to
  -- NULL, and each node's `prev` is the node before it.
  pub data Chain (h : Store D) : Ptr → Ptr → Cells D → Type 0 where
    nil : {pre p : Ptr} → p ≡ null → Chain h pre p []
    cons :
        {pre p q : Ptr} {d : D} {xs : Cells D}
        → At h p (node d pre q)
        → has p xs ≡ false
        → Chain h p q xs
        → Chain h pre p ((p, d) ∷ xs)

  -- The list `xs` hangs at `head`, and no other node is allocated. Nothing is asked of the `prev`
  -- of the first node: the code leaves it pointing to a freed node when it removes the head.
  pub record IsList (h : Store D) (head : Ptr) (xs : Cells D) : Type 0 where
    pub pre : Ptr
    pub chain : Chain h pre head xs
    pub count : h.live ≡ length xs
    pub only : (a : Ptr) → has a xs ≡ false → h.cell a ≡ none

  -- `g` holds what `h` holds, but perhaps at the addresses of `xs`.
  abbrev pub SameAt : Cells D → Store D → Store D → Type 0
  SameAt xs h g = (a : Ptr) → has a xs ≡ true → g.cell a ≡ h.cell a

  module _ {h : Store D} where
    pub load-At : {p : Ptr} {n : Node D} → At h p n → load p h ≡ ok n h
    unfolding load
    load-At {p} e = let ne : (p == null) ≡ false = ground (arith, e.ne_null) in rw (ne, e.holds)

    pub At-ne : {p : Ptr} {n : Node D} → At h p n → (p == null) ≡ false
    At-ne e = ground (arith, e.ne_null)

    pub frame :
        {g : Store D} {pre p : Ptr} {xs : Cells D}
        → Chain h pre p xs
        → SameAt xs h g
        → Chain g pre p xs
    frame (nil e) same = nil e
    frame (cons {p} e out c) same =
        cons (record { ne_null = e.ne_null; holds = ground (arith, same p, e.holds) }) out
          (frame c (λ a i. same a (ground arith)))

    -- A node of the chain is allocated.
    pub has-At :
        {pre p : Ptr} {xs : Cells D} (a : Ptr)
        → Chain h pre p xs
        → has a xs ≡ true
        → (n : Node D) × At h a n
    has-At a (nil e) i = cc
    has-At a (cons {pre} {p} {q} {d} e out c) i = elim (Bool-cases (a == p)) [
      | inl hit ↦ (
        node d pre q,
        record { ne_null = ground (arith, e.ne_null); holds = ground (arith, e.holds) },
      )
      | inr miss ↦ has-At a c (ground arith)
    ]

    -- The first address is NULL or in the list.
    pub first-has : {pre p : Ptr} {xs : Cells D} → Chain h pre p xs → p ≢ null → has p xs ≡ true
    first-has (nil e) ne = absurd (ne e)
    first-has (cons e out c) ne = ground arith
