-- ===== src/DList/Neighbours.antt =====
-- The two neighbours of a node in a well-formed list, and what tells the first node apart.
use tcp_udp_client_server.Base.{◌≡◌, ◌≢◌, inl, inr, true, arith, ◌==◌, Bool-cases}
use tcp_udp_client_server.DList.{Ptr, null, node, Store}
use tcp_udp_client_server.DList.Shape.{Cells, has, At, Chain, nil, cons}

module _ {D : Type 0} where
  -- The neighbours of `p` behind the first node: the node before it.
  pub record Before (h : Store D) (xs : Cells D) (p r q : Ptr) : Type 0 where
    pub body : D
    pub pre : Ptr
    pub is : At h r (node body pre p)
    pub inside : has r xs ≡ true
    pub ne_p : r ≢ p
    pub ne_q : r ≢ q

  -- The node after it.
  pub record After (h : Store D) (xs : Cells D) (p q : Ptr) : Type 0 where
    pub body : D
    pub next : Ptr
    pub is : At h q (node body p next)
    pub inside : has q xs ≡ true
    pub ne_p : q ≢ p

  module _ {h : Store D} where
    pub after :
        {pre s : Ptr} {xs : Cells D} {p r q : Ptr} {d : D}
        → Chain h pre s xs
        → has p xs ≡ true
        → At h p (node d r q)
        → q ≢ null
        → After h xs p q
    after (nil e) i at ne = cc
    after (cons {p = s} {d} e out (nil z)) i at ne = absurd (ne (ground (arith, e.holds, at.holds)))
    after {p} {q} (cons {p = s} e out (cons {p = t} {q = u} {d = c} e' out' rest)) i at ne =
        elim (Bool-cases (p == s)) [
          | inl hit ↦ record {
            body = c;
            next = u;
            is = record { ne_null = ne; holds = ground (arith, e.holds, at.holds, e'.holds) };
            inside = ground (arith, e.holds, at.holds);
            ne_p = ground (arith, e.holds, at.holds);
          }
          | inr miss ↦
              let a = after (cons e' out' rest) (ground arith) at ne in
              record {
                body = a.body;
                next = a.next;
                is = a.is;
                inside = ground (arith, a.inside);
                ne_p = a.ne_p;
              }
        ]

    -- No node's successor is the first node.
    pub next-ne-first :
        {pre s : Ptr} {xs : Cells D} {p r q : Ptr} {d : D}
        → Chain h pre s xs
        → has p xs ≡ true
        → At h p (node d r q)
        → s ≢ q
    next-ne-first (nil e) i at = cc
    next-ne-first {p} {q} (cons {p = s} e out c) i at = elim (Bool-cases (q == null)) [
      | inl z ↦ ground (arith, e.ne_null)
      | inr nz ↦ elim (Bool-cases (p == s)) [
        | inl hit ↦ ground (arith, (after (cons e out c) i at (ground arith)).ne_p)
        | inr miss ↦ ground (arith, (after c (ground arith) at (ground arith)).inside)
      ]
    ]

    pub before :
        {pre s : Ptr} {xs : Cells D} {p r q : Ptr} {d : D}
        → Chain h pre s xs
        → has p xs ≡ true
        → At h p (node d r q)
        → s ≢ p
        → Before h xs p r q
    before (nil e) i at ne = cc
    before (cons {p = s} e out (nil z)) i at ne = absurd (ne (ground arith))
    before {p} {r} {q} (cons {pre} {p = s} {d} e out (cons {p = t} e' out' rest)) i at ne =
        elim (Bool-cases (p == t)) [
          | inl hit ↦ record {
            body = d;
            pre = pre;
            is = record {
              ne_null = ground (arith, at.holds, e'.holds, e.ne_null);
              holds = ground (arith, at.holds, e'.holds, e.holds);
            };
            inside = ground (arith, at.holds, e'.holds);
            ne_p = ground (arith, at.holds, e'.holds);
            ne_q =
                ground
                  (arith, at.holds, e'.holds, next-ne-first (cons e out (cons e' out' rest)) i at);
          }
          | inr miss ↦
              let b = before (cons e' out' rest) (ground arith) at (ground arith) in
              record {
                body = b.body;
                pre = b.pre;
                is = b.is;
                inside = ground (arith, b.inside);
                ne_p = b.ne_p;
                ne_q = b.ne_q;
              }
        ]
