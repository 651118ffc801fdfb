-- ===== src/DList/Removal.antt =====
-- The removal function on a well-formed list: it succeeds at the first node and at every node but
-- the last, and is undefined at the last node of two or more.
use tcp_udp_client_server.Base.{
  ◌≡◌, ◌≢◌, inl, inr, refl, true, false, none, some, [], ◌∷◌, ◌++◌, ◌⊎◌, arith, ◌==◌, Bool-cases,
  ==_ne, ==_refl, Bool, if◌then◌else◌, Option, ◌&&◌, sym, subst, ◌∙◌, ap,
}
use tcp_udp_client_server.DList.{
  Ptr, null, Node, node, Store, write, Kind, set_prev, load, is_head, remove,
}
use tcp_udp_client_server.DList.Access.{set_prev-ok, set_next-ok, destroyed, node_destroy-ok}
use tcp_udp_client_server.DList.Neighbours.{before, after, next-ne-first}
use tcp_udp_client_server.DList.Shape.{
  Cells, has, At, load-At, At-ne, Chain, nil, cons, IsList, frame,
}
use tcp_udp_client_server.DList.Unlink.{erase, length-erase, has_of_erase, Relinked, relink}
use tcp_udp_client_server.Outcome.{ok, fault, Ends, ends}

and-false : (a b : Bool) → (a && b && false) ≡ false
and-false a b = ground arith

module _ {D : Type 0} where
  -- Is `p` the last node?
  unfoldable pub is_last : Ptr → Cells D → Bool
  is_last p [] = false
  is_last p ((a, _) ∷ []) = a == p
  is_last p (_ ∷ y ∷ ys) = is_last p (y ∷ ys)

  -- The payload of the node at `p`.
  unfoldable pub payload : Ptr → Cells D → Option D
  payload p [] = none
  payload p ((a, d) ∷ xs) = if a == p then some d else payload p xs

  pub payload-At :
      {h : Store D} {pre s : Ptr} {xs : Cells D} {d : D} (p : Ptr)
      → Chain h pre s xs
      → payload p xs ≡ some d
      → (r : Ptr) × (q : Ptr) × At h p (node d r q) × (has p xs ≡ true)
  unfolding payload
  payload-At p (nil e) f = cc
  payload-At {d} p (cons {pre} {p = s} {q} {xs} e out c) f = elim (Bool-cases (s == p)) [
    | inl hit ↦ (
      pre,
      q,
      record { ne_null = ground (arith, e.ne_null); holds = ground (arith, e.holds) },
      ground arith,
    )
    | inr miss ↦
        let rest : payload p xs ≡ some d = ground arith in
        let (r, q', at, i) = payload-At p c rest in (r, q', at, ground arith)
  ]

  pub payload-eq :
      {h : Store D} {pre s : Ptr} {xs : Cells D} {n : Node D} (p : Ptr)
      → Chain h pre s xs
      → has p xs ≡ true
      → At h p n
      → payload p xs ≡ some n.body
  unfolding payload
  payload-eq p (nil e) i at = cc
  payload-eq p (cons {p = s} e out c) i at = elim (Bool-cases (s == p)) [
    | inl hit ↦ rw hit (ground (arith, e.holds, at.holds))
    | inr miss ↦ rw miss (payload-eq p c (ground arith) at)
  ]

  payload-is_last :
      (p : Ptr) (xs : Cells D) → is_last p xs ≡ true → (d : D) × (payload p xs ≡ some d)
  unfolding payload is_last
  payload-is_last p [] l = cc
  payload-is_last p ((a, d) ∷ []) l = (d, rw l)
  payload-is_last p ((a, d) ∷ y ∷ ys) l =
      let (c, f) = payload-is_last p (y ∷ ys) l in
      elim (Bool-cases (a == p)) [ inl hit ↦ (d, rw hit) | inr miss ↦ (c, rw miss f) ]

  is_last-next :
      {h : Store D} {p r q : Ptr} {d : D} {pre s : Ptr} {xs : Cells D}
      → Chain h pre s xs
      → has p xs ≡ true
      → At h p (node d r q)
      → is_last p xs ≡ (q == null)
  unfolding is_last
  is_last-next (nil e) i at = cc
  is_last-next (cons e out (nil z)) i at = ground (arith, e.holds, at.holds)
  is_last-next {p} {q} (cons {p = s} e out (cons {p = t} {d = dt} {xs} e' out' rest)) i at =
      elim (Bool-cases (p == s)) [
        | inl hit ↦
            let here : p ≡ s = ground arith in
            let qt : q ≡ t = ground (arith, e.holds, at.holds) in
            is_last-other p ((t, dt) ∷ xs)
              (subst (λ a. has a ((t, dt) ∷ xs) ≡ false) (sym here) out)
            ∙ sym (rw qt (At-ne e'))
        | inr miss ↦ is_last-next (cons e' out' rest) (ground arith) at
      ]
    where
      is_last-other : (a : Ptr) (ys : Cells D) → has a ys ≡ false → is_last a ys ≡ false
      is_last-other a [] o = refl
      is_last-other a ((b, _) ∷ []) o = ground arith
      is_last-other a ((b, _) ∷ (c, d') ∷ ys) o = is_last-other a ((c, d') ∷ ys) (ground arith)

  pub At-head :
      {h : Store D} {pre s : Ptr} {xs : Cells D} (a : Ptr)
      → Chain h pre s xs
      → has a xs ≡ true
      → s ≢ null
  At-head a (nil e) i = cc
  At-head a (cons e out c) i = e.ne_null

module _ {D : Type 0} (kind : Kind D) where
  open kind use {same, same_refl, closes}

  -- For a node of a well-formed chain from `head`: is_head(), which compares fields and links, returns whether the
  -- node's address is `head`, also where another node has the same fields, and changes nothing.
  pub is_head-eq :
      {h : Store D} {head p : Ptr} {pre : Ptr} {xs : Cells D} {n : Node D}
      → Chain h pre head xs
      → has p xs ≡ true
      → At h p n
      → is_head kind head p h ≡ ok (head == p) h
  unfolding is_head
  is_head-eq (nil e) i at = cc
  is_head-eq {h} {p} {n} (cons {pre} {p = s} {q} {d} e out c) i at = elim (Bool-cases (s == p)) [
    | inl hit ↦
        let whole : n ≡ node d pre q = ground (arith, e.holds, at.holds) in
        rw (load-At e, load-At at, whole, same_refl d, ==_refl pre, ==_refl q, hit)
    | inr miss ↦
        let apart : (q == n.next) ≡ false = ==_ne q n.next (next-ne-first c (ground arith) at) in
        rw (load-At e, load-At at, apart, miss) (ap (λ b. ok b h) (and-false (same d n.body) _))
  ]

  abbrev pub Removed : Store D → Cells D → Ptr → D → Ptr → Store D → Type 0
  Removed h xs p d head g = IsList g head (erase p xs) × (g.closed ≡ closes d ++ h.closed)

  -- The first node.
  pub remove_first :
      {h : Store D} {pre head q : Ptr} {d : D} {xs : Cells D}
      → At h head (node d pre q)
      → has head xs ≡ false
      → Chain h head q xs
      → IsList h head ((head, d) ∷ xs)
      → Ends (Removed h ((head, d) ∷ xs) head d) (remove kind head head h)
  unfolding remove erase write
  remove_first {h} {head} e out c is =
      rw
        (
          At-ne e,
          is_head-eq (cons e out c) (ground arith) e,
          ==_refl head,
          load-At e,
          node_destroy-ok kind e,
        )
        (ends (
          rw (==_refl head) (record {
            pre = head;
            chain = frame c λ a i. ground arith;
            count = omega (arith, is.count);
            only = λ a o. ground (arith, is.only a);
          }),
          refl,
        ))

  -- A node between two others.
  remove_between :
      {h : Store D} {pre head p r q : Ptr} {d : D} {xs : Cells D}
      → Chain h pre head xs
      → IsList h head xs
      → has p xs ≡ true
      → At h p (node d r q)
      → head ≢ p
      → q ≢ null
      → Ends (Removed h xs p d) (remove kind head p h)
  unfolding remove write
  remove_between {h} {head} {p} {r} {q} {d} {xs} c is i at ne nz =
      let b = before c i at ne in
      let a = after c i at nz in
      let h1 = write h q (some (node a.body r a.next)) in
      let p1 : At h1 p (node d r q) = record {
        ne_null = at.ne_null;
        holds = ground (arith, at.holds, a.ne_p);
      } in
      let r1 : At h1 r (node b.body b.pre p) = record {
        ne_null = b.is.ne_null;
        holds = ground (arith, b.is.holds, b.ne_q);
      } in
      let h2 = write h1 r (some (node b.body b.pre q)) in
      let p2 : At h2 p (node d r q) = record {
        ne_null = at.ne_null;
        holds = ground (arith, at.holds, a.ne_p, b.ne_p);
      } in
      let re : Relinked h (destroyed kind h2 p d) p r q = record {
        left = λ d' a' e. ground (arith, b.is.holds, b.ne_p, b.ne_q);
        right = λ d' a' e. ground (arith, a.is.holds, a.ne_p, b.ne_q);
        other = λ a' o o' o''. ground arith;
      } in
      rw
        (
          ==_ne head null (At-head p c i),
          At-ne at,
          is_head-eq c i at,
          ==_ne head p ne,
          load-At at,
          set_prev-ok a.is r,
          load-At p1,
          set_next-ok r1 q,
          node_destroy-ok kind p2,
        )
        (ends (
          record {
            pre = is.pre;
            chain = relink re at nz is.chain i ne;
            count = omega (arith, is.count, length-erase p xs i);
            only = λ a' o. elim (Bool-cases (a' == p)) [
              | inl hit ↦ ground arith
              | inr miss ↦
                  let out : has a' xs ≡ false = has_of_erase a' p xs o (ground arith) in
                  ground (arith, is.only a', b.inside, a.inside)
            ];
          },
          refl,
        ))

  -- The last node of several: the code follows its NULL `next`.
  remove_last :
      {h : Store D} {pre head p r : Ptr} {d : D} {xs : Cells D}
      → Chain h pre head xs
      → has p xs ≡ true
      → At h p (node d r null)
      → head ≢ p
      → head ≢ null
      → remove kind head p h ≡ fault
  unfolding remove set_prev load
  remove_last {h} {head} {p} c i at ne nz =
      rw (==_ne head null nz, At-ne at, is_head-eq c i at, ==_ne head p ne, at.holds, At-ne at)

  remove-Chain :
      {h : Store D} {pre head : Ptr} {xs : Cells D} {d : D} (p : Ptr)
      → Chain h pre head xs
      → IsList h head xs
      → payload p xs ≡ some d
      → (head ≡ p) ⊎ (is_last p xs ≡ false)
      → Ends (Removed h xs p d) (remove kind head p h)
  unfolding payload
  remove-Chain p (nil e) is f first = cc
  remove-Chain {d} p (cons {p = s} {d = c} e out rest) is f first = elim (Bool-cases (s == p)) [
    | inl hit ↦
        let here : s ≡ p = ground arith in
        let same_body : c ≡ d = ground arith in
        rw (← here, ← same_body) (remove_first e out rest is)
    | inr miss ↦
        let (r, next, at, i) = payload-At p (cons e out rest) f in
        let ne : s ≢ p = ground arith in
        let more : next ≢ null = ground (arith, is_last-next (cons e out rest) i at) in
        remove_between (cons e out rest) is i at ne more
  ]

  -- The removal of the first node, or of any node but the last: the list loses exactly that node,
  -- the node is freed and its descriptors are closed.
  pub remove-erase :
      {h : Store D} {head : Ptr} {xs : Cells D} {d : D} (p : Ptr)
      → IsList h head xs
      → payload p xs ≡ some d
      → (head ≡ p) ⊎ (is_last p xs ≡ false)
      → Ends (Removed h xs p d) (remove kind head p h)
  remove-erase p is = remove-Chain p is.chain is

  -- The removal of the last node of several is undefined.
  pub remove-is_last :
      {h : Store D} {head : Ptr} {xs : Cells D} (p : Ptr)
      → IsList h head xs
      → is_last p xs ≡ true
      → head ≢ p
      → remove kind head p h ≡ fault
  remove-is_last {h} {head} {xs} p is last ne =
      let (d, f) = payload-is_last p xs last in
      let (r, q, at, i) = payload-At p is.chain f in
      let z : q ≡ null = ground (arith, is_last-next is.chain i at) in
      remove_last is.chain i (subst (λ t. At h p (node d r t)) z at) ne (At-head p is.chain i)

  -- NULL and the empty list are refused with a message, and nothing changes.
  pub remove-null : (h : Store D) (head : Ptr) → remove kind head null h ≡ ok head h
  unfolding remove
  remove-null h head = ground arith
