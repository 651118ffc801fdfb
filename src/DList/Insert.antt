-- ===== src/DList/Insert.antt =====
-- A node that is created and added stands in front of the list.
use tcp_udp_client_server.Base.{◌+◌, ◌≡◌, ◌≢◌, refl, true, false, none, some, ◌∷◌, arith, ◌==◌}
use tcp_udp_client_server.DList.{Ptr, null, node, Store, write, node_create, add}
use tcp_udp_client_server.DList.Access.{set_prev-ok, set_next-ok}
use tcp_udp_client_server.DList.Shape.{Cells, has, At, At-ne, Chain, nil, cons, frame, IsList}
use tcp_udp_client_server.Outcome.{Cmd, fault, Ends, ends, ◌>>=◌}

module _ {D : Type 0} where
  -- What every caller does: create the node, then add it.
  abbrev pub insert : (fresh : Ptr) → D → Ptr → Cmd (Store D) Ptr
  insert fresh d head = do p ← node_create fresh d; add head p

  -- malloc() handed out an address that is in use by nothing.
  pub record IsFresh (h : Store D) (p : Ptr) : Type 0 where
    pub ne_null : p ≢ null
    pub unused : h.cell p ≡ none

  abbrev pub Inserted : Store D → Ptr → D → Cells D → Ptr → Store D → Type 0
  Inserted h fresh d xs head g =
      (head ≡ fresh) × IsList g head ((fresh, d) ∷ xs) × (g.closed ≡ h.closed)

  -- The store after the constructor.
  abbrev created : Store D → Ptr → D → Store D
  created h fresh d = record (write h fresh (some (node d null null))) { live = h.live + 1 }

  has_of_unused :
      {h : Store D} {pre head : Ptr} {xs : Cells D} (a : Ptr)
      → Chain h pre head xs
      → h.cell a ≡ none
      → has a xs ≡ false
  has_of_unused a (nil e) u = refl
  has_of_unused a (cons e out c) u = ground (arith, e.holds, has_of_unused a c u)

  insert-Chain :
      {h : Store D} {pre head fresh : Ptr} {d : D} {xs : Cells D}
      → IsFresh h fresh
      → Chain h pre head xs
      → IsList h head xs
      → Ends (Inserted h fresh d xs) (insert fresh d head h)
  unfolding node_create add write
  insert-Chain {h} {head} {fresh} {d} new (nil e) is =
      let ne : (fresh == null) ≡ false = ground (arith, new.ne_null) in
      let z : (head == null) ≡ true = ground arith in
      rw (ne, z)
        (ends (
          refl,
          record {
            pre = null;
            chain = cons (record { ne_null = new.ne_null; holds = ground arith }) refl (nil refl);
            count = omega (arith, is.count);
            only = λ a o. ground (arith, is.only a);
          },
          refl,
        ))
  insert-Chain {h} {fresh} {d} {xs} new (cons {pre} {p} {q} {d = c} e out rest) is =
      let ne : (fresh == null) ≡ false = ground (arith, new.ne_null) in
      let apart : has fresh xs ≡ false = has_of_unused fresh (cons e out rest) new.unused in
      let made : At (created h fresh d) fresh (node d null null) = record {
        ne_null = new.ne_null;
        holds = ground arith;
      } in
      let there : At (write (created h fresh d) fresh (some (node d null p))) p (node c pre q) =
        record { ne_null = e.ne_null; holds = ground (arith, e.holds) } in
      rw (ne, At-ne e, set_next-ok made p, set_prev-ok there fresh)
        (ends (
          refl,
          record {
            pre = null;
            chain =
                cons (record { ne_null = new.ne_null; holds = ground arith }) apart
                  (cons (record { ne_null = e.ne_null; holds = ground arith }) out
                    (frame rest λ a i. ground arith));
            count = omega (arith, is.count);
            only = λ a o. ground (arith, is.only a);
          },
          refl,
        ))

  -- With a fresh address from malloc(), the new node stands in front and the list stays well formed.
  pub insert-IsList :
      {h : Store D} {head fresh : Ptr} {xs : Cells D} (d : D)
      → IsFresh h fresh
      → IsList h head xs
      → Ends (Inserted h fresh d xs) (insert fresh d head h)
  insert-IsList d new is = insert-Chain new is.chain is

  -- malloc() failed: the constructor writes through NULL.
  pub insert-null : (h : Store D) (head : Ptr) (d : D) → insert null d head h ≡ fault
  unfolding node_create
  insert-null h head d = refl
