-- ===== src/DList/Unlink.antt =====
-- Removing a node: where the code succeeds, what is left, and where it is undefined.
use tcp_udp_client_server.Base.{
  ◌+◌, ◌≡◌, ◌≢◌, inl, inr, refl, true, false, some, [], ◌∷◌, arith, ◌==◌, Bool-cases, ==_ne, ==_iff,
  length, if◌then◌else◌, ◌∙◌,
}
use tcp_udp_client_server.DList.{Ptr, null, node, Store}
use tcp_udp_client_server.DList.Neighbours.{before, after}
use tcp_udp_client_server.DList.Shape.{Cells, has, At, Chain, nil, cons, frame}

module _ {D : Type 0} where
  unfoldable pub erase : Ptr → Cells D → Cells D
  erase p [] = []
  erase p ((a, d) ∷ xs) = if a == p then xs else (a, d) ∷ erase p xs

  pub length-erase :
      (p : Ptr) (xs : Cells D) → has p xs ≡ true → length (erase p xs) + 1 ≡ length xs
  unfolding erase
  length-erase p [] i = cc
  length-erase p ((a, d) ∷ xs) i = ground (arith, length-erase p xs)

  pub has-erase : (a p : Ptr) (xs : Cells D) → has a xs ≡ false → has a (erase p xs) ≡ false
  unfolding erase
  has-erase a p [] o = refl
  has-erase a p ((b, d) ∷ xs) o = ground (arith, has-erase a p xs)

  -- An address that is missing after the removal was missing before, or is the removed one.
  pub has_of_erase :
      (a p : Ptr) (xs : Cells D) → has a (erase p xs) ≡ false → a ≢ p → has a xs ≡ false
  unfolding erase
  has_of_erase a p [] o ne = refl
  has_of_erase a p ((b, d) ∷ xs) o ne = ground (arith, has_of_erase a p xs)

  -- `g` is `h` with the node `p` between `r` and `q` unlinked and gone.
  pub record Relinked (h g : Store D) (p r q : Ptr) : Type 0 where
    pub left : (d : D) (a : Ptr) → h.cell r ≡ some (node d a p) → g.cell r ≡ some (node d a q)
    pub right : (d : D) (a : Ptr) → h.cell q ≡ some (node d p a) → g.cell q ≡ some (node d r a)
    pub other : (a : Ptr) → a ≢ p → a ≢ r → a ≢ q → g.cell a ≡ h.cell a

  has_tail :
      (xs : Cells D) (d : D) (s p : Ptr) → s ≢ p → has p ((s, d) ∷ xs) ≡ true → has p xs ≡ true
  has_tail xs d s p ne i = ground arith

  module _ {h g : Store D} where
    -- The node before the removed one is first.
    relink_here :
        {p r q : Ptr} {d ds dt du : D} {pre s t u v : Ptr} {xs : Cells D}
        → Relinked h g p r q
        → At h p (node d r q)
        → At h s (node ds pre t)
        → has s ((t, dt) ∷ (u, du) ∷ xs) ≡ false
        → At h t (node dt s u)
        → has t ((u, du) ∷ xs) ≡ false
        → At h u (node du t v)
        → has u xs ≡ false
        → Chain h u v xs
        → t ≡ p
        → Chain g pre s ((s, ds) ∷ (u, du) ∷ xs)
    relink_here {ds} {du} {pre} {s} {u} {v} re at e out e' out' e'' out'' rest hit =
        cons
          (record {
            ne_null = e.ne_null;
            holds = ground (arith, e.holds, e'.holds, at.holds, re.left ds pre);
          })
          (ground arith)
          (cons
            (record {
              ne_null = e''.ne_null;
              holds = ground (arith, e''.holds, e'.holds, at.holds, re.right du v);
            })
            out'' (frame rest λ a i. ground (arith, e'.holds, at.holds, re.other a)))

    pub relink :
        {p r q : Ptr} {d : D} {pre s : Ptr} {xs : Cells D}
        → Relinked h g p r q
        → At h p (node d r q)
        → q ≢ null
        → Chain h pre s xs
        → has p xs ≡ true
        → s ≢ p
        → Chain g pre s (erase p xs)
    unfolding erase
    relink re at nz (nil e) i ne = cc
    relink re at nz (cons e out (nil z)) i ne = absurd (ne (ground arith))
    relink re at nz (cons e out (cons e' out' (nil z))) i ne =
        absurd (nz (ground (arith, e'.holds, at.holds)))
    relink {p} {r} {q} re at nz
          (cons {p = s} {d = ds} e out
            (cons {p = t} {d = dt} e' out' (cons {p = u} {d = du} {xs} e'' out'' rest)))
          i ne =
        let behind : Cells D = (t, dt) ∷ (u, du) ∷ xs in
        let tail = cons e' out' (cons e'' out'' rest) in
        elim (Bool-cases (t == p)) [
          | inl hit ↦
              rw (==_ne s p ne, hit)
                (relink_here re at e out e' out' e'' out'' rest ((==_iff t p).0 hit))
          | inr miss ↦
              let apart : t ≢ p = ground arith in
              let inside = has_tail behind ds s p ne i in
              let b = before tail inside at apart in
              let a = after tail inside at nz in
              rw (==_ne s p ne) (
                cons
                  (record {
                    ne_null = e.ne_null;
                    holds =
                        re.other s ne (ground (arith, b.inside)) (ground (arith, a.inside))
                        ∙ e.holds;
                  })
                  (has-erase s p behind out)
                  (relink re at nz (cons e' out' (cons e'' out'' rest)) inside apart))
        ]
