-- ===== src/DList/Update.antt =====
-- Writing a node's payload in place.
use tcp_udp_client_server.Base.{
  ◌≡◌, inl, inr, refl, some, [], ◌∷◌, arith, ◌==◌, Bool-cases, length, if◌then◌else◌,
}
use tcp_udp_client_server.DList.{Ptr, node, Store, write, set_body}
use tcp_udp_client_server.DList.Access.{set_body-ok}
use tcp_udp_client_server.DList.Removal.{payload, payload-At}
use tcp_udp_client_server.DList.Shape.{Cells, has, At, Chain, nil, cons, IsList, frame}
use tcp_udp_client_server.Outcome.{Ends, ends}

module _ {D : Type 0} where
  unfoldable pub replace : Ptr → D → Cells D → Cells D
  replace p d [] = []
  replace p d ((a, c) ∷ xs) = if a == p then (a, d) ∷ xs else (a, c) ∷ replace p d xs

  has-replace : (a p : Ptr) (d : D) (xs : Cells D) → has a (replace p d xs) ≡ has a xs
  unfolding replace
  has-replace a p d [] = refl
  has-replace a p d ((b, c) ∷ xs) = ground (arith, has-replace a p d xs)

  length-replace : (p : Ptr) (d : D) (xs : Cells D) → length (replace p d xs) ≡ length xs
  unfolding replace
  length-replace p d [] = refl
  length-replace p d ((b, c) ∷ xs) = ground (arith, length-replace p d xs)

  replace-Chain :
      {h : Store D} {pre s p a b : Ptr} {c : D} {xs : Cells D} (d : D)
      → At h p (node c a b)
      → Chain h pre s xs
      → Chain (write h p (some (node d a b))) pre s (replace p d xs)
  unfolding replace write
  replace-Chain d at (nil e) = nil e
  replace-Chain {p} d at (cons {p = s} {d = c} {xs} e out rest) = elim (Bool-cases (s == p)) [
    | inl hit ↦ rw hit (
        cons (record { ne_null = e.ne_null; holds = ground (arith, e.holds, at.holds) }) out
          (frame rest λ a i. ground arith))
    | inr miss ↦ rw miss (
        cons (record { ne_null = e.ne_null; holds = ground (arith, e.holds) })
          (rw (has-replace s p d xs) out) (replace-Chain d at rest))
  ]

  pub set_body-IsList :
      {h : Store D} {head : Ptr} {xs : Cells D} {c : D} (p : Ptr) (d : D)
      → IsList h head xs
      → payload p xs ≡ some c
      → Ends (λ _ g. IsList g head (replace p d xs) × (g.closed ≡ h.closed)) (set_body p d h)
  unfolding write
  set_body-IsList {xs} p d is f =
      let (r, q, at, i) = payload-At p is.chain f in
      rw (set_body-ok at d) (
        ends (
          record {
            pre = is.pre;
            chain = replace-Chain d at is.chain;
            count = ground (arith, is.count, length-replace p d xs);
            only = λ a o. ground (arith, is.only a, has-replace a p d xs);
          },
          refl,
        ))
