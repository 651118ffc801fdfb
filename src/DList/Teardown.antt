-- ===== src/DList/Teardown.antt =====
-- The destructor of a list frees every node and closes every descriptor, and does no more.
use tcp_udp_client_server.Base.{
  ◌+◌, ◌<◌, ◌≡◌, refl, none, [], ◌∷◌, ◌++◌, arith, ◌==◌, ==_refl, ℕ, zero, suc, length, List, true,
}
use tcp_udp_client_server.DList.{Ptr, null, Store, Kind, destroy_loop, destroy_all}
use tcp_udp_client_server.DList.Removal.{remove_first}
use tcp_udp_client_server.DList.Shape.{Cells, At-ne, Chain, nil, cons, IsList}
use tcp_udp_client_server.DList.Unlink.{erase}
use tcp_udp_client_server.Outcome.{Ends, ends, Ends-bind, Ends-mono}

erase_first : {D : Type 0} (p : Ptr) (d : D) (xs : Cells D) → erase p ((p, d) ∷ xs) ≡ xs
unfolding erase
erase_first p d xs = rw (==_refl p)

module _ {D : Type 0} (kind : Kind D) where
  open kind use {closes}

  -- The descriptors closed after a run over the cells, on top of `done`.
  unfoldable pub closes_all : Cells D → List ℕ → List ℕ
  closes_all [] done = done
  closes_all ((_, d) ∷ xs) done = closes_all xs (closes d ++ done)

  pub record IsGone (h : Store D) (xs : Cells D) (g : Store D) : Type 0 where
    pub cells : (a : Ptr) → g.cell a ≡ none
    pub live : g.live ≡ 0
    pub closed : g.closed ≡ closes_all xs h.closed

  destroy_loop-Chain :
      (k : ℕ) {h : Store D} {pre head : Ptr} {xs : Cells D}
      → Chain h pre head xs
      → IsList h head xs
      → length xs < k
      → Ends (λ _. IsGone h xs) (destroy_loop kind k head h)
  unfolding destroy_loop closes_all
  destroy_loop-Chain zero c is m = absurd (omega arith)
  destroy_loop-Chain (suc k) (nil {p} e) is m =
      let z : (p == null) ≡ true = ground arith in
      rw z (ends (record { cells = λ a. is.only a refl; live = is.count; closed = refl }))
  destroy_loop-Chain (suc k) (cons {p} {d} {xs} e out c) is m = rw (At-ne e) (
      Ends-bind (remove_first kind e out c is) λ head' g (is', shut).
        let less : IsList g head' xs = rw (erase_first p d xs) at is' in
        Ends-mono (destroy_loop-Chain k less.chain less (omega arith)) λ _ f gone. record {
          cells = gone.cells;
          live = gone.live;
          closed = rw (← shut) gone.closed;
        })

  -- Of a well-formed list: the destructor returns, no node is left allocated, and the descriptors of all the
  -- nodes are closed, each once.
  pub destroy_all-IsGone :
      {h : Store D} {head : Ptr} {xs : Cells D}
      → IsList h head xs
      → Ends (λ _. IsGone h xs) (destroy_all kind head h)
  unfolding destroy_all
  destroy_all-IsGone {h} is = destroy_loop-Chain (h.live + 1) is.chain is (omega (arith, is.count))
