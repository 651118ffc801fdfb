-- ===== src/DList/Search.antt =====
-- The search loops find the first node that passes the test, and change nothing.
use tcp_udp_client_server.Base.{
  ◌+◌, ◌<◌, ◌≡◌, ◌≢◌, inl, inr, refl, true, none, some, [], ◌∷◌, arith, ◌==◌, Bool-cases, ℕ, zero,
  suc, Bool, length, if◌then◌else◌, Option,
}
use tcp_udp_client_server.DList.{Ptr, null, Node, node, Store, find_loop, find}
use tcp_udp_client_server.DList.Shape.{Cells, has, At, load-At, At-ne, Chain, nil, cons, IsList}
use tcp_udp_client_server.Outcome.{ok}

module _ {D : Type 0} where
  -- The address of the first cell that passes, or NULL.
  unfoldable pub find_first : (D → Bool) → Cells D → Ptr
  find_first test [] = null
  find_first test ((p, d) ∷ xs) = if test d then p else find_first test xs

  -- Its payload.
  unfoldable pub first_body : (D → Bool) → Cells D → Option D
  first_body test [] = none
  first_body test ((p, d) ∷ xs) = if test d then some d else first_body test xs

  find_loop-Chain :
      (test : D → Bool) (k : ℕ) {h : Store D} {pre p : Ptr} {xs : Cells D}
      → Chain h pre p xs
      → length xs < k
      → find_loop test k p h ≡ ok (find_first test xs) h
  unfolding find_loop find_first
  find_loop-Chain test zero c m = absurd (omega arith)
  find_loop-Chain test (suc k) (nil {p} e) m = let z : (p == null) ≡ true = ground arith in rw z
  find_loop-Chain test (suc k) (cons {d} e out c) m =
      rw (At-ne e, load-At e)
        (elim (Bool-cases (test d)) [
          | inl hit ↦ rw hit
          | inr miss ↦ rw miss (find_loop-Chain test k c (omega arith))
        ])

  find-Chain :
      (test : D → Bool) {h : Store D} {pre p : Ptr} {xs : Cells D}
      → Chain h pre p xs
      → h.live ≡ length xs
      → find test p h ≡ ok (find_first test xs) h
  unfolding find find_first
  find-Chain test (nil {p} e) m = let z : (p == null) ≡ true = ground arith in rw z
  find-Chain test {h} (cons e out c) m =
      rw (At-ne e) (find_loop-Chain test (h.live + 1) (cons e out c) (omega arith))

  -- On a well-formed list the search ends, at the first match.
  pub find-ok :
      (test : D → Bool) {h : Store D} {head : Ptr} {xs : Cells D}
      → IsList h head xs
      → find test head h ≡ ok (find_first test xs) h
  find-ok test is = find-Chain test is.chain is.count

  -- A match is in the list, passes the test and is the first to.
  pub find_first-At :
      (test : D → Bool) {h : Store D} {pre p : Ptr} {xs : Cells D} (a : Ptr)
      → Chain h pre p xs
      → find_first test xs ≡ a
      → a ≢ null
      → (n : Node D) × At h a n
        × (test n.body ≡ true)
        × (has a xs ≡ true)
        × (first_body test xs ≡ some n.body)
  unfolding find_first first_body
  find_first-At test a (nil e) f ne = absurd (ne (ground arith))
  find_first-At test a (cons {pre} {p} {q} {d} e out c) f ne = elim (Bool-cases (test d)) [
    | inl hit ↦
        let same : p ≡ a = ground arith in
        (
          node d pre q,
          record { ne_null = ne; holds = ground (arith, e.holds) },
          hit,
          ground arith,
          rw hit,
        )
    | inr miss ↦
        let (n, e', t, i, b) = find_first-At test a c (ground arith) ne in
        (n, e', t, ground arith, rw miss b)
  ]

  pub find_first-none :
      (test : D → Bool) {h : Store D} {pre p : Ptr} {xs : Cells D}
      → Chain h pre p xs
      → find_first test xs ≡ null
      → first_body test xs ≡ none
  unfolding find_first first_body
  find_first-none test (nil e) f = refl
  find_first-none test (cons e out c) f = ground (arith, e.ne_null, find_first-none test c)
