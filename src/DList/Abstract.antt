-- ===== src/DList/Abstract.antt =====
-- A well-formed list seen as the plain list of its payloads: what a removal and an update do to it.
use tcp_udp_client_server.Base.{
  ◌≡◌, ◌∙◌, inl, inr, refl, ap, sym, Bool, true, false, Option, none, some, List, [], ◌∷◌, arith,
  ◌==◌, if◌then◌else◌, Bool-cases, ==_refl,
}
use tcp_udp_client_server.DList.{Ptr, Store}
use tcp_udp_client_server.DList.Removal.{is_last}
use tcp_udp_client_server.DList.Search.{find_first, first_body, find_first-At}
use tcp_udp_client_server.DList.Shape.{Cells, has, bodies, Chain, nil, cons}
use tcp_udp_client_server.DList.Unlink.{erase}
use tcp_udp_client_server.DList.Update.{replace}
use tcp_udp_client_server.DList.View.{find_first-payload, other_place}

is_last-absent : {D : Type 0} (a : Ptr) (xs : Cells D) → has a xs ≡ false → is_last a xs ≡ false
unfolding is_last
is_last-absent a [] o = refl
is_last-absent a ((b, _) ∷ []) o = ground arith
is_last-absent a ((b, _) ∷ (c, d) ∷ xs) o = is_last-absent a ((c, d) ∷ xs) (ground arith)

erase_step :
    {D : Type 0} (a p : Ptr) (d : D) (xs : Cells D)
    → (p == a) ≡ false
    → bodies (erase a ((p, d) ∷ xs)) ≡ d ∷ bodies (erase a xs)
unfolding erase
erase_step a p d xs e = rw e

replace_step :
    {D : Type 0} (a p : Ptr) (d c : D) (xs : Cells D)
    → (p == a) ≡ false
    → bodies (replace a c ((p, d) ∷ xs)) ≡ d ∷ bodies (replace a c xs)
unfolding replace
replace_step a p d c xs e = rw e

module _ {D : Type 0} (test : D → Bool) where
  -- The first element that passes the test: removed, changed, there at all, at the front, at the end.
  unfoldable pub erase_first : List D → List D
  erase_first [] = []
  erase_first (d ∷ l) = if test d then l else d ∷ erase_first l

  unfoldable pub update_first : (D → D) → List D → List D
  update_first f [] = []
  update_first f (d ∷ l) = if test d then f d ∷ l else d ∷ update_first f l

  unfoldable pub any : List D → Bool
  any [] = false
  any (d ∷ l) = if test d then true else any l

  unfoldable pub first : List D → Option D
  first [] = none
  first (d ∷ l) = if test d then some d else first l

  unfoldable pub in_front : List D → Bool
  in_front [] = false
  in_front (d ∷ l) = test d

  unfoldable pub at_end : List D → Bool
  at_end [] = false
  at_end (d ∷ []) = test d
  at_end (d ∷ e ∷ l) = if test d then false else at_end (e ∷ l)

  first_hit : (p : Ptr) (d : D) (xs : Cells D) → test d ≡ true → find_first test ((p, d) ∷ xs) ≡ p
  unfolding find_first
  first_hit p d xs t = rw t

  first_miss :
      (p : Ptr) (d : D) (xs : Cells D)
      → test d ≡ false
      → find_first test ((p, d) ∷ xs) ≡ find_first test xs
  unfolding find_first
  first_miss p d xs t = rw t

  -- The search does not stop at the address of a node that it passed over.
  passed :
      {h : Store D} {pre s : Ptr} {xs : Cells D} (p : Ptr) (c : D)
      → Chain h pre s xs
      → has p xs ≡ false
      → first_body test xs ≡ some c
      → (p == find_first test xs) ≡ false
  passed {xs} p c rest out f =
      let ne = (find_first-payload test rest f).0 in
      let (n, at, t, i, b) = find_first-At test (find_first test xs) rest refl ne in
      other_place p (find_first test xs) xs out i

  pub bodies-erase :
      {h : Store D} {pre s : Ptr} {xs : Cells D} {c : D}
      → Chain h pre s xs
      → first_body test xs ≡ some c
      → bodies (erase (find_first test xs) xs) ≡ erase_first (bodies xs)
  unfolding first_body erase erase_first
  bodies-erase (nil e) f = refl
  bodies-erase {c} (cons {p} {d} {xs} e out rest) f = elim (Bool-cases (test d)) [
    | inl hit ↦ rw (first_hit p d xs hit, hit, ==_refl p) refl
    | inr miss ↦
        ap (λ a. bodies (erase a ((p, d) ∷ xs))) (first_miss p d xs miss)
        ∙ erase_step (find_first test xs) p d xs (passed p c rest out (ground arith))
        ∙ ap (λ l. d ∷ l) (bodies-erase {c = c} rest (ground arith))
        ∙ sym (rw miss)
  ]

  pub bodies-replace :
      {h : Store D} {pre s : Ptr} {xs : Cells D} {c : D} (f : D → D)
      → Chain h pre s xs
      → first_body test xs ≡ some c
      → bodies (replace (find_first test xs) (f c) xs) ≡ update_first f (bodies xs)
  unfolding first_body replace update_first
  bodies-replace f (nil e) b = cc
  bodies-replace {c} f (cons {p} {d} {xs} e out rest) b = elim (Bool-cases (test d)) [
    | inl hit ↦
        let same : d ≡ c = ground arith in
        rw (first_hit p d xs hit, hit, ==_refl p) (ap (λ x. f x ∷ bodies xs) (sym same))
    | inr miss ↦
        ap (λ a. bodies (replace a (f c) ((p, d) ∷ xs))) (first_miss p d xs miss)
        ∙ replace_step (find_first test xs) p d (f c) xs (passed p c rest out (ground arith))
        ∙ ap (λ l. d ∷ l) (bodies-replace {c = c} f rest (ground arith))
        ∙ sym (rw miss)
  ]

  pub find_first-at_end :
      {h : Store D} {pre s : Ptr} {xs : Cells D} {c : D}
      → Chain h pre s xs
      → first_body test xs ≡ some c
      → is_last (find_first test xs) xs ≡ at_end (bodies xs)
  unfolding first_body is_last at_end
  find_first-at_end (nil e) b = cc
  find_first-at_end (cons {p} {d} e out (nil z)) b = elim (Bool-cases (test d)) [
    | inl hit ↦ rw (first_hit p d [] hit, hit, ==_refl p) refl
    | inr miss ↦ absurd (ground arith)
  ]
  find_first-at_end {c} (cons {p} {d} e out (cons {p = q} {d = d'} {xs} e' out' rest)) b =
      elim (Bool-cases (test d)) [
        | inl hit ↦
            ap (λ a. is_last a ((q, d') ∷ xs)) (first_hit p d ((q, d') ∷ xs) hit)
            ∙ is_last-absent p ((q, d') ∷ xs) out
            ∙ sym (rw hit)
        | inr miss ↦
            ap (λ a. is_last a ((q, d') ∷ xs)) (first_miss p d ((q, d') ∷ xs) miss)
            ∙ find_first-at_end {c = c} (cons e' out' rest) (ground arith)
            ∙ sym (rw miss)
      ]

  pub find_first-in_front :
      {h : Store D} {pre s : Ptr} {xs : Cells D} {c : D}
      → Chain h pre s xs
      → first_body test xs ≡ some c
      → (s == find_first test xs) ≡ in_front (bodies xs)
  unfolding first_body in_front
  find_first-in_front (nil e) b = cc
  find_first-in_front {c} (cons {p} {d} {xs} e out rest) b = elim (Bool-cases (test d)) [
    | inl hit ↦ rw (first_hit p d xs hit, hit, ==_refl p) refl
    | inr miss ↦ rw (first_miss p d xs miss, miss) (passed p c rest out (ground arith))
  ]

  -- Without a match nothing is to be done.
  pub erase_first-none :
      (xs : Cells D) → first_body test xs ≡ none → erase_first (bodies xs) ≡ bodies xs
  unfolding first_body erase_first
  erase_first-none [] f = refl
  erase_first-none ((p, d) ∷ xs) f = ground (arith, erase_first-none xs)

  pub update_first-none :
      (g : D → D) (xs : Cells D)
      → first_body test xs ≡ none
      → update_first g (bodies xs) ≡ bodies xs
  unfolding first_body update_first
  update_first-none g [] f = refl
  update_first-none g ((p, d) ∷ xs) f = ground (arith, update_first-none g xs)

  pub at_end-none : (xs : Cells D) → first_body test xs ≡ none → at_end (bodies xs) ≡ false
  unfolding first_body at_end
  at_end-none [] f = refl
  at_end-none ((p, d) ∷ []) f = ground arith
  at_end-none ((p, d) ∷ (q, e) ∷ xs) f = ground (arith, at_end-none ((q, e) ∷ xs))

  pub any-none : (xs : Cells D) → first_body test xs ≡ none → any (bodies xs) ≡ false
  unfolding first_body any
  any-none [] f = refl
  any-none ((p, d) ∷ xs) f = ground (arith, any-none xs)

  pub any-some : (xs : Cells D) {c : D} → first_body test xs ≡ some c → any (bodies xs) ≡ true
  unfolding first_body any
  any-some [] f = cc
  any-some ((p, d) ∷ xs) {c} f = ground (arith, any-some xs {c = c})

  pub first-bodies : (xs : Cells D) → first (bodies xs) ≡ first_body test xs
  unfolding first_body first
  first-bodies [] = refl
  first-bodies ((p, d) ∷ xs) = ground (arith, first-bodies xs)
