-- ===== src/DList/View.antt =====
-- What the searches see after a removal or an update.
use tcp_udp_client_server.Base.{
  ◌≡◌, ◌≢◌, inl, inr, refl, Bool, true, false, none, some, [], ◌∷◌, arith, ◌==◌, Bool-cases,
  ==_refl,
}
use tcp_udp_client_server.DList.{Ptr, null, Store}
use tcp_udp_client_server.DList.Removal.{payload, payload-eq}
use tcp_udp_client_server.DList.Search.{find_first, first_body, find_first-At, find_first-none}
use tcp_udp_client_server.DList.Shape.{Cells, has, Chain, nil, cons}
use tcp_udp_client_server.DList.Unlink.{erase}
use tcp_udp_client_server.DList.Update.{replace}

pub other_place :
    {D : Type 0} (a b : Ptr) (xs : Cells D) → has a xs ≡ false → has b xs ≡ true → (a == b) ≡ false
other_place a b [] o i = cc
other_place a b ((p, _) ∷ xs) o i = ground (arith, other_place a b xs)

module _ {D : Type 0} (test : D → Bool) where
  -- What the search finds is in the list, with the payload that is first to pass.
  pub find_first-payload :
      {h : Store D} {pre s : Ptr} {xs : Cells D} {d : D}
      → Chain h pre s xs
      → first_body test xs ≡ some d
      → (find_first test xs ≢ null) × (payload (find_first test xs) xs ≡ some d) × (test d ≡ true)
  find_first-payload {xs} c f = elim (Bool-cases (find_first test xs == null)) [
    | inl z ↦ absurd (ground (arith, find_first-none test c))
    | inr nz ↦
        let ne : find_first test xs ≢ null = ground arith in
        let (n, at, t, i, b) = find_first-At test (find_first test xs) c refl ne in
        (ne, ground (arith, payload-eq (find_first test xs) c i at), ground arith)
  ]

  -- Without a match the search gives NULL.
  pub find_first-null : (xs : Cells D) → first_body test xs ≡ none → find_first test xs ≡ null
  unfolding first_body find_first
  find_first-null [] f = refl
  find_first-null ((p, d) ∷ xs) f = ground (arith, find_first-null xs)

  -- Removing a node that fails the test changes no answer.
  pub first_body-erase :
      (p : Ptr) (xs : Cells D) {d : D}
      → payload p xs ≡ some d
      → test d ≡ false
      → first_body test (erase p xs) ≡ first_body test xs
  unfolding first_body erase payload
  first_body-erase p [] f t = refl
  first_body-erase p ((a, c) ∷ xs) {d} f t = ground (arith, first_body-erase p xs {d = d})

  -- Nor does a new payload, where the old and the new both fail it.
  pub first_body-replace :
      (p : Ptr) (e : D) (xs : Cells D) {d : D}
      → payload p xs ≡ some d
      → test d ≡ false
      → test e ≡ false
      → first_body test (replace p e xs) ≡ first_body test xs
  unfolding first_body replace payload
  first_body-replace p e [] f t u = refl
  first_body-replace p e ((a, c) ∷ xs) {d} f t u = ground (arith, first_body-replace p e xs {d = d})

  -- At the first match, a new payload that passes is the new answer.
  pub first_body-replace_self :
      {h : Store D} {pre s : Ptr} {xs : Cells D} {d : D} (e : D)
      → Chain h pre s xs
      → first_body test xs ≡ some d
      → test e ≡ true
      → first_body test (replace (find_first test xs) e xs) ≡ some e
  unfolding first_body find_first replace
  first_body-replace_self e (nil z) f t = cc
  first_body-replace_self {d} e (cons {p = s} {d = c} {xs} at out rest) f t =
      elim (Bool-cases (test c)) [
        | inl hit ↦ rw (hit, ==_refl s) (rw t)
        | inr miss ↦
            let later : first_body test xs ≡ some d = ground arith in
            let ne = (find_first-payload rest later).0 in
            let (n, at', t', i, b) = find_first-At test (find_first test xs) rest refl ne in
            let apart : (s == find_first test xs) ≡ false =
              other_place s (find_first test xs) xs out i in
            ground (arith, first_body-replace_self e rest later t)
      ]
